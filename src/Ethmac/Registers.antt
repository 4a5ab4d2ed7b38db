-- ===== src/Ethmac/Registers.antt =====
-- history/embedded-sw/lib/ethmac/ethmac.c: the registers of the Ethernet MAC, and its set-up.
-- `a` is the address of the core, which the code finds as `ethmac_private[OETH_ID].regs`; an offset is
-- the place of the field in `oeth_regs`. A `short` is kept as its 16 bits.
use bpm_gw.Base.{
  ℕ, zero, suc, ◌+◌, ◌-◌, ◌*◌, ◌%◌, ◌^◌, Option, some, List, [], ◌∷◌, bit_and, bit_or, ltb,
  if◌then◌else◌, ◌>>=◌, none, ◌++◌, get_elem?, true, ℤ,
}
use bpm_gw.Bus.{Bus, wait, ok, failed}
use bpm_gw.Sdb.{DevNode, DevList}
use bpm_gw.Init.{each_node}
use bpm_gw.Ethmac.{Ethmac, setup_buffers, all_tx_bd_clear, bd_num}

-- The addresses in an `oeth_private`, which are those of the fields that `Ethmac` keeps by value.
pub record Addresses : Type 0 where
  pub regs : ℕ
  pub tx_bd_base : ℕ
  pub rx_bd_base : ℕ
  pub buf : ℕ

-- `n` rounds of the loop that goes to the last device of memory
unfoldable pub walk_nodes : List DevNode → ℕ → Option ℕ → Option (Option ℕ)
walk_nodes nodes zero p = some p
walk_nodes nodes (suc n) p = p >>= λ i. get_elem? nodes i >>= λ d. walk_nodes nodes n d.next

abbrev pub addresses : ℕ → ℕ → Addresses
addresses base buf_base = record {
  regs = base;
  tx_bd_base = base + 0x400;
  rx_bd_base = base + 0x400 + 8 * bd_num;
  buf = buf_base;
}

-- The last node of the list of memories, whose base is read for each device.
unfoldable pub buffer_node : DevList → Option DevNode
unfolding walk_nodes
buffer_node mem = walk_nodes mem.nodes ((mem.size + 2 ^ 32 - 1) % 2 ^ 32) mem.first >>= λ p.
    p >>= get_elem? mem.nodes

-- `ethmac_init`: the entries of the array that it fills. `none` is an access through a null pointer.
unfoldable pub ethmac_init : DevList → DevList → Option (ℤ × List Addresses)
unfolding each_node buffer_node
ethmac_init mac mem = elim mac.first [
  | none ↦ some (failed, [])
  | some p ↦ elim mem.first [
    | none ↦ some (failed, [])
    | some q ↦ buffer_node mem >>= λ b.
        each_node (λ base l. (true, l ++ (addresses base b.base ∷ []))) mac.nodes mac.size (some p)
          []
        >>= λ r. some (ok, r.1)
  ]
]

abbrev pub moder : ℕ
moder = 0x0

abbrev pub miimoder : ℕ
miimoder = 0x28

abbrev pub miicommand : ℕ
miicommand = 0x2c

abbrev pub miiaddress : ℕ
miiaddress = 0x30

abbrev pub miitx_data : ℕ
miitx_data = 0x34

abbrev pub miirx_data : ℕ
miirx_data = 0x38

abbrev pub miistatus : ℕ
miistatus = 0x3c

-- a `short`, as it is converted to an `unsigned int`
abbrev pub short_word : ℕ → ℕ
short_word v = if ltb v 0x8000 then v else v + 0xffff0000

module _ {S : Type 0} (bus : Bus S) (a : ℕ) where
  abbrev pub write_reg : ℕ → ℕ → S → S
  write_reg offset v s = bus.write s (a + offset) v

  -- consecutive assignments to registers
  unfoldable pub write_regs : List (ℕ × ℕ) → S → S
  write_regs [] s = s
  write_regs ((offset, v) ∷ rest) s = write_regs rest (write_reg offset v s)

  -- `reg |= mask` and `reg &= ~mask`
  unfoldable pub set_reg : ℕ → ℕ → S → S
  set_reg offset mask s =
      let (v, s1) = bus.read s (a + offset) in write_reg offset (bit_or v mask) s1

  unfoldable pub clear_reg : ℕ → ℕ → S → S
  clear_reg offset mask s =
      let (v, s1) = bus.read s (a + offset) in write_reg offset (bit_and v (2 ^ 32 - 1 - mask)) s1

  abbrev pub oeth_enable_rx : S → S
  oeth_enable_rx = set_reg moder 0x1

  abbrev pub oeth_disable_rx : S → S
  oeth_disable_rx = clear_reg moder 0x1

  abbrev pub ethmac_halt : S → S
  ethmac_halt = clear_reg moder (bit_or 0x1 0x2)

  -- the address of a register of the PHY
  abbrev pub mii_address : ℕ → ℕ → ℕ
  mii_address phynum regnum = bit_or (regnum * 2 ^ 8) phynum

  module _ (fuel : ℕ) where
    unfoldable pub eth_mii_write : ℕ → ℕ → ℕ → S → Option S
    unfolding write_regs
    eth_mii_write phynum regnum v s =
        let writes =
          (miiaddress, mii_address phynum regnum)
          ∷ (miitx_data, short_word v)
          ∷ (miicommand, 4)
          ∷ (miicommand, 0)
          ∷ [] in
        wait bus fuel (a + miistatus) 0x2 (write_regs writes s)

    unfoldable pub eth_mii_read : ℕ → ℕ → S → Option (ℕ × S)
    unfolding write_regs
    eth_mii_read phynum regnum s =
        let writes =
          (miiaddress, mii_address phynum regnum) ∷ (miicommand, 2) ∷ (miicommand, 0) ∷ [] in
        wait bus fuel (a + miistatus) 0x2 (write_regs writes s) >>= λ s1.
        let (v, s2) = bus.read s1 (a + miirx_data) in some (v % 2 ^ 16, s2)

    -- `cr = eth_mii_read(from, regnum); …; eth_mii_write(phynum, regnum, cr);`
    unfoldable pub change_mii : ℕ → ℕ → ℕ → (ℕ → ℕ) → S → Option S
    unfolding eth_mii_read eth_mii_write
    change_mii from phynum regnum f s =
        eth_mii_read from regnum s >>= λ r. eth_mii_write phynum regnum (f r.0) r.1

    -- `ethmac_setup` before the buffers
    unfoldable pub setup_registers : S → S
    unfolding write_regs set_reg clear_reg
    setup_registers s =
        let s1 = write_reg miimoder 0x64 (clear_reg miimoder 0x200 (write_reg miimoder 0x200 s)) in
        let s2 = clear_reg moder 0x800 (write_reg moder 0x800 s1) in
        let s3 =
          write_regs
            ((0x20, 8)
              ∷ (0x18, bit_or (0x40 * 2 ^ 16) 0x600)
              ∷ (0x0c, 0x12)
              ∷ (0x10, 0x0c)
              ∷ (0x14, 0x12)
              ∷ (0x1c, 0x000f003f)
              ∷ (0x24, 0)
              ∷ (miitx_data, 0)
              ∷ (miiaddress, 0)
              ∷ (miicommand, 0)
              ∷ (0x44, 0x000a)
              ∷ (0x40, 0x3502532d)
              ∷ (0x4, 0xffffffff)
              ∷ [])
            s2 in
        write_reg 0x8 0x7f (set_reg moder 0xa440 s3)

    -- `ethmac_setup` behind the buffers: what the PHY is to advertise
    unfoldable pub setup_phy : ℕ → S → Option S
    unfolding change_mii set_reg
    setup_phy phynum s = change_mii phynum phynum 0x04 (λ cr. bit_or cr 0x1e0) s >>= λ s1.
        change_mii phynum phynum 0x09 (λ cr. bit_and cr (2 ^ 16 - 1 - 0x300)) s1 >>= λ s2.
        change_mii phynum phynum 0x06 (λ cr. bit_and cr (2 ^ 16 - 1 - 0x3000)) s2 >>= λ s3.
        change_mii 0 phynum 0x00 (λ cr. bit_or cr (bit_or 0x200 0x1000)) s3 >>= λ s4.
        some (set_reg moder (bit_or 0x1 0x2) s4)

    unfoldable pub ethmac_setup : ℕ → S × Ethmac → Option (S × Ethmac)
    unfolding setup_registers setup_phy
    ethmac_setup phynum (s, rings) =
        setup_phy phynum (setup_registers s) >>= λ s1. some (s1, setup_buffers rings)

    -- `while (!all_tx_bd_clear());`, where `others` is what happens between the polls
    unfoldable pub wait_all_clear : (ℕ → Ethmac → Ethmac) → ℕ → ℕ → Ethmac → Option Ethmac
    unfolding all_tx_bd_clear
    wait_all_clear others zero n rings = none
    wait_all_clear others (suc polls) n rings =
        let rest = wait_all_clear others polls (suc n) (others n rings) in
        if all_tx_bd_clear rings then some rings else rest

    unfoldable pub ethphy_set_10mbit : (ℕ → Ethmac → Ethmac) → ℕ → S × Ethmac → Option (S × Ethmac)
    unfolding wait_all_clear change_mii
    ethphy_set_10mbit others phynum (s, rings) = wait_all_clear others fuel 0 rings >>= λ rings'.
        change_mii phynum phynum 0x00
          (λ cr. bit_and (bit_and cr (2 ^ 16 - 1 - 0x1000)) (2 ^ 16 - 1 - 0x2000)) s
        >>= λ s1. some (s1, rings')

    unfoldable pub ethphy_set_100mbit : (ℕ → Ethmac → Ethmac) → ℕ → S × Ethmac → Option (S × Ethmac)
    unfolding wait_all_clear change_mii
    ethphy_set_100mbit others phynum (s, rings) = wait_all_clear others fuel 0 rings >>= λ rings'.
        change_mii phynum phynum 0x00 (λ cr. bit_or (bit_or cr 0x1000) 0x2000) s >>= λ s1.
        some (s1, rings')
