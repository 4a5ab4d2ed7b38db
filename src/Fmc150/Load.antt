-- ===== src/Fmc150/Load.antt =====
-- history/embedded-sw/fmc/fmc150/fmc150.c: what `init_cdce72010` makes of the clock chip.
mod Tests
use bpm_gw.Base.{
  ℤ, ℕ, zero, suc, ◌+◌, ◌-◌, ◌*◌, ◌%◌, ◌^◌, ◌≡◌, ◌≤◌, ◌<◌, refl, sym, ap, ◌∙◌, Bool, true, false,
  not, List, [], ◌∷◌, bit_and, bit_or, bit_xor, ◌==◌, if◌then◌else◌, arith, inl, inr, Bool-cases,
  ==_self,
}
use bpm_gw.Base.Bits.{bit_and_assoc, or_and, le-bit_or, bit_and-zero, bit_and_mask}
use bpm_gw.Bus.{Bus, ok, idle, Settles}
use bpm_gw.Fmc150.{
  flgs_in, addr_in, data_in, chip_select, data_out, flgs_out, read_fmc150_register,
  write_fmc150_register, spi_busy_loop, init_loop, init_cdce72010, cdce72010_regs,
}
use bpm_gw.Fmc150.Chip.{Wires, accessed, Chip, store_reg}

write_flag : (x : ℕ) → bit_and (bit_and x (2 ^ 32 - 2)) 1 ≡ 0
write_flag x = ground (arith, bit_and_assoc x (2 ^ 32 - 2) 1, bit_and-zero x)

read_flag : (x : ℕ) → (bit_and (bit_or x 1) 1 == 0) ≡ false
read_flag x = ground (arith, or_and x 1 1, le-bit_or (bit_and x 1) 1)

-- The registers with a table written from the register `i` on.
abbrev pub load : List ℕ → ℕ → (ℕ → ℕ) → ℕ → ℕ
load [] i f = f
load (v ∷ vs) i f = load vs (suc i) (store_reg i v f)

-- The access of a read.
read_access :
    (w : Wires) (v addr : ℕ)
    → (bit_and v 1 == 0) ≡ false
    → accessed (record w { flags = v; addr = addr })
      ≡ record w { flags = v; addr = addr; selected = bit_xor w.selected 1; found = w.regs addr }
read_access w v addr h = rw h refl

-- The access of a write.
write_access :
    (w : Wires) (x addr word : ℕ)
    → (accessed (record w { flags = bit_and x (2 ^ 32 - 2); addr = addr; written = word })).regs
      ≡ store_reg addr word w.regs
write_access w x addr word =
    let e : (bit_and (bit_and x (2 ^ 32 - 2)) 1 == 0) ≡ true = ground (arith, write_flag x) in
    rw e refl

module _ {S : Type 0} (bus : Bus S) (a : ℕ) (chip : Chip bus a) where
  spi_busy_loop-ready :
      (n : ℕ) (s : S)
      → Settles bus n (a + flgs_out) 1 s
      → (s' : S) × (spi_busy_loop bus a n s ≡ (true, s'))
        × (chip.wires s' ≡ chip.wires s)
        × (idle bus (a + flgs_out) 1 s' ≡ true)
  unfolding spi_busy_loop
  spi_busy_loop-ready zero s h = absurd h
  spi_busy_loop-ready (suc n) s (inl calm) =
      ((bus.read s (a + flgs_out)).1, rw calm refl, chip.keeps s (a + flgs_out), chip.stays s calm)
  spi_busy_loop-ready (suc n) s (inr h) = elim (Bool-cases (idle bus (a + flgs_out) 1 s)) [
    | inl calm ↦ (
      (bus.read s (a + flgs_out)).1,
      rw calm refl,
      chip.keeps s (a + flgs_out),
      chip.stays s calm,
    )
    | inr busy ↦
        let (s', e, same, calm) = spi_busy_loop-ready n (bus.read s (a + flgs_out)).1 h in
        (s', rw busy e, same ∙ chip.keeps s (a + flgs_out), calm)
  ]

  -- A step that sets the flags, and one that changes the chip select.
  flags_step :
      (s : S) (w : Wires) (v : ℕ)
      → chip.wires s ≡ w
      → chip.wires (bus.write (bus.read s (a + flgs_in)).1 (a + flgs_in) v) ≡ record w { flags = v }
  flags_step s w v e =
      chip.sets_flags (bus.read s (a + flgs_in)).1 v
      ∙ ap (λ (x : Wires). record x { flags = v }) (chip.keeps s (a + flgs_in) ∙ e)

  access_step :
      (s : S) (w : Wires)
      → chip.wires s ≡ w
      → chip.wires (
          bus.write
            (bus.read s (a + chip_select)).1
            (a + chip_select)
            (bit_xor (bus.read s (a + chip_select)).0 1))
        ≡ accessed w
  access_step s w e =
      let s1 = (bus.read s (a + chip_select)).1 in
      let same = chip.keeps s (a + chip_select) in
      ap (λ (v : ℕ). chip.wires (bus.write s1 (a + chip_select) (bit_xor v 1)))
        (chip.shows_selected s ∙ ap (λ (x : Wires). x.selected) (sym same))
      ∙ chip.accesses s1
      ∙ ap accessed (same ∙ e)

  flags_read :
      (s : S) → (bus.read (bus.read s (a + flgs_out)).1 (a + flgs_in)).0 ≡ (chip.wires s).flags
  flags_read s =
      chip.shows_flags (bus.read s (a + flgs_out)).1
      ∙ ap (λ (x : Wires). x.flags) (chip.keeps s (a + flgs_out))

  -- The wires as a write of a word to a register of the chip sets them before the access.
  abbrev for_write : ℕ → ℕ → Wires → Wires
  for_write addr word w = record w {
    flags = bit_and w.flags (2 ^ 32 - 2);
    addr = addr;
    written = word;
  }

  write_fmc150_register-wires :
      (addr word : ℕ) (s : S)
      → idle bus (a + flgs_out) 1 s ≡ true
      → chip.wires (write_fmc150_register bus a 1 addr word s).1
        ≡ accessed (for_write addr word (chip.wires s))
  unfolding write_fmc150_register
  write_fmc150_register-wires addr word s calm =
      let w = chip.wires s in
      let s1 = (bus.read s (a + flgs_out)).1 in
      let v = bit_and (bus.read s1 (a + flgs_in)).0 (2 ^ 32 - 2) in
      let s3 = bus.write (bus.read s1 (a + flgs_in)).1 (a + flgs_in) v in
      let s4 = bus.write s3 (a + addr_in) addr in
      let s5 = bus.write s4 (a + data_in) word in
      let e3 = flags_step s1 w v (chip.keeps s (a + flgs_out)) in
      let e4 = chip.sets_addr s3 addr ∙ ap (λ (x : Wires). record x { addr = addr }) e3 in
      let e5 = chip.sets_written s4 word ∙ ap (λ (x : Wires). record x { written = word }) e4 in
      rw calm (
        access_step s5 (record w { flags = v; addr = addr; written = word }) e5
        ∙ ap
            (λ (f : ℕ).
              accessed (record w { flags = bit_and f (2 ^ 32 - 2); addr = addr; written = word }))
            (flags_read s))

  -- A read reports what the register holds, and changes no register of the chip.
  read_fmc150_register-regs :
      (addr word : ℕ) (s : S)
      → idle bus (a + flgs_out) 1 s ≡ true
      → ((read_fmc150_register bus a 1 addr word s).1 ≡ (chip.wires s).regs addr)
        × ((chip.wires (read_fmc150_register bus a 1 addr word s).2).regs ≡ (chip.wires s).regs)
  unfolding read_fmc150_register
  read_fmc150_register-regs addr word s calm =
      let w = chip.wires s in
      let s1 = (bus.read s (a + flgs_out)).1 in
      let v = bit_or (bus.read s1 (a + flgs_in)).0 1 in
      let s3 = bus.write (bus.read s1 (a + flgs_in)).1 (a + flgs_in) v in
      let s4 = bus.write s3 (a + addr_in) addr in
      let e3 = flags_step s1 w v (chip.keeps s (a + flgs_out)) in
      let e4 = chip.sets_addr s3 addr ∙ ap (λ (x : Wires). record x { addr = addr }) e3 in
      let s6 =
        bus.write (bus.read s4 (a + chip_select)).1 (a + chip_select)
          (bit_xor (bus.read s4 (a + chip_select)).0 1) in
      let e6 = access_step s4 (record w { flags = v; addr = addr }) e4 in
      let direction = read_flag (bus.read s1 (a + flgs_in)).0 in
      let e7 = e6 ∙ read_access w v addr direction in
      rw calm (
        chip.shows_found s6 ∙ ap (λ (x : Wires). x.found) e7,
        ap (λ (x : Wires). x.regs) (chip.keeps s6 (a + data_out) ∙ e7),
      )

  -- One round: both waits end, the register is written, and the word is read back.
  round :
      (v i reg : ℕ) (s : S)
      → (s1 : S) × (s3 : S) × (spi_busy_loop bus a 10 s ≡ (true, s1))
        × (spi_busy_loop bus a 10 (write_fmc150_register bus a 1 i v s1).1 ≡ (true, s3))
        × ((read_fmc150_register bus a 1 i reg s3).1 ≡ v)
        × ((chip.wires (read_fmc150_register bus a 1 i reg s3).2).regs
            ≡ store_reg i v (chip.wires s).regs)
  round v i reg s =
      let (s1, e1, same1, calm1) = spi_busy_loop-ready 10 s (chip.settles s) in
      let s2 = (write_fmc150_register bus a 1 i v s1).1 in
      let (s3, e3, same3, calm3) = spi_busy_loop-ready 10 s2 (chip.settles s2) in
      let stored : (chip.wires s3).regs ≡ store_reg i v (chip.wires s).regs =
        ap (λ (w : Wires). w.regs) (same3 ∙ write_fmc150_register-wires i v s1 calm1)
        ∙ write_access (chip.wires s1) (chip.wires s1).flags i v
        ∙ ap (λ (w : Wires). store_reg i v w.regs) same1 in
      let (found, regs) = read_fmc150_register-regs i reg s3 calm3 in
      let own : store_reg i v (chip.wires s).regs i ≡ v = ground (arith, ==_self i) in
      (s1, s3, e1, e3, found ∙ ap (λ (f : ℕ → ℕ). f i) stored ∙ own, regs ∙ stored)

  init_loop-load :
      (vs : List ℕ) (i reg : ℕ) (s : S)
      → (s' : S) × (init_loop bus a vs i reg s ≡ (ok, s'))
        × ((chip.wires s').regs ≡ load vs i (chip.wires s).regs)
  unfolding init_loop
  init_loop-load [] i reg s = (s, refl, refl)
  init_loop-load (v ∷ vs) i reg s =
      let (s1, s3, e1, e3, found, regs) = round v i reg s in
      let r = read_fmc150_register bus a 1 i reg s3 in
      let (s', e, k) = init_loop-load vs (suc i) r.1 r.2 in
      let equal : (v == r.1) ≡ true = ap (λ (x : ℕ). v == x) found ∙ ==_self v in
      (s', rw (e1, e3, equal) e, k ∙ ap (load vs (suc i)) regs)

  -- With a chip that keeps its promises, `init_cdce72010` returns 0, whatever its variable holds before,
  -- and the registers of the chip are then as the table says, from register 0 on; the others are as
  -- they were.
  pub init_cdce72010-load :
      (reg : ℕ) (s : S)
      → (s' : S) × (init_cdce72010 bus a reg s ≡ (ok, s'))
        × ((chip.wires s').regs ≡ load cdce72010_regs 0 (chip.wires s).regs)
  unfolding init_cdce72010
  init_cdce72010-load reg s = init_loop-load cdce72010_regs 0 reg s
