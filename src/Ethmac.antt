-- ===== src/Ethmac.antt =====
-- history/embedded-sw/lib/ethmac/ethmac.c: the rings of buffer descriptors of the Ethernet MAC.
-- The descriptors are the words of the core's own memory, told by their number; the buffers are in
-- the memory of the firmware, whose cells are bytes. What the core and the interrupt handler do while a
-- function polls is the argument `others`, which takes the number of the poll. `none` is a polling
-- loop that needs more fuel. `ethernetif_input`, which lwip's port defines, is the argument `input`.
pub mod Flags
pub mod Frames
pub mod Steps
pub mod Sending
pub mod Waiting
pub mod Registers
mod Tests
pub mod Receiving
use bpm_gw.Base.{
  ℕ, zero, suc, ◌+◌, ◌-◌, ◌*◌, ◌/◌, ◌%◌, ◌^◌, Bool, true, false, not, ◌&&◌, ◌||◌, Option, none,
  some, List, [], ◌∷◌, bit_and, bit_or, ◌==◌, ltb, leb, if◌then◌else◌, length, get_or, ℤ, pos,
  negsuc,
}

-- `oeth_bd`
pub record Descriptor : Type 0 where
  pub len_status : ℕ
  pub addr : ℕ

-- The fields of `oeth_private` that the functions use, with the descriptors and the memory.
pub record Ethmac : Type 0 where
  pub tx_next : ℕ
  pub rx_cur : ℕ
  pub buf : ℕ
  pub tx_bd : ℕ → Descriptor
  pub rx_bd : ℕ → Descriptor
  pub memory : ℕ → ℕ

-- `OETH_TXBD_NUM` and `OETH_RXBD_NUM`
abbrev pub bd_num : ℕ
bd_num = 8

abbrev pub buff_size : ℕ
buff_size = 0x800

abbrev pub tx_bd_ready : ℕ
tx_bd_ready = 0x8000

abbrev pub tx_bd_irq : ℕ
tx_bd_irq = 0x4000

abbrev pub bd_wrap : ℕ
bd_wrap = 0x2000

abbrev pub tx_bd_pad : ℕ
tx_bd_pad = 0x1000

abbrev pub tx_bd_crc : ℕ
tx_bd_crc = 0x800

abbrev pub tx_bd_stats : ℕ
tx_bd_stats = 0x1ff

abbrev pub rx_bd_empty : ℕ
rx_bd_empty = 0x8000

abbrev pub rx_bd_irq : ℕ
rx_bd_irq = 0x4000

abbrev pub rx_bd_stats : ℕ
rx_bd_stats = 0xff

-- `v & mask`, as a condition
abbrev pub test : ℕ → ℕ → Bool
test v mask = not (bit_and v mask == 0)

-- `v & ~mask`
abbrev pub clear : ℕ → ℕ → ℕ
clear v mask = bit_and v (2 ^ 32 - 1 - mask)

-- an assignment to one descriptor's word
abbrev pub set_status : (ℕ → Descriptor) → ℕ → ℕ → ℕ → Descriptor
set_status bd i v j = if j == i then record (bd j) { len_status = v } else bd j

-- the bytes of a frame from an address on
abbrev pub write_bytes : (ℕ → ℕ) → ℕ → List ℕ → ℕ → ℕ
write_bytes memory a d j = if leb a j && ltb j (a + length d) then get_or d (j - a) 0 else memory j

abbrev pub read_bytes : (ℕ → ℕ) → ℕ → ℕ → List ℕ
read_bytes memory a zero = []
read_bytes memory a (suc n) = memory a ∷ read_bytes memory (suc a) n

-- The loops of `ethmac_setup` over the descriptors from `i` on, with `mem_addr`.
unfoldable pub setup_loop : ℕ → ℕ → ℕ → ℕ → (ℕ → Descriptor) → ℕ → Descriptor
setup_loop zero status i mem_addr bd = bd
setup_loop (suc n) status i mem_addr bd =
    setup_loop n status (suc i) ((mem_addr + buff_size) % 2 ^ 32)
      (λ j. if j == i then record { len_status = status; addr = mem_addr } else bd j)

unfoldable pub setup_buffers : Ethmac → Ethmac
unfolding setup_loop
setup_buffers s =
    let tx = setup_loop bd_num (bit_or tx_bd_pad tx_bd_crc) 0 s.buf s.tx_bd in
    let mem_addr = (s.buf + bd_num * buff_size) % 2 ^ 32 in
    let rx = setup_loop bd_num (bit_or rx_bd_empty rx_bd_irq) 0 mem_addr s.rx_bd in
    record s {
      tx_bd = set_status tx (bd_num - 1) (bit_or (tx (bd_num - 1)).len_status bd_wrap);
      rx_bd = set_status rx (bd_num - 1) (bit_or (rx (bd_num - 1)).len_status bd_wrap);
    }

-- `tx_packet` behind its loop: the descriptor is free.
unfoldable pub sent_status : ℕ → ℕ → ℕ
sent_status n v =
    let v1 = clear v tx_bd_stats in
    let v2 = if leb n 60 then bit_or v1 tx_bd_pad else clear v1 tx_bd_pad in
    let v3 = bit_or (bit_and v2 0xffff) (bit_and n 0xffff * 2 ^ 16) in
    bit_or v3 (bit_or (bit_or tx_bd_ready tx_bd_crc) tx_bd_irq)

-- `cur` is `tx_cur`, and `tx_next` is read anew.
abbrev pub submit_at : ℕ → List ℕ → Ethmac → Ethmac
submit_at cur d s =
    let bd = s.tx_bd cur in
    record s {
      tx_next = bit_and (s.tx_next + 1) (bd_num - 1);
      tx_bd = set_status s.tx_bd cur (sent_status (length d) bd.len_status);
      memory = write_bytes s.memory bd.addr d;
    }

unfoldable pub submit : List ℕ → Ethmac → Ethmac
unfolding sent_status
submit d s = submit_at s.tx_next d s

-- whether `tx_packet` goes on waiting for a descriptor
abbrev pub in_use_at : ℕ → Ethmac → Bool
in_use_at cur s = test (s.tx_bd cur).len_status tx_bd_irq

abbrev pub in_use : Ethmac → Bool
in_use s = in_use_at s.tx_next s

-- `n` is the number of the poll. The descriptor is the one that was next before the first.
unfoldable pub tx_loop : (ℕ → Ethmac → Ethmac) → ℕ → ℕ → ℕ → List ℕ → Ethmac → Option Ethmac
tx_loop others cur zero n d s = none
tx_loop others cur (suc fuel) n d s =
    let rest = tx_loop others cur fuel (suc n) d (others n s) in
    if in_use_at cur s then rest else some (submit_at cur d s)

unfoldable pub tx_packet : (ℕ → Ethmac → Ethmac) → ℕ → ℕ → List ℕ → Ethmac → Option Ethmac
unfolding tx_loop
tx_packet others fuel n d s = tx_loop others s.tx_next fuel n d s

-- The body of the loop of `oeth_tx`: a frame that was sent, with its interrupt enabled.
abbrev pub reap : Descriptor → Descriptor
reap bd =
    if not (test bd.len_status tx_bd_ready) && test bd.len_status tx_bd_irq
    then record bd { len_status = clear bd.len_status tx_bd_irq }
    else bd

unfoldable pub reap_loop : ℕ → ℕ → (ℕ → Descriptor) → ℕ → Descriptor
reap_loop zero i bd = bd
reap_loop (suc n) i bd = reap_loop n (suc i) (λ j. if j == i then reap (bd j) else bd j)

unfoldable pub oeth_tx : Ethmac → Ethmac
unfolding reap_loop
oeth_tx s = record s { tx_bd = reap_loop bd_num 0 s.tx_bd }

-- `int_events` is what the read of `int_src` gives, which is written back.
unfoldable pub oeth_interrupt : (Ethmac → Ethmac) → ℕ → Ethmac → Ethmac
unfolding oeth_tx
oeth_interrupt input int_events s =
    let s1 = if test int_events 0xc then input s else s in
    let s2 = if test int_events 0x3 then oeth_tx s1 else s1 in
    if test int_events 0x10 && not (test int_events 0xc) then input s2 else s2

unfoldable pub count_ready : ℕ → ℕ → (ℕ → Descriptor) → ℕ
count_ready zero i bd = 0
count_ready (suc n) i bd =
    let rest = count_ready n (suc i) bd in
    if test (bd i).len_status tx_bd_ready then suc rest else rest

unfoldable pub num_tx_ready_bd : Ethmac → ℕ
unfolding count_ready
num_tx_ready_bd s = count_ready bd_num 0 s.tx_bd

unfoldable pub all_tx_bd_clear : Ethmac → Bool
unfolding num_tx_ready_bd
all_tx_bd_clear s = num_tx_ready_bd s == 0

-- the number that may still be ready, from the argument of `wait_for_tx_bd_clear`
abbrev pub still_ready : ℤ → ℕ
still_ready (negsuc n) = bd_num
still_ready (pos n) = if ltb bd_num n then 0 else bd_num - n

unfoldable pub wait_for_tx_bd_clear : (ℕ → Ethmac → Ethmac) → ℕ → ℕ → ℤ → Ethmac → Option Ethmac
unfolding num_tx_ready_bd
wait_for_tx_bd_clear others zero n num s = none
wait_for_tx_bd_clear others (suc fuel) n num s =
    let rest = wait_for_tx_bd_clear others fuel (suc n) num (others n s) in
    if ltb (still_ready num) (num_tx_ready_bd s) then rest else some s

-- a receive descriptor that is given back to the core
abbrev pub emptied : ℕ → ℕ
emptied v = bit_or (clear v rx_bd_stats) rx_bd_empty

unfoldable pub oeth_drop_rx_bd : Ethmac → Ethmac
oeth_drop_rx_bd s = record s {
  rx_bd = set_status s.rx_bd s.rx_cur (emptied (s.rx_bd s.rx_cur).len_status);
}

-- The bytes that `data` gets, and the state.
unfoldable pub rx_packet : ℕ → Ethmac → List ℕ × Ethmac
unfolding oeth_drop_rx_bd
rx_packet n s = (read_bytes s.memory s.buf n, oeth_drop_rx_bd s)

-- the six tests of the status for errors
abbrev pub rx_bad : ℕ → Bool
rx_bad v = test v 0xc || test v 0x10 || test v 0x2 || test v 0x40 || test v 0x80 || test v 0x1

-- The loop of `oeth_check_rx_bd` from the descriptor `i` on.
unfoldable pub check_loop : ℕ → ℕ → Ethmac → ℤ × Ethmac
check_loop zero i s = (negsuc 0, s)
check_loop (suc n) i s =
    let v = (s.rx_bd i).len_status in
    let next = check_loop n (suc i) s in
    let given_back : Ethmac = record s { rx_bd = set_status s.rx_bd i (emptied v) } in
    if test v rx_bd_empty
    then next
    else if rx_bad v
    then (negsuc 0, given_back)
    else (pos (v / 2 ^ 16), record s { rx_cur = i })

unfoldable pub oeth_check_rx_bd : Ethmac → ℤ × Ethmac
unfolding check_loop
oeth_check_rx_bd s = check_loop bd_num 0 s
