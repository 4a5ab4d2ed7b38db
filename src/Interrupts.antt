-- ===== src/Interrupts.antt =====
-- history/embedded-sw/lib/int.c: the table of interrupt handlers.
-- The control registers of the processor are a `Bus` whose addresses are their numbers. `call` is what
-- a handler does when it is called with its argument; it may do anything to the processor and to the
-- table. `none` is a write outside of the table.
pub mod Serving
use bpm_gw.Base.{
  ℕ, zero, suc, ◌-◌, ◌%◌, ◌^◌, Option, none, some, bit_and, bit_or, ◌==◌, leb, if◌then◌else◌, ℤ,
}
use bpm_gw.Bus.{Bus, ok}

abbrev pub max_int_handlers : ℕ
max_int_handlers = 32

-- `struct ihnd`, with 0 for a null pointer
pub record Ihnd : Type 0 where
  pub handler : ℕ
  pub arg : ℕ

pub record Machine (S : Type 0) : Type 0 where
  pub handlers : ℕ → Ihnd
  pub cpu : S

-- the numbers of the control registers IE, IM, IP and DCC
abbrev pub csr_ie : ℕ
csr_ie = 0

abbrev pub csr_im : ℕ
csr_im = 1

abbrev pub csr_ip : ℕ
csr_ip = 2

abbrev pub csr_dcc : ℕ
csr_dcc = 4

abbrev pub no_handler : Ihnd
no_handler = record { handler = 0; arg = 0 }

module _ {S : Type 0} (csr : Bus S) where
  unfoldable pub set_mask : ℕ → Machine S → Machine S
  set_mask mask m = record m { cpu = csr.write m.cpu csr_im mask }

  unfoldable pub get_mask : Machine S → ℕ × Machine S
  get_mask m = let (mask, s) = csr.read m.cpu csr_im in (mask, record m { cpu = s })

  unfoldable pub get_pending : Machine S → ℕ × Machine S
  get_pending m = let (mask, s) = csr.read m.cpu csr_ip in (mask, record m { cpu = s })

  unfoldable pub clear_pending : Machine S → Machine S
  clear_pending m = record m { cpu = csr.write m.cpu csr_ip (2 ^ 32 - 1) }

  abbrev pub flush_cache : Machine S → Machine S
  flush_cache m = record m { cpu = csr.write m.cpu csr_dcc 1 }

  -- the first `n` entries
  unfoldable pub clear_handlers : ℕ → Machine S → Machine S
  clear_handlers n m = record m { handlers = λ i. if leb n i then m.handlers i else no_handler }

  unfoldable pub int_init : Machine S → ℤ × Machine S
  unfolding clear_handlers set_mask
  int_init m =
      let m1 = set_mask 0 (clear_handlers max_int_handlers m) in
      (ok, record m1 { cpu = csr.write m1.cpu csr_ie 1 })

  unfoldable pub int_add : ℕ → ℕ → ℕ → Machine S → Option (ℤ × Machine S)
  unfolding set_mask get_mask
  int_add i handler arg m =
      let entry : Ihnd = record { handler = handler; arg = arg } in
      let m1 = record m { handlers = λ k. if k == i then entry else m.handlers k } in
      let (mask, m2) = get_mask m1 in
      let done : ℤ × Machine S = (ok, set_mask (bit_or mask (2 ^ i % 2 ^ 32)) m2) in
      if leb max_int_handlers i then none else some done

  module _ (call : ℕ → ℕ → Machine S → Machine S) where
    -- one round of the loop of `_irq_entry`
    unfoldable pub irq_round : ℕ → ℕ → Machine S → Machine S
    irq_round i work m =
        let e = m.handlers i in
        if bit_and work (2 ^ i) == 0
        then m
        else if e.handler == 0
        then m
        else call e.handler e.arg m

    -- the rounds from `i` on
    unfoldable pub irq_loop : ℕ → ℕ → ℕ → Machine S → Machine S
    unfolding irq_round
    irq_loop zero i work m = m
    irq_loop (suc n) i work m = irq_loop n (suc i) work (irq_round i work m)

    unfoldable pub irq_entry : Machine S → Machine S
    unfolding get_pending clear_pending irq_loop
    irq_entry m =
        let (work, m1) = get_pending m in
        irq_loop max_int_handlers 0 work (flush_cache (clear_pending m1))
