-- ===== src/Interrupts/Serving.antt =====
-- history/embedded-sw/lib/int.c: which handlers `_irq_entry` calls.
mod Tests
use bpm_gw.Base.{
  Bool-cases, inl, inr, ℕ, zero, suc, ◌*◌, ◌/◌, ◌%◌, ◌^◌, ◌-◌, ◌≡◌, ◌≤◌, ◌<◌, refl, sym, ap, ◌∙◌,
  Bool, true, false, List, [], ◌∷◌, bit_and, ◌==◌, arith, if◌then◌else◌,
}
use bpm_gw.Base.Bits.{bit_and_bit}
use native.Mathlib.Nat.{one-le-pow}
use bpm_gw.Bus.{Bus}
use bpm_gw.Interrupts.{
  Ihnd, Machine, max_int_handlers, csr_ip, csr_dcc, irq_round, irq_loop, irq_entry,
}

-- Of `n` numbers from `i` on, those whose bit is set in the word and that have a handler.
abbrev pub due : (ℕ → Ihnd) → ℕ → ℕ → ℕ → List Ihnd
due table zero i work = []
due table (suc n) i work =
    let rest = due table n (suc i) work in
    if work / 2 ^ i % 2 == 0 then rest else if (table i).handler == 0 then rest else table i ∷ rest

bit_clear : (i work : ℕ) → (bit_and work (2 ^ i) == 0) ≡ (work / 2 ^ i % 2 == 0)
bit_clear i work = ground (arith, bit_and_bit i work, one-le-pow i 2)

module _ {S : Type 0} (csr : Bus S) (call : ℕ → ℕ → Machine S → Machine S) where
  -- The handlers of the list, one after the other.
  abbrev pub calls : List Ihnd → Machine S → Machine S
  calls [] m = m
  calls (e ∷ es) m = calls es (call e.handler e.arg m)

  -- The machine when the first handler is called: the pending interrupts have been read and cleared.
  abbrev pub acknowledged : Machine S → Machine S
  acknowledged m = record m {
    cpu = csr.write (csr.write (csr.read m.cpu csr_ip).1 csr_ip (2 ^ 32 - 1)) csr_dcc 1;
  }

  module _ (keeps : (h a : ℕ) (m : Machine S) → (call h a m).handlers ≡ m.handlers) where
    irq_loop-due :
        (n i work : ℕ) (m : Machine S)
        → irq_loop csr call n i work m ≡ calls (due m.handlers n i work) m
    unfolding irq_loop irq_round
    irq_loop-due zero i work m = refl
    irq_loop-due (suc n) i work m = elim (Bool-cases (work / 2 ^ i % 2 == 0)) [
      | inl clear ↦ rw (bit_clear i work, clear) (irq_loop-due n (suc i) work m)
      | inr pending ↦ elim (Bool-cases ((m.handlers i).handler == 0)) [
        | inl null ↦ rw (bit_clear i work, pending, null) (irq_loop-due n (suc i) work m)
        | inr found ↦
            let e = m.handlers i in
            let m' = call e.handler e.arg m in
            rw (bit_clear i work, pending, found)
              (irq_loop-due n (suc i) work m'
                ∙ ap (λ (t : ℕ → Ihnd). calls (due t n (suc i) work) m') (keeps e.handler e.arg m))
      ]
    ]

    -- Where no handler changes the table, `_irq_entry` calls the handlers of exactly those of the 32
    -- numbers that have one and whose bit was pending, each once, in ascending order, and this
    -- after the pending bits have been cleared.
    pub irq_entry-due :
        (m : Machine S)
        → irq_entry csr call m
          ≡ calls (due m.handlers max_int_handlers 0 (csr.read m.cpu csr_ip).0) (acknowledged m)
    unfolding irq_entry
    irq_entry-due m = irq_loop-due max_int_handlers 0 (csr.read m.cpu csr_ip).0 (acknowledged m)
