-- ===== src/Interrupts/Serving/Tests.antt =====
-- A processor whose interrupts 3, 5 and 31 are pending, with handlers for 2, 3 and 31. The state is the
-- list of pairs of a handler and its argument that were called, behind the accesses to the registers.
use bpm_gw.Base.{ℕ, ◌≡◌, refl, List, [], ◌∷◌, ◌++◌, ◌^◌, ◌+◌, ◌==◌, if◌then◌else◌, none}
use bpm_gw.Bus.{Bus}
use bpm_gw.Interrupts.{Ihnd, Machine, no_handler, int_init, int_add, irq_entry}
use bpm_gw.Interrupts.Serving.{due, calls, acknowledged, irq_entry-due}

abbrev Log : Type 0
Log = List (ℕ × ℕ)

abbrev log_csr : Bus Log
log_csr = record {
  read = λ s a. ((if a == 2 then 2 ^ 3 + 2 ^ 5 + 2 ^ 31 else 0), s);
  write = λ s a v. s ++ ((a, v) ∷ []);
}

abbrev log_call : ℕ → ℕ → Machine Log → Machine Log
log_call h a m = record m { cpu = m.cpu ++ ((h, a) ∷ []) }

abbrev table : ℕ → Ihnd
table i =
    if i == 2
    then record { handler = 0x100; arg = 7 }
    else if i == 3
    then record { handler = 0x200; arg = 8 }
    else if i == 31
    then record { handler = 0x300; arg = 9 }
    else no_handler

abbrev machine : Machine Log
machine = record { handlers = table; cpu = [] }

two_called :
    (irq_entry log_csr log_call machine).cpu
    ≡ (2, 0xffffffff) ∷ (4, 1) ∷ (0x200, 8) ∷ (0x300, 9) ∷ []
unfolding irq_entry
two_called = refl

-- A number outside of the table is refused.
outside : int_add log_csr 32 0x100 7 (int_init log_csr machine).1 ≡ none
unfolding int_add
outside = refl

irq_entry-due_example :
    irq_entry log_csr log_call machine
    ≡ calls log_csr log_call
        (due table 32 0 (2 ^ 3 + 2 ^ 5 + 2 ^ 31))
        (acknowledged log_csr log_call machine)
irq_entry-due_example = irq_entry-due log_csr log_call (λ h a m. refl) machine
