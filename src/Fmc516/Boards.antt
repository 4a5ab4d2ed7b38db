-- ===== src/Fmc516/Boards.antt =====
-- history/embedded-sw/fmc/fmc516/fmc516.c: `fmc516_init`, which sets up each board that was found.
-- The ADC chips and the clock chip are those behind the two SPI cores with constant ids, for every
-- board; `isla` and `lmk` are the addresses of these cores and `isla_config` and `lmk_config` their
-- configurations. `delay` only lets time pass. `none` is an access through a null pointer, or a
-- polling loop that needs more fuel.
use bpm_gw.Base.{ℕ, true, Option, none, some, List, [], ◌∷◌, ◌++◌, ◌>>=◌, ℤ}
use bpm_gw.Bus.{Bus, ok, failed}
use bpm_gw.Sdb.{DevList}
use bpm_gw.Init.{each_node}
use bpm_gw.Fmc516.{fmc516_init_regs, fmc516_reset_adcs, fmc516_resetdiv_adcs}
use bpm_gw.Fmc516.Isla.{fmc516_lmk02000_init, fmc516_isla216_all_init}

-- The array `fmc516` and the devices.
pub record Boards (S : Type 0) : Type 0 where
  pub handles : List ℕ
  pub bus_state : S

module _ {S : Type 0} (bus : Bus S) (fuel isla isla_config lmk lmk_config : ℕ) where
  -- one round of the loop, for the board at `base`
  unfoldable pub init_board : ℕ → Boards S → Option (Boards S)
  init_board base b =
      let s1 = fmc516_init_regs bus base b.bus_state in
      fmc516_lmk02000_init bus fuel lmk lmk_config s1 >>= λ s2.
      let s3 = fmc516_resetdiv_adcs bus base (fmc516_reset_adcs bus base s2) in
      fmc516_isla216_all_init bus fuel isla isla_config s3 >>= λ s4.
      some (record { handles = b.handles ++ (base ∷ []); bus_state = s4 })

  unfoldable pub fmc516_init : DevList → S → Option (ℤ × Boards S)
  unfolding each_node init_board
  fmc516_init l s =
      let start : Boards S = record { handles = []; bus_state = s } in
      elim l.first [
        | none ↦ some (failed, start)
        | some p ↦
            each_node (λ base b. (true, b >>= init_board base)) l.nodes l.size (some p) (some start)
            >>= λ r. r.1 >>= λ b. some (ok, b)
      ]
