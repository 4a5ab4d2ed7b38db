-- ===== src/Sdb/Depth.antt =====
-- Fuel: a table whose bridges are nested at most `n` levels deep is searched with fuel `n`.
use bpm_gw.Base.{
  ℕ, zero, suc, ◌≡◌, refl, inl, inr, true, Option, some, List, [], ◌∷◌, ◌++◌, All, Bool-cases,
  if◌then◌else◌,
}
use bpm_gw.Sdb.{SdbRecord, Rom, is_bridge, is_match, address}
use bpm_gw.Sdb.Walk.{match_loop, matches}

-- The tables below `sdb` stand at most `n` deep, its own counted.
abbrev pub Nested : ℕ → Rom → ℕ → Type 0
Nested zero rom sdb = ⊥
Nested (suc n) rom sdb = All (λ r. is_bridge r ≡ true → Nested n rom r.child_low) (rom sdb)

match_loop-total :
    (deep : ℕ → ℕ → Option (List ℕ)) (P : ℕ → Type 0) (devid base : ℕ)
    → ((b sdb : ℕ) → P sdb → (xs : List ℕ) × (deep b sdb ≡ some xs))
    → (rs : List SdbRecord) → All (λ r. is_bridge r ≡ true → P r.child_low) rs
    → (xs : List ℕ) × (match_loop deep devid base rs ≡ some xs)
unfolding match_loop
match_loop-total deep P devid base total [] h = ([], refl)
match_loop-total deep P devid base total (r ∷ rs) h =
    let (rest, er) = match_loop-total deep P devid base total rs h.1 in
    elim (Bool-cases (is_bridge r)) [
      | inl bridge ↦
          let (inner, ei) = total (address base r) r.child_low (h.0 bridge) in
          (inner ++ (if is_match devid r then address base r ∷ rest else rest), rw (bridge, ei, er))
      | inr plain ↦ ((if is_match devid r then address base r ∷ rest else rest), rw (plain, er))
    ]

pub matches-total :
    (fuel : ℕ) (rom : Rom) (devid base sdb : ℕ)
    → Nested fuel rom sdb
    → (ms : List ℕ) × (matches fuel rom devid base sdb ≡ some ms)
unfolding matches
matches-total zero rom devid base sdb h = absurd h
matches-total (suc fuel) rom devid base sdb h =
    match_loop-total (matches fuel rom devid) (Nested fuel rom) devid base
      (matches-total fuel rom devid) (rom sdb) h
