-- ===== src/Sdb/Quiet.antt =====
-- Tables whose bridges lead to no matching device: there nothing of the list is lost.
use bpm_gw.Base.{
  ℕ, zero, suc, ◌≡◌, refl, ap, ◌∙◌, inl, inr, true, false, Bool, Option, some, List, [], ◌∷◌, ◌++◌,
  All, arith, Bool-cases, if◌then◌else◌, >>=-eq-some, some_inj, length,
}
use bpm_gw.Sdb.{SdbRecord, Rom, is_bridge, is_match, address}
use bpm_gw.Sdb.Walk.{Found, found, walk_loop, walk, match_loop, matches}

abbrev pub Quiet : (ℕ → ℕ → Option (List ℕ)) → ℕ → List SdbRecord → Type 0
Quiet spec base rs = All (λ r. is_bridge r ≡ true → spec (address base r) r.child_low ≡ some []) rs

-- What `*dev` leads to after devices have been found there, or after none has.
abbrev pub keep : List ℕ → List ℕ → List ℕ
keep cur [] = cur
keep cur (m ∷ ms) = m ∷ ms

keep-nil : (ms : List ℕ) → keep [] ms ≡ ms
keep-nil [] = refl
keep-nil (m ∷ ms) = refl

append-eq-nil : (xs ys : List ℕ) → xs ++ ys ≡ [] → (xs ≡ []) × (ys ≡ [])
append-eq-nil [] ys h = (refl, h)
append-eq-nil (x ∷ xs) ys h = cc

module _ (spec : ℕ → ℕ → Option (List ℕ)) (run : List ℕ → ℕ → ℕ → Option Found)
    (deep : (base sdb : ℕ) (cur : List ℕ)
      → spec base sdb ≡ some []
      → run cur base sdb ≡ some (found cur 0))
    (devid base : ℕ) where
  quiet_inside :
      (r : SdbRecord) (cur : List ℕ)
      → (is_bridge r ≡ true → spec (address base r) r.child_low ≡ some [])
      → ((if is_bridge r then spec (address base r) r.child_low else some []) ≡ some [])
        × ((if is_bridge r then run cur (address base r) r.child_low else some (found cur 0))
            ≡ some (found cur 0))
  quiet_inside r cur h = elim (Bool-cases (is_bridge r)) [
    | inl bridge ↦ rw bridge (h bridge, deep (address base r) r.child_low cur (h bridge))
    | inr plain ↦ rw plain (refl, refl)
  ]

  quiet_round :
      (r : SdbRecord) (rs : List SdbRecord) (cur ms rest : List ℕ)
      → (if is_bridge r then run cur (address base r) r.child_low else some (found cur 0))
        ≡ some (found cur 0)
      → (if is_match devid r then address base r ∷ rest else rest) ≡ ms
      → ((c : List ℕ) → walk_loop run devid base rs c ≡ some (found (keep c rest) (length rest)))
      → walk_loop run devid base (r ∷ rs) cur ≡ some (found (keep cur ms) (length ms))
  unfolding walk_loop
  quiet_round r rs cur ms rest er em later = elim (Bool-cases (is_match devid r)) [
    | inl hit ↦
        let here : address base r ∷ rest ≡ ms = simp hit at em in
        rw (er, hit, later [], keep-nil rest, ← here)
          (ap (λ (n : ℕ). some (found (address base r ∷ rest) n)) (omega arith))
    | inr miss ↦
        let there : rest ≡ ms = simp miss at em in
        rw (er, miss, later cur, ← there)
          (ap (λ (n : ℕ). some (found (keep cur rest) n)) (omega arith))
  ]

  Quiet-walk :
      (rs : List SdbRecord) (cur ms : List ℕ)
      → Quiet spec base rs
      → match_loop spec devid base rs ≡ some ms
      → walk_loop run devid base rs cur ≡ some (found (keep cur ms) (length ms))
  unfolding walk_loop match_loop
  Quiet-walk [] cur ms q e = ap (λ (m : List ℕ). some (found (keep cur m) (length m))) (some_inj e)
  Quiet-walk (r ∷ rs) cur ms q e =
      let (es, er) = quiet_inside r cur q.0 in
      let (rest, em, e') = >>=-eq-some (match_loop spec devid base rs) _ (simp es at e) in
      quiet_round r rs cur ms rest er (some_inj e') λ c. Quiet-walk rs c rest q.1 em

-- Where nothing matches at all, each bridge leads to nothing.
Quiet-nil :
    (spec : ℕ → ℕ → Option (List ℕ)) (devid base : ℕ) (rs : List SdbRecord)
    → match_loop spec devid base rs ≡ some []
    → Quiet spec base rs
unfolding match_loop
Quiet-nil spec devid base [] e = tt
Quiet-nil spec devid base (r ∷ rs) e =
    let (inner, ei, e') =
      >>=-eq-some (if is_bridge r then spec (address base r) r.child_low else some []) _ e in
    let (rest, er, e'') = >>=-eq-some (match_loop spec devid base rs) _ e' in
    let (ni, nr) =
      append-eq-nil inner (if is_match devid r then address base r ∷ rest else rest)
        (some_inj e'') in
    (
      (λ bridge. simp bridge at ei ∙ ap some ni),
      Quiet-nil spec devid base rs
          (er ∙ ap some (no_rest (is_match devid r) (address base r) rest nr)),
    )
  where
    no_rest : (b : Bool) (a : ℕ) (rest : List ℕ) → (if b then a ∷ rest else rest) ≡ [] → rest ≡ []
    no_rest true a rest h = cc
    no_rest false a rest h = h

walk-nil :
    (fuel : ℕ) (rom : Rom) (devid base sdb : ℕ) (cur : List ℕ)
    → matches fuel rom devid base sdb ≡ some []
    → walk fuel rom devid cur base sdb ≡ some (found cur 0)
unfolding walk matches
walk-nil zero rom devid base sdb cur e = cc
walk-nil (suc fuel) rom devid base sdb cur e =
    Quiet-walk (matches fuel rom devid) (walk fuel rom devid) (walk-nil fuel rom devid) devid base
      (rom sdb) cur [] (Quiet-nil (matches fuel rom devid) devid base (rom sdb) e) e

pub walk-Quiet :
    (fuel : ℕ) (rom : Rom) (devid base sdb : ℕ) (ms : List ℕ)
    → Quiet (matches fuel rom devid) base (rom sdb)
    → matches (suc fuel) rom devid base sdb ≡ some ms
    → walk (suc fuel) rom devid [] base sdb ≡ some (found ms (length ms))
unfolding walk matches
walk-Quiet fuel rom devid base sdb ms q e =
    Quiet-walk (matches fuel rom devid) (walk fuel rom devid) (walk-nil fuel rom devid) devid base
      (rom sdb) [] ms q e
    ∙ ap (λ (xs : List ℕ). some (found xs (length ms))) (keep-nil ms)
