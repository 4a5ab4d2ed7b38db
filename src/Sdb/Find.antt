-- ===== src/Sdb/Find.antt =====
-- `find_device_deep` against the depth-first list of the matching devices.
use bpm_gw.Base.{
  ℕ, zero, suc, ◌≡◌, ◌≢◌, sym, subst, ap, ◌∙◌, inl, inr, Option, some, List, [], ◌∷◌, ◌++◌, All,
  Bool-cases, ◌==◌, ==_ne, if◌then◌else◌, ◌>>=◌, >>=-eq-some, some_inj,
}
use bpm_gw.Sdb.{SdbRecord, Rom, is_bridge, is_match, address, find_loop, find_device_deep}
use bpm_gw.Sdb.Walk.{match_loop, matches}

-- The first device, or the null pointer.
abbrev pub first_of : List ℕ → ℕ
first_of [] = 0
first_of (a ∷ more) = a

abbrev pub NonNull : List ℕ → Type 0
NonNull = All (λ a. a ≢ 0)

NonNull-append : (xs ys : List ℕ) → NonNull (xs ++ ys) → NonNull xs × NonNull ys
NonNull-append [] ys h = (tt, h)
NonNull-append (x ∷ xs) ys h = let (l, r) = NonNull-append xs ys h.1 in ((h.0, l), r)

module _ (spec : ℕ → ℕ → Option (List ℕ)) (deep : ℕ → ℕ → Option ℕ)
    (agree : (base sdb : ℕ) (ms : List ℕ)
      → spec base sdb ≡ some ms
      → NonNull ms
      → deep base sdb ≡ some (first_of ms))
    (devid base : ℕ) where
  -- A null result of the bridge falls through to the record itself and those behind.
  find_round :
      (r : SdbRecord) (inner hs : List ℕ) (here : Option ℕ)
      → (if is_bridge r then spec (address base r) r.child_low else some []) ≡ some inner
      → NonNull inner
      → here ≡ some (first_of hs)
      → (if is_bridge r
          then (deep (address base r) r.child_low >>= λ out. if out == 0 then here else some out)
          else here)
        ≡ some (first_of (inner ++ hs))
  find_round r inner hs here e n eh = elim (Bool-cases (is_bridge r)) [
    | inl bridge ↦
        rw (bridge, agree (address base r) r.child_low inner (simp bridge at e) n) (out_of inner n)
    | inr plain ↦
        rw plain (eh ∙ ap (λ (l : List ℕ). some (first_of (l ++ hs))) (some_inj (simp plain at e)))
  ]
    where
      out_of :
          (l : List ℕ)
          → NonNull l
          → (if first_of l == 0 then here else some (first_of l)) ≡ some (first_of (l ++ hs))
      out_of [] n = eh
      out_of (a ∷ more) n = rw (==_ne a 0 n.0)

  find_here :
      (r : SdbRecord) (rest : List ℕ) (behind : Option ℕ)
      → (NonNull rest → behind ≡ some (first_of rest))
      → NonNull (if is_match devid r then address base r ∷ rest else rest)
      → (if is_match devid r then some (address base r) else behind)
        ≡ some (first_of (if is_match devid r then address base r ∷ rest else rest))
  find_here r rest behind e n = elim (Bool-cases (is_match devid r)) [
    | inl hit ↦ rw hit
    | inr miss ↦ rw miss (e (simp miss at n))
  ]

  find_loop-first :
      (rs : List SdbRecord) (ms : List ℕ)
      → match_loop spec devid base rs ≡ some ms
      → NonNull ms
      → find_loop deep devid base rs ≡ some (first_of ms)
  unfolding find_loop match_loop
  find_loop-first [] ms e n = ap (λ (l : List ℕ). some (first_of l)) (some_inj e)
  find_loop-first (r ∷ rs) ms e n =
      let (inner, ei, e') =
        >>=-eq-some (if is_bridge r then spec (address base r) r.child_low else some []) _ e in
      let (rest, er, e'') = >>=-eq-some (match_loop spec devid base rs) _ e' in
      let hs = if is_match devid r then address base r ∷ rest else rest in
      let same : inner ++ hs ≡ ms = some_inj e'' in
      let (n1, n2) = NonNull-append inner hs (subst NonNull (sym same) n) in
      find_round r inner hs
        (if is_match devid r then some (address base r) else find_loop deep devid base rs) ei n1
        (find_here r rest (find_loop deep devid base rs) (find_loop-first rs rest er) n2)
      ∙ ap (λ (l : List ℕ). some (first_of l)) same

-- Where the depth-first list of the matching devices is `ms` and none of them stands at address 0,
-- `find_device_deep` returns the first of them, or the null pointer if there is none.
pub find_device_deep-first :
    (fuel : ℕ) (rom : Rom) (devid base sdb : ℕ) (ms : List ℕ)
    → matches fuel rom devid base sdb ≡ some ms
    → NonNull ms
    → find_device_deep fuel rom devid base sdb ≡ some (first_of ms)
unfolding find_device_deep matches
find_device_deep-first zero rom devid base sdb ms e n = cc
find_device_deep-first (suc fuel) rom devid base sdb ms e n =
    find_loop-first (matches fuel rom devid) (find_device_deep fuel rom devid)
      (find_device_deep-first fuel rom devid) devid base (rom sdb) ms e n
