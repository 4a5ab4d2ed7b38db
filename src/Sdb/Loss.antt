-- ===== src/Sdb/Loss.antt =====
-- How the list that the search builds compares with the devices that there are.
use bpm_gw.Base.{
  ℕ, zero, suc, ◌+◌, ◌≤◌, ◌<◌, ◌≡◌, refl, sym, ap, ◌∙◌, Bool, ◌||◌, ◌⊎◌, inl, inr, true, false,
  Option, some, List, [], ◌∷◌, ◌++◌, arith, Bool-cases, if◌then◌else◌, >>=-eq-some, some_inj,
  length, length-append,
}
use bpm_gw.Sdb.{SdbRecord, Rom, is_bridge, is_match, address}
use bpm_gw.Sdb.Walk.{Found, found, walk_loop, walk, match_loop, matches}

-- The table has a matching record of its own.
unfoldable pub has_match : ℕ → List SdbRecord → Bool
has_match devid [] = false
has_match devid (r ∷ rs) = is_match devid r || has_match devid rs

-- A bridge with a device behind it stands in the table before a matching record.
abbrev pub Shadows : (ℕ → ℕ → Option (List ℕ)) → ℕ → ℕ → List SdbRecord → Type 0
Shadows spec devid base [] = ⊥
Shadows spec devid base (r ∷ rs) =
    ((a : ℕ) × (more : List ℕ) × (is_bridge r ≡ true)
      × (spec (address base r) r.child_low ≡ some (a ∷ more))
      × (has_match devid rs ≡ true))
    ⊎ Shadows spec devid base rs

-- `w` counts the devices `ms`, and reaches no more than what was there and those.
abbrev pub Counts : List ℕ → List ℕ → Found → Type 0
Counts cur ms w = (w.count ≡ length ms) × (length w.bases ≤ length cur + length ms)

abbrev pub DeepCounts : (ℕ → ℕ → Option (List ℕ)) → (List ℕ → ℕ → ℕ → Option Found) → Type 0
DeepCounts spec run =
    (base sdb : ℕ) (cur ms : List ℕ)
    → spec base sdb ≡ some ms
    → (w : Found) × (run cur base sdb ≡ some w) × Counts cur ms w

module _ (spec : ℕ → ℕ → Option (List ℕ)) (run : List ℕ → ℕ → ℕ → Option Found)
    (devid base : ℕ) where
  -- The result of the loop over `rs` against the devices `ms` that there are.
  pub record Tally (rs : List SdbRecord) (cur ms : List ℕ) : Type 0 where
    pub w : Found
    pub returns : walk_loop run devid base rs cur ≡ some w
    pub count : w.count ≡ length ms
    pub bound : length w.bases ≤ length cur + length ms
    pub forgets : has_match devid rs ≡ true → length w.bases ≤ length ms
    pub loses : Shadows spec devid base rs → length w.bases < length ms
    pub reaches : has_match devid rs ≡ true → 0 < length w.bases
    pub stays : Shadows spec devid base rs → 0 < length w.bases

module _ (spec : ℕ → ℕ → Option (List ℕ)) (run : List ℕ → ℕ → ℕ → Option Found)
    (deep : DeepCounts spec run) (devid base : ℕ) where
  inside :
      (r : SdbRecord) (cur inner : List ℕ)
      → (if is_bridge r then spec (address base r) r.child_low else some []) ≡ some inner
      → (u : Found) × ((if is_bridge r
            then run cur (address base r) r.child_low
            else some (found cur 0))
          ≡ some u)
        × Counts cur inner u
  inside r cur inner e = elim (Bool-cases (is_bridge r)) [
    | inl bridge ↦ rw bridge (deep (address base r) r.child_low cur inner (simp bridge at e))
    | inr plain ↦ rw plain (
        let none_inside = ap (λ (l : List ℕ). length l) (some_inj (simp plain at e)) in
        (found cur 0, refl, omega (arith, none_inside)))
  ]

  -- A device behind the bridge counts as one at least.
  some_inside :
      (r : SdbRecord) (inner : List ℕ) (a : ℕ) (more : List ℕ)
      → (if is_bridge r then spec (address base r) r.child_low else some []) ≡ some inner
      → is_bridge r ≡ true
      → spec (address base r) r.child_low ≡ some (a ∷ more)
      → 0 < length inner
  some_inside r inner a more e bridge h =
      let same = ap (λ (l : List ℕ). length l) (some_inj (sym h ∙ (simp bridge at e))) in
      omega (arith, same)

  shadowed :
      (r : SdbRecord) (rs : List SdbRecord) (inner rest : List ℕ) (n : ℕ)
      → (if is_bridge r then spec (address base r) r.child_low else some []) ≡ some inner
      → (has_match devid rs ≡ true → n ≤ length rest)
      → (Shadows spec devid base rs → n < length rest)
      → Shadows spec devid base (r ∷ rs)
      → n < length inner + length rest
  shadowed r rs inner rest n e forgets loses (inl (a, more, bridge, h, m)) =
      omega (arith, some_inside r inner a more e bridge h, forgets m)
  shadowed r rs inner rest n e forgets loses (inr later) = omega (arith, loses later)

  -- One round, from the result of the bridge and that of the records behind.
  Tally-cons :
      (r : SdbRecord) (rs : List SdbRecord) (cur ms inner rest : List ℕ) (u : Found)
      → (if is_bridge r then spec (address base r) r.child_low else some []) ≡ some inner
      → (if is_bridge r then run cur (address base r) r.child_low else some (found cur 0)) ≡ some u
      → Counts cur inner u
      → inner ++ (if is_match devid r then address base r ∷ rest else rest) ≡ ms
      → ((c : List ℕ) → Tally spec run devid base rs c rest)
      → Tally spec run devid base (r ∷ rs) cur ms
  unfolding walk_loop has_match
  Tally-cons r rs cur ms inner rest u ei eu cu em later = elim (Bool-cases (is_match devid r)) [
    | inl hit ↦
        let v = later [] in
        let total = ap (λ (l : List ℕ). length l) (simp hit at em) in
        let sizes = length-append inner (address base r ∷ rest) in
        let short = shadowed r rs inner rest (length v.w.bases) ei v.forgets v.loses in
        record {
          w = found (address base r ∷ v.w.bases) (u.count + 1 + v.w.count);
          returns = rw (eu, hit, v.returns);
          count = omega (arith, total, sizes, v.count);
          bound = omega (arith, total, sizes, v.bound);
          forgets = λ h. omega (arith, total, sizes, v.bound);
          loses = λ h. omega (arith, total, sizes, short h);
          reaches = λ h. omega arith;
          stays = λ h. omega arith;
        }
    | inr miss ↦
        let v = later u.bases in
        let total = ap (λ (l : List ℕ). length l) (simp miss at em) in
        let sizes = length-append inner rest in
        let short = shadowed r rs inner rest (length v.w.bases) ei v.forgets v.loses in
        record {
          w = found v.w.bases (u.count + v.w.count);
          returns = rw (eu, miss, v.returns);
          count = omega (arith, total, sizes, v.count);
          bound = omega (arith, total, sizes, v.bound);
          forgets = λ h. omega (arith, total, sizes, v.forgets (simp miss at h));
          loses = λ h. omega (arith, total, sizes, short h);
          reaches = λ h. v.reaches (simp miss at h);
          stays = λ h. elim h [
            | inl (a, more, bridge, es, m) ↦ v.reaches m
            | inr below ↦ v.stays below
          ];
        }
  ]

  pub walk_loop-Tally :
      (rs : List SdbRecord) (cur ms : List ℕ)
      → match_loop spec devid base rs ≡ some ms
      → Tally spec run devid base rs cur ms
  unfolding walk_loop match_loop has_match
  walk_loop-Tally [] cur ms e =
      let empty = ap (λ (l : List ℕ). length l) (some_inj e) in
      record {
        w = found cur 0;
        returns = refl;
        count = empty;
        bound = omega arith;
        forgets = λ h. cc;
        loses = λ h. absurd h;
        reaches = λ h. cc;
        stays = λ h. absurd h;
      }
  walk_loop-Tally (r ∷ rs) cur ms e =
      let (inner, ei, e') =
        >>=-eq-some (if is_bridge r then spec (address base r) r.child_low else some []) _ e in
      let (rest, er, e'') = >>=-eq-some (match_loop spec devid base rs) _ e' in
      let (u, eu, cu) = inside r cur inner ei in
      Tally-cons r rs cur ms inner rest u ei eu cu (some_inj e'') λ c. walk_loop-Tally rs c rest er

pub walk-Counts :
    (fuel : ℕ) (rom : Rom) (devid : ℕ) → DeepCounts (matches fuel rom devid) (walk fuel rom devid)
unfolding walk matches
walk-Counts zero rom devid base sdb cur ms e = cc
walk-Counts (suc fuel) rom devid base sdb cur ms e =
    let t =
      walk_loop-Tally (matches fuel rom devid) (walk fuel rom devid) (walk-Counts fuel rom devid)
        devid base (rom sdb) cur ms e in
    (t.w, t.returns, (t.count, t.bound))
