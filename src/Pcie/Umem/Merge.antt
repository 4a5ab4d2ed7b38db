-- ===== src/Pcie/Umem/Merge.antt =====
-- The merging of scatter-gather lists, on lists and on the user's array.
use bpm_gw.Base.{
  ℕ, zero, suc, ◌+◌, ◌%◌, ◌^◌, ◌≤◌, ◌<◌, ◌≡◌, ◌≢◌, refl, ap, ◌∙◌, Bool, true, false, List, [], ◌∷◌,
  ◌++◌, ◌==◌, inl, inr, Bool-cases, ==_self, if◌then◌else◌, arith, All, length, set, get_or, take,
  take-suc, take-set, length-set, get_or-set_self, append-snoc, append_assoc,
}
use bpm_gw.Pcie.Umem.{Segment, no_segment, segment_end, merge_loop}

-- `cur` grows by an adjacent segment.
abbrev pub join : Segment → Segment → Segment
join cur e = record cur { size = (cur.size + e.size) % 2 ^ 64 }

-- The merged list, from the segment `cur` that is being extended.
unfoldable pub merge_from : Segment → List Segment → List Segment
merge_from cur [] = cur ∷ []
merge_from cur (e ∷ es) =
    let joined = merge_from (join cur e) es in
    let skipped = merge_from cur es in
    let started = merge_from e es in
    if e.addr == segment_end cur then joined else if e.size == 0 then skipped else cur ∷ started

-- The addresses of a segment, and of a list of segments one after the other.
abbrev pub range : ℕ → ℕ → List ℕ
range a zero = []
range a (suc n) = a ∷ range (suc a) n

abbrev pub cover : List Segment → List ℕ
cover [] = []
cover (e ∷ es) = range e.addr e.size ++ cover es

-- The segment does not reach the end of the address space.
abbrev pub Fits : Segment → Type 0
Fits e = e.addr + e.size < 2 ^ 64

-- No segment begins where the one before it ends; the first one does not begin at `z`.
abbrev pub SeparateAfter : ℕ → List Segment → Type 0
SeparateAfter z [] = Unit {0}
SeparateAfter z (e ∷ es) = (z ≢ e.addr) × SeparateAfter (segment_end e) es

abbrev pub Separate : List Segment → Type 0
Separate [] = Unit {0}
Separate (e ∷ es) = SeparateAfter (segment_end e) es

range-append : (a m n : ℕ) → range a (m + n) ≡ range a m ++ range (a + m) n
range-append a zero n =
    let start : a ≡ a + 0 = omega arith in
    let whole : 0 + n ≡ n = omega arith in
    ap (λ (m : ℕ). range a m) whole ∙ ap (λ (b : ℕ). range b n) start
range-append a (suc m) n =
    let start : suc a + m ≡ a + suc m = omega arith in
    let whole : suc m + n ≡ suc (m + n) = omega arith in
    ap (λ (m : ℕ). range a m) whole
    ∙ ap (λ (l : List ℕ). a ∷ l)
        (range-append (suc a) m n ∙ ap (λ (b : ℕ). range (suc a) m ++ range b n) start)

merge_from-SeparateAfter :
    (z : ℕ) (cur : Segment) (es : List Segment) → z ≢ cur.addr → SeparateAfter z (merge_from cur es)
unfolding merge_from
merge_from-SeparateAfter z cur [] h = (h, tt)
merge_from-SeparateAfter z cur (e ∷ es) h = elim (Bool-cases (e.addr == segment_end cur)) [
  | inl adjacent ↦ rw adjacent (merge_from-SeparateAfter z (join cur e) es h)
  | inr apart ↦ rw apart (elim (Bool-cases (e.size == 0)) [
    | inl empty ↦ rw empty (merge_from-SeparateAfter z cur es h)
    | inr full ↦
        rw full
          (h, merge_from-SeparateAfter (segment_end cur) e es (λ h. cc (apart, h, ==_self e.addr)))
  ])
]

-- A join of adjacent segments that do not wrap.
join-range :
    (cur e : Segment)
    → Fits cur
    → Fits e
    → (e.addr == segment_end cur) ≡ true
    → Fits (join cur e)
      × (range cur.addr (join cur e).size ≡ range cur.addr cur.size ++ range e.addr e.size)
join-range cur e f fe adjacent =
    let start : cur.addr + cur.size ≡ e.addr = ground (arith, adjacent) in
    let size : (cur.size + e.size) % 2 ^ 64 ≡ cur.size + e.size = omega (arith, start) in
    (
      omega (arith, start, size),
      ap (λ (n : ℕ). range cur.addr n) size
          ∙ range-append cur.addr cur.size e.size
          ∙ ap (λ (b : ℕ). range cur.addr cur.size ++ range b e.size) start,
    )

pub empty_range : (e : Segment) → (e.size == 0) ≡ true → range e.addr e.size ≡ []
empty_range e h =
    let none_left : e.size ≡ 0 = ground (arith, h) in ap (λ (n : ℕ). range e.addr n) none_left

pub merge_from-cover :
    (cur : Segment) (es : List Segment)
    → Fits cur
    → All Fits es
    → cover (merge_from cur es) ≡ range cur.addr cur.size ++ cover es
unfolding merge_from
merge_from-cover cur [] f fs = refl
merge_from-cover cur (e ∷ es) f fs = elim (Bool-cases (e.addr == segment_end cur)) [
  | inl adjacent ↦
      let (fj, ranges) = join-range cur e f fs.0 adjacent in
      rw adjacent (
        merge_from-cover (join cur e) es fj fs.1
        ∙ ap (λ (l : List ℕ). l ++ cover es) ranges
        ∙ append_assoc (range cur.addr cur.size) (range e.addr e.size) (cover es))
  | inr apart ↦ rw apart (elim (Bool-cases (e.size == 0)) [
    | inl empty ↦ rw (empty, empty_range e empty) (merge_from-cover cur es f fs.1)
    | inr full ↦
        rw full
          (ap (λ (l : List ℕ). range cur.addr cur.size ++ l) (merge_from-cover e es fs.0 fs.1))
  ])
]

-- The result `out` of the loop on the array `sg` is the merged list `ms` behind the first entries.
abbrev Stores : ℕ → ℕ → List Segment → ℕ × List Segment → List Segment → Type 0
Stores bound idx sg out ms = (out.0 ≤ bound) × (take (suc out.0) out.1 ≡ take idx sg ++ ms)

-- Two computations that branch on the same tests.
both_if {ℓ} :
    {A B : Type 0} (P : A → B → Type ℓ) (b c : Bool) {x y z : A} {u v w : B}
    → P x u
    → P y v
    → P z w
    → P (if b then x else if c then y else z) (if b then u else if c then v else w)
both_if P true c p q r = p
both_if P false true p q r = q
both_if P false false p q r = r

-- The loop on the user's array: the entries before `idx` stay, and the merged list follows them.
pub merge_loop-merge_from :
    (es : List Segment) (idx : ℕ) (sg : List Segment)
    → idx + length es < length sg
    → Stores
        (idx + length es)
        idx
        sg
        (merge_loop es idx sg)
        (merge_from (get_or sg idx no_segment) es)
unfolding merge_loop merge_from
merge_loop-merge_from [] idx sg h = (omega arith, take-suc sg idx no_segment (omega (arith, h)))
merge_loop-merge_from (e ∷ es) idx sg h =
    let cur = get_or sg idx no_segment in
    let joined =
      merge_loop-merge_from es idx (set sg idx (join cur e))
        (omega (arith, length-set sg idx (join cur e))) in
    let skipped = merge_loop-merge_from es idx sg (omega (arith, h)) in
    let started =
      merge_loop-merge_from es (suc idx) (set sg (suc idx) e)
        (omega (arith, length-set sg (suc idx) e)) in
    both_if (Stores (idx + length (e ∷ es)) idx sg) (e.addr == segment_end cur) (e.size == 0)
      (
        omega (arith, joined.0),
        simp
            (
              take-set sg idx idx (join cur e) (omega arith),
              get_or-set_self sg idx (join cur e) no_segment (omega (arith, h)),
            )
            at joined.1,
      )
      (omega (arith, skipped.0), skipped.1)
      (
        omega (arith, started.0),
        (simp (get_or-set_self sg (suc idx) e no_segment (omega (arith, h))) at started.1)
            ∙ ap (λ (l : List Segment). l ++ merge_from e es)
                (take-set sg (suc idx) (suc idx) e (omega arith)
                  ∙ take-suc sg idx no_segment (omega (arith, h)))
            ∙ append-snoc (take idx sg) cur (merge_from e es),
      )

SeparateAfter-Separate : (z : ℕ) (es : List Segment) → SeparateAfter z es → Separate es
SeparateAfter-Separate z [] h = tt
SeparateAfter-Separate z (e ∷ es) h = h.1

pub merge_from-Separate : (cur : Segment) (es : List Segment) → Separate (merge_from cur es)
merge_from-Separate cur es =
    SeparateAfter-Separate (suc cur.addr) (merge_from cur es)
      (merge_from-SeparateAfter (suc cur.addr) cur es λ h. omega (arith, h))
