-- ===== src/Mprintf/Digits.antt =====
-- The digits that the loops of history/embedded-sw/lib/mprintf.c make of a number.
use bpm_gw.Base.{
  ℕ, zero, suc, ◌+◌, ◌-◌, ◌*◌, ◌/◌, ◌%◌, ◌^◌, ◌≤◌, ◌<◌, ◌≡◌, ◌≢◌, refl, sym, ap, ap₂, subst, ◌∙◌,
  false, ◌⊎◌, inl, inr, Option, some, List, [], ◌∷◌, ◌++◌, ◌==◌, ltb, if◌then◌else◌, length,
  length-append, append-snoc, All, arith, Bool-cases,
}
use native.Mathlib.Nat.{pow-suc}
use bpm_gw.Mprintf.{digit_char, digit_loop}

-- A digit or a letter as a number.
abbrev pub char_digit : ℕ → ℕ
char_digit c = if ltb 57 c then c - 87 else c - 48

-- The number that characters stand for, with what was read before.
abbrev pub value : ℕ → ℕ → List ℕ → ℕ
value base acc [] = acc
value base acc (c ∷ cs) = value base (acc * base + char_digit c) cs

-- '0' to '9', and 'a' to 'f' in base 16
abbrev pub IsDigit : ℕ → ℕ → Type 0
IsDigit base c = ((48 ≤ c) × (c ≤ 57) ⊎ ((97 ≤ c) × (c ≤ 102))) × (char_digit c < base)

-- The digits of a number, which has no zero in front but for the number 0.
abbrev pub IsNumeral : ℕ → ℕ → List ℕ → Type 0
IsNumeral base word [] = ⊥
IsNumeral base word (c ∷ cs) =
    (value base 0 (c ∷ cs) ≡ word)
    × All (IsDigit base) (c ∷ cs)
    × ((word ≡ 0) ⊎ (c ≢ 48))
    × ((0 < word) ⊎ (cs ≡ []))

digit_back : (d : ℕ) → d < 16 → char_digit (digit_char d) ≡ d
digit_back d h = ground (arith, h)

digit_char-IsDigit : (base d : ℕ) → d < 16 → d < base → IsDigit base (digit_char d)
digit_char-IsDigit base d h lt = ground (arith, h, lt)

digit_not_zero : (d : ℕ) → d < 16 → 0 < d → digit_char d ≢ 48
digit_not_zero d h pos_d = ground (arith, h, pos_d)

All-append {ℓ κ} :
    {A : Type ℓ} (P : A → Type κ) (xs ys : List A) → All P xs → All P ys → All P (xs ++ ys)
All-append P [] ys good more = more
All-append P (x ∷ xs) ys good more = (good.0, All-append P xs ys good.1 more)

abbrev pub IsBase : ℕ → Type 0
IsBase base = (base ≡ 10) ⊎ (base ≡ 16)

-- A division by a base.
record Divides (base v : ℕ) : Type 0 where
  whole : v / base * base + v % base ≡ v
  small : v % base < 16
  digit : v % base < base
  positive : 0 < v / base → 0 < v
  less : (t : ℕ) → v < 10 * t → v / base < t

divides : (base v : ℕ) → IsBase base → Divides base v
divides base v (inl ten) = rw ten (record {
  whole = omega arith;
  small = omega arith;
  digit = omega arith;
  positive = λ q. omega (arith, q);
  less = λ t h. omega (arith, h);
})
divides base v (inr sixteen) = rw sixteen (record {
  whole = omega arith;
  small = omega arith;
  digit = omega arith;
  positive = λ q. omega (arith, q);
  less = λ t h. omega (arith, h);
})

-- The characters that the division loop puts in front, `n` at most, and the width that they leave.
pub record Digits (base v width n : ℕ) (stored : List ℕ) (r : Option (ℕ × List ℕ)) : Type 0 where
  pub first : ℕ
  pub more : List ℕ
  pub result : r ≡ some (width - suc (length more), first ∷ more ++ stored)
  pub reads : (rest : List ℕ) → value base 0 (first ∷ more ++ rest) ≡ value base v rest
  pub digits : All (IsDigit base) (first ∷ more)
  pub no_zero : (v ≡ 0) ⊎ (first ≢ 48)
  pub single : (0 < v) ⊎ (more ≡ [])
  pub few : length more < n

add_digit :
    (base v width n d : ℕ) (stored : List ℕ) (r : Option (ℕ × List ℕ))
    → IsBase base
    → 0 < v / base
    → d ≡ digit_char (v % base)
    → Digits base (v / base) (width - 1) n (d ∷ stored) r
    → Digits base v width (suc n) stored r
add_digit base v width n d stored r is_base rest_left own h =
    let div = divides base v is_base in
    let back : char_digit d ≡ v % base = ap char_digit own ∙ digit_back (v % base) div.small in
    record {
      first = h.first;
      more = h.more ++ (d ∷ []);
      result =
          h.result
          ∙ ap₂ (λ (w : ℕ) (l : List ℕ). some (w, h.first ∷ l))
              (omega (arith, length-append h.more (d ∷ []))) (sym (append-snoc h.more d stored));
      reads = λ rest.
          ap (λ (l : List ℕ). value base 0 (h.first ∷ l)) (append-snoc h.more d rest)
          ∙ h.reads (d ∷ rest)
          ∙ ap (λ (t : ℕ). value base (v / base * base + t) rest) back
          ∙ ap (λ (t : ℕ). value base t rest) div.whole;
      digits = All-append (IsDigit base) (h.first ∷ h.more) (d ∷ []) h.digits (
        subst (IsDigit base) (sym own) (digit_char-IsDigit base (v % base) div.small div.digit),
        tt,
      );
      no_zero = inr (ground (arith, h.no_zero, rest_left));
      single = inl (div.positive rest_left);
      few = omega (arith, h.few, length-append h.more (d ∷ []));
    }

some_digits : (n x : ℕ) → 0 < x → x < 10 ^ n → 0 < n
some_digits zero x h k = omega (arith, h, k)
some_digits (suc n) x h k = omega arith

last_digit :
    (base v : ℕ)
    → IsBase base
    → ltb 0 (v / base) ≡ false
    → 0 * base + char_digit (digit_char (v % base)) ≡ v
last_digit base v is_base last =
    let div = divides base v is_base in
    let none_left : v / base ≡ 0 = ground (arith, last) in
    let whole : v % base ≡ v = omega (arith, sym div.whole, ap (λ (q : ℕ). q * base) none_left) in
    omega (arith, digit_back (v % base) div.small, whole)

last_no_zero :
    (base v : ℕ) → IsBase base → ltb 0 (v / base) ≡ false → (v ≡ 0) ⊎ (digit_char (v % base) ≢ 48)
last_no_zero base v is_base last =
    let div = divides base v is_base in
    let none_left : v / base ≡ 0 = ground (arith, last) in
    let whole : v % base ≡ v = omega (arith, sym div.whole, ap (λ (q : ℕ). q * base) none_left) in
    elim (Bool-cases (v == 0)) [
      | inl null ↦ inl (ground (arith, null))
      | inr some_left ↦ inr (digit_not_zero (v % base) div.small (ground (arith, some_left, whole)))
    ]

pub digit_loop-Digits :
    (n fuel base v width : ℕ) (stored : List ℕ)
    → IsBase base
    → v < 10 ^ n
    → 0 < n
    → n ≤ fuel
    → Digits base v width n stored (digit_loop fuel base v width stored)
unfolding digit_loop
digit_loop-Digits zero fuel base v width stored is_base small some_digit enough =
    absurd (omega (arith, some_digit))
digit_loop-Digits (suc n) zero base v width stored is_base small some_digit enough =
    absurd (omega (arith, enough))
digit_loop-Digits (suc n) (suc fuel) base v width stored is_base small some_digit enough =
    elim (Bool-cases (ltb 0 (v / base))) [
      | inl more ↦ rw more (
          add_digit base v width n (digit_char (v % base)) stored _ is_base (ground (arith, more))
            refl
            (digit_loop-Digits n fuel base (v / base) (width - 1) (digit_char (v % base) ∷ stored)
              is_base ((divides base v is_base).less (10 ^ n) (omega (arith, small, pow-suc 10 n)))
              (some_digits n (v / base) (ground (arith, more))
                ((divides base v is_base).less (10 ^ n) (omega (arith, small, pow-suc 10 n))))
              (omega (arith, enough))))
      | inr last ↦ rw last (record {
        first = digit_char (v % base);
        more = [];
        result = refl;
        reads = λ rest. ap (λ (t : ℕ). value base t rest) (last_digit base v is_base last);
        digits = (
          digit_char-IsDigit base (v % base) (divides base v is_base).small
              (divides base v is_base).digit,
          tt,
        );
        no_zero = last_no_zero base v is_base last;
        single = inr refl;
        few = omega arith;
      })
    ]
