-- ===== src/Mprintf/Formats.antt =====
-- The formats of history/embedded-sw/lib/mprintf.c: where `vprintf` and `_p_vsprintf` agree, and the
-- rounds that the loop takes.
use bpm_gw.Base.{
  ℕ, zero, suc, ◌+◌, ◌/◌, ◌%◌, ◌^◌, ◌<◌, ◌≡◌, refl, sym, ap, ◌∙◌, Bool, true, false, ◌&&◌, ◌||◌,
  ◌⊎◌, inl, inr, Option, none, some, List, [], ◌∷◌, ◌++◌, ◌==◌, ltb, leb, ◌>>=◌, length, All, arith,
  Bool-cases, Option-cases,
}
use bpm_gw.Mprintf.{
  Arg, word, text, digit_char, digit_loop, fill_loop, digit_fuel, conversion_loop,
  plain_conversion_loop, conversion_base, flags, print_behind, print_number, print_string,
  print_char, print_conversion, print_flagged, print_loop, vprintf, p_vsprintf,
}

-- No '%' stands before a digit.
abbrev pub NoDigit : List ℕ → Type 0
NoDigit [] = Unit {0}
NoDigit (c ∷ cs) = (c < 48) ⊎ (57 < c)

abbrev pub Unflagged : List ℕ → Type 0
Unflagged [] = Unit {0}
Unflagged (c ∷ cs) = (c ≡ 37 → NoDigit cs) × Unflagged cs

-- As a word, the argument is not negative.
abbrev pub NotNegative : Arg → Type 0
NotNegative (word v) = v % 2 ^ 32 < 2 ^ 31
NotNegative (text s) = Unit {0}

-- Without a width nothing is filled up.
no_fill :
    (fuel base v fill : ℕ) (stored : List ℕ)
    → (digit_loop fuel base v 0 stored >>= λ r. some (fill_loop r.0 fill r.1))
      ≡ (digit_loop fuel base v 0 stored >>= λ r. some r.1)
unfolding digit_loop fill_loop
no_fill zero base v fill stored = refl
no_fill (suc fuel) base v fill stored = elim (Bool-cases (ltb 0 (v / base))) [
  | inl more ↦ rw more (no_fill fuel base (v / base) fill (digit_char (v % base) ∷ stored))
  | inr last ↦ rw last refl
]

conversion_loop-plain_conversion_loop :
    (signed : Bool) (base v : ℕ)
    → v < 2 ^ 31
    → conversion_loop signed base 32 0 v ≡ plain_conversion_loop signed base 32 0 v
unfolding conversion_loop plain_conversion_loop
conversion_loop-plain_conversion_loop false base v small = no_fill digit_fuel base v 32 []
conversion_loop-plain_conversion_loop true base v small =
    let positive : leb (2 ^ 31) v ≡ false = ground (arith, small) in
    rw positive (no_fill digit_fuel base v 32 [])

flags-none :
    (c : ℕ) (cs : List ℕ)
    → (c == 48) ≡ false
    → (ltb 48 c && leb c 57) ≡ false
    → flags (c ∷ cs) ≡ (32, 0, c ∷ cs)
flags-none c cs no_zero no_width = rw (no_zero, no_width) refl

-- A conversion with the rest of the format behind it.
abbrev with_rest : List ℕ → Option (List ℕ × List Arg) → Option (List ℕ × List ℕ × List Arg)
with_rest cs o = o >>= λ r. some (r.0, cs, r.1)

-- The rest of the format and the arguments that are left are as they should be again.
abbrev LeavesArgs : Option (List ℕ × List Arg) → Type 0
LeavesArgs none = Unit {0}
LeavesArgs (some r) = All NotNegative r.1

abbrev Leaves : Option (List ℕ × List ℕ × List Arg) → Type 0
Leaves none = Unit {0}
Leaves (some r) = Unflagged r.1 × All NotNegative r.2

with_rest-Leaves :
    (cs : List ℕ) (o : Option (List ℕ × List Arg))
    → Unflagged cs
    → LeavesArgs o
    → Leaves (with_rest cs o)
with_rest-Leaves cs none plain small = tt
with_rest-Leaves cs (some r) plain small = (plain, small)

==_eq : (c : ℕ) → (c == 37) ≡ true → c ≡ 37
==_eq c e = ground (arith, e)

some_args :
    (o : Option (List ℕ)) (args : List Arg)
    → All NotNegative args
    → LeavesArgs (o >>= λ out. some (out, args))
some_args none args small = tt
some_args (some out) args small = small

module _ (f : Bool → ℕ → ℕ → ℕ → ℕ → Option (List ℕ)) where
  print_number-LeavesArgs :
      (base c fill width : ℕ) (args : List Arg)
      → All NotNegative args
      → LeavesArgs (print_number f base c fill width args)
  unfolding print_number
  print_number-LeavesArgs base c fill width [] small = tt
  print_number-LeavesArgs base c fill width (text s ∷ args) small = tt
  print_number-LeavesArgs base c fill width (word v ∷ args) small =
      some_args (f (c == 100) base fill width (v % 2 ^ 32)) args small.1

  print_char-LeavesArgs : (args : List Arg) → All NotNegative args → LeavesArgs (print_char f args)
  unfolding print_char
  print_char-LeavesArgs [] small = tt
  print_char-LeavesArgs (text s ∷ args) small = tt
  print_char-LeavesArgs (word v ∷ args) small = small.1

  print_string-LeavesArgs :
      (args : List Arg) → All NotNegative args → LeavesArgs (print_string f args)
  unfolding print_string
  print_string-LeavesArgs [] small = tt
  print_string-LeavesArgs (text s ∷ args) small = small.1
  print_string-LeavesArgs (word v ∷ args) small = tt

  print_conversion-LeavesArgs :
      (c fill width : ℕ) (args : List Arg)
      → All NotNegative args
      → LeavesArgs (print_conversion f c fill width args)
  unfolding print_conversion
  print_conversion-LeavesArgs c fill width args small = elim (Option-cases (conversion_base c)) [
    | inr (base, number) ↦
        rw (print_conversion, number) (print_number-LeavesArgs base c fill width args small)
    | inl other ↦ elim (Bool-cases (c == 99)) [
      | inl char ↦ rw (print_conversion, other, char) (print_char-LeavesArgs args small)
      | inr no_char ↦ elim (Bool-cases (c == 83 || c == 115)) [
        | inl string ↦
            rw (print_conversion, other, no_char, string) (print_string-LeavesArgs args small)
        | inr no_string ↦ rw (print_conversion, other, no_char, no_string) small
      ]
    ]
  ]

  print_flagged-end : (args : List Arg) → print_flagged f [] args ≡ none
  unfolding print_flagged print_behind
  print_flagged-end args = refl

  print_flagged-plain :
      (c : ℕ) (cs : List ℕ) (args : List Arg)
      → NoDigit (c ∷ cs)
      → print_flagged f (c ∷ cs) args ≡ with_rest cs (print_conversion f c 32 0 args)
  unfolding print_flagged print_behind
  print_flagged-plain c cs args plain =
      let no_zero : (c == 48) ≡ false = ground (arith, plain) in
      let no_width : (ltb 48 c && leb c 57) ≡ false = ground (arith, plain) in
      ap (λ (fl : ℕ × ℕ × List ℕ). print_behind f fl args) (flags-none c cs no_zero no_width)

  print_flagged-Leaves :
      (cs : List ℕ) (args : List Arg)
      → NoDigit cs
      → Unflagged cs
      → All NotNegative args
      → Leaves (print_flagged f cs args)
  print_flagged-Leaves [] args plain unflagged small = rw (print_flagged-end args) tt
  print_flagged-Leaves (c ∷ cs) args plain unflagged small =
      rw (print_flagged-plain c cs args plain) (
        with_rest-Leaves cs (print_conversion f c 32 0 args) unflagged.1
          (print_conversion-LeavesArgs c 32 0 args small))

-- Two conversions of numbers that agree on numbers that are not negative, without flags.
module _ (f g : Bool → ℕ → ℕ → ℕ → ℕ → Option (List ℕ))
    (agree : (signed : Bool) (base v : ℕ)
      → v < 2 ^ 31
      → f signed base 32 0 v ≡ g signed base 32 0 v) where
  print_number-agree :
      (base c : ℕ) (args : List Arg)
      → All NotNegative args
      → print_number f base c 32 0 args ≡ print_number g base c 32 0 args
  unfolding print_number
  print_number-agree base c [] small = refl
  print_number-agree base c (text s ∷ args) small = refl
  print_number-agree base c (word v ∷ args) small =
      ap (λ (o : Option (List ℕ)). o >>= λ out. some (out, args))
        (agree (c == 100) base (v % 2 ^ 32) small.0)

  print_conversion-agree :
      (c : ℕ) (args : List Arg)
      → All NotNegative args
      → print_conversion f c 32 0 args ≡ print_conversion g c 32 0 args
  unfolding print_conversion
  print_conversion-agree c args small = elim (Option-cases (conversion_base c)) [
    | inl other ↦ rw (print_conversion, other) refl
    | inr (base, number) ↦ rw (print_conversion, number) (print_number-agree base c args small)
  ]

  print_flagged-agree :
      (cs : List ℕ) (args : List Arg)
      → NoDigit cs
      → All NotNegative args
      → print_flagged f cs args ≡ print_flagged g cs args
  print_flagged-agree [] args plain small =
      print_flagged-end f args ∙ sym (print_flagged-end g args)
  print_flagged-agree (c ∷ cs) args plain small =
      print_flagged-plain f c cs args plain
      ∙ ap (with_rest cs) (print_conversion-agree c args small)
      ∙ sym (print_flagged-plain g c cs args plain)

  loops_agree :
      (fuel : ℕ) (o : Option (List ℕ × List ℕ × List Arg))
      → ((r : List ℕ × List ℕ × List Arg)
          → Unflagged r.1 × All NotNegative r.2
          → print_loop f fuel r.1 r.2 ≡ print_loop g fuel r.1 r.2)
      → Leaves o
      → (o >>= λ r. print_loop f fuel r.1 r.2 >>= λ out. some (r.0 ++ out))
        ≡ (o >>= λ r. print_loop g fuel r.1 r.2 >>= λ out. some (r.0 ++ out))
  loops_agree fuel none same left = refl
  loops_agree fuel (some r) same left =
      ap (λ (o : Option (List ℕ)). o >>= λ out. some (r.0 ++ out)) (same r left)

  -- What is left of the format and of the arguments is again without flags and negative words.
  print_loop-agree :
      (fuel : ℕ) (cs : List ℕ) (args : List Arg)
      → Unflagged cs
      → All NotNegative args
      → print_loop f fuel cs args ≡ print_loop g fuel cs args
  unfolding print_loop
  print_loop-agree zero cs args plain small = refl
  print_loop-agree (suc fuel) [] args plain small = refl
  print_loop-agree (suc fuel) (c ∷ cs) args plain small = elim (Bool-cases (c == 37)) [
    | inr other ↦ rw other (
        ap (λ (o : Option (List ℕ)). o >>= λ out. some (c ∷ out))
          (print_loop-agree fuel cs args plain.1 small))
    | inl percent ↦ rw percent (
        ap
          (λ (o : Option (List ℕ × List ℕ × List Arg)).
            o >>= λ r. print_loop f fuel r.1 r.2 >>= λ out. some (r.0 ++ out))
          (print_flagged-agree cs args (plain.0 (==_eq c percent)) small)
        ∙ loops_agree fuel (print_flagged g cs args)
            (λ r left. print_loop-agree fuel r.1 r.2 left.0 left.1)
            (print_flagged-Leaves g cs args (plain.0 (==_eq c percent)) plain.1 small))
  ]

-- Where no '%' stands before a digit and no argument is negative as a word, `vprintf` and `_p_vsprintf`
-- print the same, or neither can print.
pub vprintf-p_vsprintf :
    (format : List ℕ) (args : List Arg)
    → Unflagged format
    → All NotNegative args
    → vprintf format args ≡ p_vsprintf format args
unfolding vprintf p_vsprintf
vprintf-p_vsprintf format args plain small =
    print_loop-agree conversion_loop plain_conversion_loop conversion_loop-plain_conversion_loop
      (length format + 1) format args plain small
