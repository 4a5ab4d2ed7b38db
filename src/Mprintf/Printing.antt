-- ===== src/Mprintf/Printing.antt =====
-- The text that `vprintf` of history/embedded-sw/lib/mprintf.c prints for a format and its arguments.
mod Tests
use bpm_gw.Base.{
  ℕ, zero, suc, ◌+◌, ◌-◌, ◌*◌, ◌/◌, ◌%◌, ◌^◌, ◌≤◌, ◌<◌, ◌≡◌, ◌≢◌, refl, sym, ap, ap₂, ◌∙◌, Bool,
  true, false, not, ◌&&◌, ◌||◌, ◌⊎◌, inl, inr, Option, none, some, List, [], ◌∷◌, ◌++◌, ◌==◌, ltb,
  leb, if◌then◌else◌, ◌>>=◌, length, All, arith, Bool-cases, Option-cases, ==_ne, some_inj,
  length-append, append_assoc,
}
use bpm_gw.Mprintf.{
  Arg, word, text, conversion_loop, flags, zero_pad, width_spec, print_behind, print_number,
  print_string, print_char, print_conversion, print_flagged, print_loop, vprintf,
}
use bpm_gw.Mprintf.Numbers.{Stored, sign, magnitude, conversion_loop-Stored}
use bpm_gw.Mprintf.Digits.{IsBase}
use bpm_gw.Mprintf.Pieces.{
  Conversion, d, u, x, letter, base_of, is_signed, Piece, literal, percent, char, string, number,
  IsPiece, fill_text, width_text, format_of, args_of, PiecePrints, Prints,
}

abbrev spec_text : ℕ → Conversion → List ℕ → List ℕ
spec_text width c rest = (width_text width ++ (letter c ∷ [])) ++ rest

letter_no_digit : (c : Conversion) → (ltb 48 (letter c) && leb (letter c) 57) ≡ false
letter_no_digit d = refl
letter_no_digit u = refl
letter_no_digit x = refl

letter_no_zero : (c : Conversion) → (letter c == 48) ≡ false
letter_no_zero d = refl
letter_no_zero u = refl
letter_no_zero x = refl

width_spec-text :
    (width : ℕ) (c : Conversion) (rest : List ℕ)
    → width ≤ 9
    → (width_spec (spec_text width c rest) ≡ (width, letter c ∷ rest))
      × (zero_pad (spec_text width c rest) ≡ (32, spec_text width c rest))
width_spec-text zero c rest small = (rw (letter_no_digit c) refl, rw (letter_no_zero c) refl)
width_spec-text (suc n) c rest small =
    let given : (suc n == 0) ≡ false = ==_ne (suc n) 0 (λ e. omega (arith, e)) in
    let digit : (ltb 48 (48 + suc n) && leb (48 + suc n) 57) ≡ true = ground (arith, small) in
    let no_zero : (48 + suc n == 48) ≡ false = ==_ne (48 + suc n) 48 (λ e. omega (arith, e)) in
    let back : 48 + suc n - 48 ≡ suc n = omega arith in
    (rw (given, digit) (ap (λ (w : ℕ). (w, letter c ∷ rest)) back), rw (given, no_zero) refl)

-- The flags are read back.
flags-text :
    (zeros : Bool) (width : ℕ) (c : Conversion) (rest : List ℕ)
    → width ≤ 9
    → flags (fill_text zeros ++ spec_text width c rest)
      ≡ ((if zeros then 48 else 32), width, letter c ∷ rest)
flags-text true width c rest small =
    ap (λ (r : ℕ × List ℕ). (48, r.0, r.1)) (width_spec-text width c rest small).0
flags-text false width c rest small =
    let (spec, pad) = width_spec-text width c rest small in
    ap (λ (r : ℕ × List ℕ). (r.0, (width_spec r.1).0, (width_spec r.1).1)) pad
    ∙ ap (λ (r : ℕ × List ℕ). (32, r.0, r.1)) spec

base_of-IsBase : (c : Conversion) → IsBase (base_of c)
base_of-IsBase d = inl refl
base_of-IsBase u = inl refl
base_of-IsBase x = inr refl

-- A letter of a number leads to the conversion of a number.
print_conversion-letter :
    (c : Conversion) (fill width v : ℕ) (args : List Arg)
    → print_conversion conversion_loop (letter c) fill width (word v ∷ args) ≡ (
        conversion_loop (is_signed c) (base_of c) fill width (v % 2 ^ 32) >>= λ out.
        some (out, args))
unfolding print_conversion print_number
print_conversion-letter d fill width v args = refl
print_conversion-letter u fill width v args = refl
print_conversion-letter x fill width v args = refl

abbrev with_args : List Arg → Option (List ℕ) → Option (List ℕ × List Arg)
with_args args o = o >>= λ out. some (out, args)

abbrev with_rest : List ℕ → Option (List ℕ × List Arg) → Option (List ℕ × List ℕ × List Arg)
with_rest rest o = o >>= λ r. some (r.0, rest, r.1)

twice :
    (rest : List ℕ) (args : List Arg) (o : Option (List ℕ))
    → with_rest rest (with_args args o) ≡ (o >>= λ out. some (out, rest, args))
twice rest args none = refl
twice rest args (some out) = refl

behind-letter :
    (c : Conversion) (fill width v : ℕ) (rest : List ℕ) (args : List Arg)
    → print_behind conversion_loop (fill, width, letter c ∷ rest) (word v ∷ args) ≡ (
        conversion_loop (is_signed c) (base_of c) fill width (v % 2 ^ 32) >>= λ out.
        some (out, rest, args))
unfolding print_behind
behind-letter c fill width v rest args =
    ap (with_rest rest) (print_conversion-letter c fill width v args)
    ∙ twice rest args (conversion_loop (is_signed c) (base_of c) fill width (v % 2 ^ 32))

whole_word : (v : ℕ) → v < 2 ^ 32 → v % 2 ^ 32 ≡ v
whole_word v small = omega (arith, small)

print_number-Prints :
    (zeros : Bool) (width v : ℕ) (c : Conversion) (rest : List ℕ) (args : List Arg)
    → width ≤ 9
    → v < 2 ^ 32
    → (out : List ℕ) × (print_flagged conversion_loop
          (fill_text zeros ++ spec_text width c rest)
          (word v ∷ args)
        ≡ some (out, rest, args))
      × PiecePrints (number zeros width c v) out
unfolding print_flagged
print_number-Prints zeros width v c rest args narrow small =
    let fill = if zeros then 48 else 32 in
    let (body, e, stored) =
      conversion_loop-Stored (is_signed c) (base_of c) fill width v (base_of-IsBase c) small in
    let out = sign (is_signed c) v ++ body in
    let whole = whole_word v small in
    (
      out,
      ap (λ (fl : ℕ × ℕ × List ℕ). print_behind conversion_loop fl (word v ∷ args))
            (flags-text zeros width c rest narrow)
          ∙ behind-letter c fill width v rest args
          ∙ ap (λ (o : Option (List ℕ)). o >>= λ out'. some (out', rest, args))
              (ap (conversion_loop (is_signed c) (base_of c) fill width) whole ∙ e),
      (body, refl, stored),
    )

-- A round of the loop at a '%', and at another character.
flagged_round :
    (fuel : ℕ) (cs rest : List ℕ) (as' args : List Arg) (first out : List ℕ)
    → print_flagged conversion_loop cs as' ≡ some (first, rest, args)
    → print_loop conversion_loop fuel rest args ≡ some out
    → print_loop conversion_loop (suc fuel) (37 ∷ cs) as' ≡ some (first ++ out)
unfolding print_loop
flagged_round fuel cs rest as' args first out e go = rw (e, go) refl

plain_round :
    (fuel c : ℕ) (cs : List ℕ) (args : List Arg) (out : List ℕ)
    → c ≢ 37
    → print_loop conversion_loop fuel cs args ≡ some out
    → print_loop conversion_loop (suc fuel) (c ∷ cs) args ≡ some (c ∷ out)
unfolding print_loop
plain_round fuel c cs args out other go = rw (==_ne c 37 other, go) refl

loop-Prints :
    (fuel : ℕ) (ps : List Piece)
    → length (format_of ps) < fuel
    → All IsPiece ps
    → (out : List ℕ) × (print_loop conversion_loop fuel (format_of ps) (args_of ps) ≡ some out)
      × Prints ps out
unfolding print_loop print_flagged print_behind print_conversion print_string print_char
loop-Prints zero ps enough good = absurd (omega (arith, enough))
loop-Prints (suc fuel) [] enough good = ([], refl, refl)
loop-Prints (suc fuel) (literal c ∷ ps) enough good =
    let (out, go, prints) = loop-Prints fuel ps (omega (arith, enough)) good.1 in
    (c ∷ out, plain_round fuel c _ _ out good.0.0 go, (c ∷ [], out, refl, refl, prints))
loop-Prints (suc fuel) (percent ∷ ps) enough good =
    let (out, go, prints) = loop-Prints fuel ps (omega (arith, enough)) good.1 in
    (
      37 ∷ out,
      flagged_round fuel (37 ∷ format_of ps) (format_of ps) (args_of ps) (args_of ps) (37 ∷ []) out
          refl go,
      (37 ∷ [], out, refl, refl, prints),
    )
loop-Prints (suc fuel) (char v ∷ ps) enough good =
    let (out, go, prints) = loop-Prints fuel ps (omega (arith, enough)) good.1 in
    let byte : v % 2 ^ 8 ≡ v = omega (arith, good.0) in
    (
      v ∷ out,
      flagged_round fuel (99 ∷ format_of ps) (format_of ps) (args_of (char v ∷ ps)) (args_of ps)
          (v ∷ []) out (ap (λ (b : ℕ). some (b ∷ [], format_of ps, args_of ps)) byte) go,
      (v ∷ [], out, refl, refl, prints),
    )
loop-Prints (suc fuel) (string s ∷ ps) enough good =
    let (out, go, prints) = loop-Prints fuel ps (omega (arith, enough)) good.1 in
    (
      s ++ out,
      flagged_round fuel (115 ∷ format_of ps) (format_of ps) (args_of (string s ∷ ps)) (args_of ps)
          s out refl go,
      (s, out, refl, refl, prints),
    )
loop-Prints (suc fuel) (number zeros width c v ∷ ps) enough good =
    let cs = fill_text zeros ++ (width_text width ++ (letter c ∷ [])) in
    let (out, go, prints) =
      loop-Prints fuel ps (omega (arith, enough, length-append cs (format_of ps))) good.1 in
    let (first, e, first_prints) =
      print_number-Prints zeros width v c (format_of ps) (args_of ps) good.0.0 good.0.1 in
    let joined =
      append_assoc (fill_text zeros) (width_text width ++ (letter c ∷ [])) (format_of ps) in
    (
      first ++ out,
      flagged_round fuel (cs ++ format_of ps) (format_of ps) (word v ∷ args_of ps) (args_of ps)
          first out
          (ap (λ (l : List ℕ). print_flagged conversion_loop l (word v ∷ args_of ps)) joined ∙ e)
          go,
      (first, out, refl, first_prints, prints),
    )

-- Where the pieces of a format and the strings have no character 0, its literal characters are not '%', the
-- characters to print are bytes and the numbers words, and each width is a digit, `vprintf` ends, and it
-- prints the pieces one after the other. For a number this is a '-' if it is negative and printed with 'd',
-- then as many zeros, if the flag is set, or spaces, as the number has fewer digits than the width, and then
-- exactly its digits in the base, without the sign.
pub vprintf-Prints :
    (ps : List Piece)
    → All IsPiece ps
    → (out : List ℕ) × (vprintf (format_of ps) (args_of ps) ≡ some out) × Prints ps out
unfolding vprintf
vprintf-Prints ps good = loop-Prints (length (format_of ps) + 1) ps (omega arith) good
