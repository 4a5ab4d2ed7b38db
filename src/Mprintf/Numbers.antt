-- ===== src/Mprintf/Numbers.antt =====
-- The numbers of history/embedded-sw/lib/mprintf.c: their signs, what they are filled up with, and their digits.
use bpm_gw.Base.{
  ℕ, zero, suc, ◌-◌, ◌%◌, ◌^◌, ◌<◌, ◌≡◌, refl, sym, ap, ◌∙◌, Bool, ◌&&◌, Option, none, some, List,
  [], ◌∷◌, ◌++◌, leb, if◌then◌else◌, ◌>>=◌, length, append-nil, some_inj, arith,
}
use bpm_gw.Mprintf.{digit_loop, fill_loop, digit_fuel, conversion_loop}
use bpm_gw.Mprintf.Digits.{value, IsNumeral, IsBase, Digits, digit_loop-Digits}

-- Characters one after the other.
abbrev pub repeat : ℕ → ℕ → List ℕ
repeat zero c = []
repeat (suc n) c = c ∷ repeat n c

repeat-snoc : (n c : ℕ) (cs : List ℕ) → repeat n c ++ (c ∷ cs) ≡ c ∷ repeat n c ++ cs
repeat-snoc zero c cs = refl
repeat-snoc (suc n) c cs = ap (λ (l : List ℕ). c ∷ l) (repeat-snoc n c cs)

fill_loop-repeat :
    (width fill : ℕ) (stored : List ℕ) → fill_loop width fill stored ≡ repeat width fill ++ stored
unfolding fill_loop
fill_loop-repeat zero fill stored = refl
fill_loop-repeat (suc width) fill stored =
    fill_loop-repeat width fill (fill ∷ stored) ∙ repeat-snoc width fill stored

-- Whether a word is printed with a sign, and the number that is then printed.
abbrev pub is_negative : Bool → ℕ → Bool
is_negative signed word = signed && leb (2 ^ 31) word

abbrev pub magnitude : Bool → ℕ → ℕ
magnitude signed word = if is_negative signed word then (2 ^ 32 - word) % 2 ^ 32 else word

abbrev pub sign : Bool → ℕ → List ℕ
sign signed word = if is_negative signed word then 45 ∷ [] else []

-- What is stored for a word: its digits, and as many characters in front as they are fewer than the
-- width.
abbrev pub Stored : ℕ → ℕ → ℕ → ℕ → List ℕ → Type 0
Stored base fill width word body =
    (digits : List ℕ) × (body ≡ repeat (width - length digits) fill ++ digits)
    × IsNumeral base word digits
    × (length digits < 11)

number_text :
    (base fill width word : ℕ) (r : Option (ℕ × List ℕ))
    → Digits base word width 10 [] r
    → (body : List ℕ) × ((r >>= λ p. some (fill_loop p.0 fill p.1)) ≡ some body)
      × Stored base fill width word body
number_text base fill width word r h =
    let digits = h.first ∷ h.more in
    let result : r ≡ some (width - length digits, digits) =
      h.result
      ∙ ap (λ (l : List ℕ). some (width - length digits, h.first ∷ l)) (append-nil h.more) in
    (
      fill_loop (width - length digits) fill digits,
      rw result refl,
      (
        digits,
        fill_loop-repeat (width - length digits) fill digits,
        (
          ap (λ (l : List ℕ). value base 0 (h.first ∷ l)) (sym (append-nil h.more)) ∙ h.reads [],
          h.digits,
          h.no_zero,
          h.single,
        ),
        omega (arith, h.few),
      ),
    )

in_front :
    (s : List ℕ) (o : Option (ℕ × List ℕ)) (f : ℕ × List ℕ → List ℕ) (body : List ℕ)
    → (o >>= λ p. some (f p)) ≡ some body
    → (o >>= λ p. some (s ++ f p)) ≡ some (s ++ body)
in_front s none f body e = absurd (ground (arith, e))
in_front s (some p) f body e = ap (λ (l : List ℕ). some (s ++ l)) (some_inj e)

-- For a word and base 10 or 16, `CONVERSION_LOOP` of `vprintf` ends. Behind a '-' for a negative number, it
-- writes the digits of the number without its sign, and in front of them as often the character to fill up
-- with as they are fewer than the width.
pub conversion_loop-Stored :
    (signed : Bool) (base fill width word : ℕ)
    → IsBase base
    → word < 2 ^ 32
    → (body : List ℕ) × (conversion_loop signed base fill width word
        ≡ some (sign signed word ++ body))
      × Stored base fill width (magnitude signed word) body
unfolding conversion_loop
conversion_loop-Stored signed base fill width word is_base small =
    let u_val = magnitude signed word in
    let below : u_val < 10 ^ 10 = ground (arith, small) in
    let (body, e, stored) =
      number_text base fill width u_val (digit_loop digit_fuel base u_val width []) (
        digit_loop-Digits 10 digit_fuel base u_val width [] is_base below (omega arith)
          (omega arith)) in
    (
      body,
      in_front (sign signed word) (digit_loop digit_fuel base u_val width [])
          (λ p. fill_loop p.0 fill p.1) body e,
      stored,
    )
