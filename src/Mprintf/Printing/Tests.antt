-- ===== src/Mprintf/Printing/Tests.antt =====
-- Texts of history/embedded-sw/lib/mprintf.c.
use bpm_gw.Base.{ℕ, ◌≡◌, refl, some, none, List, [], ◌∷◌, true, arith, inr}
use bpm_gw.Mprintf.{word, conversion_loop, plain_conversion_loop, digit_loop, vprintf, p_vsprintf}
use bpm_gw.Mprintf.Pieces.{Piece, literal, string, number, d, Prints, format_of, args_of}
use bpm_gw.Mprintf.Printing.{vprintf-Prints}
use bpm_gw.Mprintf.Formats.{vprintf-p_vsprintf}

-- "%05d:%s"
abbrev pieces : List Piece
pieces = number true 5 d 4294967288 ∷ literal 58 ∷ string (79 ∷ 75 ∷ []) ∷ []

-- "-00008:OK"
minus_eight :
    vprintf (format_of pieces) (args_of pieces)
    ≡ some (45 ∷ 48 ∷ 48 ∷ 48 ∷ 48 ∷ 56 ∷ 58 ∷ 79 ∷ 75 ∷ [])
unfolding vprintf conversion_loop digit_loop
minus_eight = refl

vprintf-Prints_example :
    (out : List ℕ) × (vprintf (format_of pieces) (args_of pieces) ≡ some out) × Prints pieces out
vprintf-Prints_example = vprintf-Prints pieces (
  (omega arith, omega arith),
  (
    ((λ e. omega (arith, e)), (λ e. omega (arith, e))),
    (((λ e. omega (arith, e)), ((λ e. omega (arith, e)), tt)), tt),
  ),
)

-- "%x" of 255 with "=" before it
vprintf-p_vsprintf_example :
    vprintf (61 ∷ 37 ∷ 120 ∷ []) (word 255 ∷ []) ≡ p_vsprintf (61 ∷ 37 ∷ 120 ∷ []) (word 255 ∷ [])
vprintf-p_vsprintf_example =
    vprintf-p_vsprintf (61 ∷ 37 ∷ 120 ∷ []) (word 255 ∷ [])
      ((λ e. absurd (omega (arith, e))), ((λ e. inr (omega arith)), ((λ e. tt), tt)))
      (omega arith, tt)

-- `_p_vsprintf` prints -1 with 'd' as 4294967295.
unsigned_minus_one :
    p_vsprintf (37 ∷ 100 ∷ []) (word 4294967295 ∷ [])
    ≡ some (52 ∷ 50 ∷ 57 ∷ 52 ∷ 57 ∷ 54 ∷ 55 ∷ 50 ∷ 57 ∷ 53 ∷ [])
unfolding p_vsprintf plain_conversion_loop digit_loop
unsigned_minus_one = refl

-- A '%' at the end of the format.
behind_the_end : vprintf (79 ∷ 37 ∷ []) [] ≡ none
unfolding vprintf
behind_the_end = refl
