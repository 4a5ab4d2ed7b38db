-- ===== src/Mprintf/Pieces.antt =====
-- Formats of history/embedded-sw/lib/mprintf.c as lists of their parts, with the arguments and with what is
-- to be printed for them.
use bpm_gw.Base.{
  ℕ, ◌+◌, ◌^◌, ◌≤◌, ◌<◌, ◌≡◌, ◌≢◌, Bool, true, false, All, List, [], ◌∷◌, ◌++◌, ◌==◌, if◌then◌else◌,
}
use bpm_gw.Mprintf.{Arg, word, text}
use bpm_gw.Mprintf.Numbers.{Stored, sign, magnitude}

-- 'd', 'u' and 'x'
pub data Conversion : Type 0 where
  d u x : Conversion

abbrev pub letter : Conversion → ℕ
letter d = 100
letter u = 117
letter x = 120

abbrev pub base_of : Conversion → ℕ
base_of d = 10
base_of u = 10
base_of x = 16

abbrev pub is_signed : Conversion → Bool
is_signed d = true
is_signed u = false
is_signed x = false

-- A part of a format with its argument: a character, a '%', or a conversion; a number has whether it is
-- filled up with zeros, its width, with 0 for none, and its conversion.
pub data Piece : Type 0 where
  literal : ℕ → Piece
  percent : Piece
  char : ℕ → Piece
  string : List ℕ → Piece
  number : Bool → ℕ → Conversion → ℕ → Piece

-- A character 0 would end a string.
abbrev pub IsPiece : Piece → Type 0
IsPiece (literal c) = (c ≢ 37) × (c ≢ 0)
IsPiece percent = Unit {0}
IsPiece (char v) = v < 2 ^ 8
IsPiece (string s) = All (λ (c : ℕ). c ≢ 0) s
IsPiece (number zeros width c v) = (width ≤ 9) × (v < 2 ^ 32)

-- The flags as they are written.
abbrev pub fill_text : Bool → List ℕ
fill_text zeros = if zeros then 48 ∷ [] else []

abbrev pub width_text : ℕ → List ℕ
width_text width = if width == 0 then [] else (48 + width) ∷ []

-- The format and the arguments.
abbrev pub piece_format : Piece → List ℕ
piece_format (literal c) = c ∷ []
piece_format percent = 37 ∷ 37 ∷ []
piece_format (char v) = 37 ∷ 99 ∷ []
piece_format (string s) = 37 ∷ 115 ∷ []
piece_format (number zeros width c v) =
    37 ∷ fill_text zeros ++ (width_text width ++ (letter c ∷ []))

abbrev pub piece_args : Piece → List Arg
piece_args (literal c) = []
piece_args percent = []
piece_args (char v) = word v ∷ []
piece_args (string s) = text s ∷ []
piece_args (number zeros width c v) = word v ∷ []

abbrev pub format_of : List Piece → List ℕ
format_of [] = []
format_of (p ∷ ps) = piece_format p ++ format_of ps

abbrev pub args_of : List Piece → List Arg
args_of [] = []
args_of (p ∷ ps) = piece_args p ++ args_of ps

-- What is printed for a piece: for a number the sign, then zeros or spaces up to the width, then the digits
-- without a zero in front.
abbrev pub PiecePrints : Piece → List ℕ → Type 0
PiecePrints (literal c) out = out ≡ c ∷ []
PiecePrints percent out = out ≡ 37 ∷ []
PiecePrints (char v) out = out ≡ v ∷ []
PiecePrints (string s) out = out ≡ s
PiecePrints (number zeros width c v) out =
    (body : List ℕ) × (out ≡ sign (is_signed c) v ++ body)
    × Stored (base_of c) (if zeros then 48 else 32) width (magnitude (is_signed c) v) body

abbrev pub Prints : List Piece → List ℕ → Type 0
Prints [] out = out ≡ []
Prints (p ∷ ps) out =
    (first : List ℕ) × (rest : List ℕ) × (out ≡ first ++ rest)
    × PiecePrints p first
    × Prints ps rest
