-- ===== src/Mprintf.antt =====
-- history/embedded-sw/lib/mprintf.c: formatted output.
-- A format and a string are their characters, without the zero at the end; the output is the bytes in
-- their order, those that `vprintf` gives to `uart_write_byte` or `_p_vsprintf` stores. `none` is a run
-- that reads behind the end of the format, or an argument that is not there or has another type, or fuel
-- that is used up. The two functions have the same loop but for the conversion of a number, which is an
-- argument of the loop here.
pub mod Numbers
pub mod Digits
pub mod Formats
pub mod Pieces
pub mod Printing
use bpm_gw.Base.{
  ℕ, zero, suc, ◌+◌, ◌-◌, ◌*◌, ◌/◌, ◌%◌, ◌^◌, Bool, true, false, ◌&&◌, ◌||◌, Option, none, some,
  List, [], ◌∷◌, ◌++◌, ◌==◌, ltb, leb, if◌then◌else◌, ◌>>=◌, length,
}

-- What `va_arg` finds.
pub data Arg : Type 0 where
  word : ℕ → Arg
  text : List ℕ → Arg

-- The digit as a character: `ch` has the letters from 'a' behind '9'.
abbrev pub digit_char : ℕ → ℕ
digit_char d = if ltb 57 (d + 48) then d + 48 + (97 - 57 - 1) else d + 48

-- The loop that divides, and the width that is left: the digits stand in front of what is stored.
unfoldable pub digit_loop : ℕ → ℕ → ℕ → ℕ → List ℕ → Option (ℕ × List ℕ)
digit_loop zero base u_val width stored = none
digit_loop (suc fuel) base u_val width stored =
    let stored' = digit_char (u_val % base) ∷ stored in
    let rest = digit_loop fuel base (u_val / base) (width - 1) stored' in
    let done : ℕ × List ℕ = (width - 1, stored') in if ltb 0 (u_val / base) then rest else some done

-- `while (width--) *--ptr = fill;`
unfoldable pub fill_loop : ℕ → ℕ → List ℕ → List ℕ
fill_loop zero fill stored = stored
fill_loop (suc width) fill stored = fill_loop width fill (fill ∷ stored)

-- A word has 32 digits at most.
abbrev pub digit_fuel : ℕ
digit_fuel = 32

-- `CONVERSION_LOOP` of `vprintf`: `signed` is whether the conversion is 'd'.
unfoldable pub conversion_loop : Bool → ℕ → ℕ → ℕ → ℕ → Option (List ℕ)
unfolding fill_loop
conversion_loop signed base fill width value =
    let negative = signed && leb (2 ^ 31) value in
    let u_val = if negative then (2 ^ 32 - value) % 2 ^ 32 else value in
    let sign : List ℕ = if negative then 45 ∷ [] else [] in
    digit_loop digit_fuel base u_val width [] >>= λ r. some (sign ++ fill_loop r.0 fill r.1)

-- `CONVERSION_LOOP` of `_p_vsprintf`, where the fill is commented out.
unfoldable pub plain_conversion_loop : Bool → ℕ → ℕ → ℕ → ℕ → Option (List ℕ)
plain_conversion_loop signed base fill width value =
    digit_loop digit_fuel base value width [] >>= λ r. some r.1

-- The flags behind a '%': the fill, the width and the rest.
abbrev pub zero_pad : List ℕ → ℕ × List ℕ
zero_pad [] = (32, [])
zero_pad (c ∷ cs) = if c == 48 then (48, cs) else (32, c ∷ cs)

abbrev pub width_spec : List ℕ → ℕ × List ℕ
width_spec [] = (0, [])
width_spec (c ∷ cs) = if ltb 48 c && leb c 57 then (c - 48, cs) else (0, c ∷ cs)

abbrev pub flags : List ℕ → ℕ × ℕ × List ℕ
flags cs = let (fill, cs1) = zero_pad cs in let (width, cs2) = width_spec cs1 in (fill, width, cs2)

-- The base of a conversion of a number.
abbrev pub conversion_base : ℕ → Option ℕ
conversion_base c = if c == 100 || c == 117 then some 10 else if c == 120 then some 16 else none

module _ (convert : Bool → ℕ → ℕ → ℕ → ℕ → Option (List ℕ)) where
  -- The conversion of one argument, and the arguments that are left.
  unfoldable pub print_number : ℕ → ℕ → ℕ → ℕ → List Arg → Option (List ℕ × List Arg)
  print_number base c fill width [] = none
  print_number base c fill width (text s ∷ args) = none
  print_number base c fill width (word v ∷ args) =
      convert (c == 100) base fill width (v % 2 ^ 32) >>= λ out. some (out, args)

  unfoldable pub print_string : List Arg → Option (List ℕ × List Arg)
  print_string [] = none
  print_string (word v ∷ args) = none
  print_string (text s ∷ args) = some (s, args)

  unfoldable pub print_char : List Arg → Option (List ℕ × List Arg)
  print_char [] = none
  print_char (text s ∷ args) = none
  print_char (word v ∷ args) = some (v % 2 ^ 8 ∷ [], args)

  -- The `switch` on the character behind the flags.
  unfoldable pub print_conversion : ℕ → ℕ → ℕ → List Arg → Option (List ℕ × List Arg)
  unfolding print_number print_string print_char
  print_conversion c fill width args =
      let other : Option (List ℕ × List Arg) = some (c ∷ [], args) in
      elim (conversion_base c) [
        | some base ↦ print_number base c fill width args
        | none ↦
            if c == 99
            then print_char args
            else if c == 83 || c == 115
            then print_string args
            else other
      ]

  -- Behind the flags. At the end of the format the zero is taken for a conversion, and the reading goes
  -- on behind it.
  unfoldable pub print_behind : ℕ × ℕ × List ℕ → List Arg → Option (List ℕ × List ℕ × List Arg)
  unfolding print_conversion
  print_behind (fill, width, []) args = none
  print_behind (fill, width, c ∷ rest) args =
      print_conversion c fill width args >>= λ r. some (r.0, rest, r.1)

  -- Behind a '%'.
  unfoldable pub print_flagged : List ℕ → List Arg → Option (List ℕ × List ℕ × List Arg)
  unfolding print_behind
  print_flagged cs args = print_behind (flags cs) args

  -- `while (1)`, one character at a time.
  unfoldable pub print_loop : ℕ → List ℕ → List Arg → Option (List ℕ)
  unfolding print_flagged
  print_loop zero cs args = none
  print_loop (suc fuel) [] args = some []
  print_loop (suc fuel) (c ∷ cs) args =
      if c == 37
      then (print_flagged cs args >>= λ r. print_loop fuel r.1 r.2 >>= λ out. some (r.0 ++ out))
      else (print_loop fuel cs args >>= λ out. some (c ∷ out))

-- One round for each character is enough.
unfoldable pub vprintf : List ℕ → List Arg → Option (List ℕ)
unfolding print_loop conversion_loop
vprintf format args = print_loop conversion_loop (length format + 1) format args

unfoldable pub p_vsprintf : List ℕ → List Arg → Option (List ℕ)
unfolding print_loop plain_conversion_loop
p_vsprintf format args = print_loop plain_conversion_loop (length format + 1) format args

abbrev pub mprintf : List ℕ → List Arg → Option (List ℕ)
mprintf format args = vprintf format args

-- The bytes that are stored, with the zero.
abbrev pub sprintf : List ℕ → List Arg → Option (List ℕ)
sprintf format args = p_vsprintf format args >>= λ out. some (out ++ (0 ∷ []))
