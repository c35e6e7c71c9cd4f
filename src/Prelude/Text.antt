-- ===== src/Prelude/Text.antt =====
-- Rust's `str` as the list of its code points, with the methods of the standard library that the
-- program calls.
use Prim.Native.Nat.{ℕ, zero, suc, ◌+◌, ◌-◌, ◌*◌, ◌/◌, ◌%◌}
use Prim.Native.Char.{code}
use Prim.Native.String.{String}
use mathlib.Core.Bool.{Bool, true, false, ◌&&◌, ◌||◌}
use mathlib.Core.Option.{Option, none, some}
use mathlib.Core.List.{List, [], ◌∷◌, ◌++◌, reverse}
use deno_director.Prelude.Tests.{ltb, leb, nat_beq, if◌then◌else◌}

abbrev pub Text : Type 0
Text = List ℕ

-- The code points of a literal.
abbrev pub codes : String → Text
codes String.[] = []
codes (String.◌∷◌ c s) = code c ∷ codes s

-- The bytes that UTF-8 needs for a code point.
unfoldable pub utf8_width : ℕ → ℕ
utf8_width c = if ltb c 0x80 then 1 else if ltb c 0x800 then 2 else if ltb c 0x10000 then 3 else 4

-- `str::len` counts bytes.
unfoldable pub byte_len : Text → ℕ
unfolding utf8_width
byte_len [] = 0
byte_len (c ∷ s) = utf8_width c + byte_len s

-- The bytes of a code point, and `str::as_bytes`.
abbrev utf8_char : ℕ → List ℕ
utf8_char c =
    if ltb c 0x80
    then c ∷ []
    else if ltb c 0x800
    then (0xC0 + c / 0x40) ∷ (0x80 + c % 0x40) ∷ []
    else if ltb c 0x10000
    then (0xE0 + c / 0x1000) ∷ (0x80 + c / 0x40 % 0x40) ∷ (0x80 + c % 0x40) ∷ []
    else (0xF0 + c / 0x40000)
      ∷ (0x80 + c / 0x1000 % 0x40)
      ∷ (0x80 + c / 0x40 % 0x40)
      ∷ (0x80 + c % 0x40)
      ∷ []

unfoldable pub as_bytes : Text → List ℕ
as_bytes [] = []
as_bytes (c ∷ s) = utf8_char c ++ as_bytes s

abbrev pub is_empty : Text → Bool
is_empty [] = true
is_empty (c ∷ s) = false

-- The code points with the property White_Space.
unfoldable pub is_whitespace : ℕ → Bool
is_whitespace c =
    (leb 9 c && leb c 13)
    || nat_beq c 0x20
    || nat_beq c 0x85
    || nat_beq c 0xA0
    || nat_beq c 0x1680
    || (leb 0x2000 c && leb c 0x200A)
    || nat_beq c 0x2028
    || nat_beq c 0x2029
    || nat_beq c 0x202F
    || nat_beq c 0x205F
    || nat_beq c 0x3000

unfoldable pub trim_start : Text → Text
unfolding is_whitespace
trim_start [] = []
trim_start (c ∷ s) = if is_whitespace c then trim_start s else c ∷ s

unfoldable pub trim : Text → Text
unfolding trim_start
trim s = reverse (trim_start (reverse (trim_start s)))

unfoldable pub starts_with : Text → Text → Bool
starts_with s [] = true
starts_with [] (c ∷ p) = false
starts_with (d ∷ s) (c ∷ p) = nat_beq c d && starts_with s p

-- `str::contains` of one character.
unfoldable pub contains_char : Text → ℕ → Bool
contains_char [] c = false
contains_char (d ∷ s) c = nat_beq d c || contains_char s c

abbrev is_digit : ℕ → Bool
is_digit c = leb 48 c && leb c 57

-- The digits that are left, with a checked multiplication and addition at each.
unfoldable pub parse_digits : ℕ → ℕ → Text → Option ℕ
parse_digits limit acc [] = some acc
parse_digits limit acc (c ∷ s) =
    let next = acc * 10 + (c - 48) in
    let rest = parse_digits limit next s in if is_digit c && ltb next limit then rest else none

-- `str::parse` for an unsigned integer type with the values below `limit`.
unfoldable pub parse_unsigned : ℕ → Text → Option ℕ
unfolding parse_digits
parse_unsigned limit [] = none
parse_unsigned limit (c ∷ []) = parse_digits limit 0 (c ∷ [])
parse_unsigned limit (c ∷ d ∷ s) =
    parse_digits limit 0 (if nat_beq c b'+' then d ∷ s else c ∷ d ∷ s)

abbrev pub parse_u32 : Text → Option ℕ
parse_u32 = parse_unsigned 0x1_0000_0000

abbrev pub parse_u16 : Text → Option ℕ
parse_u16 = parse_unsigned 0x1_0000

unfoldable pub ascii_lower : ℕ → ℕ
ascii_lower c = if leb 65 c && leb c 90 then c + 32 else c

unfoldable pub eq_ignore_ascii_case : Text → Text → Bool
unfolding ascii_lower
eq_ignore_ascii_case [] [] = true
eq_ignore_ascii_case [] (d ∷ t) = false
eq_ignore_ascii_case (c ∷ s) [] = false
eq_ignore_ascii_case (c ∷ s) (d ∷ t) =
    nat_beq (ascii_lower c) (ascii_lower d) && eq_ignore_ascii_case s t

unfoldable pub strip_prefix : Text → Text → Option Text
strip_prefix s [] = some s
strip_prefix [] (c ∷ p) = none
strip_prefix (d ∷ s) (c ∷ p) = let rest = strip_prefix s p in if nat_beq c d then rest else none

-- `str::contains` of a text.
unfoldable pub contains_text : Text → Text → Bool
unfolding starts_with
contains_text [] p = starts_with [] p
contains_text (c ∷ s) p = starts_with (c ∷ s) p || contains_text s p

-- `split_once` and `rsplit_once` at a character.
unfoldable pub split_once : Text → ℕ → Option (Text × Text)
split_once [] c = none
split_once (d ∷ s) c =
    if nat_beq d c
    then some ([], s)
    else elim (split_once s c) [ none ↦ none | some w ↦ some (d ∷ w.0, w.1) ]

unfoldable pub rsplit_once : Text → ℕ → Option (Text × Text)
rsplit_once [] c = none
rsplit_once (d ∷ s) c = elim (rsplit_once s c) [
  | some w ↦ some (d ∷ w.0, w.1)
  | none ↦ if nat_beq d c then some ([], s) else none
]

unfoldable pub count_char : Text → ℕ → ℕ
count_char [] c = 0
count_char (d ∷ s) c = (if nat_beq d c then 1 else 0) + count_char s c

unfoldable pub trim_start_char : Text → ℕ → Text
trim_start_char [] c = []
trim_start_char (d ∷ s) c = let rest = trim_start_char s c in if nat_beq d c then rest else d ∷ s

decimal_digits : ℕ → ℕ → Text → Text
decimal_digits zero n acc = acc
decimal_digits (suc fuel) n acc =
    let next : Text = (48 + n % 10) ∷ acc in
    let rest = decimal_digits fuel (n / 10) next in if ltb n 10 then next else rest

-- `to_string` of an unsigned integer. A number has no more digits than its value plus one.
unfoldable pub decimal : ℕ → Text
unfolding decimal_digits
decimal n = decimal_digits (n + 1) n []
