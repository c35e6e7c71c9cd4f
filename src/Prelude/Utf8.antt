-- ===== src/Prelude/Utf8.antt =====
-- `String::from_utf8` of Rust: the bytes of a text, one after the other, with what the next one may be.
use deno_director.Prelude.Tests.{ltb, leb, nat_beq, if◌then◌else◌}
use Prim.Native.Nat.{ℕ, zero, suc, ◌+◌, ◌-◌, ◌*◌}
use mathlib.Core.Bool.{Bool, ◌&&◌}
use mathlib.Core.Option.{Option, none, some}
use mathlib.Core.List.{List, [], ◌∷◌}
use deno_director.Prelude.Text.{Text}

abbrev between : ℕ → ℕ → ℕ → Bool
between lo hi b = leb lo b && leb b hi

abbrev before : ℕ → Option Text → Option Text
before c none = none
before c (some s) = some (c ∷ s)

-- The code point that is being read, of which some bytes are missing, and the bounds of the next byte. The
-- bounds keep out long forms, surrogates and what lies above the last code point.
unfoldable pub utf8_from : ℕ → ℕ → ℕ → ℕ → List ℕ → Option Text
utf8_from zero acc lo hi [] = some []
utf8_from (suc missing) acc lo hi [] = none
utf8_from zero acc lo hi (b ∷ bs) =
    let ascii = utf8_from 0 0 0 0 bs in
    let two = utf8_from 1 (b - 0xC0) 0x80 0xBF bs in
    let three =
      utf8_from 2 (b - 0xE0) (if nat_beq b 0xE0 then 0xA0 else 0x80)
        (if nat_beq b 0xED then 0x9F else 0xBF) bs in
    let four =
      utf8_from 3 (b - 0xF0) (if nat_beq b 0xF0 then 0x90 else 0x80)
        (if nat_beq b 0xF4 then 0x8F else 0xBF) bs in
    if ltb b 0x80
    then before b ascii
    else if between 0xC2 0xDF b
    then two
    else if between 0xE0 0xEF b
    then three
    else if between 0xF0 0xF4 b
    then four
    else none
utf8_from (suc missing) acc lo hi (b ∷ bs) =
    let next = acc * 0x40 + (b - 0x80) in
    let whole = utf8_from 0 0 0 0 bs in
    let more = utf8_from missing next 0x80 0xBF bs in
    if between lo hi b then (elim missing [ zero ↦ before next whole | suc n ↦ more ]) else none

unfoldable pub from_utf8 : List ℕ → Option Text
from_utf8 bytes = utf8_from 0 0 0 0 bytes
