-- ===== src/Prelude/Patterns.antt =====
-- Methods of Rust's `str` that look at the end of a text or rewrite it, on the texts of Text.
use deno_director.Prelude.Tests.{if◌then◌else◌, nat_beq}
use Prim.Native.Nat.{ℕ}
use mathlib.Core.Bool.{Bool, ◌&&◌}
use mathlib.Core.Option.{none, some}
use mathlib.Core.List.{[], ◌∷◌, ◌++◌, map, reverse}
use deno_director.Prelude.Text.{Text, starts_with, ascii_lower, split_once, rsplit_once}

unfoldable pub ends_with : Text → Text → Bool
ends_with s p = starts_with (reverse s) (reverse p)

unfoldable pub to_lowercase : Text → Text
to_lowercase s = map ascii_lower s

-- `str::replace` of a character by a text.
unfoldable pub replace_char : Text → ℕ → Text → Text
replace_char [] c t = []
replace_char (d ∷ s) c t =
    let rest = replace_char s c t in if nat_beq d c then t ++ rest else d ∷ rest

-- `trim_start_matches("./")`
unfoldable pub trim_start_here : Text → Text
trim_start_here [] = []
trim_start_here (c ∷ []) = c ∷ []
trim_start_here (c ∷ d ∷ s) =
    let rest = trim_start_here s in if nat_beq c b'.' && nat_beq d b'/' then rest else c ∷ d ∷ s

-- The first part of `split` at a character, and that of `rsplit`.
unfoldable pub before_first : Text → ℕ → Text
before_first s c = elim (split_once s c) [ none ↦ s | some w ↦ w.0 ]

unfoldable pub after_last : Text → ℕ → Text
after_last s c = elim (rsplit_once s c) [ none ↦ s | some w ↦ w.1 ]
