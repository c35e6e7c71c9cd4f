-- ===== src/Facade/Requires.antt =====
-- The literal `require` calls of a CommonJS source: `collect_cjs_require_specifiers` of
-- src/worker/modules.rs, which goes over the bytes of the source and takes each for a character. A slice
-- that starts behind the end of the source, or inside a character, panics.
use deno_director.Prelude.{
  ℕ, zero, suc, Bool, true, false, not, ◌&&◌, ◌||◌, none, some, List, [], ◌∷◌, list_eq, leb,
  nat_beq, if◌then◌else◌,
}
use deno_director.Prelude.Text.{Text, codes}
use deno_director.Resolve.{any_is}
use deno_director.Facade.Exports.{behind_text}

pub data Scan : Type 0 where
  scanned : List Text → Scan
  slice_panics : Scan
  out_of_fuel : Scan

abbrev pub is_ascii_whitespace : ℕ → Bool
is_ascii_whitespace b =
    nat_beq b 0x20 || nat_beq b 0x09 || nat_beq b 0x0A || nat_beq b 0x0C || nat_beq b 0x0D

unfoldable pub skip_whitespace : List ℕ → List ℕ
skip_whitespace [] = []
skip_whitespace (b ∷ bs) =
    let rest = skip_whitespace bs in if is_ascii_whitespace b then rest else b ∷ bs

-- The literal up to its closing quote, or to the end, and the bytes behind it. A backslash takes the next
-- byte as it is.
unfoldable pub read_literal : ℕ → Bool → List ℕ → Text × List ℕ
read_literal quote escaped [] = ([], [])
read_literal quote true (b ∷ bs) = let (raw, rest) = read_literal quote false bs in (b ∷ raw, rest)
read_literal quote false (b ∷ bs) =
    let (raw, rest) = read_literal quote false bs in
    let after_escape = read_literal quote true bs in
    if nat_beq b b'\\' then after_escape else if nat_beq b quote then ([], bs) else (b ∷ raw, rest)

-- `is_char_boundary` for the start of these bytes.
abbrev pub at_boundary : List ℕ → Bool
at_boundary [] = true
at_boundary (b ∷ bs) = not (leb 0x80 b && leb b 0xBF)

-- The literals that were found are in reverse order.
unfoldable pub remember : List Text → Text → List Text
remember seen raw = if any_is seen raw then seen else raw ∷ seen

abbrev closes : List ℕ → Bool
closes [] = false
closes (b ∷ bs) = nat_beq b b')'

abbrev pub with_literal : List Text → Text → List ℕ → List Text
with_literal seen raw rest = if closes rest then remember seen raw else seen

abbrev pub is_quote : ℕ → Bool
is_quote b = nat_beq b b'"' || nat_beq b b'\''

-- The bytes behind the next call, and one round of the loop for what stands there.
unfoldable pub scan_calls : ℕ → List Text → List ℕ → Scan
scan_calls zero seen bytes = out_of_fuel
scan_calls (suc fuel) seen bytes = elim (behind_text bytes (codes "require(")) [
  | none ↦ scanned seen
  | some start ↦ elim (skip_whitespace start) [
    | [] ↦ scanned seen
    | quote ∷ body ↦
        let skipped = scan_calls fuel seen start in
        let (raw, after) = read_literal quote false body in
        let rest = skip_whitespace after in
        if not (is_quote quote) then skipped else elim rest [
          | [] ↦ slice_panics
          | b ∷ next ↦
              let later = scan_calls fuel (with_literal seen raw (b ∷ next)) next in
              if at_boundary next then later else slice_panics
        ]
  ]
]
