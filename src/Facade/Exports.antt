-- ===== src/Facade/Exports.antt =====
-- The names that a CommonJS source seems to export: the scanners for lines and for an object literal in
-- src/worker/modules.rs.
use deno_director.Prelude.{
  ℕ, ◌-◌, Bool, true, false, not, ◌&&◌, ◌||◌, Option, none, some, List, [], ◌∷◌, ◌==◌, list_eq,
  zero, suc, leb, nat_beq, if◌then◌else◌,
}
use mathlib.Core.List.{reverse}
use deno_director.Prelude.Outcome.{or_try}
use deno_director.Prelude.Text.{
  Text, codes, trim, trim_start, is_empty, starts_with, strip_prefix, split_once, byte_len,
}
use deno_director.Prelude.Patterns.{ends_with}
use deno_director.Registry.Names.{is_ascii_alphanumeric}

abbrev is_ascii_alphabetic : ℕ → Bool
is_ascii_alphabetic c = (leb b'a' c && leb c b'z') || (leb b'A' c && leb c b'Z')

abbrev is_mark : ℕ → Bool
is_mark c = nat_beq c b'_' || nat_beq c b'$'

unfoldable pub all_identifier : Text → Bool
all_identifier [] = true
all_identifier (c ∷ s) = (is_mark c || is_ascii_alphanumeric c) && all_identifier s

unfoldable pub is_js_identifier : Text → Bool
is_js_identifier [] = false
is_js_identifier (c ∷ s) = (is_mark c || is_ascii_alphabetic c) && all_identifier s

-- A name that the facade may export.
unfoldable pub is_export_name : Text → Bool
is_export_name name =
    is_js_identifier name && not (name == codes "default") && not (name == codes "__esModule")

-- `trim_end_matches(';')`
unfoldable pub trim_end_semicolons : Text → Text
trim_end_semicolons s = reverse (drop_semicolons (reverse s))
  where
    drop_semicolons : Text → Text
    drop_semicolons [] = []
    drop_semicolons (c ∷ s) = let rest = drop_semicolons s in if nat_beq c b';' then rest else c ∷ s

abbrev pub statement : Text → Text
statement line = trim (trim_end_semicolons (trim line))

abbrev pub checked : Text → Option Text
checked name = if is_export_name name then some name else none

-- The name between a prefix and an equals sign.
unfoldable pub assigned_name : Text → Text → Option Text
assigned_name prefix line = elim (strip_prefix (statement line) prefix) [
  | none ↦ none
  | some rest ↦ elim (split_once rest b'=') [ none ↦ none | some w ↦ checked (trim w.0) ]
]

unfoldable pub parse_exports_assignment_name : Text → Option Text
parse_exports_assignment_name line = assigned_name (codes "exports.") line

unfoldable pub parse_module_exports_assignment_name : Text → Option Text
parse_module_exports_assignment_name line = assigned_name (codes "module.exports.") line

-- A text that starts with a quote, up to the next one. The test of the name leaves `default` out.
unfoldable pub quoted_name : Text → Option Text
quoted_name [] = none
quoted_name (c ∷ s) =
    if nat_beq c b'"' || nat_beq c b'\''
    then (elim (split_once s c) [
      | none ↦ none
      | some w ↦
          if trim w.0 == codes "__esModule" || not (is_js_identifier (trim w.0))
          then none
          else some (trim w.0)
    ])
    else none

unfoldable pub parse_define_property_export_name : Text → Option Text
parse_define_property_export_name line =
    let s = statement line in
    elim (or_try (strip_prefix s (codes "Object.defineProperty(exports, "))
      (strip_prefix s (codes "Object.defineProperty(module.exports, "))) [
        | none ↦ none
        | some rest ↦ quoted_name rest
      ]

-- What stands behind the first occurrence of a text.
unfoldable pub behind_text : Text → Text → Option Text
behind_text [] p = strip_prefix [] p
behind_text (c ∷ s) p = or_try (strip_prefix (c ∷ s) p) (behind_text s p)

-- The text between the brace at the start and the one that closes it, with the braces inside. The depth
-- is at least one where a character is looked at, once the first brace is read.
unfoldable pub body_at : ℕ → Text → Text
body_at depth [] = []
body_at depth (c ∷ s) =
    let deeper = body_at (suc depth) s in
    let higher = body_at (depth - 1) s in
    let same = body_at depth s in
    if nat_beq c b'{'
    then c ∷ deeper
    else if nat_beq c b'}'
    then (elim depth [ zero ↦ [] | suc n ↦ elim n [ zero ↦ [] | suc m ↦ c ∷ higher ] ])
    else c ∷ same

unfoldable pub split_commas : Text → List Text
split_commas [] = [] ∷ []
split_commas (c ∷ s) =
    let rest = split_commas s in
    if nat_beq c b','
    then [] ∷ rest
    else elim rest [ [] ↦ (c ∷ []) ∷ [] | part ∷ others ↦ (c ∷ part) ∷ others ]

abbrev pub key_of : Text → Text
key_of segment = elim (split_once segment b':') [ none ↦ segment | some w ↦ trim w.0 ]

-- A key without the quotes around it, of which there have to be two.
abbrev quoted_by : Text → Text → Bool
quoted_by key q = starts_with key q && ends_with key q

abbrev inner : Text → Text
inner [] = []
inner (c ∷ s) = reverse (elim (reverse s) [ [] ↦ [] | d ∷ t ↦ t ])

unfoldable pub unquoted : Text → Text
unquoted key =
    if leb 2 (byte_len key) && (quoted_by key (codes "\"") || quoted_by key (codes "'"))
    then inner key
    else key

unfoldable pub literal_names : List Text → List Text
literal_names [] = []
literal_names (raw ∷ raws) =
    let rest = literal_names raws in
    let segment = trim raw in
    if is_empty segment
    then rest
    else if is_export_name (unquoted (key_of segment))
    then unquoted (key_of segment) ∷ rest
    else rest

-- The keys of an object literal at the start of a text.
abbrev pub object_names : Text → List Text
object_names [] = []
object_names (c ∷ s) = if nat_beq c b'{' then literal_names (split_commas (body_at 1 s)) else []

abbrev pub names_behind : Option Text → List Text
names_behind none = []
names_behind (some after_eq) = object_names (trim_start after_eq)

-- The first of the two spellings is looked for in the whole source before the second one.
unfoldable pub parse_module_exports_object_literal_names : Text → List Text
parse_module_exports_object_literal_names source = names_behind (
    or_try (behind_text source (codes "module.exports ="))
      (behind_text source (codes "module.exports=")))
