-- ===== src/Dotenv.antt =====
-- Environment files and the environment of a worker's options (src/worker/state.rs): the strict parser
-- of `KEY=VALUE` lines, and the entries with valid keys.
pub mod Quoted
use deno_director.Prelude.{
  ℕ, Bool, false, ◌&&◌, ◌||◌, Option, none, some, List, [], ◌∷◌, nat_beq, list_eq, if◌then◌else◌,
}
use mathlib.Core.List.{reverse}
use deno_director.Prelude.Dict.{Dict, insert}
use deno_director.Prelude.Text.{Text, codes, trim, is_empty, starts_with, strip_prefix, split_once}
use deno_director.Bridge.Json
use deno_director.Bridge.Json.{Json, Fields}
use deno_director.Env.{valid_env_key}

abbrev drop_cr : Text → Text
drop_cr [] = []
drop_cr (c ∷ s) = if nat_beq c 13 then s else c ∷ s

-- `str::lines`; the line so far is reversed.
unfoldable pub lines_from : Text → Text → List Text
lines_from [] [] = []
lines_from (d ∷ line) [] = reverse (d ∷ line) ∷ []
lines_from line (c ∷ s) =
    let next = lines_from [] s in
    let same = lines_from (c ∷ line) s in
    if nat_beq c 10 then reverse (drop_cr line) ∷ next else same

abbrev pub lines : Text → List Text
lines = lines_from []

-- The text before the last character, and that character.
unfoldable pub split_last : Text → Option (Text × ℕ)
split_last [] = none
split_last (c ∷ s) = elim (split_last s) [ none ↦ some ([], c) | some w ↦ some (c ∷ w.0, w.1) ]

abbrev pub is_quote : ℕ → Bool
is_quote c = nat_beq c b'"' || nat_beq c b'\''

-- The value without the quote that stands at both of its ends.
abbrev pub inner_of : ℕ → Text → Option (Text × ℕ) → Text
inner_of q rest none = q ∷ rest
inner_of q rest (some w) = if is_quote q && nat_beq q w.1 then w.0 else q ∷ rest

abbrev pub unquoted : Text → Text
unquoted [] = []
unquoted (q ∷ rest) = inner_of q rest (split_last rest)

unfoldable pub unquote : Text → Text
unquote s = unquoted (trim s)

-- What stands before the first " #".
unfoldable pub before_comment : Text → Text
before_comment [] = []
before_comment (c ∷ s) =
    let rest = before_comment s in if starts_with (c ∷ s) (codes " #") then [] else c ∷ rest

-- `trim_start_matches("export ")`, which takes as many as there are.
unfoldable pub strip_exports : Text → Text → Text
strip_exports [] s = s
strip_exports (c ∷ fuel) s = elim (strip_prefix s (codes "export ")) [
  | none ↦ s
  | some rest ↦ strip_exports fuel rest
]

abbrev pub starts_quoted : Text → Bool
starts_quoted [] = false
starts_quoted (c ∷ s) = is_quote c

unfoldable pub value_of : Text → Text
value_of rest =
    let val = trim rest in unquote (if starts_quoted val then val else trim (before_comment val))

abbrev pub assignment : Option (Text × Text) → Option (Text × Text)
assignment none = none
assignment (some w) = if is_empty (trim w.0) then none else some (trim w.0, value_of w.1)

abbrev pub without_export : Text → Text
without_export l = if starts_with l (codes "export ") then trim (strip_exports l l) else l

unfoldable pub parse_line : Text → Option (Text × Text)
parse_line line =
    let l = trim line in
    if is_empty l || starts_with l (codes "#")
    then none
    else assignment (split_once (without_export l) b'=')

abbrev and_then : Option (Text × Text) → List (Text × Text) → List (Text × Text)
and_then none l = l
and_then (some entry) l = entry ∷ l

unfoldable pub parse_lines : List Text → List (Text × Text)
parse_lines [] = []
parse_lines (line ∷ rest) = and_then (parse_line line) (parse_lines rest)

unfoldable pub parse_dotenv_text_strict : Text → List (Text × Text)
parse_dotenv_text_strict text = parse_lines (lines text)

-- The entries with valid keys; a later one replaces an earlier one.
unfoldable pub collect_valid : Dict Text Text → List (Text × Text) → Dict Text Text
collect_valid m [] = m
collect_valid m ((k, v) ∷ pairs) = collect_valid (if valid_env_key k then insert m k v else m) pairs

-- `load_dotenv_file_strict` of a file with this text.
unfoldable pub load_dotenv_text : Text → Dict Text Text
load_dotenv_text text = collect_valid [] (parse_dotenv_text_strict text)

module _ {N : Type 0} where
  unfoldable pub string_fields : Fields N → List (Text × Text)
  string_fields Json.end = []
  string_fields (Json.field k (Json.string s) m) = (k, s) ∷ string_fields m
  string_fields (Json.field k Json.null m) = string_fields m
  string_fields (Json.field k (Json.bool b) m) = string_fields m
  string_fields (Json.field k (Json.number n) m) = string_fields m
  string_fields (Json.field k (Json.array a) m) = string_fields m
  string_fields (Json.field k (Json.object o) m) = string_fields m

  unfoldable pub env_map_from_js_object : Json N → Dict Text Text
  env_map_from_js_object (Json.object m) = collect_valid [] (string_fields m)
  env_map_from_js_object Json.null = []
  env_map_from_js_object (Json.bool b) = []
  env_map_from_js_object (Json.number n) = []
  env_map_from_js_object (Json.string s) = []
  env_map_from_js_object (Json.array a) = []
