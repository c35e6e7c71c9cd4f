-- ===== src/Facade.antt =====
-- The facades of CommonJS sources: ES modules that run the source and export what it seems to export
-- (src/worker/modules.rs). serde_json and the parser of deno_ast are arguments.
pub mod Exports
pub mod Requires
pub mod Code
pub mod Fuel
pub mod Names
use deno_director.Prelude.{
  ℕ, ◌+◌, ◌⊎◌, inl, inr, Bool, true, false, Option, none, some, List, [], ◌∷◌, ◌++◌, ◌==◌, list_eq,
  length, map, if◌then◌else◌,
}
use mathlib.Core.List.{reverse}
use deno_director.Prelude.Outcome.{Search, found, missing, crashed}
use deno_director.Prelude.Text.{Text, codes, decimal, as_bytes}
use deno_director.Resolve.{any_is, normalize_cjs_require_specifier}
use deno_director.Load.World.{Parsed}
use deno_director.Load.Cjs.{lines}
use Exports.{
  is_export_name, parse_exports_assignment_name, parse_module_exports_assignment_name,
  parse_define_property_export_name, parse_module_exports_object_literal_names,
}
use Requires.{scanned, slice_panics, out_of_fuel, remember, scan_calls}
use Code.{node_head, node_setup, node_require, node_end, eval_setup, eval_require, eval_end}

-- Names are remembered once each, the last one first.
unfoldable pub remember_all : List Text → List Text → List Text
remember_all seen [] = seen
remember_all seen (name ∷ names) = remember_all (remember seen name) names

unfoldable pub keep_names : List Text → List Text
keep_names [] = []
keep_names (name ∷ names) =
    let rest = keep_names names in if is_export_name name then name ∷ rest else rest

abbrev pub one_or_none : Option Text → List Text
one_or_none none = []
one_or_none (some name) = name ∷ []

unfoldable pub line_names : List Text → List Text
line_names [] = []
line_names (line ∷ rest) =
    one_or_none (parse_exports_assignment_name line)
    ++ (one_or_none (parse_module_exports_assignment_name line)
        ++ (one_or_none (parse_define_property_export_name line) ++ line_names rest))

abbrev pub parsed_exports : Text ⊎ Parsed → List Text
parsed_exports (inl e) = []
parsed_exports (inr parsed) = keep_names parsed.exports

abbrev parsed_reexports : Text ⊎ Parsed → List Text
parsed_reexports (inl e) = []
parsed_reexports (inr parsed) = parsed.reexports

unfoldable pub collect_cjs_named_exports : Text ⊎ Parsed → Text → List Text
collect_cjs_named_exports program source = reverse (
    remember_all
      (remember_all (remember_all [] (parsed_exports program)) (line_names (lines source)))
      (parse_module_exports_object_literal_names source))

abbrev with_norm : Text → Text × Text
with_norm raw = (raw, normalize_cjs_require_specifier raw)

-- The fuel is enough for any source.
unfoldable pub collect_cjs_require_specifiers : Text ⊎ Parsed → Text → Search (List (Text × Text))
collect_cjs_require_specifiers program source =
    elim (scan_calls (length (as_bytes source) + 1) (remember_all [] (parsed_reexports program))
      (as_bytes source)) [
        | scanned seen ↦ found (map with_norm (reverse seen))
        | slice_panics ↦ crashed
        | out_of_fuel ↦ crashed
      ]

abbrev reserved : List Text
reserved =
    codes "await"
    ∷ codes "break"
    ∷ codes "case"
    ∷ codes "catch"
    ∷ codes "class"
    ∷ codes "const"
    ∷ codes "continue"
    ∷ codes "debugger"
    ∷ codes "default"
    ∷ codes "delete"
    ∷ codes "do"
    ∷ codes "else"
    ∷ codes "enum"
    ∷ codes "export"
    ∷ codes "extends"
    ∷ codes "false"
    ∷ codes "finally"
    ∷ codes "for"
    ∷ codes "function"
    ∷ codes "if"
    ∷ codes "implements"
    ∷ codes "import"
    ∷ codes "in"
    ∷ codes "instanceof"
    ∷ codes "interface"
    ∷ codes "let"
    ∷ codes "new"
    ∷ codes "null"
    ∷ codes "package"
    ∷ codes "private"
    ∷ codes "protected"
    ∷ codes "public"
    ∷ codes "return"
    ∷ codes "static"
    ∷ codes "super"
    ∷ codes "switch"
    ∷ codes "this"
    ∷ codes "throw"
    ∷ codes "true"
    ∷ codes "try"
    ∷ codes "typeof"
    ∷ codes "var"
    ∷ codes "void"
    ∷ codes "while"
    ∷ codes "with"
    ∷ codes "yield"
    ∷ []

unfoldable pub is_js_reserved_word : Text → Bool
is_js_reserved_word name = any_is reserved name

-- A text behind another, where both could be made.
abbrev followed : Option Text → Option Text → Option Text
followed none rest = none
followed (some s) none = none
followed (some s) (some rest) = some (s ++ rest)

module _ (to_json : Text → Option Text) where
  abbrev import_line : ℕ → Text → Option Text
  import_line idx norm = elim (to_json norm) [
    | none ↦ none
    | some spec ↦
        some (codes "import * as __ddReq" ++ decimal idx ++ codes " from " ++ spec ++ codes ";\n")
  ]

  unfoldable pub import_lines : ℕ → List (Text × Text) → Option Text
  import_lines idx [] = some []
  import_lines idx ((raw, norm) ∷ requires) =
      followed (import_line idx norm) (import_lines (idx + 1) requires)

  abbrev map_line : ℕ → Text → Text
  map_line idx json =
      codes "__ddRequireMap.set(" ++ json ++ codes ", __ddReq" ++ decimal idx ++ codes ");\n"

  abbrev map_entry : ℕ → Bool → Option Text → Option Text → Option Text
  map_entry idx same none norm_json = none
  map_entry idx same (some raw_json) none = none
  map_entry idx same (some raw_json) (some norm_json) =
      some (map_line idx raw_json ++ (if same then [] else map_line idx norm_json))

  unfoldable pub map_lines : ℕ → List (Text × Text) → Option Text
  map_lines idx [] = some []
  map_lines idx ((raw, norm) ∷ requires) =
      followed (map_entry idx (raw == norm) (to_json raw) (to_json norm))
        (map_lines (idx + 1) requires)

  -- A reserved word is exported by an alias.
  abbrev export_line : Bool → ℕ → Text → Text → Text
  export_line true alias_idx name key =
      let alias : Text = codes "__ddExport_" ++ decimal alias_idx in
      codes "const "
      ++ alias
      ++ codes " = __ddNamed["
      ++ key
      ++ codes "];\n"
      ++ codes "export { "
      ++ alias
      ++ codes " as "
      ++ name
      ++ codes " };\n"
  export_line false alias_idx name key =
      codes "export const " ++ name ++ codes " = __ddNamed[" ++ key ++ codes "];\n"

  abbrev next_alias : Bool → ℕ → ℕ
  next_alias true alias_idx = alias_idx + 1
  next_alias false alias_idx = alias_idx

  abbrev export_text : Bool → ℕ → Text → Option Text → Option Text
  export_text word alias_idx name none = none
  export_text word alias_idx name (some key) = some (export_line word alias_idx name key)

  unfoldable pub export_lines : ℕ → List Text → Option Text
  export_lines alias_idx [] = some []
  export_lines alias_idx (name ∷ names) =
      let word = is_js_reserved_word name in
      followed (export_text word alias_idx name (to_json name))
        (export_lines (next_alias word alias_idx) names)

  abbrev assemble : List (Option Text) → Option Text
  assemble [] = some []
  assemble (part ∷ parts) = followed part (assemble parts)

  abbrev to_search : Option Text → Search Text
  to_search none = missing
  to_search (some s) = found s

  -- The two builders, with the texts of the source and of the URL in JSON. The calls of `require` are
  -- looked for once these could be made.
  unfoldable pub node_parts : Text → Text → List Text → Search (List (Text × Text)) → Search Text
  node_parts source_json resolved_json names crashed = crashed
  node_parts source_json resolved_json names missing = missing
  node_parts source_json resolved_json names (found requires) = to_search (
      assemble (
        some node_head
        ∷ import_lines 0 requires
        ∷ some (codes "const __ddUrl = " ++ resolved_json ++ codes ";\n")
        ∷ some node_setup
        ∷ map_lines 0 requires
        ∷ some node_require
        ∷ some (codes "const __ddWrapperSource = " ++ source_json ++ codes ";\n")
        ∷ some node_end
        ∷ export_lines 0 names
        ∷ []))

  unfoldable pub build_node_cjs_interop_source : Text ⊎ Parsed → Text → Text → Search Text
  build_node_cjs_interop_source program resolved source = elim (to_json source) [
    | none ↦ missing
    | some source_json ↦ elim (to_json resolved) [
      | none ↦ missing
      | some resolved_json ↦
          node_parts source_json resolved_json (collect_cjs_named_exports program source)
            (collect_cjs_require_specifiers program source)
    ]
  ]

  unfoldable pub eval_parts : Text → List Text → Search (List (Text × Text)) → Search Text
  eval_parts source_json names crashed = crashed
  eval_parts source_json names missing = missing
  eval_parts source_json names (found requires) = to_search (
      assemble (
        import_lines 0 requires
        ∷ some eval_setup
        ∷ map_lines 0 requires
        ∷ some eval_require
        ∷ some (codes "const __ddSource = " ++ source_json ++ codes ";\n")
        ∷ some eval_end
        ∷ export_lines 0 names
        ∷ []))

  unfoldable pub build_module_eval_cjs_source : Text ⊎ Parsed → Text → Search Text
  build_module_eval_cjs_source program source = elim (to_json source) [
    | none ↦ missing
    | some source_json ↦
        eval_parts source_json (collect_cjs_named_exports program source)
          (collect_cjs_require_specifiers program source)
  ]
