-- ===== src/Load/Cjs.antt =====
-- Which files are loaded as CommonJS (src/worker/modules.rs): the rules that force it, the look of the
-- source, and the cached classification by the parser.
use deno_director.Prelude.{
  ℕ, ◌⊎◌, inl, inr, Bool, true, false, not, ◌&&◌, ◌||◌, Option, none, some, List, [], ◌∷◌, ◌++◌,
  ◌==◌, list_eq, leb, length, nat_beq, if◌then◌else◌,
}
use deno_director.Prelude.Dict.{Dict, get, insert}
use deno_director.Prelude.Text.{
  Text, codes, trim_start, starts_with, strip_prefix, contains_text, contains_char,
}
use deno_director.Prelude.Patterns.{replace_char}
use deno_director.Paths.{FilePath, Files, join}
use deno_director.LoaderConfig.{
  Urls, DynamicModuleLoader, CjsInteropMode, disabled, node, CjsForcePathRule, literal, glob, regex,
}
use deno_director.Loader.{module_loader_cfg}
use deno_director.Load.World.{World, ModuleSyntaxClassification, LoaderState, Parsed}
use deno_director.Load.Packages.{Asked, at_once, entry_after, js_file_is_package_module}

abbrev pub is_node : CjsInteropMode → Bool
is_node disabled = false
is_node node = true

unfoldable pub looks_like_cjs_source : Text → Bool
looks_like_cjs_source source =
    contains_text source (codes "module.exports")
    || contains_text source (codes "exports.")
    || contains_text source (codes "exports[")
    || contains_text source (codes "require(")
    || contains_text source (codes "Object.defineProperty(exports")

abbrev starts_import : Text → Bool
starts_import t =
    starts_with t (codes "import ")
    || starts_with t (codes "import{")
    || starts_with t (codes "import*")
    || starts_with t (codes "import\"")
    || starts_with t (codes "import'")
    || starts_with t (codes "export ")
    || starts_with t (codes "export{")
    || starts_with t (codes "export*")

-- The parts of a text between line feeds. A carriage return at the end of a line and an empty last line
-- do not change how a line starts.
unfoldable pub lines : Text → List Text
lines [] = [] ∷ []
lines (c ∷ s) =
    let rest = lines s in
    if nat_beq c 10
    then [] ∷ rest
    else elim rest [ [] ↦ (c ∷ []) ∷ [] | line ∷ others ↦ (c ∷ line) ∷ others ]

unfoldable pub any_import : List Text → Bool
any_import [] = false
any_import (line ∷ rest) = starts_import (trim_start line) || any_import rest

unfoldable pub looks_like_esm_source : Text → Bool
looks_like_esm_source source = any_import (lines source)

unfoldable pub cjs_regex : Text → Text → Text
cjs_regex source flags =
    (if contains_char flags b'i' then codes "(?i)" else [])
    ++ (if contains_char flags b'm' then codes "(?m)" else [])
    ++ (if contains_char flags b's' then codes "(?s)" else [])
    ++ (if contains_char flags b'x' then codes "(?x)" else [])
    ++ source

module _ {N : Type 0} (U : Urls) (w : World N U) (l : DynamicModuleLoader N) where
  unfoldable pub normalized_path_for_match : FilePath → Text
  normalized_path_for_match path = replace_char (Files.to_text w.disk.files path) b'\\' (codes "/")

  unfoldable pub resolve_force_entry_path : Text → Text
  resolve_force_entry_path entry =
      normalized_path_for_match (join l.sandbox_root (Files.parse w.disk.files entry))

  -- The label of a rule that matches the path.
  unfoldable pub match_rule : Text → CjsForcePathRule → Option Text
  match_rule path (literal raw) =
      let target = resolve_force_entry_path raw in
      if path == target then some (codes "literal:" ++ raw) else elim (strip_prefix path target) [
        | none ↦ none
        | some rest ↦
            if starts_with rest (codes "/") then some (codes "literal-prefix:" ++ raw) else none
      ]
  match_rule path (glob raw) =
      if w.glob_matches (resolve_force_entry_path raw) path
      then some (codes "glob:" ++ raw)
      else none
  match_rule path (regex source flags) =
      if w.regex_matches (cjs_regex source flags) path
      then some (codes "regex:/" ++ source ++ codes "/" ++ flags)
      else none

  unfoldable pub match_rules : Text → List CjsForcePathRule → Option Text
  match_rules path [] = none
  match_rules path (rule ∷ rules) = elim (match_rule path rule) [
    | some label ↦ some label
    | none ↦ match_rules path rules
  ]

  unfoldable pub match_forced_cjs_rule : FilePath → Option Text
  match_forced_cjs_rule path =
      match_rules (normalized_path_for_match path) (module_loader_cfg l).cjs_force_paths

  abbrev filled : List Text → Bool
  filled [] = false
  filled (x ∷ xs) = true

  abbrev computed : Text → Text ⊎ Parsed → ModuleSyntaxClassification
  computed source (inr parsed) = record {
    cjs =
        parsed.is_script
        && (filled parsed.exports || filled parsed.reexports || looks_like_cjs_source source);
    esm = not parsed.is_script;
    parse_ok = true;
    parse_error = none;
    cache_hit = false;
  }
  computed source (inl e) = record {
    cjs = not (looks_like_esm_source source);
    esm = looks_like_esm_source source;
    parse_ok = false;
    parse_error = some e;
    cache_hit = false;
  }

  -- The extensions that the transpiler tells apart.
  unfoldable pub media_type_for_ext : Text → Text
  media_type_for_ext ext =
      if ext == codes "ts"
      then codes "TypeScript"
      else if ext == codes "tsx"
      then codes "Tsx"
      else if ext == codes "jsx"
      then codes "Jsx"
      else codes "JavaScript"

  unfoldable pub compute_classification : Text → Text → ModuleSyntaxClassification
  compute_classification media source = computed source (w.parse_program media source)

  abbrev pub syntax_cache_limit : ℕ
  syntax_cache_limit = 8192

  -- A full cache is emptied before something is added.
  unfoldable pub remember :
      Dict Text ModuleSyntaxClassification
      → Text
      → ModuleSyntaxClassification
      → Dict Text ModuleSyntaxClassification
  remember cache key c = insert (if leb syntax_cache_limit (length cache) then [] else cache) key c

  unfoldable pub classify_module_source :
      LoaderState → Text → Text → LoaderState × ModuleSyntaxClassification
  classify_module_source st ext source =
      let media = media_type_for_ext ext in
      let key = w.hash (some media ∷ some source ∷ []) in
      let fresh = compute_classification media source in
      elim (get st.syntax_cache key) [
        | some hit ↦ (st, record hit { cache_hit = true })
        | none ↦ (record st { syntax_cache = remember st.syntax_cache key fresh }, fresh)
      ]

  -- The package of a file is asked only if the file has the extension js and no look of CommonJS.
  unfoldable pub should_wrap_file_as_cjs :
      LoaderState → FilePath → Text → ModuleSyntaxClassification → Asked U
  should_wrap_file_as_cjs st path ext c =
      if not (is_node (module_loader_cfg l).cjs_interop)
      then at_once st false
      else if ext == codes "mjs" || ext == codes "mts"
      then at_once st false
      else if ext == codes "js"
      then (if c.cjs
          then at_once st true
          else entry_after U w path (js_file_is_package_module U w st path))
      else at_once st c.cjs
