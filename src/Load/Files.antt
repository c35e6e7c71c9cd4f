-- ===== src/Load/Files.antt =====
-- How the module loader of src/worker/modules.rs loads a file: as CommonJS behind a facade, as TypeScript,
-- or by Deno's own loader.
use deno_director.Prelude.{
  ◌⊎◌, inl, inr, Bool, true, false, not, ◌&&◌, ◌||◌, Option, none, some, List, [], ◌∷◌, ◌++◌, ◌==◌,
  list_eq, if◌then◌else◌,
}
use deno_director.Prelude.Dict.{is_some}
use deno_director.Prelude.Outcome.{Search, found, missing, crashed, Result, done, failed, panicked}
use deno_director.Prelude.Text.{Text, codes}
use deno_director.Prelude.Patterns.{to_lowercase, ends_with}
use deno_director.Paths.{FilePath}
use deno_director.Paths.Names.{extension}
use deno_director.LoaderConfig.{Urls, DynamicModuleLoader}
use deno_director.Loader.{module_loader_cfg}
use deno_director.Resolve.Sandbox.{original_spec_and_referrer, should_wrap_with_redirect}
use deno_director.Resolve.Wasm.{ModuleType, javascript, is_ts_like_ext, module_ext}
use deno_director.Load.World.{
  World, ModuleSyntaxClassification, ModuleSource, new, new_with_redirect, import_classified,
  Effect, emits, reads_source, loads_file, LoaderState, Outcome, Attempt,
}
use deno_director.Load.Transpile.{maybe_transpile_ts_like}
use deno_director.Facade.{build_node_cjs_interop_source}
use deno_director.Load.Packages.{Asked, at_once}
use deno_director.Load.Cjs.{
  is_node, looks_like_cjs_source, looks_like_esm_source, match_forced_cjs_rule,
  classify_module_source, should_wrap_file_as_cjs,
}

abbrev pub refuse : {U : Urls} {A : Type 0} → LoaderState → Text → Outcome U A
refuse st e = record { state = st; effects = []; result = failed e }

-- `map` on the result.
abbrev pub map_result : {A B : Type 0} → (A → B) → Result A → Result B
map_result f (done a) = done (f a)
map_result f (failed e) = failed e
map_result f panicked = panicked

-- An outcome that comes behind these effects.
abbrev pub behind : {U : Urls} {A : Type 0} → List (Effect (Urls.Url U)) → Outcome U A → Outcome U A
behind es o = record o { effects = es ++ o.effects }

module _ {N : Type 0} (U : Urls) (w : World N U) (l : DynamicModuleLoader N) where
  -- What one attempt gets is handed to the next one.
  abbrev pub then_transpile : Urls.Url U → Text → Attempt U Text → Attempt U Text
  then_transpile u ext a = elim a.result [
    | done code ↦
        (let b : Attempt U Text = maybe_transpile_ts_like U w l u ext code in
          record b { effects = a.effects ++ b.effects })
    | failed e ↦ record { effects = a.effects; result = failed e }
    | panicked ↦ record { effects = a.effects; result = panicked }
  ]

  abbrev pub ended :
      LoaderState
      → (Text → ModuleSource (Urls.Url U))
      → Attempt U Text
      → Outcome U (ModuleSource (Urls.Url U))
  ended st f a = record { state = st; effects = a.effects; result = map_result f a.result }

  -- A module whose requested URL only carried the import is redirected.
  unfoldable pub wrap : Urls.Url U → Urls.Url U → ModuleType → Text → ModuleSource (Urls.Url U)
  wrap requested resolved ty code =
      if should_wrap_with_redirect U requested
      then new_with_redirect ty code requested resolved
      else new ty code resolved

  abbrev pub is_disk : Urls.Url U → Bool
  is_disk u = Urls.scheme U u == codes "file"

  abbrev rewrapped : Urls.Url U → Urls.Url U → ModuleSource (Urls.Url U) → ModuleSource (Urls.Url U)
  rewrapped requested resolved (new ty code u) =
      if should_wrap_with_redirect U requested
      then new_with_redirect ty code requested resolved
      else new ty code u
  rewrapped requested resolved (new_with_redirect ty code u v) =
      if should_wrap_with_redirect U requested
      then new_with_redirect ty code requested resolved
      else new_with_redirect ty code u v

  abbrev from_fs : Text ⊎ ModuleSource (Urls.Url U) → Result (ModuleSource (Urls.Url U))
  from_fs (inl e) = failed e
  from_fs (inr src) = done src

  unfoldable pub load_by_deno :
      LoaderState
      → Urls.Url U
      → Urls.Url U
      → Option (Urls.Url U)
      → Bool
      → Outcome U (ModuleSource (Urls.Url U))
  load_by_deno st requested resolved referrer dynamic = record {
    state = st;
    effects = loads_file resolved ∷ [];
    result =
        map_result (rewrapped requested resolved) (from_fs (w.fs_load resolved referrer dynamic));
  }

  abbrev pub read_result : Option Text → Urls.Url U → FilePath → Result Text
  read_result none u path = failed (
      codes "Failed to read module source: "
      ++ Urls.display U u
      ++ codes " ("
      ++ w.read_error path
      ++ codes ")")
  read_result (some s) u path = done s

  -- A TypeScript file is read and transpiled here.
  unfoldable pub load_ts : Urls.Url U → FilePath → Attempt U Text
  load_ts resolved path = then_transpile resolved (module_ext U resolved) (record {
    effects = reads_source resolved path ∷ [];
    result = read_result (w.disk.read_to_string path) resolved path;
  })

  unfoldable pub load_plain :
      LoaderState
      → Urls.Url U
      → Urls.Url U
      → Option (Urls.Url U)
      → Bool
      → Outcome U (ModuleSource (Urls.Url U))
  load_plain st requested resolved referrer dynamic =
      let otherwise = load_by_deno st requested resolved referrer dynamic in
      if is_disk resolved && is_ts_like_ext (module_ext U resolved)
      then (elim (Urls.to_file_path U resolved) [
        | none ↦ otherwise
        | some path ↦ ended st (wrap requested resolved javascript) (load_ts resolved path)
      ])
      else otherwise

  -- The code that runs a CommonJS source. Two packages of Babel have their own.
  unfoldable pub cjs_facade : Urls.Url U → Text → Search Text
  cjs_facade resolved source =
      let name = Urls.display U resolved in
      if ends_with name (codes "/node_modules/@babel/parser/lib/index.js")
      then found (
          codes
            "const __ddShim = globalThis.__deno_director_babel_parser;\nexport const parse = __ddShim?.parse;\nexport default (__ddShim ?? Object.create(null));\n")
      else if ends_with name (codes "/node_modules/@babel/generator/lib/index.js")
      then found (
          codes
            "const __ddShim = globalThis.__deno_director_babel_generator;\nexport const generate = __ddShim?.generate;\nexport default (__ddShim ?? Object.create(null));\n")
      else build_node_cjs_interop_source w.to_json (w.parse_program (codes "JavaScript") source)
          name source

  unfoldable pub build_node_cjs_interop_module :
      Urls.Url U → Urls.Url U → Text → Search (ModuleSource (Urls.Url U))
  build_node_cjs_interop_module requested resolved source =
      if not (is_disk resolved) then missing else elim (cjs_facade resolved source) [
        | missing ↦ missing
        | crashed ↦ crashed
        | found esm ↦ found (wrap requested resolved javascript esm)
      ]

  abbrev pub lower_extension : FilePath → Text
  lower_extension path = elim (extension path) [ none ↦ codes "js" | some ext ↦ to_lowercase ext ]

  abbrev pub looks_cjs : Text → Bool
  looks_cjs source = not (looks_like_esm_source source) && looks_like_cjs_source source

  -- A source that is wrapped, and has a facade, is loaded as that.
  abbrev pub facade_or :
      Bool
      → LoaderState
      → Search (ModuleSource (Urls.Url U))
      → Outcome U (ModuleSource (Urls.Url U))
      → Outcome U (ModuleSource (Urls.Url U))
  facade_or false st src otherwise = otherwise
  facade_or true st missing otherwise = otherwise
  facade_or true st crashed otherwise = record { state = st; effects = []; result = panicked }
  facade_or true st (found src) otherwise = record { state = st; effects = []; result = done src }

  -- The rules and the look of a source come before the questions about its package.
  abbrev pub wraps_source :
      LoaderState → FilePath → Text → ModuleSyntaxClassification → Bool → Asked U
  wraps_source st path ext c true = at_once st true
  wraps_source st path ext c false = should_wrap_file_as_cjs U w l st path ext c

  -- A source that may be CommonJS.
  unfoldable pub load_source :
      LoaderState
      → Urls.Url U
      → Urls.Url U
      → Option (Urls.Url U)
      → Bool
      → FilePath
      → Text
      → Outcome U (ModuleSource (Urls.Url U))
  load_source st requested resolved referrer dynamic path source =
      let ext = lower_extension path in
      let (st₂, c) = classify_module_source U w l st ext source in
      let force_match = match_forced_cjs_rule U w l path in
      let asked : Asked U = wraps_source st₂ path ext c (is_some force_match || looks_cjs source) in
      let (spec, ref) = original_spec_and_referrer U requested referrer in
      let otherwise = load_plain asked.state requested resolved referrer dynamic in
      behind
        (asked.effects
          ++ (emits (
                import_classified spec ref dynamic (Urls.display U resolved) (codes "fs")
                  asked.answer (is_some force_match) force_match c)
              ∷ []))
        (facade_or asked.answer asked.state
          (build_node_cjs_interop_module requested resolved source) otherwise)

  unfoldable pub load_file :
      LoaderState
      → Urls.Url U
      → Urls.Url U
      → Option (Urls.Url U)
      → Bool
      → FilePath
      → Outcome U (ModuleSource (Urls.Url U))
  load_file st requested resolved referrer dynamic path =
      behind (reads_source resolved path ∷ []) (elim (w.disk.read_to_string path) [
        | none ↦ load_plain st requested resolved referrer dynamic
        | some source ↦ load_source st requested resolved referrer dynamic path source
      ])

  unfoldable pub load_local :
      LoaderState
      → Urls.Url U
      → Urls.Url U
      → Option (Urls.Url U)
      → Bool
      → Outcome U (ModuleSource (Urls.Url U))
  load_local st requested resolved referrer dynamic =
      let otherwise = load_plain st requested resolved referrer dynamic in
      if is_node (module_loader_cfg l).cjs_interop && is_disk resolved
      then (elim (Urls.to_file_path U resolved) [
        | none ↦ otherwise
        | some path ↦ load_file st requested resolved referrer dynamic path
      ])
      else otherwise
