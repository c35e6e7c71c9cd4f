-- ===== src/Load/Transpile.antt =====
-- The transpilation of TypeScript and JSX sources (src/worker/modules.rs), by deno_ast, with its cache.
use deno_director.Prelude.{
  ◌⊎◌, inl, inr, true, false, not, Option, none, some, List, [], ◌∷◌, ◌++◌, ◌==◌, list_eq,
  if◌then◌else◌,
}
use deno_director.Prelude.Outcome.{done, failed}
use deno_director.Prelude.Text.{Text, codes}
use deno_director.Paths.{FilePath, Files}
use deno_director.LoaderConfig.{Urls, DynamicModuleLoader, ModuleLoaderConfig, TsCompilerConfig}
use deno_director.Loader.{module_loader_cfg}
use deno_director.Resolve.Node.{joined}
use deno_director.Resolve.Wasm.{is_ts_like_ext}
use deno_director.Load.World.{
  World, reads_cache, writes_cache, Attempt, JsxRuntime, automatic, classic,
}

abbrev jsx_mode : TsCompilerConfig → Text
jsx_mode tc = elim tc.jsx [ none ↦ codes "react" | some m ↦ m ]

-- The options of deno_ast start with the classic runtime and its own factories.
unfoldable pub transpile_options_from_cfg : ModuleLoaderConfig → Option JsxRuntime
transpile_options_from_cfg cfg = elim cfg.ts_compiler [
  | none ↦ some (classic none none)
  | some tc ↦
      if jsx_mode tc == codes "preserve"
      then none
      else if jsx_mode tc == codes "react-jsx"
      then some (automatic false)
      else if jsx_mode tc == codes "react-jsxdev"
      then some (automatic true)
      else some (classic tc.jsx_factory tc.jsx_fragment_factory)
]

module _ {N : Type 0} (U : Urls) (w : World N U) (l : DynamicModuleLoader N) where
  unfoldable pub compiler_cache_dir_from_cfg : ModuleLoaderConfig → Option FilePath
  compiler_cache_dir_from_cfg cfg = elim cfg.ts_compiler [
    | none ↦ none
    | some tc ↦ elim tc.cache_dir [ none ↦ none | some dir ↦ some (Files.parse w.disk.files dir) ]
  ]

  unfoldable pub transpile_cache_path :
      FilePath → Urls.Url U → Text → Text → ModuleLoaderConfig → FilePath
  transpile_cache_path cache_dir u ext code cfg =
      let compiler : List (Option Text) = elim cfg.ts_compiler [
        | none ↦ []
        | some tc ↦ tc.jsx ∷ tc.jsx_factory ∷ tc.jsx_fragment_factory ∷ []
      ] in
      joined w.disk cache_dir
        (w.hash (some (Urls.display U u) ∷ some ext ∷ some code ∷ compiler) ++ codes ".js")

  abbrev pub saved : Option FilePath → Text ⊎ Text → Attempt U Text
  saved path (inl e) = record { effects = []; result = failed e }
  saved none (inr s) = record { effects = []; result = done s }
  saved (some path) (inr s) = record { effects = writes_cache path s ∷ []; result = done s }

  unfoldable pub transpile_and_save : Option FilePath → Urls.Url U → Text → Text → Attempt U Text
  transpile_and_save path u ext code =
      saved path (w.transpile (transpile_options_from_cfg (module_loader_cfg l)) u ext code)

  -- The look into the cache, if it is on.
  unfoldable pub transpile_cached : Option FilePath → Attempt U Text → Attempt U Text
  transpile_cached none fresh = fresh
  transpile_cached (some path) fresh =
      if (module_loader_cfg l).reload then fresh else elim (w.disk.read_to_string path) [
        | some hit ↦ record { effects = reads_cache path ∷ []; result = done hit }
        | none ↦ record fresh { effects = reads_cache path ∷ fresh.effects }
      ]

  unfoldable pub maybe_transpile_ts_like : Urls.Url U → Text → Text → Attempt U Text
  maybe_transpile_ts_like u ext code =
      let cfg = module_loader_cfg l in
      if not (is_ts_like_ext ext)
      then record { effects = []; result = done code }
      else if not cfg.transpile_ts
      then record {
        effects = [];
        result = failed (
            codes "Import returned ."
            ++ ext
            ++ codes " source but TypeScript transpilation is disabled. Specifier: "
            ++ Urls.display U u);
      }
      else let path : Option FilePath = elim (compiler_cache_dir_from_cfg cfg) [
        | none ↦ none
        | some dir ↦ some (transpile_cache_path dir u ext code cfg)
      ] in
        transpile_cached path (transpile_and_save path u ext code)
