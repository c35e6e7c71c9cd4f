-- ===== src/Resolve/Wasm.antt =====
-- Extensions of module URLs, and the permission for WebAssembly (src/worker/modules.rs).
use deno_director.Prelude.{Bool, not, ◌||◌, none, some, ◌++◌, ◌==◌, list_eq, if◌then◌else◌}
use deno_director.Prelude.Text.{Text, codes}
use deno_director.Prelude.Patterns.{to_lowercase, after_last, before_first, ends_with}
use deno_director.LoaderConfig.{Urls, DynamicModuleLoader}
use deno_director.Loader.{Check, allowed, denied}

-- What a text is parsed as. `rsplit` gives at least one part, so that there always is an extension.
unfoldable pub is_ts_like_ext : Text → Bool
is_ts_like_ext ext = ext == codes "ts" || ext == codes "tsx" || ext == codes "jsx"

-- `ModuleType` of Deno.
pub data ModuleType : Type 0 where
  javascript : ModuleType
  json : ModuleType
  -- the types that only Deno itself gives to modules
  other : Text → ModuleType

unfoldable pub final_module_type_for_remote : Text → ModuleType → ModuleType
final_module_type_for_remote ext base = if is_ts_like_ext ext then javascript else base

module _ (U : Urls) where
  unfoldable pub module_ext : Urls.Url U → Text
  module_ext u = after_last (to_lowercase (Urls.path U u)) b'.'

  unfoldable pub is_wasm_url : Urls.Url U → Bool
  is_wasm_url u = module_ext u == codes "wasm"

  unfoldable pub is_wasm_specifier : Text → Bool
  is_wasm_specifier specifier = elim (Urls.parse U specifier) [
    | some u ↦ is_wasm_url u
    | none ↦
        ends_with (to_lowercase (before_first (before_first specifier b'#') b'?')) (codes ".wasm")
  ]

  unfoldable pub module_type_for_url : Urls.Url U → ModuleType
  module_type_for_url u = if module_ext u == codes "json" then json else javascript

module _ {N : Type 0} (U : Urls) (l : DynamicModuleLoader N) where
  unfoldable pub ensure_wasm_allowed : Urls.Url U → Check
  ensure_wasm_allowed u =
      if l.wasm || not (is_wasm_url U u)
      then allowed
      else denied
          (codes "WASM module loading is disabled by permissions.wasm: " ++ Urls.display U u)
