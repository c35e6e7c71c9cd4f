-- ===== src/Load/Resolved.antt =====
-- `load_resolved_module` of src/worker/modules.rs: the checks of a URL that an import was resolved to, and
-- the ways to load it.
use deno_director.Prelude.{
  Bool, false, not, ◌&&◌, ◌||◌, Option, none, some, [], ◌==◌, list_eq, if◌then◌else◌,
}
use deno_director.Prelude.Outcome.{done}
use deno_director.Prelude.Text.{Text, codes}
use deno_director.LoaderConfig.{Urls, DynamicModuleLoader}
use deno_director.Loader.{allowed, denied, module_loader_cfg, ensure_remote_load_allowed}
use deno_director.Registry.{get_for_load}
use deno_director.Resolve.Node.{is_file}
use deno_director.Resolve.Sandbox.{within_sandbox, original_spec_and_referrer}
use deno_director.Resolve.Wasm.{
  ModuleType, module_ext, module_type_for_url, final_module_type_for_remote, ensure_wasm_allowed,
}
use deno_director.Resolve.NotFound.{module_not_found_error}
use deno_director.Load.World.{World, ModuleSource, new, LoaderState, Outcome, Attempt}
use deno_director.Load.Fetch.{read_or_fetch_remote_source}
use deno_director.Load.Files.{refuse, then_transpile, ended, wrap, is_disk, load_local}

module _ {N : Type 0} (U : Urls) (w : World N U) (l : DynamicModuleLoader N) where
  unfoldable pub remote_type : Urls.Url U → ModuleType
  remote_type u = final_module_type_for_remote (module_ext U u) (module_type_for_url U u)

  unfoldable pub remote_text : Urls.Url U → Attempt U Text
  remote_text u = then_transpile U w l u (module_ext U u) (read_or_fetch_remote_source U w l u)

  abbrev pub is_web : Urls.Url U → Bool
  is_web u = Urls.scheme U u == codes "http" || Urls.scheme U u == codes "https"

  -- A file URL whose path is no file.
  abbrev pub absent : Urls.Url U → Bool
  absent u =
      is_disk U w l u
      && elim (Urls.to_file_path U u) [ none ↦ false | some path ↦ not (is_file w.disk path) ]

  abbrev pub outside : Urls.Url U → Bool
  outside u =
      is_disk U w l u
      && not (within_sandbox U w.disk.files l u)
      && not (module_loader_cfg l).allow_outside_cwd

  -- What is left when the checks have passed.
  unfoldable pub load_allowed :
      LoaderState
      → Urls.Url U
      → Urls.Url U
      → Option (Urls.Url U)
      → Bool
      → Outcome U (ModuleSource (Urls.Url U))
  load_allowed st requested resolved referrer dynamic =
      if outside resolved
      then refuse st (codes "Import blocked: outside sandbox")
      else if absent resolved
      then (let (spec, ref) = original_spec_and_referrer U requested referrer in
          refuse st (module_not_found_error U w.disk.files l spec ref (some resolved)))
      else if is_web resolved
      then ended U w l st (wrap U w l requested resolved (remote_type resolved))
          (remote_text resolved)
      else load_local U w l st requested resolved referrer dynamic

  unfoldable pub load_checked :
      LoaderState
      → Urls.Url U
      → Urls.Url U
      → Option (Urls.Url U)
      → Bool
      → Outcome U (ModuleSource (Urls.Url U))
  load_checked st requested resolved referrer dynamic = elim (ensure_wasm_allowed U l resolved) [
    | denied e ↦ refuse st e
    | allowed ↦ elim (ensure_remote_load_allowed U l resolved) [
      | denied e ↦ refuse st e
      | allowed ↦ load_allowed st requested resolved referrer dynamic
    ]
  ]

  unfoldable pub load_resolved_module :
      LoaderState
      → Urls.Url U
      → Urls.Url U
      → Option (Urls.Url U)
      → Bool
      → Outcome U (ModuleSource (Urls.Url U))
  load_resolved_module st requested resolved referrer dynamic =
      let (reg, hit) = get_for_load st.reg (Urls.display U resolved) in
      let st₂ : LoaderState = record st { reg = reg } in
      elim hit [
        | some m ↦ record {
          state = st₂;
          effects = [];
          result = done (wrap U w l requested resolved m.1 m.0);
        }
        | none ↦ load_checked st₂ requested resolved referrer dynamic
      ]

  unfoldable pub load_remote_non_callback_module :
      LoaderState → Urls.Url U → Outcome U (ModuleSource (Urls.Url U))
  load_remote_non_callback_module st u =
      ended U w l st (λ code. new (remote_type u) code u) (remote_text u)
