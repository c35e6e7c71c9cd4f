-- ===== src/Load.antt =====
-- `load` of the module loader in src/worker/modules.rs. A load answers at once, or it starts a job, which
-- ends after whatever the rest of the worker does to the loader's state in the meantime.
pub mod World
pub mod Fetch
pub mod Transpile
pub mod Packages
pub mod Cjs
pub mod Files
pub mod Resolved
pub mod Decision
pub mod Limits
pub mod Safe
pub mod Jobs
pub mod Guarded
pub mod Asked
pub mod Typed
use deno_director.Prelude.{
  ◌+◌, Bool, true, false, ◌&&◌, ◌||◌, Option, none, some, List, [], ◌∷◌, ◌++◌, ◌==◌, list_eq,
  if◌then◌else◌,
}
use deno_director.Prelude.Outcome.{Result, done, failed}
use deno_director.Prelude.Text.{Text, codes}
use deno_director.LoaderConfig.{Urls, ImportsPolicy, deny_all, callback, DynamicModuleLoader}
use deno_director.LoaderConfig
use deno_director.Loader.{allowed, denied, module_loader_cfg, ensure_remote_permissions}
use deno_director.Registry.{get_for_load, has}
use deno_director.Resolve.Sandbox.{original_spec_and_referrer}
use deno_director.Resolve.Wasm.{ensure_wasm_allowed}
use World.{
  ModuleSource, new, import_requested, import_resolved, Effect, emits, LoaderState, Outcome,
}
use deno_director.Load.World
use Decision.{resolved_event, run_decision}
use Files.{refuse}
use Resolved.{outside, load_resolved_module, load_remote_non_callback_module}

-- What a load leaves to an asynchronous block. The import is that of a specifier and a referrer.
pub data Job (Url : Type 0) : Type 0 where
  decide : Url → Option Url → Bool → Text → Text → Job Url
  fetch : Url → Job Url
  load_from_disk : Url → Option Url → Bool → Job Url

pub data ModuleLoadResponse (Url : Type 0) : Type 0 where
  sync : Result (ModuleSource Url) → ModuleLoadResponse Url
  async : Job Url → ModuleLoadResponse Url

pub record Loaded (U : Urls) : Type 0 where
  pub state : LoaderState
  pub effects : List (Effect (Urls.Url U))
  pub response : ModuleLoadResponse (Urls.Url U)

module _ {N : Type 0} (U : Urls) (w : World.World N U) (l : DynamicModuleLoader N) where
  abbrev pub policy_error : ImportsPolicy → Text → Option Text
  policy_error deny_all spec = some (codes "Import blocked (imports disabled): " ++ spec)
  policy_error LoaderConfig.allow_disk spec = none
  policy_error callback spec = none

  unfoldable pub imports_policy_error : Text → Option Text
  imports_policy_error spec = policy_error l.imports_policy spec

  unfoldable pub callback_imports_blocked_during_eval_sync : Bool
  callback_imports_blocked_during_eval_sync = elim l.eval_sync_active [
    | none ↦ false
    | some active ↦ active
  ]

  unfoldable pub should_load_remote_non_callback : Urls.Url U → Bool
  should_load_remote_non_callback u =
      (Urls.scheme U u == codes "http" && (module_loader_cfg l).http_resolve)
      || (Urls.scheme U u == codes "https" && (module_loader_cfg l).https_resolve)

  -- The checks of `load_remote_non_callback_module`.
  unfoldable pub run_fetch : LoaderState → Urls.Url U → Outcome U (ModuleSource (Urls.Url U))
  run_fetch st u = elim (ensure_wasm_allowed U l u) [
    | denied e ↦ refuse st e
    | allowed ↦ elim (ensure_remote_permissions U l u) [
      | denied e ↦ refuse st e
      | allowed ↦ load_remote_non_callback_module U w l st u
    ]
  ]

  -- A job runs on the state that it finds.
  unfoldable pub run_job : LoaderState → Job (Urls.Url U) → Outcome U (ModuleSource (Urls.Url U))
  run_job st (decide requested referrer dynamic spec ref) =
      run_decision U w l st requested referrer dynamic spec ref
  run_job st (fetch u) = run_fetch st u
  run_job st (load_from_disk u referrer dynamic) =
      load_resolved_module U w l st u u referrer dynamic

  -- A load without the callback.
  unfoldable pub load_directly :
      LoaderState → Urls.Url U → Option (Urls.Url U) → Bool → Text → Text → Loaded U
  load_directly st u referrer dynamic spec ref =
      let event = resolved_event U w l spec ref dynamic (some (Urls.display U u)) in
      if should_load_remote_non_callback u
      then record {
        state = st;
        effects = event (codes "remote") false ∷ [];
        response = async (fetch u);
      }
      else if outside U w l u
      then record {
        state = st;
        effects = event (codes "sandbox") true ∷ [];
        response = sync (failed (codes "Import blocked: outside sandbox"));
      }
      else record {
        state = st;
        effects = event (codes "fs") false ∷ [];
        response = async (load_from_disk u referrer dynamic);
      }

  unfoldable pub load_by_callback :
      LoaderState → Urls.Url U → Option (Urls.Url U) → Bool → Text → Text → Loaded U
  load_by_callback st u referrer dynamic spec ref =
      if callback_imports_blocked_during_eval_sync
      then record {
        state = st;
        effects = resolved_event U w l spec ref dynamic none (codes "callback") true ∷ [];
        response = sync (
            failed (codes "Import callbacks are unavailable during evalSync. Use eval() instead."));
      }
      else record {
        state = st;
        effects = [];
        response = async (decide u referrer dynamic spec ref);
      }

  -- The import of a module that the registry does not have.
  abbrev pub after_policy :
      ImportsPolicy
      → Option Text
      → LoaderState
      → Urls.Url U
      → Option (Urls.Url U)
      → Bool
      → Text
      → Text
      → Loaded U
  after_policy p (some e) st u referrer dynamic spec ref = record {
    state = st;
    effects = resolved_event U w l spec ref dynamic none (codes "policy") true ∷ [];
    response = sync (failed e);
  }
  after_policy callback none st u referrer dynamic spec ref =
      load_by_callback st u referrer dynamic spec ref
  after_policy deny_all none st u referrer dynamic spec ref =
      load_directly st u referrer dynamic spec ref
  after_policy LoaderConfig.allow_disk none st u referrer dynamic spec ref =
      load_directly st u referrer dynamic spec ref

  unfoldable pub load_by_policy :
      LoaderState → Urls.Url U → Option (Urls.Url U) → Bool → Text → Text → Loaded U
  load_by_policy st u referrer dynamic spec ref =
      after_policy l.imports_policy (imports_policy_error spec) st u referrer dynamic spec ref

  abbrev after_event : Effect (Urls.Url U) → Loaded U → Loaded U
  after_event e r = record r { effects = e ∷ r.effects }

  unfoldable pub load_import :
      LoaderState → Urls.Url U → Option (Urls.Url U) → Bool → Text → Text → Loaded U
  load_import st u referrer dynamic spec ref =
      let (reg, hit) = get_for_load st.reg (Urls.display U u) in
      let st₂ : LoaderState = record st { reg = reg } in
      elim hit [
        | some m ↦ record {
          state = st₂;
          effects =
              emits (
                import_resolved spec ref dynamic true (some (Urls.display U u)) (codes "registry")
                  false)
              ∷ [];
          response = sync (done (new m.1 m.0 u));
        }
        | none ↦ load_by_policy st₂ u referrer dynamic spec ref
      ]

  unfoldable pub load : LoaderState → Urls.Url U → Option (Urls.Url U) → Bool → Loaded U
  load st u referrer dynamic = elim (ensure_wasm_allowed U l u) [
    | denied e ↦ record { state = st; effects = []; response = sync (failed e) }
    | allowed ↦
        let (spec, ref) = original_spec_and_referrer U u referrer in
        let cache_hit = has st.reg (Urls.display U u) || has st.reg spec in
        after_event (emits (import_requested spec ref dynamic cache_hit))
          (load_import st u referrer dynamic spec ref)
  ]
