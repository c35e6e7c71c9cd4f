-- ===== src/Load/Guarded.antt =====
-- A load of the module loader in src/worker/modules.rs reads and fetches only what its checks let through.
use deno_director.Prelude.{
  ◌≡◌, refl, inl, inr, Bool, true, Option, list_eq, All, Option-cases, if_elim,
}
use deno_director.Prelude.Text.{Text}
use deno_director.LoaderConfig
use deno_director.LoaderConfig.{Urls, ImportsPolicy, deny_all, callback, DynamicModuleLoader}
use deno_director.Registry.{get_for_load}
use deno_director.Resolve.Sandbox.{original_spec_and_referrer}
use deno_director.Resolve.Wasm.{ensure_wasm_allowed}
use deno_director.Load.{
  Job, decide, fetch, load_from_disk, ModuleLoadResponse, sync, async, Loaded,
  should_load_remote_non_callback, imports_policy_error, policy_error, after_policy, run_job,
  load_directly, load_by_callback, load_by_policy, load_import, load,
  callback_imports_blocked_during_eval_sync,
}
use deno_director.Load.World.{World, LoaderState}
use deno_director.Load.Resolved.{outside}
use deno_director.Load.Safe.{NotDenied, Safe, IsSafe}
use deno_director.Load.Jobs.{data_cases, resolved-Safe, decision-Safe, fetch-Safe}

module _ {N : Type 0} (U : Urls) (w : World N U) (l : DynamicModuleLoader N) where
  -- A job that `load` may start.
  abbrev pub Started : ModuleLoadResponse (Urls.Url U) → Type 0
  Started (sync r) = Unit
  Started (async (decide requested referrer dynamic spec ref)) = l.imports_policy ≡ callback
  Started (async (fetch u)) = (should_load_remote_non_callback U w l u ≡ true) × NotDenied U w l
  Started (async (load_from_disk u referrer dynamic)) = NotDenied U w l

  job-Safe :
      (st : LoaderState) (j : Job (Urls.Url U))
      → Started (async j)
      → IsSafe U w l (run_job U w l st j)
  unfolding run_job
  job-Safe st (decide requested referrer dynamic spec ref) h =
      decision-Safe U w l st requested referrer dynamic spec ref h
  job-Safe st (fetch u) h = fetch-Safe U w l st u h.0 h.1
  job-Safe st (load_from_disk u referrer dynamic) h = resolved-Safe U w l st u u referrer dynamic h

  abbrev Good : Loaded U → Type 0
  Good r = Started r.response × All (Safe U w l) r.effects

  directly-Good :
      (st : LoaderState) (u : Urls.Url U) (referrer : Option (Urls.Url U)) (dynamic : Bool)
      (spec ref : Text)
      → NotDenied U w l
      → Good (load_directly U w l st u referrer dynamic spec ref)
  unfolding load_directly
  directly-Good st u referrer dynamic spec ref nd =
      if_elim Good (should_load_remote_non_callback U w l u) (λ s. ((s, nd), (tt, tt)))
        (λ _. if_elim Good (outside U w l u) (λ _. (tt, (tt, tt))) (λ _. (nd, (tt, tt))))

  after_policy-Good :
      (p : ImportsPolicy) (st : LoaderState) (u : Urls.Url U) (referrer : Option (Urls.Url U))
      (dynamic : Bool) (spec ref : Text)
      → l.imports_policy ≡ p
      → Good (after_policy U w l p (policy_error U w l p spec) st u referrer dynamic spec ref)
  unfolding load_by_callback
  after_policy-Good deny_all st u referrer dynamic spec ref e = (tt, (tt, tt))
  after_policy-Good callback st u referrer dynamic spec ref e =
      if_elim Good (callback_imports_blocked_during_eval_sync U w l) (λ _. (tt, (tt, tt)))
        (λ _. (e, tt))
  after_policy-Good LoaderConfig.allow_disk st u referrer dynamic spec ref e =
      directly-Good st u referrer dynamic spec ref (λ d. cc)

  policy-Good :
      (st : LoaderState) (u : Urls.Url U) (referrer : Option (Urls.Url U)) (dynamic : Bool)
      (spec ref : Text)
      → Good (load_by_policy U w l st u referrer dynamic spec ref)
  unfolding load_by_policy imports_policy_error
  policy-Good st u referrer dynamic spec ref =
      after_policy-Good l.imports_policy st u referrer dynamic spec ref refl

  import-Good :
      (st : LoaderState) (u : Urls.Url U) (referrer : Option (Urls.Url U)) (dynamic : Bool)
      (spec ref : Text)
      → Good (load_import U w l st u referrer dynamic spec ref)
  unfolding load_import
  import-Good st u referrer dynamic spec ref =
      elim (Option-cases (get_for_load st.reg (Urls.display U u)).1) [
        | inr (m, e) ↦ rw (load_import, e) (tt, (tt, tt))
        | inl e ↦ rw (load_import, e) (policy-Good _ u referrer dynamic spec ref)
      ]

  load-Good :
      (st : LoaderState) (u : Urls.Url U) (referrer : Option (Urls.Url U)) (dynamic : Bool)
      → Good (load U w l st u referrer dynamic)
  unfolding load
  load-Good st u referrer dynamic = elim (data_cases (ensure_wasm_allowed U l u)) [
    | inr (e, a) ↦ rw (load, a) (tt, tt)
    | inl a ↦
        let (s, es) =
          import-Good st u referrer dynamic (original_spec_and_referrer U u referrer).0
            (original_spec_and_referrer U u referrer).1 in
        rw (load, a) (s, (tt, es))
  ]

-- A job that one world starts may be started in any other.
later-Started :
    {N : Type 0} (U : Urls) (w w₂ : World N U) (l : DynamicModuleLoader N)
    (r : ModuleLoadResponse (Urls.Url U))
    → Started U w l r
    → Started U w₂ l r
unfolding should_load_remote_non_callback
later-Started U w w₂ l (sync r) h = h
later-Started U w w₂ l (async (decide requested referrer dynamic spec ref)) h = h
later-Started U w w₂ l (async (fetch u)) h = h
later-Started U w w₂ l (async (load_from_disk u referrer dynamic)) h = h

-- What a job does is safe, if one was started.
abbrev pub SafeNext :
    {N : Type 0} (U : Urls) (w : World N U)
    → DynamicModuleLoader N
    → LoaderState
    → ModuleLoadResponse (Urls.Url U)
    → Type 0
SafeNext U w l st (sync r) = Unit
SafeNext U w l st (async j) = All (Safe U w l) (run_job U w l st j).effects

next-SafeNext :
    {N : Type 0} (U : Urls) (w : World N U) (l : DynamicModuleLoader N) (st : LoaderState)
    (r : ModuleLoadResponse (Urls.Url U))
    → Started U w l r
    → SafeNext U w l st r
next-SafeNext U w l st (sync r) h = tt
next-SafeNext U w l st (async j) h = job-Safe U w l st j h

-- Whatever the world answers, and whatever happens to it and to the loader's state before the job of a
-- load runs: the load and its job ask Node only under the callback policy, and read and write nothing with
-- imports denied. Each URL that they send a request for, read or hand to Deno themselves passes the check
-- of WebAssembly, that of remote loads and that of the sandbox; a redirect that the HTTP client follows
-- starts from such a URL, but where it leads is not checked. Besides what the resolution of a specifier
-- reads, a package.json is read only from a directory above the file of a URL that passes the checks,
-- which may lie above the sandbox.
pub load-Safe :
    {N : Type 0} (U : Urls) (w w₂ : World N U) (l : DynamicModuleLoader N) (st later : LoaderState)
    (u : Urls.Url U) (referrer : Option (Urls.Url U)) (dynamic : Bool)
    → All (Safe U w l) (load U w l st u referrer dynamic).effects
      × SafeNext U w₂ l later (load U w l st u referrer dynamic).response
load-Safe U w w₂ l st later u referrer dynamic =
    let (s, es) = load-Good U w l st u referrer dynamic in
    (es, next-SafeNext U w₂ l later _ (later-Started U w w₂ l _ s))
