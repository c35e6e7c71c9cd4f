-- ===== src/Load/Jobs.antt =====
-- The asynchronous ends of a load in src/worker/modules.rs read and fetch only what the checks let through.
use deno_director.Prelude.{
  ◌≡◌, refl, ◌⊎◌, inl, inr, Bool, true, false, ◌&&◌, Option, ◌==◌, list_eq, list_beq, list_beq_iff,
  All, All-append, Bool-cases, Option-cases, if_elim, arith,
}
use deno_director.Prelude.Outcome.{Result, done, failed, panicked}
use deno_director.Prelude.Text.{Text, codes}
use deno_director.LoaderConfig.{Urls, callback, DynamicModuleLoader}
use deno_director.Loader.{
  Check, allowed, denied, ensure_remote_load_allowed, ensure_remote_permissions,
}
use deno_director.Registry.{get_for_load}
use deno_director.Resolve.Wasm.{ensure_wasm_allowed, is_ts_like_ext}
use deno_director.Load.{should_load_remote_non_callback, run_fetch}
use deno_director.Load.World
use deno_director.Load.World.{
  World, ImportDecision, block, source_typed, Effect, emits, LoaderState, Outcome, ModuleSource,
  Attempt,
}
use deno_director.Load.Resolved.{
  outside, absent, is_web, load_allowed, load_checked, load_resolved_module,
  load_remote_non_callback_module,
}
use deno_director.Load.Decision.{
  request_import_decision, build_source_typed_module, load_decided, follow_decision, run_decision,
  typed_result, typed_text, announcement,
}
use deno_director.Load.Safe.{
  NotDenied, Passed, Safe, IsSafe, IsSafeAttempt, local-Safe, remote_text-Safe, transpile-Safe,
}

pub data_cases : (c : Check) → (c ≡ allowed) ⊎ ((e : Text) × (c ≡ denied e))
data_cases allowed = inl refl
data_cases (denied e) = inr (e, refl)

module _ {N : Type 0} (U : Urls) (w : World N U) (l : DynamicModuleLoader N) where
  allowed-Safe :
      (st : LoaderState) (requested u : Urls.Url U) (referrer : Option (Urls.Url U))
      (dynamic : Bool)
      → ensure_wasm_allowed U l u ≡ allowed
      → ensure_remote_load_allowed U l u ≡ allowed
      → NotDenied U w l
      → IsSafe U w l (load_allowed U w l st requested u referrer dynamic)
  unfolding load_allowed
  allowed-Safe st requested u referrer dynamic a b nd =
      if_elim (IsSafe U w l) (outside U w l u) (λ _. tt)
        (λ o.
          if_elim (IsSafe U w l) (absent U w l u) (λ _. tt)
            (λ _.
              if_elim (IsSafe U w l) (is_web U w l u) (λ _. remote_text-Safe U w l u (a, b, o) nd)
                (λ _. local-Safe U w l st requested u referrer dynamic (a, b, o) nd)))

  checked-Safe :
      (st : LoaderState) (requested u : Urls.Url U) (referrer : Option (Urls.Url U))
      (dynamic : Bool)
      → NotDenied U w l
      → IsSafe U w l (load_checked U w l st requested u referrer dynamic)
  unfolding load_checked
  checked-Safe st requested u referrer dynamic nd = elim (data_cases (ensure_wasm_allowed U l u)) [
    | inr (e, a) ↦ rw (load_checked, a) tt
    | inl a ↦ elim (data_cases (ensure_remote_load_allowed U l u)) [
      | inr (e, b) ↦ rw (load_checked, a, b) tt
      | inl b ↦ rw (load_checked, a, b) (allowed-Safe st requested u referrer dynamic a b nd)
    ]
  ]

  pub resolved-Safe :
      (st : LoaderState) (requested u : Urls.Url U) (referrer : Option (Urls.Url U))
      (dynamic : Bool)
      → NotDenied U w l
      → IsSafe U w l (load_resolved_module U w l st requested u referrer dynamic)
  unfolding load_resolved_module
  resolved-Safe st requested u referrer dynamic nd =
      elim (Option-cases (get_for_load st.reg (Urls.display U u)).1) [
        | inr (m, e) ↦ rw (load_resolved_module, e) tt
        | inl e ↦ rw (load_resolved_module, e) (checked-Safe _ requested u referrer dynamic nd)
      ]

  decided-Safe :
      (st : LoaderState) (requested : Urls.Url U) (referrer : Option (Urls.Url U)) (dynamic : Bool)
      (spec ref source : Text) (r : Result (Urls.Url U))
      → NotDenied U w l
      → IsSafe U w l (load_decided U w l st requested referrer dynamic spec ref source r)
  unfolding load_decided
  decided-Safe st requested referrer dynamic spec ref source (done u) nd =
      (tt, resolved-Safe st requested u referrer dynamic nd)
  decided-Safe st requested referrer dynamic spec ref source (failed e) nd = tt
  decided-Safe st requested referrer dynamic spec ref source panicked nd = tt

  typed_text-Safe :
      (requested : Urls.Url U) (ext code : Text)
      → NotDenied U w l
      → IsSafeAttempt U w l (typed_text U w l requested ext code)
  typed_text-Safe requested ext code nd =
      if_elim (IsSafeAttempt U w l) (is_ts_like_ext ext)
        (λ _. transpile-Safe U w l requested ext code nd) (λ _. tt)

  typed_result-Safe :
      (st : LoaderState) (requested : Urls.Url U) (r : Result Text)
      → IsSafe U w l (typed_result U w l st requested r)
  typed_result-Safe st requested (done code) = tt
  typed_result-Safe st requested (failed e) = tt
  typed_result-Safe st requested panicked = tt

  typed-Safe :
      (st : LoaderState) (requested : Urls.Url U) (ext code : Text)
      → NotDenied U w l
      → IsSafe U w l (build_source_typed_module U w l st requested ext code)
  unfolding build_source_typed_module
  typed-Safe st requested ext code nd =
      let a : Attempt U Text = typed_text U w l requested ext code in
      All-append (Safe U w l) a.effects (typed_result U w l st requested a.result).effects
        (typed_text-Safe requested ext code nd) (typed_result-Safe st requested a.result)

  announcement-Safe :
      (requested : Urls.Url U) (spec ref : Text) (dynamic : Bool)
      (r : Result (ModuleSource (Urls.Url U)))
      → All (Safe U w l) (announcement U w l requested spec ref dynamic r)
  announcement-Safe requested spec ref dynamic (done src) = (tt, tt)
  announcement-Safe requested spec ref dynamic (failed e) = tt
  announcement-Safe requested spec ref dynamic panicked = tt

  follow-Safe :
      (st : LoaderState) (requested : Urls.Url U) (referrer : Option (Urls.Url U)) (dynamic : Bool)
      (spec ref : Text) (d : ImportDecision)
      → NotDenied U w l
      → IsSafe U w l (follow_decision U w l st requested referrer dynamic spec ref d)
  unfolding follow_decision
  follow-Safe st requested referrer dynamic spec ref block nd = (tt, tt)
  follow-Safe st requested referrer dynamic spec ref World.allow_disk nd =
      (nd, decided-Safe st requested referrer dynamic spec ref _ _ nd)
  follow-Safe st requested referrer dynamic spec ref (World.resolve new_spec) nd =
      (nd, decided-Safe st requested referrer dynamic spec ref _ _ nd)
  follow-Safe st requested referrer dynamic spec ref (source_typed ext code) nd =
      let o : Outcome U (ModuleSource (Urls.Url U)) =
        build_source_typed_module U w l st requested ext code in
      All-append (Safe U w l) o.effects (announcement U w l requested spec ref dynamic o.result)
        (typed-Safe st requested ext code nd)
        (announcement-Safe requested spec ref dynamic o.result)

  result_cases :
      {A : Type 0} (r : Result A)
      → ((a : A) × (r ≡ done a)) ⊎ ((r ≡ panicked) ⊎ ((e : Text) × (r ≡ failed e)))
  result_cases (done a) = inl (a, refl)
  result_cases panicked = inr (inl refl)
  result_cases (failed e) = inr (inr (e, refl))

  callback_NotDenied : l.imports_policy ≡ callback → NotDenied U w l
  callback_NotDenied h k = cc

  pub decision-Safe :
      (st : LoaderState) (requested : Urls.Url U) (referrer : Option (Urls.Url U)) (dynamic : Bool)
      (spec ref : Text)
      → l.imports_policy ≡ callback
      → IsSafe U w l (run_decision U w l st requested referrer dynamic spec ref)
  unfolding run_decision
  decision-Safe st requested referrer dynamic spec ref h =
      elim (result_cases (request_import_decision U w l spec ref dynamic)) [
        | inl (d, e) ↦
            rw (run_decision, e)
              (h, follow-Safe st requested referrer dynamic spec ref d (callback_NotDenied h))
        | inr (inl e) ↦ rw (run_decision, e) (h, tt)
        | inr (inr (m, e)) ↦ rw (run_decision, e) (h, tt)
      ]

  one_scheme :
      (s : Text)
      → ((s == codes "http") ≡ true) ⊎ ((s == codes "https") ≡ true)
      → ((s == codes "http" && s == codes "https") ≡ false) × ((s == codes "file") ≡ false)
  unfolding list_beq
  one_scheme s (inl h) = rw ((list_beq_iff s (codes "http")).0 h) (refl, refl)
  one_scheme s (inr h) = rw ((list_beq_iff s (codes "https")).0 h) (refl, refl)

  web_scheme :
      (u : Urls.Url U)
      → should_load_remote_non_callback U w l u ≡ true
      → ((Urls.scheme U u == codes "http") ≡ true) ⊎ ((Urls.scheme U u == codes "https") ≡ true)
  unfolding should_load_remote_non_callback
  web_scheme u s = elim (Bool-cases (Urls.scheme U u == codes "http")) [
    | inl h ↦ inl h
    | inr h ↦ inr (ground arith)
  ]

  -- A URL that is fetched without the callback passes the checks of a load as well.
  fetch-Passed :
      (u : Urls.Url U)
      → should_load_remote_non_callback U w l u ≡ true
      → ensure_wasm_allowed U l u ≡ allowed
      → ensure_remote_permissions U l u ≡ allowed
      → Passed U w l u
  unfolding should_load_remote_non_callback ensure_remote_load_allowed
  fetch-Passed u s a b =
      let (one, file) = one_scheme (Urls.scheme U u) (web_scheme u s) in
      (a, ground arith, rw file refl)

  pub fetch-Safe :
      (st : LoaderState) (u : Urls.Url U)
      → should_load_remote_non_callback U w l u ≡ true
      → NotDenied U w l
      → IsSafe U w l (run_fetch U w l st u)
  unfolding run_fetch load_remote_non_callback_module
  fetch-Safe st u s nd = elim (data_cases (ensure_wasm_allowed U l u)) [
    | inr (e, a) ↦ rw (run_fetch, a) tt
    | inl a ↦ elim (data_cases (ensure_remote_permissions U l u)) [
      | inr (e, b) ↦ rw (run_fetch, a, b) tt
      | inl b ↦ rw (run_fetch, a, b) (remote_text-Safe U w l u (fetch-Passed u s a b) nd)
    ]
  ]
