-- ===== src/Load/Safe.antt =====
-- What a load of the module loader in src/worker/modules.rs may touch.
use deno_director.Prelude.{
  ◌≡◌, ◌⊎◌, inl, inr, Bool, true, false, not, ◌&&◌, ◌||◌, ◌==◌, ◌++◌, map, Option, none, some, List,
  [], ◌∷◌, list_eq, All, All-append, Option-cases, if_elim,
}
use deno_director.Prelude.Dict.{is_some}
use deno_director.Prelude.Outcome.{Search, found, missing, crashed, Result, done, failed, panicked}
use deno_director.Prelude.Text.{Text, codes}
use deno_director.Paths.{FilePath}
use deno_director.LoaderConfig.{Urls, deny_all, callback, DynamicModuleLoader}
use deno_director.Loader.{allowed, module_loader_cfg, ensure_remote_load_allowed}
use deno_director.Resolve.Wasm.{ensure_wasm_allowed, is_ts_like_ext, module_ext}
use deno_director.Load.World.{
  World, Event, Effect, emits, asks_node, fetches, follows, resolves, reads_package,
  ModuleSyntaxClassification, reads_cache, writes_cache, reads_source, loads_file, Attempt, Outcome,
  LoaderState, ModuleSource,
}
use deno_director.Load.Fetch.{
  fetch_and_store, read_or_fetch_remote_source, remote_cache_path, requests, saves,
}
use deno_director.Load.Transpile.{
  maybe_transpile_ts_like, transpile_cached, transpile_and_save, saved,
}
use deno_director.Load.Files.{
  then_transpile, load_by_deno, load_ts, load_plain, load_source, load_file, load_local, is_disk,
  facade_or, looks_cjs, lower_extension, build_node_cjs_interop_module, behind, wraps_source, ended,
  read_result,
}
use deno_director.Load.Resolved.{outside, remote_text}
use deno_director.Load.Cjs.{
  is_node, classify_module_source, match_forced_cjs_rule, should_wrap_file_as_cjs,
}
use deno_director.Load.Packages.{ancestors, Asked}
use deno_director.Load.Packages.Reads.{IsPackageOf, package-All}

module _ {N : Type 0} (U : Urls) (w : World N U) (l : DynamicModuleLoader N) where
  abbrev pub NotDenied : Type 0
  NotDenied = l.imports_policy ≡ deny_all → ⊥

  -- The URL passed all the checks of a load.
  abbrev pub Passed : Urls.Url U → Type 0
  Passed u =
      (ensure_wasm_allowed U l u ≡ allowed)
      × (ensure_remote_load_allowed U l u ≡ allowed)
      × (outside U w l u ≡ false)

  -- Only the callback policy asks Node, nothing is read with imports off, and what is asked for over the
  -- network or read as a module passed the checks. Of a redirect that is followed only the first URL did.
  -- A package.json is that of a directory above a module that passed the checks.
  abbrev pub Safe : Effect (Urls.Url U) → Type 0
  Safe (emits e) = Unit
  Safe (asks_node spec ref dynamic) = l.imports_policy ≡ callback
  Safe (fetches u) = Passed u × NotDenied
  Safe (follows u v) = Passed u × NotDenied
  Safe (reads_cache p) = NotDenied
  Safe (writes_cache p s) = NotDenied
  Safe (resolves spec ref) = NotDenied
  Safe (reads_source u p) = Passed u × (Urls.to_file_path U u ≡ some p) × NotDenied
  Safe (loads_file u) = Passed u × NotDenied
  Safe (reads_package path p) =
      ((u : Urls.Url U) × (Urls.to_file_path U u ≡ some path) × Passed u)
      × IsPackageOf U w p (ancestors path)
      × NotDenied

  saved-Safe :
      (path : Option FilePath) (r : Text ⊎ Text) → NotDenied → All Safe (saved U w l path r).effects
  saved-Safe path (inl e) nd = tt
  saved-Safe none (inr s) nd = tt
  saved-Safe (some p) (inr s) nd = (nd, tt)

  -- What an attempt and an outcome do is safe.
  abbrev pub IsSafeAttempt : Attempt U Text → Type 0
  IsSafeAttempt a = All Safe a.effects

  abbrev pub IsSafe : Outcome U (ModuleSource (Urls.Url U)) → Type 0
  IsSafe o = All Safe o.effects

  cached-Safe :
      (path : Option FilePath) (a : Attempt U Text)
      → NotDenied
      → IsSafeAttempt a
      → IsSafeAttempt (transpile_cached U w l path a)
  unfolding transpile_cached
  cached-Safe none a nd h = h
  cached-Safe (some p) a nd h =
      if_elim IsSafeAttempt (module_loader_cfg l).reload (λ _. h)
        (λ _. elim (Option-cases (w.disk.read_to_string p)) [
          | inl e ↦ rw e (nd, h)
          | inr (s, e) ↦ rw e (nd, tt)
        ])

  pub transpile-Safe :
      (u : Urls.Url U) (ext code : Text)
      → NotDenied
      → IsSafeAttempt (maybe_transpile_ts_like U w l u ext code)
  unfolding maybe_transpile_ts_like transpile_and_save
  transpile-Safe u ext code nd =
      if_elim IsSafeAttempt (not (is_ts_like_ext ext)) (λ _. tt)
        (λ _.
          if_elim IsSafeAttempt (not (module_loader_cfg l).transpile_ts) (λ _. tt)
            (λ _. cached-Safe _ _ nd (saved-Safe _ _ nd)))

  then_transpile-Safe :
      (u : Urls.Url U) (ext : Text) (es : List (Effect (Urls.Url U))) (r : Result Text)
      → NotDenied
      → All Safe es
      → IsSafeAttempt (then_transpile U w l u ext (record { effects = es; result = r }))
  then_transpile-Safe u ext es (done code) nd h =
      All-append Safe es _ h (transpile-Safe u ext code nd)
  then_transpile-Safe u ext es (failed e) nd h = h
  then_transpile-Safe u ext es panicked nd h = h

  saves-Safe : (path : FilePath) (r : Result Text) → NotDenied → All Safe (saves U w l path r)
  saves-Safe path (done s) nd = (nd, tt)
  saves-Safe path (failed e) nd = tt
  saves-Safe path panicked nd = tt

  follows-Safe :
      (u : Urls.Url U) (vs : List (Urls.Url U))
      → Passed u
      → NotDenied
      → All Safe (map (follows u) vs)
  follows-Safe u [] p nd = tt
  follows-Safe u (v ∷ vs) p nd = ((p, nd), follows-Safe u vs p nd)

  requests-Safe : (u : Urls.Url U) → Passed u → NotDenied → All Safe (requests U w l u)
  unfolding requests
  requests-Safe u p nd = elim (Option-cases w.client_error) [
    | inr (e, g) ↦ rw g tt
    | inl g ↦ rw g ((p, nd), follows-Safe u _ p nd)
  ]

  fetch-Safe : (u : Urls.Url U) → Passed u → NotDenied → IsSafeAttempt (fetch_and_store U w l u)
  unfolding fetch_and_store
  fetch-Safe u p nd =
      All-append Safe (requests U w l u) _ (requests-Safe u p nd) (saves-Safe _ _ nd)

  remote-Safe :
      (u : Urls.Url U) → Passed u → NotDenied → IsSafeAttempt (read_or_fetch_remote_source U w l u)
  unfolding read_or_fetch_remote_source
  remote-Safe u p nd =
      if_elim IsSafeAttempt (module_loader_cfg l).reload (λ _. fetch-Safe u p nd)
        (λ _. elim (Option-cases (w.disk.read_to_string (remote_cache_path U w l u))) [
          | inl e ↦ rw e (nd, fetch-Safe u p nd)
          | inr (s, e) ↦ rw e (nd, tt)
        ])

  plain-Safe :
      (st : LoaderState) (requested u : Urls.Url U) (referrer : Option (Urls.Url U))
      (dynamic : Bool)
      → Passed u
      → NotDenied
      → IsSafe (load_plain U w l st requested u referrer dynamic)
  unfolding load_plain load_by_deno load_ts
  plain-Safe st requested u referrer dynamic p nd =
      if_elim IsSafe (is_disk U w l u && is_ts_like_ext (module_ext U u))
        (λ _. elim (Option-cases (Urls.to_file_path U u)) [
          | inl e ↦ rw e ((p, nd), tt)
          | inr (path, e) ↦
              let q : Safe (reads_source u path) = (p, e, nd) in
              rw e (
                then_transpile-Safe u (module_ext U u) (reads_source u path ∷ [])
                  (read_result U w l (w.disk.read_to_string path) u path) nd (q, tt))
        ])
        (λ _. ((p, nd), tt))

  facade-Safe :
      (b : Bool) (st : LoaderState) (src : Search (ModuleSource (Urls.Url U)))
      (o : Outcome U (ModuleSource (Urls.Url U)))
      → IsSafe o
      → IsSafe (facade_or U w l b st src o)
  facade-Safe false st src o h = h
  facade-Safe true st missing o h = h
  facade-Safe true st crashed o h = tt
  facade-Safe true st (found src) o h = tt

  wrap-Safe :
      (st : LoaderState) (u : Urls.Url U) (path : FilePath) (ext : Text)
      (c : ModuleSyntaxClassification)
      → Urls.to_file_path U u ≡ some path
      → Passed u
      → NotDenied
      → All Safe (should_wrap_file_as_cjs U w l st path ext c).effects
  unfolding should_wrap_file_as_cjs
  wrap-Safe st u path ext c e p nd =
      let Quiet : Asked U → Type 0 = λ a. All Safe a.effects in
      if_elim Quiet (not (is_node (module_loader_cfg l).cjs_interop)) (λ _. tt)
        (λ _.
          if_elim Quiet (ext == codes "mjs" || ext == codes "mts") (λ _. tt)
            (λ _.
              if_elim Quiet (ext == codes "js")
                (λ _.
                  if_elim Quiet c.cjs (λ _. tt)
                    (λ _. package-All U w Safe path st (λ q above. ((u, e, p), above, nd))))
                (λ _. tt)))

  behind-Safe :
      (es : List (Effect (Urls.Url U))) (event : Event) (o : Outcome U (ModuleSource (Urls.Url U)))
      → All Safe es
      → IsSafe o
      → IsSafe (behind (es ++ (emits event ∷ [])) o)
  behind-Safe es event o h k =
      All-append Safe (es ++ (emits event ∷ [])) _ (All-append Safe es _ h (tt, tt)) k

  wraps-Safe :
      (st : LoaderState) (u : Urls.Url U) (path : FilePath) (ext : Text)
      (c : ModuleSyntaxClassification) (b : Bool)
      → Urls.to_file_path U u ≡ some path
      → Passed u
      → NotDenied
      → All Safe (wraps_source U w l st path ext c b).effects
  wraps-Safe st u path ext c true e p nd = tt
  wraps-Safe st u path ext c false e p nd = wrap-Safe st u path ext c e p nd

  source-Safe :
      (st : LoaderState) (requested u : Urls.Url U) (referrer : Option (Urls.Url U))
      (dynamic : Bool) (path : FilePath) (source : Text)
      → Urls.to_file_path U u ≡ some path
      → Passed u
      → NotDenied
      → IsSafe (load_source U w l st requested u referrer dynamic path source)
  unfolding load_source
  source-Safe st requested u referrer dynamic path source e p nd =
      let (st₂, c) = classify_module_source U w l st (lower_extension U w l path) source in
      let asked : Asked U =
        wraps_source U w l st₂ path (lower_extension U w l path) c
          (is_some (match_forced_cjs_rule U w l path) || looks_cjs U w l source) in
      behind-Safe _ _
        (facade_or U w l asked.answer asked.state
          (build_node_cjs_interop_module U w l requested u source)
          (load_plain U w l asked.state requested u referrer dynamic))
        (wraps-Safe st₂ u path _ c _ e p nd)
        (facade-Safe _ _ _ _ (plain-Safe asked.state requested u referrer dynamic p nd))

  file-Safe :
      (st : LoaderState) (requested u : Urls.Url U) (referrer : Option (Urls.Url U))
      (dynamic : Bool) (path : FilePath)
      → Urls.to_file_path U u ≡ some path
      → Passed u
      → NotDenied
      → IsSafe (load_file U w l st requested u referrer dynamic path)
  unfolding load_file
  file-Safe st requested u referrer dynamic path e p nd =
      elim (Option-cases (w.disk.read_to_string path)) [
        | inl g ↦ rw g ((p, e, nd), plain-Safe st requested u referrer dynamic p nd)
        | inr (source, g) ↦
            rw g ((p, e, nd), source-Safe st requested u referrer dynamic path source e p nd)
      ]

  pub local-Safe :
      (st : LoaderState) (requested u : Urls.Url U) (referrer : Option (Urls.Url U))
      (dynamic : Bool)
      → Passed u
      → NotDenied
      → IsSafe (load_local U w l st requested u referrer dynamic)
  unfolding load_local
  local-Safe st requested u referrer dynamic p nd =
      let plain : IsSafe (load_plain U w l st requested u referrer dynamic) =
        plain-Safe st requested u referrer dynamic p nd in
      if_elim IsSafe (is_node (module_loader_cfg l).cjs_interop && is_disk U w l u)
        (λ _. elim (Option-cases (Urls.to_file_path U u)) [
          | inl e ↦ rw e plain
          | inr (path, e) ↦ rw e (file-Safe st requested u referrer dynamic path e p nd)
        ])
        (λ _. plain)

  ended-Safe :
      (st : LoaderState) (f : Text → ModuleSource (Urls.Url U)) (a : Attempt U Text)
      → IsSafeAttempt a
      → IsSafe (ended U w l st f a)
  ended-Safe st f a h = h

  pub remote_text-Safe :
      (u : Urls.Url U) → Passed u → NotDenied → IsSafeAttempt (remote_text U w l u)
  unfolding remote_text
  remote_text-Safe u p nd =
      let a : Attempt U Text = read_or_fetch_remote_source U w l u in
      then_transpile-Safe u (module_ext U u) a.effects a.result nd (remote-Safe u p nd)
