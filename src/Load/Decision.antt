-- ===== src/Load/Decision.antt =====
-- What the import callback of the user decides, and what the module loader of src/worker/modules.rs does
-- with it.
use deno_director.Prelude.{
  ◌+◌, ◌%◌, Bool, true, false, ◌||◌, Option, none, some, List, [], ◌∷◌, ◌++◌, ◌==◌, list_eq,
  if◌then◌else◌,
}
use deno_director.Prelude.Outcome.{Result, done, failed, panicked}
use deno_director.Prelude.Text.{Text, codes, decimal}
use deno_director.LoaderConfig.{Urls, DynamicModuleLoader}
use deno_director.Registry.{put_persistent}
use deno_director.Resolve.{resolve_like_allow_disk, resolve_rewritten}
use deno_director.Resolve.Wasm.{javascript, is_ts_like_ext}
use deno_director.Load.World.{
  ImportDecision, block, source_typed, CallbackDecisionWait, decision, channel_closed, timed_out,
  ModuleSource, new, import_requested, import_resolved, Effect, emits, asks_node, resolves,
  LoaderState, Outcome, Attempt,
}
use deno_director.Load.World
use deno_director.Load.Transpile.{maybe_transpile_ts_like}
use deno_director.Load.Files.{refuse, behind}
use deno_director.Load.Resolved.{load_resolved_module}

unfoldable pub next_virtual_specifier : LoaderState → Text → LoaderState × Text
next_virtual_specifier st ext =
    let n = (st.counter + 1) % 0x1_0000_0000_0000_0000 in
    let kind = if ext == codes "js" || is_ts_like_ext ext then ext else codes "js" in
    (
      record st { counter = n },
      codes "denojs-worker://virtual/__vm_" ++ decimal n ++ codes "." ++ kind,
    )

-- A closed channel blocks the import, and a wait that is too long is an error.
unfoldable pub normalize_callback_decision : CallbackDecisionWait → Text → Result ImportDecision
normalize_callback_decision (decision d) spec = done d
normalize_callback_decision channel_closed spec = done block
normalize_callback_decision timed_out spec = failed (codes "Import callback timed out: " ++ spec)

module _ {N : Type 0} (U : Urls) (w : World.World N U) (l : DynamicModuleLoader N) where
  unfoldable pub request_import_decision : Text → Text → Bool → Result ImportDecision
  request_import_decision spec ref dynamic = elim (w.callback spec ref dynamic) [
    | none ↦ failed (codes "Imports callback unavailable")
    | some wait ↦ normalize_callback_decision wait spec
  ]

  unfoldable pub source_typed_wrapper : Text → Text
  source_typed_wrapper virt =
      let v : Text = elim (w.to_json virt) [
        | some s ↦ s
        | none ↦ codes "\"denojs-worker://virtual/__vm_bad.js\""
      ] in
      codes "export * from " ++ v ++ codes ";\nexport { default } from " ++ v ++ codes ";\n"

  -- The code that the callback gave is stored under a new name, which the requested module passes on.
  abbrev store_typed : LoaderState → Urls.Url U → Text → Outcome U (ModuleSource (Urls.Url U))
  store_typed st requested code =
      let (st₂, virt) = next_virtual_specifier st (codes "js") in
      record {
        state = record st₂ { reg = put_persistent st₂.reg virt code javascript };
        effects = [];
        result = done (new javascript (source_typed_wrapper virt) requested);
      }

  abbrev pub typed_text : Urls.Url U → Text → Text → Attempt U Text
  typed_text requested ext code =
      if is_ts_like_ext ext
      then maybe_transpile_ts_like U w l requested ext code
      else record { effects = []; result = done code }

  abbrev pub typed_result :
      LoaderState → Urls.Url U → Result Text → Outcome U (ModuleSource (Urls.Url U))
  typed_result st requested (done code) = store_typed st requested code
  typed_result st requested (failed e) = refuse st e
  typed_result st requested panicked = record { state = st; effects = []; result = panicked }

  unfoldable pub build_source_typed_module :
      LoaderState → Urls.Url U → Text → Text → Outcome U (ModuleSource (Urls.Url U))
  build_source_typed_module st requested ext code =
      let a : Attempt U Text = typed_text requested ext code in
      behind a.effects (typed_result st requested a.result)

  -- `import.resolved` without a hit of the registry.
  abbrev pub resolved_event : Text → Text → Bool → Option Text → Text → Bool → Effect (Urls.Url U)
  resolved_event spec ref dynamic url source blocked =
      emits (import_resolved spec ref dynamic false url source blocked)

  -- The event behind the source of the callback, if that could be built.
  abbrev pub announcement :
      Urls.Url U
      → Text
      → Text
      → Bool
      → Result (ModuleSource (Urls.Url U))
      → List (Effect (Urls.Url U))
  announcement requested spec ref dynamic (done src) =
      resolved_event spec ref dynamic (some (Urls.display U requested)) (codes "callback.source")
        false
      ∷ []
  announcement requested spec ref dynamic (failed e) = []
  announcement requested spec ref dynamic panicked = []

  -- An import that the callback allows, from disk or under another specifier.
  unfoldable pub load_decided :
      LoaderState
      → Urls.Url U
      → Option (Urls.Url U)
      → Bool
      → Text
      → Text
      → Text
      → Result (Urls.Url U)
      → Outcome U (ModuleSource (Urls.Url U))
  load_decided st requested referrer dynamic spec ref source (done u) =
      behind (resolved_event spec ref dynamic (some (Urls.display U u)) source false ∷ [])
        (load_resolved_module U w l st requested u referrer dynamic)
  load_decided st requested referrer dynamic spec ref source (failed e) = refuse st e
  load_decided st requested referrer dynamic spec ref source panicked = record {
    state = st;
    effects = [];
    result = panicked;
  }

  unfoldable pub follow_decision :
      LoaderState
      → Urls.Url U
      → Option (Urls.Url U)
      → Bool
      → Text
      → Text
      → ImportDecision
      → Outcome U (ModuleSource (Urls.Url U))
  follow_decision st requested referrer dynamic spec ref block =
      behind (resolved_event spec ref dynamic none (codes "callback.block") true ∷ [])
        (refuse st (codes "Import blocked: " ++ spec))
  follow_decision st requested referrer dynamic spec ref World.allow_disk =
      behind (resolves spec ref ∷ []) (
        load_decided st requested referrer dynamic spec ref (codes "callback.allowDisk")
          (resolve_like_allow_disk U w.disk l st.reg spec ref))
  follow_decision st requested referrer dynamic spec ref (World.resolve new_spec) =
      behind (resolves new_spec ref ∷ []) (
        load_decided st requested referrer dynamic spec ref (codes "callback.resolve")
          (resolve_rewritten U w.disk l st.reg new_spec ref))
  follow_decision st requested referrer dynamic spec ref (source_typed ext code) =
      let o : Outcome U (ModuleSource (Urls.Url U)) =
        build_source_typed_module st requested ext code in
      record o { effects = o.effects ++ announcement requested spec ref dynamic o.result }

  unfoldable pub run_decision :
      LoaderState
      → Urls.Url U
      → Option (Urls.Url U)
      → Bool
      → Text
      → Text
      → Outcome U (ModuleSource (Urls.Url U))
  run_decision st requested referrer dynamic spec ref =
      behind (asks_node spec ref dynamic ∷ []) (elim (request_import_decision spec ref dynamic) [
        | done d ↦ follow_decision st requested referrer dynamic spec ref d
        | failed e ↦ refuse st e
        | panicked ↦ record { state = st; effects = []; result = panicked }
      ])
