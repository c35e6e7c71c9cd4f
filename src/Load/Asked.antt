-- ===== src/Load/Asked.antt =====
-- The way of an import from a script to the callback of the user (src/worker/modules.rs).
use deno_director.Prelude.{◌≡◌, refl, ◌∙◌, ap, Bool, false, Option, none}
use deno_director.Prelude.Outcome.{done}
use deno_director.Prelude.Text.{Text}
use deno_director.LoaderConfig.{Urls, callback, DynamicModuleLoader}
use deno_director.Loader.{allowed}
use deno_director.Registry.{get_for_load}
use deno_director.Resolve.{resolve}
use deno_director.Resolve.Sandbox.{encode_resolve_url}
use deno_director.Resolve.Wasm.{ensure_wasm_allowed}
use deno_director.Resolve.Carried.{KeepsQuery, original-encode, IsForCallback, resolve-encode}
use deno_director.Load.{
  decide, async, load, load_import, load_by_policy, load_by_callback, imports_policy_error,
  policy_error, after_policy, callback_imports_blocked_during_eval_sync,
}
use deno_director.Load.World.{World, LoaderState}

module _ {N : Type 0} (U : Urls) (k : KeepsQuery U) (w : World N U) (l : DynamicModuleLoader N)
    (spec ref : Text) where
  abbrev pub carrier : Urls.Url U
  carrier = encode_resolve_url U spec ref

  by_policy :
      (st : LoaderState) (u : Urls.Url U) (runtime : Option (Urls.Url U)) (dynamic : Bool)
      → l.imports_policy ≡ callback
      → callback_imports_blocked_during_eval_sync U w l ≡ false
      → (load_by_policy U w l st u runtime dynamic spec ref).response
        ≡ async (decide u runtime dynamic spec ref)
  unfolding load_by_policy imports_policy_error load_by_callback
  by_policy st u runtime dynamic p idle =
      ap
        (λ q.
          (after_policy U w l q (policy_error U w l q spec) st u runtime dynamic spec ref).response)
        p
      ∙ rw idle refl

  imported :
      (st : LoaderState) (u : Urls.Url U) (runtime : Option (Urls.Url U)) (dynamic : Bool)
      → l.imports_policy ≡ callback
      → callback_imports_blocked_during_eval_sync U w l ≡ false
      → (get_for_load st.reg (Urls.display U u)).1 ≡ none
      → (load_import U w l st u runtime dynamic spec ref).response
        ≡ async (decide u runtime dynamic spec ref)
  unfolding load_import
  imported st u runtime dynamic p idle g =
      rw (load_import, g) (by_policy _ u runtime dynamic p idle)

  -- If the url crate keeps a query that is appended: an import that only the callback decides on, since the
  -- policy is that of the callback, the registry does not know the specifier, it is no module of Node and
  -- passes the check of WebAssembly, resolves to a URL that carries it. If that URL passes the check, is
  -- not in the registry, and no evalSync is active, its load starts the job that asks the callback for
  -- the very specifier and referrer of the script.
  pub callback_asked :
      (st later : LoaderState) (runtime : Option (Urls.Url U)) (dynamic : Bool)
      → IsForCallback U w.disk l st.reg spec
      → ensure_wasm_allowed U l carrier ≡ allowed
      → (get_for_load later.reg (Urls.display U carrier)).1 ≡ none
      → callback_imports_blocked_during_eval_sync U w l ≡ false
      → (resolve U w.disk l st.reg spec ref ≡ done carrier)
        × ((load U w l later carrier runtime dynamic).response
            ≡ async (decide carrier runtime dynamic spec ref))
  unfolding load
  callback_asked st later runtime dynamic c a g idle = (
    resolve-encode U w.disk l st.reg spec ref c,
    rw (load, a, original-encode U k spec ref runtime)
        (imported later carrier runtime dynamic c.0 idle g),
  )
