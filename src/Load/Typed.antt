-- ===== src/Load/Typed.antt =====
-- Source code that the import callback gives (src/worker/modules.rs).
use deno_director.Prelude.{◌≡◌, refl, ap, ◌++◌, none, some, list_eq}
use deno_director.Prelude.Dict.{get, Unique}
use deno_director.Prelude.Outcome.{done}
use deno_director.Prelude.Text.{Text, codes}
use deno_director.LoaderConfig.{Urls, DynamicModuleLoader}
use deno_director.Registry.{get_for_load}
use deno_director.Registry.Loads.{get_for_load-put_persistent}
use deno_director.Resolve.Wasm.{javascript}
use deno_director.Load.World.{World, new, LoaderState, Outcome, ModuleSource}
use deno_director.Load.Decision.{
  next_virtual_specifier, source_typed_wrapper, typed_text, typed_result, build_source_typed_module,
}

-- The name under which the next source is stored.
abbrev pub next_name : LoaderState → Text
next_name st = (next_virtual_specifier st (codes "js")).1

module _ {N : Type 0} (U : Urls) (w : World N U) (l : DynamicModuleLoader N) where
  -- The text of a module that passes on all exports of the module that it names by this literal.
  abbrev pub passes_on : Text → Text
  passes_on name =
      codes "export * from " ++ name ++ codes ";\nexport { default } from " ++ name ++ codes ";\n"

  -- The module passes on what is stored under the next name, of which this is the JSON text, and that is
  -- the code.
  abbrev pub Serves :
      LoaderState → Urls.Url U → Text → Text → Outcome U (ModuleSource (Urls.Url U)) → Type 0
  Serves st requested name code o =
      (o.result ≡ done (new javascript (passes_on name) requested))
      × ((get_for_load o.state.reg (next_name st)).1 ≡ some (code, javascript))

  wrapper_text :
      (virt name : Text)
      → w.to_json virt ≡ some name
      → source_typed_wrapper U w l virt ≡ passes_on name
  unfolding source_typed_wrapper
  wrapper_text virt name e = rw e refl

  stored-Serves :
      (st : LoaderState) (requested : Urls.Url U) (code name : Text)
      → w.to_json (next_name st) ≡ some name
      → Unique st.reg.modules
      → get st.reg.aliases (next_name st) ≡ none
      → Serves st requested name code (typed_result U w l st requested (done code))
  unfolding next_virtual_specifier
  stored-Serves st requested code name j u free = (
    ap (λ t. done (new javascript t requested)) (wrapper_text (next_name st) name j),
    get_for_load-put_persistent st.reg (next_name st) code javascript u free,
  )

  -- If the source that the callback gives for an import needs no transpilation or is transpiled, in a
  -- registry with one entry for each specifier, and the next virtual name is no user's name and has a
  -- JSON text, then the text of the imported module is that of an export of all names and one of the
  -- default, each from that JSON text, and the registry hands out the code under the name, whatever had
  -- to be evicted for it.
  pub build_source_typed_module-Serves :
      (st : LoaderState) (requested : Urls.Url U) (ext code final_code name : Text)
      → w.to_json (next_name st) ≡ some name
      → (typed_text U w l requested ext code).result ≡ done final_code
      → Unique st.reg.modules
      → get st.reg.aliases (next_name st) ≡ none
      → Serves st requested name final_code (build_source_typed_module U w l st requested ext code)
  unfolding build_source_typed_module
  build_source_typed_module-Serves st requested ext code final_code name j e u free =
      rw e (stored-Serves st requested final_code name j u free)
