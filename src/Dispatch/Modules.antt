-- ===== src/Dispatch/Modules.antt =====
-- Modules that a worker is told of by messages (src/worker/dispatch/deno_commands.rs), and what its
-- loader then finds (src/worker/modules.rs).
use deno_director.Prelude.{◌≡◌, refl, ap, true, false, none, some, ◌∷◌, inl, if_elim, list_eq}
use deno_director.Prelude.Dict.{is_some, get, Unique}
use deno_director.Prelude.Text.{Text, trim, is_empty}
use deno_director.Bridge.Json.{Numbers}
use deno_director.Bridge.Types
use deno_director.Bridge.Types.{JsValueBridge}
use deno_director.Registry
use deno_director.Registry.Loads.{get_for_load-put_named_persistent, get_for_load-remove_named}
use deno_director.Dispatch.State.{Deno, ResolvePayload, NodeMsg, World, Engine, Host, Effect}
use deno_director.Dispatch.Commands.{
  send_node_msg_or_reject, settle, no_stats, handle_register_module_msg, handle_clear_module_msg,
}

module _ {S : Numbers} {M D R : Type 0} (E : Engine S M D R) (host : Host) where
  abbrev N : Type 0
  N = Numbers.Number S

  abbrev W : Type 0
  W = World M N D R

  deno-settle :
      (d : D) (payload : ResolvePayload N) (w : W) → (settle E host d payload w).deno ≡ w.deno
  unfolding settle send_node_msg_or_reject
  deno-settle d payload w =
      if_elim (λ (f : W → W). (f w).deno ≡ w.deno) host.listed (λ _. refl) (λ _. refl)

  registry-settle :
      (d : D) (payload : ResolvePayload N) (w : W)
      → (settle E host d payload w).deno.registry ≡ w.deno.registry
  registry-settle d payload w = ap (λ (x : Deno M). x.registry) (deno-settle d payload w)

  -- A module that is registered by a message, under a name that is not blank and with a source that is
  -- transpiled, is loaded by the trimmed name as JavaScript with the text that the transpiler gave,
  -- whatever the registry held and had to evict, if the registry has one entry for each specifier.
  pub get_for_load-handle_register_module_msg :
      (name source loader code : Text) (d : D) (w : W)
      → is_empty (trim name) ≡ false
      → Engine.transpile E (trim name) loader source ≡ inl code
      → Unique w.deno.registry.modules
      → (Registry.get_for_load
          (handle_register_module_msg E host name source loader d w).deno.registry
          (trim name)).1
        ≡ some (code, Engine.javascript E)
  unfolding handle_register_module_msg
  get_for_load-handle_register_module_msg name source loader code d w named transpiled u =
      rw (handle_register_module_msg, named, transpiled, registry-settle)
        (get_for_load-put_named_persistent (Engine.named_virtual_specifier E) w.deno.registry
          (trim name) code (Engine.javascript E) u)

  effects-settle :
      (d : D) (payload : ResolvePayload N) (w : W)
      → host.listed ≡ true
      → host.node_receives ≡ true
      → (settle E host d payload w).effects
        ≡ Effect.sent_node (NodeMsg.resolve d payload) ∷ w.effects
  unfolding settle send_node_msg_or_reject
  effects-settle d payload w listed receives = rw (listed, receives) refl

  -- A message that clears a module, under a name that is not blank and is not the specifier of a
  -- module, resolves its promise with whether the name was known, as long as the worker is listed and
  -- the Node thread receives; nothing is loaded by the trimmed name afterwards.
  pub get_for_load-handle_clear_module_msg :
      (name : Text) (d : D) (w : W)
      → is_empty (trim name) ≡ false
      → get w.deno.registry.modules (trim name) ≡ none
      → host.listed ≡ true
      → host.node_receives ≡ true
      → ((handle_clear_module_msg E host name d w).effects
          ≡ Effect.sent_node (
              NodeMsg.resolve d (
                ResolvePayload.result
                  (inl (Types.bool (is_some (get w.deno.registry.aliases (trim name)))))
                  no_stats))
            ∷ w.effects)
        × ((Registry.get_for_load
              (handle_clear_module_msg E host name d w).deno.registry
              (trim name)).1
            ≡ none)
  unfolding handle_clear_module_msg
  get_for_load-handle_clear_module_msg name d w named free listed receives =
      let (gone, _, known) = get_for_load-remove_named w.deno.registry (trim name) free in
      rw
        (
          handle_clear_module_msg,
          named,
          effects-settle _ _ _ listed receives,
          registry-settle,
          known,
        )
        (refl, gone)
