-- ===== src/Dispatch/Keeps/Settled.antt =====
-- Which promises the handlers of src/worker/dispatch/deno_commands.rs settle.
use deno_director.Prelude.{◌≡◌, refl, Bool, none, some, List, [], ◌∷◌, ◌++◌, ◌⊎◌, inl, inr, if_elim}
use deno_director.Prelude.Text.{Text, trim, is_empty}
use deno_director.Bridge.Json.{Numbers}
use deno_director.Bridge.Types.{JsValueBridge, undefined}
use deno_director.Dispatch.State.{DenoMsg, ResolvePayload, NodeMsg, Effect, World, Engine, Host}
use deno_director.Dispatch.Js.{js_call, run_script}
use deno_director.Dispatch.Commands.{
  send_node_msg_or_reject, settle, handle_close_msg, handle_memory_msg, handle_gc_msg,
  handle_set_global_msg, set_global_script, settle_script, handle_register_module_msg,
  handle_clear_module_msg, handle_eval_msg, handle_deno_msg, register_source,
}
use deno_director.Dispatch.Keeps.{
  Kept, message-Kept, typed-Kept, chunk-Kept, raw-Kept, bin-Kept, vectorized-Kept, chunks-Kept,
}
use deno_director.Dispatch.Keeps.Control.{control-Kept}

-- The promises that are settled by these effects, the latest first: what is sent to the Node thread is
-- settled there.
unfoldable pub settled : {N D R : Type 0} → List (Effect N D R) → List D
settled [] = []
settled (Effect.called c ∷ l) = settled l
settled (Effect.ran_script name script ∷ l) = settled l
settled (Effect.sent_node NodeMsg.emit_close ∷ l) = settled l
settled (Effect.sent_node (NodeMsg.resolve d payload) ∷ l) = d ∷ settled l
settled (Effect.rejected d message ∷ l) = d ∷ settled l
settled (Effect.resolved d value ∷ l) = d ∷ settled l
settled (Effect.replied tx reply ∷ l) = settled l
settled (Effect.low_memory_notification ∷ l) = settled l
settled (Effect.marked_closed ∷ l) = settled l
settled (Effect.queued_close_callback ∷ l) = settled l
settled (Effect.removed_worker ∷ l) = settled l

-- The promise that a message carries. The answer to a synchronous evaluation goes to its channel.
abbrev pub owed : {N D R : Type 0} → DenoMsg N D R → List D
owed (DenoMsg.eval source options deferred (some tx)) = []
owed (DenoMsg.eval source options (some d) none) = d ∷ []
owed (DenoMsg.eval source options none none) = []
owed (DenoMsg.set_global key value d) = d ∷ []
owed (DenoMsg.memory d) = d ∷ []
owed (DenoMsg.gc d) = d ∷ []
owed (DenoMsg.close d) = d ∷ []
owed (DenoMsg.register_module name source loader d) = d ∷ []
owed (DenoMsg.clear_module name d) = d ∷ []
owed (DenoMsg.post_message value) = []
owed (DenoMsg.post_message_typed t id payload) = []
owed (DenoMsg.post_stream_chunk id payload) = []
owed (DenoMsg.post_stream_chunk_raw id payload credit) = []
owed (DenoMsg.post_stream_chunk_raw_bin id payload credit) = []
owed (DenoMsg.post_stream_chunks id payloads) = []
owed (DenoMsg.post_stream_chunks_raw id payload) = []
owed (DenoMsg.post_stream_control kind id aux) = []

module _ {S : Numbers} {M D R : Type 0} (E : Engine S M D R) where
  abbrev W : Type 0
  W = World M (Numbers.Number S) D R

  -- The promises that are settled so far.
  abbrev Are : List D → W → Type 0
  Are l w = settled w.effects ≡ l

  Are-Kept : (l : List D) → Kept E (Are l)
  unfolding settled js_call run_script
  Are-Kept l = record {
    by_call = λ c w h. h;
    by_script = λ name script w h. h;
    by_step = λ w p c e h. h;
  }

module _ {S : Numbers} {M D R : Type 0} (E : Engine S M D R) (host : Host) where
  abbrev N : Type 0
  N = Numbers.Number S

  abbrev W2 : Type 0
  W2 = World M N D R

  -- The promise is settled once more.
  abbrev Once : D → List (Effect N D R) → W2 → Type 0
  Once d l w = settled w.effects ≡ d ∷ settled l

  settle-Once :
      (d : D) (payload : ResolvePayload N) (w : W2) → Once d w.effects (settle E host d payload w)
  unfolding settle send_node_msg_or_reject settled
  settle-Once d payload w =
      if_elim (λ (f : W2 → W2). Once d w.effects (f w)) host.listed
        (λ _.
          if_elim (λ (e : Effect N D R). settled (e ∷ w.effects) ≡ d ∷ settled w.effects)
            host.node_receives (λ _. refl) (λ _. refl))
        (λ _. refl)

  close-Once : (d : D) (w : W2) → Once d w.effects (handle_close_msg E host d w)
  unfolding handle_close_msg settled
  close-Once d w =
      if_elim (Once d w.effects) host.listed
        (λ _.
          if_elim (Once d w.effects) host.node_has_room (λ _. refl)
            (λ _.
              if_elim
                (λ (e : Effect N D R).
                  settled (e ∷ Effect.marked_closed ∷ Effect.resolved d undefined ∷ w.effects)
                  ≡ d ∷ settled w.effects)
                host.channel_open (λ _. refl) (λ _. refl)))
        (λ _. refl)

  set_global-Once :
      (key : Text) (value : JsValueBridge N) (d : D) (w : W2)
      → Once d w.effects (handle_set_global_msg E host key value d w)
  unfolding handle_set_global_msg settle_script run_script settled
  set_global-Once key value d w =
      settle-Once d _ (run_script E _ (set_global_script E host key value) w).0

  register_source-Once :
      (name : Text) (d : D) (w : W2) (r : Text ⊎ JsValueBridge N)
      → Once d w.effects (register_source E host name d w r)
  register_source-Once name d w (inl source) = settle-Once d _ _
  register_source-Once name d w (inr failure) = settle-Once d _ w

  register-Once :
      (name source loader : Text) (d : D) (w : W2)
      → Once d w.effects (handle_register_module_msg E host name source loader d w)
  unfolding handle_register_module_msg
  register-Once name source loader d w =
      if_elim (Once d w.effects) (is_empty (trim name)) (λ _. settle-Once d _ w)
        (λ _. register_source-Once (trim name) d w _)

  clear-Once :
      (name : Text) (d : D) (w : W2) → Once d w.effects (handle_clear_module_msg E host name d w)
  unfolding handle_clear_module_msg
  clear-Once name d w =
      if_elim (Once d w.effects) (is_empty (trim name)) (λ _. settle-Once d _ w)
        (λ _. settle-Once d _ _)

-- A message settles the promise that it carries exactly once, if it carries one, and no other: the
-- answer goes to the Node thread, or the promise is rejected or resolved directly. An evaluation with a
-- reply channel is answered there and settles none.
pub settles_once :
    {S : Numbers} {M D R : Type 0} (E : Engine S M D R) (host : Host) (native : Bool)
    (msg : DenoMsg (Numbers.Number S) D R) (w : World M (Numbers.Number S) D R)
    → settled (handle_deno_msg E host native msg w).0.effects ≡ owed msg ++ settled w.effects
unfolding handle_deno_msg handle_memory_msg handle_gc_msg handle_eval_msg settled
settles_once E host native (DenoMsg.eval source options deferred (some tx)) w = refl
settles_once E host native (DenoMsg.eval source options (some d) none) w = settle-Once E host d _ _
settles_once E host native (DenoMsg.eval source options none none) w = refl
settles_once E host native (DenoMsg.set_global key value d) w = set_global-Once E host key value d w
settles_once E host native (DenoMsg.memory d) w = settle-Once E host d _ w
settles_once E host native (DenoMsg.gc d) w = refl
settles_once E host native (DenoMsg.close d) w = close-Once E host d w
settles_once E host native (DenoMsg.register_module name source loader d) w =
    register-Once E host name source loader d w
settles_once E host native (DenoMsg.clear_module name d) w = clear-Once E host name d w
settles_once E host native (DenoMsg.post_message value) w =
    message-Kept E _ (Are-Kept E _) value w refl
settles_once E host native (DenoMsg.post_message_typed t id payload) w =
    typed-Kept E _ (Are-Kept E _) t id payload w refl
settles_once E host native (DenoMsg.post_stream_chunk id payload) w =
    chunk-Kept E _ (Are-Kept E _) id payload native w refl
settles_once E host native (DenoMsg.post_stream_chunk_raw id payload credit) w =
    raw-Kept E _ (Are-Kept E _) id payload credit native w refl
settles_once E host native (DenoMsg.post_stream_chunk_raw_bin id payload credit) w =
    bin-Kept E _ (Are-Kept E _) id payload credit native w refl
settles_once E host native (DenoMsg.post_stream_chunks id payloads) w =
    chunks-Kept E _ (Are-Kept E _) id payloads native w refl
settles_once E host native (DenoMsg.post_stream_chunks_raw id payload) w =
    vectorized-Kept E _ (Are-Kept E _) id payload native w refl
settles_once E host native (DenoMsg.post_stream_control kind id aux) w =
    control-Kept E _ (Are-Kept E _) kind id aux native w refl
