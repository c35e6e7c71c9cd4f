-- ===== src/Dispatch/Keeps/Planes.antt =====
-- The handlers of src/worker/dispatch/deno_commands.rs keep the plane of the runtime consistent.
use deno_director.Prelude.{◌≡◌, refl, Bool, Option, none, some, ◌⊎◌, inl, inr, if_elim}
use deno_director.Prelude.Text.{Text, trim, is_empty}
use deno_director.Bridge.Json.{Numbers}
use deno_director.Bridge.Types.{JsValueBridge}
use deno_director.StreamPlane.State.{NativeIncomingPlane}
use deno_director.StreamPlane.Invariant.{IsConsistent}
use deno_director.StreamPlane.Reachable.{step-IsConsistent}
use deno_director.Dispatch.State.{
  JsCall, Deno, EvalOptions, EvalReply, DenoMsg, ResolvePayload, World, Engine, Host,
}
use deno_director.Dispatch.Js.{js_call, run_script}
use deno_director.Dispatch.Commands.{
  send_node_msg_or_reject, settle, handle_close_msg, handle_memory_msg, handle_gc_msg,
  handle_set_global_msg, set_global_script, settle_script, handle_register_module_msg,
  handle_clear_module_msg, handle_eval_msg, handle_deno_msg, register_source, answer_eval,
}
use deno_director.Dispatch.Keeps.{
  Kept, message-Kept, typed-Kept, chunk-Kept, raw-Kept, bin-Kept, vectorized-Kept, chunks-Kept,
}
use deno_director.Dispatch.Keeps.Control.{control-Kept}

-- A runtime without a plane, or with a consistent one.
abbrev pub HoldsPlane : Option NativeIncomingPlane → Type 0
HoldsPlane none = Unit
HoldsPlane (some p) = IsConsistent p

-- What JavaScript does to the plane, it does through the operations of the plane.
pub record KeepsPlane {S : Numbers} {M D R : Type 0} (E : Engine S M D R) : Type 0 where
  pub by_call :
      (c : JsCall (Numbers.Number S)) (deno : Deno M)
      → HoldsPlane deno.plane
      → HoldsPlane (Engine.call E c deno).0.plane
  pub by_script :
      (name script : Text) (deno : Deno M)
      → HoldsPlane deno.plane
      → HoldsPlane (Engine.execute_script E name script deno).0.plane
  pub by_eval :
      (source : Text) (options : EvalOptions (Numbers.Number S)) (deno : Deno M)
      → HoldsPlane deno.plane
      → HoldsPlane (Engine.eval_in_runtime E source options deno).0.plane

module _ {S : Numbers} {M D R : Type 0} (E : Engine S M D R) (k : KeepsPlane E) where
  abbrev W : Type 0
  W = World M (Numbers.Number S) D R

  abbrev Holds : W → Type 0
  Holds w = HoldsPlane w.deno.plane

  Holds-Kept : Kept E Holds
  unfolding js_call run_script
  Holds-Kept = record {
    by_call = λ c w h. k.by_call c w.deno h;
    by_script = λ name script w h. k.by_script name script w.deno h;
    by_step = λ w p c e h. step-IsConsistent p c (let g : HoldsPlane (some p) = rw e at h in g);
  }

module _ {S : Numbers} {M D R : Type 0} (E : Engine S M D R) (host : Host) where
  abbrev W2 : Type 0
  W2 = World M (Numbers.Number S) D R

  -- What settles a promise does not touch the runtime.
  settle-deno :
      (d : D) (payload : ResolvePayload (Numbers.Number S)) (w : W2)
      → (settle E host d payload w).deno ≡ w.deno
  unfolding settle send_node_msg_or_reject
  settle-deno d payload w =
      if_elim (λ (f : W2 → W2). (f w).deno ≡ w.deno) host.listed (λ _. refl) (λ _. refl)

  close-deno : (d : D) (w : W2) → (handle_close_msg E host d w).deno ≡ w.deno
  unfolding handle_close_msg
  close-deno d w =
      if_elim (λ (v : W2). v.deno ≡ w.deno) host.listed
        (λ _. if_elim (λ (v : W2). v.deno ≡ w.deno) host.node_has_room (λ _. refl) (λ _. refl))
        (λ _. refl)

  settle-Holds :
      (d : D) (payload : ResolvePayload (Numbers.Number S)) (w : W2)
      → HoldsPlane w.deno.plane
      → HoldsPlane (settle E host d payload w).deno.plane
  settle-Holds d payload w h = rw (settle-deno d payload w) h

  register_source-Holds :
      (name : Text) (d : D) (w : W2) (r : Text ⊎ JsValueBridge (Numbers.Number S))
      → HoldsPlane w.deno.plane
      → HoldsPlane (register_source E host name d w r).deno.plane
  register_source-Holds name d w (inl source) h = settle-Holds d _ _ h
  register_source-Holds name d w (inr failure) h = settle-Holds d _ w h

  answer_eval-Holds :
      (deferred : Option D) (tx : Option R) (reply : EvalReply (Numbers.Number S)) (w : W2)
      → HoldsPlane w.deno.plane
      → HoldsPlane (answer_eval E host deferred tx reply w).deno.plane
  answer_eval-Holds deferred (some tx) reply w h = h
  answer_eval-Holds (some d) none reply w h = settle-Holds d _ w h
  answer_eval-Holds none none reply w h = h

-- If JavaScript uses the plane through its operations only, a runtime whose plane is consistent has a
-- consistent plane after every message.
pub handle_deno_msg-HoldsPlane :
    {S : Numbers} {M D R : Type 0} (E : Engine S M D R) (k : KeepsPlane E) (host : Host)
    (native : Bool) (msg : DenoMsg (Numbers.Number S) D R) (w : World M (Numbers.Number S) D R)
    → HoldsPlane w.deno.plane
    → HoldsPlane (handle_deno_msg E host native msg w).0.deno.plane
unfolding handle_deno_msg handle_memory_msg handle_gc_msg handle_eval_msg handle_set_global_msg
    settle_script run_script handle_register_module_msg handle_clear_module_msg
handle_deno_msg-HoldsPlane E k host native (DenoMsg.eval source options deferred tx) w h =
    answer_eval-Holds E host deferred tx _ _ (k.by_eval source options w.deno h)
handle_deno_msg-HoldsPlane E k host native (DenoMsg.set_global key value d) w h =
    settle-Holds E host d _ (run_script E _ (set_global_script E host key value) w).0
      (k.by_script _ _ w.deno h)
handle_deno_msg-HoldsPlane E k host native (DenoMsg.memory d) w h = settle-Holds E host d _ w h
handle_deno_msg-HoldsPlane E k host native (DenoMsg.gc d) w h = h
handle_deno_msg-HoldsPlane E k host native (DenoMsg.close d) w h = rw (close-deno E host d w) h
handle_deno_msg-HoldsPlane {M} {D} {R} E k host native
      (DenoMsg.register_module name source loader d) w h =
    if_elim (λ (v : World M _ D R). HoldsPlane v.deno.plane) (is_empty (trim name))
      (λ _. settle-Holds E host d _ w h) (λ _. register_source-Holds E host (trim name) d w _ h)
handle_deno_msg-HoldsPlane {M} {D} {R} E k host native (DenoMsg.clear_module name d) w h =
    if_elim (λ (v : World M _ D R). HoldsPlane v.deno.plane) (is_empty (trim name))
      (λ _. settle-Holds E host d _ w h) (λ _. settle-Holds E host d _ _ h)
handle_deno_msg-HoldsPlane E k host native (DenoMsg.post_message value) w h =
    message-Kept E _ (Holds-Kept E k) value w h
handle_deno_msg-HoldsPlane E k host native (DenoMsg.post_message_typed t id payload) w h =
    typed-Kept E _ (Holds-Kept E k) t id payload w h
handle_deno_msg-HoldsPlane E k host native (DenoMsg.post_stream_chunk id payload) w h =
    chunk-Kept E _ (Holds-Kept E k) id payload native w h
handle_deno_msg-HoldsPlane E k host native (DenoMsg.post_stream_chunk_raw id payload credit) w h =
    raw-Kept E _ (Holds-Kept E k) id payload credit native w h
handle_deno_msg-HoldsPlane E k host native (DenoMsg.post_stream_chunk_raw_bin id payload credit) w
      h =
    bin-Kept E _ (Holds-Kept E k) id payload credit native w h
handle_deno_msg-HoldsPlane E k host native (DenoMsg.post_stream_chunks id payloads) w h =
    chunks-Kept E _ (Holds-Kept E k) id payloads native w h
handle_deno_msg-HoldsPlane E k host native (DenoMsg.post_stream_chunks_raw id payload) w h =
    vectorized-Kept E _ (Holds-Kept E k) id payload native w h
handle_deno_msg-HoldsPlane E k host native (DenoMsg.post_stream_control kind id aux) w h =
    control-Kept E _ (Holds-Kept E k) kind id aux native w h
