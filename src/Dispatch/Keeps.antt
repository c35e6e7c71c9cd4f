-- ===== src/Dispatch/Keeps.antt =====
-- A rule for the handlers of messages in src/worker/dispatch/deno_commands.rs that carry no promise:
-- what JavaScript and each call of the plane keep, the handlers keep.
pub mod Control
pub mod Settled
pub mod Planes
use deno_director.Prelude.{
  ℕ, ◌≡◌, refl, Bool, true, false, Option, none, some, List, [], ◌∷◌, inl, inr, ltb, list_eq,
  Option-cases, if_elim, if◌then◌else◌, arith,
}
use deno_director.Prelude.Text.{Text}
use deno_director.Bridge.Json.{Numbers}
use deno_director.Bridge.Types.{JsValueBridge}
use deno_director.StreamPlane.State.{Bytes, NativeIncomingPlane}
use deno_director.StreamPlane.Reachable.{Call, step}
use deno_director.StreamPlane
use deno_director.StreamPlane.Push.{push_chunk_with_wake, push_vectorized_with_wake}
use deno_director.Dispatch.State.{JsCall, Outcome, World, Engine, with_plane}
use deno_director.Dispatch.Js.{
  js_call, js_call_or, run_script, handle_post_message_msg, handle_post_message_typed_msg,
  post_typed_object,
}
use deno_director.Dispatch.Streams.{
  native_push, pushed, handle_post_stream_chunk_msg, handle_post_stream_chunk_raw_msg,
  handle_post_stream_chunk_raw_bin_msg, handle_post_stream_chunks_raw_msg,
  handle_post_stream_chunks_msg, post_each, post_chunk_values, post_merged, push_or, post_all,
  positive_id,
}

-- A push that takes place is a push into the plane of the runtime.
native_push-plane :
    {A : Type 0} (u : Bool) (id : Option ℕ) (chunk : Option A) (plane : Option NativeIncomingPlane)
    (r : ℕ × A × NativeIncomingPlane)
    → native_push u id chunk plane ≡ some r
    → plane ≡ some r.2
native_push-plane true (some id) (some chunk) (some p) r h = cc
native_push-plane true (some id) (some chunk) none r h = cc
native_push-plane true (some id) none p r h = cc
native_push-plane true none chunk p r h = cc
native_push-plane false id chunk p r h = cc

module _ {S : Numbers} {M D R : Type 0} (E : Engine S M D R) where
  abbrev W : Type 0
  W = World M (Numbers.Number S) D R

  pub record Kept (P : W → Type 0) : Type 0 where
    pub by_call : (c : JsCall (Numbers.Number S)) (w : W) → P w → P (js_call E c w).0
    pub by_script : (name script : Text) (w : W) → P w → P (run_script E name script w).0
    pub by_step :
        (w : W) (p : NativeIncomingPlane) (c : Call)
        → w.deno.plane ≡ some p
        → P w
        → P (with_plane (step p c) w)

module _ {S : Numbers} {M D R : Type 0} (E : Engine S M D R)
    (P : World M (Numbers.Number S) D R → Type 0) (k : Kept E P) where
  abbrev V : Type 0
  V = JsValueBridge (Numbers.Number S)

  abbrev W2 : Type 0
  W2 = World M (Numbers.Number S) D R

  pub js_call_or-Kept :
      (c : JsCall (Numbers.Number S)) (fallback : W2 → W2)
      → ((w : W2) → P w → P (fallback w))
      → (w : W2) → P w
      → P (js_call_or E c fallback w)
  unfolding js_call_or
  js_call_or-Kept c fallback keeps w h =
      let now : P (js_call E c w).0 = k.by_call c w h in
      elim (js_call E c w).1
        as (λ o. P (elim o [
          | Outcome.unavailable ↦ (js_call E c w).0
          | Outcome.returned ↦ (js_call E c w).0
          | Outcome.threw ↦ fallback (js_call E c w).0
        ])) [ Outcome.unavailable ↦ now | Outcome.returned ↦ now | Outcome.threw ↦ keeps _ now ]

  pub message-Kept : (value : V) (w : W2) → P w → P (handle_post_message_msg E value w)
  unfolding handle_post_message_msg
  message-Kept value w h = js_call_or-Kept _ _ (λ v g. k.by_script _ _ v g) w h

  object-Kept :
      (t : Text) (id : ℕ) (payload : V) (w : W2) → P w → P (post_typed_object E t id payload w)
  unfolding post_typed_object
  object-Kept t id payload w h = js_call_or-Kept _ _ (message-Kept _) w h

  pub typed-Kept :
      (t : Text) (id : ℕ) (payload : V) (w : W2)
      → P w
      → P (handle_post_message_typed_msg E t id payload w)
  unfolding handle_post_message_typed_msg
  typed-Kept t id payload w h =
      let now : P (js_call E (JsCall.dispatch_node_typed_message t id payload) w).0 =
        k.by_call _ w h in
      let slow : P (
          post_typed_object E t id payload
            (js_call E (JsCall.dispatch_node_typed_message t id payload) w).0) =
        object-Kept t id payload _ now in
      elim (js_call E (JsCall.dispatch_node_typed_message t id payload) w).1
        as (λ o. P (elim o [
          | Outcome.returned ↦ (js_call E (JsCall.dispatch_node_typed_message t id payload) w).0
          | Outcome.unavailable ↦
              post_typed_object E t id payload
                (js_call E (JsCall.dispatch_node_typed_message t id payload) w).0
          | Outcome.threw ↦
              post_typed_object E t id payload
                (js_call E (JsCall.dispatch_node_typed_message t id payload) w).0
        ])) [ Outcome.returned ↦ now | Outcome.unavailable ↦ slow | Outcome.threw ↦ slow ]

  pub pushed-Kept :
      (id : ℕ) (r : NativeIncomingPlane × Bool × Bool) (w : W2)
      → P (with_plane r.0 w)
      → P (pushed E id r w)
  unfolding pushed
  pushed-Kept id (p, d, true) w h = k.by_call _ _ h
  pushed-Kept id (p, d, false) w h = h

  -- A push is a call of the plane.
  push_or-Kept :
      {A : Type 0} (u : Bool) (id : Option ℕ) (chunk : Option A)
      (push : NativeIncomingPlane → ℕ → A → NativeIncomingPlane × Bool × Bool) (call : ℕ → A → Call)
      (fallback : W2 → W2)
      → ((p : NativeIncomingPlane) (i : ℕ) (a : A) → (push p i a).0 ≡ step p (call i a))
      → ((w : W2) → P w → P (fallback w))
      → (w : W2) → P w
      → P (push_or E (native_push u id chunk w.deno.plane) push fallback w)
  unfolding push_or
  push_or-Kept u id chunk push call fallback same keeps w h =
      elim (Option-cases (native_push u id chunk w.deno.plane)) [
        | inl e ↦ rw (push_or, e) (keeps w h)
        | inr ((i, a, p), e) ↦
            rw (push_or, e)
              (pushed-Kept i (push p i a) w (
                rw (same p i a) (
                  k.by_step w p (call i a) (native_push-plane u id chunk w.deno.plane (i, a, p) e)
                    h)))
      ]

  step-push_chunk :
      (p : NativeIncomingPlane) (i : ℕ) (a : Bytes)
      → (push_chunk_with_wake p i a).0 ≡ step p (Call.push_chunk i a)
  unfolding step
  step-push_chunk p i a = refl

  step-push_vectorized :
      (p : NativeIncomingPlane) (i : ℕ) (a : Bytes)
      → (push_vectorized_with_wake p i a).0 ≡ step p (Call.push_vectorized i a)
  unfolding step
  step-push_vectorized p i a = refl

  pub chunk-Kept :
      (id : Text) (payload : V) (u : Bool) (w : W2)
      → P w
      → P (handle_post_stream_chunk_msg E id payload u w)
  unfolding handle_post_stream_chunk_msg
  chunk-Kept id payload u =
      push_or-Kept u _ _ push_chunk_with_wake Call.push_chunk _ step-push_chunk
        (js_call_or-Kept _ _ (typed-Kept _ _ payload))

  pub raw-Kept :
      (id : ℕ) (payload : V) (credit : Option ℕ) (u : Bool) (w : W2)
      → P w
      → P (handle_post_stream_chunk_raw_msg E id payload credit u w)
  unfolding handle_post_stream_chunk_raw_msg
  raw-Kept id payload credit u =
      push_or-Kept u _ _ push_chunk_with_wake Call.push_chunk _ step-push_chunk
        (js_call_or-Kept _ _ (chunk-Kept _ payload u))

  pub bin-Kept :
      (id : ℕ) (payload : Bytes) (credit : Option ℕ) (u : Bool) (w : W2)
      → P w
      → P (handle_post_stream_chunk_raw_bin_msg E id payload credit u w)
  unfolding handle_post_stream_chunk_raw_bin_msg
  bin-Kept id payload credit u =
      push_or-Kept u _ _ push_chunk_with_wake Call.push_chunk _ step-push_chunk
        (js_call_or-Kept _ _ (λ v g. g))

  pub vectorized-Kept :
      (id : ℕ) (payload : V) (u : Bool) (w : W2)
      → P w
      → P (handle_post_stream_chunks_raw_msg E id payload u w)
  unfolding handle_post_stream_chunks_raw_msg
  vectorized-Kept id payload u =
      push_or-Kept u _ _ push_vectorized_with_wake Call.push_vectorized _ step-push_vectorized
        (js_call_or-Kept _ _ (raw-Kept _ payload none u))

  each-Kept :
      (id : Text) (payloads : List V) (u : Bool) (w : W2) → P w → P (post_each E id payloads u w)
  unfolding post_each
  each-Kept id [] u w h = h
  each-Kept id (payload ∷ payloads) u w h = each-Kept id payloads u _ (chunk-Kept id payload u w h)

  values-Kept :
      (id : Text) (payloads : List V) (u : Bool) (w : W2)
      → P w
      → P (post_chunk_values E id payloads u w)
  unfolding post_chunk_values
  values-Kept id payloads u = js_call_or-Kept _ _ (each-Kept id payloads u)

  merged-Kept :
      (id : ℕ) (merged : Bytes) (u : Bool) (w : W2) → P w → P (post_merged E id merged u w)
  unfolding post_merged
  merged-Kept id merged u =
      push_or-Kept u _ _ push_vectorized_with_wake Call.push_vectorized _ step-push_vectorized
        (vectorized-Kept id _ u)

  all-Kept :
      (merged : Option Bytes) (id : Text) (payloads : List V) (u : Bool) (w : W2)
      → P w
      → P (post_all E merged id payloads u w)
  unfolding post_all
  all-Kept none id payloads u w h = values-Kept id payloads u w h
  all-Kept (some merged) id payloads u w h =
      if_elim (λ (f : W2 → W2). P (f w)) (ltb 0 (positive_id E id))
        (λ _. merged-Kept _ merged u w h) (λ _. values-Kept id payloads u w h)

  pub chunks-Kept :
      (id : Text) (payloads : List V) (u : Bool) (w : W2)
      → P w
      → P (handle_post_stream_chunks_msg E id payloads u w)
  unfolding handle_post_stream_chunks_msg
  chunks-Kept id payloads u w h = all-Kept _ id payloads u w h
