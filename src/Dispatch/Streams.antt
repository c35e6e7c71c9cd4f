-- ===== src/Dispatch/Streams.antt =====
-- The handlers of stream chunks in src/worker/dispatch/deno_commands.rs.
pub mod Delivery
use deno_director.Prelude.{
  ℕ, Bool, true, false, Option, none, some, List, [], ◌∷◌, ◌++◌, ltb, list_eq, if◌then◌else◌,
  length,
}
use deno_director.Prelude.Text.{Text, codes, parse_u32, decimal}
use deno_director.Bridge.Json.{Numbers}
use deno_director.Bridge.Types.{JsValueBridge, buffer_view}
use deno_director.StreamPlane.State.{Bytes, NativeIncomingPlane}
use deno_director.StreamPlane.Frames.{merge_chunks}
use deno_director.StreamPlane.Push.{push_chunk_with_wake, push_vectorized_with_wake}
use deno_director.Dispatch.State.{JsCall, World, Engine, with_plane}
use deno_director.Dispatch.Payload.{payload_to_chunk_bytes}
use deno_director.Dispatch.Js.{number_or, js_call, js_call_or, handle_post_message_typed_msg}

-- The conditions of a binary push, in the order of the source: the plane is in use, the identifier is a
-- number, the payload is binary, the runtime has a plane.
abbrev pub native_push :
    {A : Type 0}
    → Bool
    → Option ℕ
    → Option A
    → Option NativeIncomingPlane
    → Option (ℕ × A × NativeIncomingPlane)
native_push true (some id) (some chunk) (some p) = some (id, chunk, p)
native_push true (some id) (some chunk) none = none
native_push true (some id) none p = none
native_push true none chunk p = none
native_push false id chunk p = none

-- The chunks of the payloads, if all of them are binary.
unfoldable pub all_chunks : {N : Type 0} → List (JsValueBridge N) → Option (List Bytes)
all_chunks [] = some []
all_chunks (payload ∷ payloads) = elim (payload_to_chunk_bytes payload) [
  | none ↦ none
  | some chunk ↦ elim (all_chunks payloads) [ none ↦ none | some chunks ↦ some (chunk ∷ chunks) ]
]

module _ {S : Numbers} {M D R : Type 0} (E : Engine S M D R) where
  abbrev V : Type 0
  V = JsValueBridge (Numbers.Number S)

  abbrev W : Type 0
  W = World M (Numbers.Number S) D R

  -- The plane after a push, and the poke of a reader that waits in JavaScript.
  unfoldable pub pushed : ℕ → NativeIncomingPlane × Bool × Bool → W → W
  pushed id (p, done, wake) w =
      let w' = with_plane p w in
      if wake then (js_call E (JsCall.dispatch_native_stream_poke id) w').0 else w'

  -- Push to the plane if the conditions hold, and otherwise go on with `fallback`.
  unfoldable pub push_or :
      {A : Type 0}
      → Option (ℕ × A × NativeIncomingPlane)
      → (NativeIncomingPlane → ℕ → A → NativeIncomingPlane × Bool × Bool)
      → (W → W)
      → W
      → W
  push_or none push fallback w = fallback w
  push_or (some (id, chunk, p)) push fallback w = pushed id (push p id chunk) w

  unfoldable pub handle_post_stream_chunk_msg : Text → V → Bool → W → W
  handle_post_stream_chunk_msg stream_id payload use_native w =
      push_or
        (native_push use_native (parse_u32 stream_id) (payload_to_chunk_bytes payload) w.deno.plane)
        push_chunk_with_wake
        (js_call_or E (JsCall.dispatch_node_stream_chunk stream_id payload) (
          handle_post_message_typed_msg E (codes "__denojs_worker_stream_chunk_v1:" ++ stream_id) 0
            payload))
        w

  unfoldable pub handle_post_stream_chunk_raw_msg : ℕ → V → Option ℕ → Bool → W → W
  handle_post_stream_chunk_raw_msg stream_id payload credit use_native w =
      push_or
        (native_push use_native (some stream_id) (payload_to_chunk_bytes payload) w.deno.plane)
        push_chunk_with_wake
        (js_call_or E (JsCall.dispatch_node_stream_chunk_raw stream_id payload credit)
          (handle_post_stream_chunk_msg (decimal stream_id) payload use_native))
        w

  unfoldable pub handle_post_stream_chunk_raw_bin_msg : ℕ → Bytes → Option ℕ → Bool → W → W
  handle_post_stream_chunk_raw_bin_msg stream_id payload credit use_native w =
      push_or (native_push use_native (some stream_id) (some payload) w.deno.plane)
        push_chunk_with_wake
        (js_call_or E (JsCall.dispatch_node_stream_chunk_bin stream_id payload credit) (λ v. v)) w

  unfoldable pub handle_post_stream_chunks_raw_msg : ℕ → V → Bool → W → W
  handle_post_stream_chunks_raw_msg stream_id payload use_native w =
      push_or
        (native_push use_native (some stream_id) (payload_to_chunk_bytes payload) w.deno.plane)
        push_vectorized_with_wake
        (js_call_or E (JsCall.dispatch_node_stream_chunk_vectorized stream_id payload)
          (handle_post_stream_chunk_raw_msg stream_id payload none use_native))
        w

  -- The loop over the payloads where the vector function throws.
  unfoldable pub post_each : Text → List V → Bool → W → W
  post_each stream_id [] use_native w = w
  post_each stream_id (payload ∷ payloads) use_native w =
      post_each stream_id payloads use_native
        (handle_post_stream_chunk_msg stream_id payload use_native w)

  unfoldable pub post_chunk_values : Text → List V → Bool → W → W
  post_chunk_values stream_id payloads use_native =
      js_call_or E (JsCall.dispatch_node_stream_chunks stream_id payloads)
        (post_each stream_id payloads use_native)

  -- One binary payload for all chunks, for a stream with a positive number.
  unfoldable pub post_merged : ℕ → Bytes → Bool → W → W
  post_merged id merged use_native w =
      push_or (native_push use_native (some id) (some merged) w.deno.plane)
        push_vectorized_with_wake
        (handle_post_stream_chunks_raw_msg id
          (buffer_view (codes "Uint8Array") merged 0 (length merged)) use_native)
        w

  abbrev pub merged_payloads : List V → Option Bytes
  merged_payloads [] = none
  merged_payloads (payload ∷ payloads) = elim (all_chunks (payload ∷ payloads)) [
    | none ↦ none
    | some chunks ↦ some (merge_chunks chunks)
  ]

  -- The positive number of a stream, `0` for all else.
  abbrev pub positive_id : Text → ℕ
  positive_id stream_id = number_or (parse_u32 stream_id) 0

  unfoldable pub post_all : Option Bytes → Text → List V → Bool → W → W
  post_all none stream_id payloads use_native = post_chunk_values stream_id payloads use_native
  post_all (some merged) stream_id payloads use_native =
      if ltb 0 (positive_id stream_id)
      then post_merged (positive_id stream_id) merged use_native
      else post_chunk_values stream_id payloads use_native

  unfoldable pub handle_post_stream_chunks_msg : Text → List V → Bool → W → W
  handle_post_stream_chunks_msg stream_id payloads =
      post_all (merged_payloads payloads) stream_id payloads
