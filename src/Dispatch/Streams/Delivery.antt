-- ===== src/Dispatch/Streams/Delivery.antt =====
-- From a message with binary chunks to the reader of the stream (src/worker/dispatch/deno_commands.rs
-- and src/worker/stream_plane.rs together).
use deno_director.Prelude.{
  ℕ, ◌<◌, ◌≡◌, refl, true, none, some, List, [], ◌∷◌, map, length, All, arith,
}
use deno_director.Prelude.Text.{Text, parse_u32}
use deno_director.Bridge.Json.{Numbers}
use deno_director.Bridge.Types.{JsValueBridge}
use deno_director.StreamPlane.State.{Bytes, NativeReadEvent, NativeIncomingPlane}
use deno_director.StreamPlane.{has_stream}
use deno_director.StreamPlane.Fifo.{events}
use deno_director.StreamPlane.Frames.{merge_chunks}
use deno_director.StreamPlane.Frames.RoundTrip.{Fits}
use deno_director.StreamPlane.Push.{push_vectorized_with_wake}
use deno_director.StreamPlane.Invariant.{IsConsistent}
use deno_director.StreamPlane.Delivery.{drain, vectorized_delivery}
use deno_director.Dispatch.State.{World, Engine}
use deno_director.Dispatch.Streams.{
  all_chunks, merged_payloads, pushed, push_or, post_merged, post_all,
  handle_post_stream_chunks_msg,
}

module _ {S : Numbers} {M D R : Type 0} (E : Engine S M D R) where
  abbrev V : Type 0
  V = JsValueBridge (Numbers.Number S)

  abbrev W : Type 0
  W = World M (Numbers.Number S) D R

  merge_all :
      (payloads : List V) (c : Bytes) (cs : List Bytes)
      → all_chunks payloads ≡ some (c ∷ cs)
      → elim (all_chunks payloads) [ none ↦ none | some chunks ↦ some (merge_chunks chunks) ]
        ≡ some (merge_chunks (c ∷ cs))
  merge_all payloads c cs h = rw h refl

  merged-chunks :
      (payloads : List V) (c : Bytes) (cs : List Bytes)
      → all_chunks payloads ≡ some (c ∷ cs)
      → merged_payloads E payloads ≡ some (merge_chunks (c ∷ cs))
  unfolding all_chunks
  merged-chunks [] c cs h = cc h
  merged-chunks (payload ∷ payloads) c cs h = merge_all (payload ∷ payloads) c cs h

  post_merged_pushes :
      (id : ℕ) (merged : Bytes) (w : W) (p : NativeIncomingPlane)
      → w.deno.plane ≡ some p
      → post_merged E id merged true w ≡ pushed E id (push_vectorized_with_wake p id merged) w
  unfolding post_merged push_or
  post_merged_pushes id merged w p has = rw has refl

  -- With the plane in use, a message of chunks that are all binary is one vectorized push.
  chunks-push :
      (stream_id : Text) (payloads : List V) (w : W) (p : NativeIncomingPlane) (id : ℕ) (c : Bytes)
      (cs : List Bytes)
      → all_chunks payloads ≡ some (c ∷ cs)
      → w.deno.plane ≡ some p
      → parse_u32 stream_id ≡ some id
      → 0 < id
      → handle_post_stream_chunks_msg E stream_id payloads true w
        ≡ pushed E id (push_vectorized_with_wake p id (merge_chunks (c ∷ cs))) w
  unfolding handle_post_stream_chunks_msg post_all
  chunks-push stream_id payloads w p id c cs all has parsed positive =
      rw (merged-chunks payloads c cs all, post_all, parsed)
        (grind (arith, post_merged_pushes id (merge_chunks (c ∷ cs)) w p has))

-- With the plane in use, a message of binary chunks, with lengths that fit the prefix, for an open
-- stream with a positive number and an empty queue of a consistent plane, changes the plane by one
-- vectorized push and pokes a waiting reader, and reads of the plane that the push leaves get these
-- chunks one by one, unchanged and in order, with nothing behind them.
pub chunks_delivery :
    {S : Numbers} {M D R : Type 0} (E : Engine S M D R) (stream_id : Text)
    (payloads : List (JsValueBridge (Numbers.Number S))) (w : World M (Numbers.Number S) D R)
    (p : NativeIncomingPlane) (id : ℕ) (c : Bytes) (cs : List Bytes)
    → all_chunks payloads ≡ some (c ∷ cs)
    → w.deno.plane ≡ some p
    → parse_u32 stream_id ≡ some id
    → 0 < id
    → IsConsistent p
    → has_stream p id ≡ true
    → events p id ≡ []
    → All Fits (c ∷ cs)
    → let r = push_vectorized_with_wake p id (merge_chunks (c ∷ cs)) in
      (handle_post_stream_chunks_msg E stream_id payloads true w ≡ pushed E id r w)
      × ((drain (length (c ∷ cs)) r.0 id).1 ≡ map NativeReadEvent.chunk (c ∷ cs))
      × (events (drain (length (c ∷ cs)) r.0 id).0 id ≡ [])
chunks_delivery E stream_id payloads w p id c cs all has parsed positive v opened empty fits = (
  chunks-push E stream_id payloads w p id c cs all has parsed positive,
  (vectorized_delivery (c ∷ cs) p id v opened empty fits).0,
  (vectorized_delivery (c ∷ cs) p id v opened empty fits).1,
)
