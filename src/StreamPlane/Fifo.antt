-- ===== src/StreamPlane/Fifo.antt =====
-- The plane of src/worker/stream_plane.rs as one queue of events for each stream id: what each
-- operation does to every queue.
use deno_director.Prelude.{
  ℕ, ◌≡◌, Bool, none, some, List, [], ◌∷◌, ◌++◌, arith, if◌then◌else◌, nat_eq, list_eq, ◌==◌,
}
use deno_director.Prelude.Dict.{get, or_empty, get-insert, get-remove}
use deno_director.Prelude.Text.{Text}
use deno_director.StreamPlane.State.{Bytes, NativeStreamEvent, NativeIncomingPlane}
use deno_director.StreamPlane.{
  record_chunk_telemetry, open_id, discard_with_wake, mark_native_active, accept_poll,
}
use deno_director.StreamPlane.Push.{
  push_chunk_with_wake, push_vectorized_with_wake, push_terminal_with_wake, cut,
}

-- The events that wait for the readers of a stream, whether it is open or still pending.
unfoldable pub events : NativeIncomingPlane → ℕ → List NativeStreamEvent
events p id = elim (get p.streams id) [
  | none ↦ or_empty (get p.pending_by_id id)
  | some s ↦ s.queue
]

pub inner-record_chunk_telemetry :
    (p : NativeIncomingPlane) (n b : ℕ) (wake vectorized : Bool)
    → (record_chunk_telemetry p n b wake vectorized).inner ≡ p.inner
unfolding record_chunk_telemetry
inner-record_chunk_telemetry p n b wake vectorized = ground arith

ruleset plane_laws = (arith, get-insert, get-remove, inner-record_chunk_telemetry)

-- A pushed chunk goes to the end of its own queue, and no other queue changes, open or pending.
pub events-push_chunk_with_wake :
    (p : NativeIncomingPlane) (id : ℕ) (c : Bytes) (j : ℕ)
    → events (push_chunk_with_wake p id c).0 j
      ≡ (if id == j then events p id ++ NativeStreamEvent.chunk c ∷ [] else events p j)
unfolding events push_chunk_with_wake
events-push_chunk_with_wake p id c j = grind plane_laws

-- A vectorised push leaves in its own queue what the loop over the frames makes of that queue, and
-- no other queue changes.
pub events-push_vectorized :
    (p : NativeIncomingPlane) (id : ℕ) (raw : Bytes) (j : ℕ)
    → events (push_vectorized_with_wake p id raw).0 j
      ≡ (if id == j then (cut raw (events p id)).queue else events p j)
unfolding events push_vectorized_with_wake
events-push_vectorized p id raw j = grind plane_laws

-- A close or an error throws away what waits in its own queue, and no other queue changes.
pub events-push_terminal :
    (p : NativeIncomingPlane) (id : ℕ) (terminal : NativeStreamEvent) (j : ℕ)
    → events (push_terminal_with_wake p id terminal).0 j
      ≡ (if id == j then terminal ∷ [] else events p j)
unfolding events push_terminal_with_wake
events-push_terminal p id terminal j = grind plane_laws

-- To open a stream neither loses nor adds an event: what was pending becomes its queue.
pub events-open_id :
    (p : NativeIncomingPlane) (id : ℕ) (key : Text) (j : ℕ)
    → events (open_id p id key) j ≡ events p j
unfolding events open_id
events-open_id p id key j = grind plane_laws

pub events-discard :
    (p : NativeIncomingPlane) (id j : ℕ)
    → events (discard_with_wake p id).0 j ≡ (if id == j then [] else events p j)
unfolding events discard_with_wake
events-discard p id j = grind plane_laws

pub events-mark_native_active :
    (p : NativeIncomingPlane) (id j : ℕ) → events (mark_native_active p id).0 j ≡ events p j
unfolding events mark_native_active
events-mark_native_active p id j = grind plane_laws

pub events-accept_poll :
    (p : NativeIncomingPlane) (key : Text) (j : ℕ) → events (accept_poll p key).0 j ≡ events p j
unfolding events accept_poll
events-accept_poll p key j = grind plane_laws
