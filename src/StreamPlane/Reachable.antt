-- ===== src/StreamPlane/Reachable.antt =====
-- Every state that the plane of src/worker/stream_plane.rs can reach through its public operations,
-- in any order: the threads of the process take turns at its lock.
use deno_director.Prelude.{ℕ, Bool, Option, refl, nat_eq, list_eq}
use deno_director.Prelude.Dict
use deno_director.Prelude.Text.{Text}
use deno_director.StreamPlane.State.{Bytes, NativeStreamEvent, NativeIncomingPlane, new}
use deno_director.StreamPlane
use deno_director.StreamPlane.Push
use deno_director.StreamPlane.Read
use deno_director.StreamPlane.Invariant.{IsConsistent, KeepsKeys-IsConsistent, key_of}
use deno_director.StreamPlane.Invariant.Reads.{
  read_poll_event-IsConsistent, read_wait_sync-IsConsistent, read_blocking-IsConsistent,
}
use deno_director.StreamPlane.Invariant.Writes.{
  push_chunk-KeepsKeys, push_vectorized-KeepsKeys, push_terminal-KeepsKeys,
  mark_native_active-KeepsKeys, accept_poll-KeepsKeys, open_stream-IsConsistent,
  discard-IsConsistent,
}

-- A call that takes the lock once.
pub data Call : Type 0 where
  mark_native_active : ℕ → Call
  accept_poll : Text → Call
  open_stream : Text → Text → Call
  discard : ℕ → Call
  push_chunk : ℕ → Bytes → Call
  push_vectorized : ℕ → Bytes → Call
  close : ℕ → Call
  error : ℕ → Text → Call
  read_poll_event : ℕ → Call
  read_wait_sync : ℕ → Call
  read_blocking : ℕ → ℕ → ℕ → Call

unfoldable pub step : NativeIncomingPlane → Call → NativeIncomingPlane
unfolding Push.close_with_wake Push.error_with_wake
step p (Call.mark_native_active id) = (StreamPlane.mark_native_active p id).0
step p (Call.accept_poll key) = (StreamPlane.accept_poll p key).0
step p (Call.open_stream id_text key) = (StreamPlane.open_stream p id_text key).0
step p (Call.discard id) = (StreamPlane.discard_with_wake p id).0
step p (Call.push_chunk id c) = (Push.push_chunk_with_wake p id c).0
step p (Call.push_vectorized id raw) = (Push.push_vectorized_with_wake p id raw).0
step p (Call.close id) = (Push.close_with_wake p id).0
step p (Call.error id message) = (Push.error_with_wake p id message).0
step p (Call.read_poll_event id) = (Read.read_poll_event p id).0
step p (Call.read_wait_sync id) = (Read.read_wait_sync_round p id).0
step p (Call.read_blocking id now deadline) = (Read.read_blocking_round p id now deadline).0

pub data Reach (p : NativeIncomingPlane) : NativeIncomingPlane → Type 0 where
  start : Reach p p
  next : {q : NativeIncomingPlane} → Reach p q → (c : Call) → Reach p (step q c)

pub step-IsConsistent :
    (p : NativeIncomingPlane) (c : Call) → IsConsistent p → IsConsistent (step p c)
unfolding step
step-IsConsistent p (Call.mark_native_active id) =
    KeepsKeys-IsConsistent (mark_native_active-KeepsKeys p id)
step-IsConsistent p (Call.accept_poll key) = KeepsKeys-IsConsistent (accept_poll-KeepsKeys p key)
step-IsConsistent p (Call.open_stream id_text key) = open_stream-IsConsistent p id_text key
step-IsConsistent p (Call.discard id) = discard-IsConsistent p id
step-IsConsistent p (Call.push_chunk id c) = KeepsKeys-IsConsistent (push_chunk-KeepsKeys p id c)
step-IsConsistent p (Call.push_vectorized id raw) =
    KeepsKeys-IsConsistent (push_vectorized-KeepsKeys p id raw)
step-IsConsistent p (Call.close id) =
    KeepsKeys-IsConsistent (push_terminal-KeepsKeys p id NativeStreamEvent.close)
step-IsConsistent p (Call.error id message) =
    KeepsKeys-IsConsistent (push_terminal-KeepsKeys p id (NativeStreamEvent.error message))
step-IsConsistent p (Call.read_poll_event id) = read_poll_event-IsConsistent p id
step-IsConsistent p (Call.read_wait_sync id) = read_wait_sync-IsConsistent p id
step-IsConsistent p (Call.read_blocking id now deadline) =
    read_blocking-IsConsistent p id now deadline

new-IsConsistent : (telemetry : Bool) (credit : Option ℕ) → IsConsistent (new telemetry credit)
unfolding new key_of Dict.get
new-IsConsistent telemetry credit = record {
  registered = λ id k h. cc;
  owned = λ id k h. cc;
  announced = λ id k h. cc;
  settled = λ id k h. refl;
}

Reach-IsConsistent : {p q : NativeIncomingPlane} → IsConsistent p → Reach p q → IsConsistent q
Reach-IsConsistent v start = v
Reach-IsConsistent v (next r c) = step-IsConsistent _ c (Reach-IsConsistent v r)

-- Whatever calls are made on a new plane, in whatever order, its four maps fit together.
pub reachable-IsConsistent :
    (telemetry : Bool) (credit : Option ℕ) {q : NativeIncomingPlane}
    → Reach (new telemetry credit) q
    → IsConsistent q
reachable-IsConsistent telemetry credit r = Reach-IsConsistent (new-IsConsistent telemetry credit) r
