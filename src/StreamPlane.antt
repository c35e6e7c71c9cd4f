-- ===== src/StreamPlane.antt =====
-- src/worker/stream_plane.rs: the queues of the binary streams that run from Node to a worker. A
-- method takes the plane and returns the new plane beside its result; the mutex makes each of them
-- one step. Debug output is not modelled.
pub mod State
pub mod Frames
pub mod Push
pub mod Read
pub mod Fifo
pub mod Invariant
pub mod Reachable
pub mod Delivery
pub mod Ends
pub mod Wake
pub mod Refinement
use deno_director.Prelude.{
  ℕ, ◌+◌, ◌%◌, ◌^◌, Bool, true, false, not, ◌||◌, Option, none, some, List, ltb, nat_beq,
  if◌then◌else◌, nat_eq, list_eq,
}
use deno_director.Prelude.Dict.{get, insert, remove, contains_key, or_empty}
use deno_director.Prelude.Int.{ℤ, pos, negsuc}
use deno_director.Prelude.Text.{Text, parse_u32}
use State.{NativeStreamEvent, NativeIncomingStream, NativeIncomingPlane, NativeStreamTelemetry}

-- `fetch_add` on an `AtomicU64` wraps.
add_u64 : ℕ → ℕ → ℕ
add_u64 a b = (a + b) % 2 ^ 64

unfoldable pub record_chunk_telemetry :
    NativeIncomingPlane → ℕ → ℕ → Bool → Bool → NativeIncomingPlane
unfolding add_u64
record_chunk_telemetry p chunk_count chunk_bytes wake vectorized =
    let t : NativeStreamTelemetry = p.telemetry in
    if not t.enabled || nat_beq chunk_count 0 then p else record p {
      telemetry = record t {
        chunk_count = add_u64 t.chunk_count chunk_count;
        chunk_bytes = add_u64 t.chunk_bytes chunk_bytes;
        wake_count = if wake then add_u64 t.wake_count 1 else t.wake_count;
        vectorized_push_count =
            if vectorized then add_u64 t.vectorized_push_count 1 else t.vectorized_push_count;
      };
    }

notify_read : NativeIncomingPlane → NativeIncomingPlane
notify_read p = record p { read_notified = p.read_notified + 1 }

notify_accept : NativeIncomingPlane → NativeIncomingPlane
notify_accept p = record p { accept_notified = p.accept_notified + 1 }

notify_cv : NativeIncomingPlane → NativeIncomingPlane
notify_cv p = record p { cv_notified = p.cv_notified + 1 }

-- `*streams.get_mut(&id) = s`
pub put_stream : NativeIncomingPlane → ℕ → NativeIncomingStream → NativeIncomingPlane
put_stream p id s = record p { inner = record p.inner { streams = insert p.streams id s } }

-- `*pending_by_id.entry(id).or_default() = q`
put_pending : NativeIncomingPlane → ℕ → List NativeStreamEvent → NativeIncomingPlane
put_pending p id q = record p {
  inner = record p.inner { pending_by_id = insert p.pending_by_id id q };
}

-- `streams.remove(&id)` with the two maps from keys.
pub drop_stream : NativeIncomingPlane → ℕ → Text → NativeIncomingPlane
drop_stream p id key = record p {
  inner = record p.inner {
    streams = remove p.streams id;
    key_to_id = remove p.key_to_id key;
    backlog = remove p.backlog key;
  };
}

unfoldable pub has_stream : NativeIncomingPlane → ℕ → Bool
has_stream p id = contains_key p.streams id

unfoldable pub is_native_active : NativeIncomingPlane → ℕ → Bool
is_native_active p id = elim (get p.streams id) [ none ↦ false | some s ↦ s.native_active ]

unfoldable pub mark_native_active : NativeIncomingPlane → ℕ → NativeIncomingPlane × Bool
unfolding put_stream
mark_native_active p id = elim (get p.streams id) [
  | none ↦ (p, false)
  | some s ↦ (put_stream p id (record s { native_active = true }), true)
]

-- `i32::try_from(id).unwrap_or(-1)`
abbrev to_i32 : ℕ → ℤ
to_i32 id = if ltb id 0x8000_0000 then pos id else negsuc 0

activate : NativeIncomingPlane → ℕ → Option NativeIncomingStream → NativeIncomingPlane
unfolding put_stream
activate p id none = p
activate p id (some s) = put_stream p id (record s { native_active = true })

accept : NativeIncomingPlane → Text → Option ℕ → NativeIncomingPlane × ℤ
unfolding activate
accept p key none = (p, pos 0)
accept p key (some id) = (
  activate (record p { inner = record p.inner { backlog = remove p.backlog key } }) id
      (get p.streams id),
  to_i32 id,
)

unfoldable pub accept_poll : NativeIncomingPlane → Text → NativeIncomingPlane × ℤ
unfolding accept
accept_poll p key = accept p key (get p.backlog key)

new_stream : Text → List NativeStreamEvent → NativeIncomingStream
new_stream key queue = record {
  key = key;
  queue = queue;
  native_active = false;
  waiting_reader = false;
  pending_credit = 0;
}

insert_stream : NativeIncomingPlane → ℕ → Text → NativeIncomingPlane
unfolding new_stream
insert_stream p id key = record p {
  inner = record {
    streams = insert p.streams id (new_stream key (or_empty (get p.pending_by_id id)));
    key_to_id = insert p.key_to_id key id;
    backlog = insert p.backlog key id;
    pending_by_id = remove p.pending_by_id id;
  };
}

unfoldable pub open_id : NativeIncomingPlane → ℕ → Text → NativeIncomingPlane
unfolding insert_stream notify_accept notify_cv
open_id p id key =
    if contains_key p.streams id
    then p
    else if contains_key p.key_to_id key || contains_key p.backlog key
    then p
    else notify_cv (notify_accept (insert_stream p id key))

-- `open`
unfoldable pub open_stream : NativeIncomingPlane → Text → Text → NativeIncomingPlane × Bool
unfolding open_id
open_stream p stream_id_text key = elim (parse_u32 stream_id_text) [
  | none ↦ (p, false)
  | some id ↦ if ltb 0 id then (open_id p id key, true) else (p, false)
]

unfoldable pub discard_with_wake : NativeIncomingPlane → ℕ → NativeIncomingPlane × Bool × Bool
unfolding drop_stream notify_read notify_accept notify_cv
discard_with_wake p id =
    let q : NativeIncomingPlane = record p {
      inner = record p.inner { pending_by_id = remove p.pending_by_id id };
    } in
    elim (get p.streams id) [
      | none ↦ (q, false, false)
      | some s ↦
          (notify_cv (notify_accept (notify_read (drop_stream q id s.key))), true, s.waiting_reader)
    ]

unfoldable pub discard : NativeIncomingPlane → ℕ → NativeIncomingPlane × Bool
unfolding discard_with_wake
discard p id = let (q, found, wake) = discard_with_wake p id in (q, found)
