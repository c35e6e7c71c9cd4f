-- ===== src/StreamPlane/Invariant/Writes.antt =====
-- The operations of src/worker/stream_plane.rs that are no readers keep the maps consistent.
use deno_director.Prelude.{
  ℕ, ◌≡◌, none, some, arith, nat_eq, list_eq, ◌⊎◌, Option-cases, inl, inr, ltb, Bool-cases,
}
use deno_director.Prelude.Dict.{get}
use deno_director.Prelude.Text.{Text, parse_u32}
use deno_director.StreamPlane.State.{
  Bytes, NativeStreamEvent, NativeIncomingStream, NativeIncomingPlane,
}
use deno_director.StreamPlane.{
  notify_cv, notify_accept, insert_stream, open_id, open_stream, discard_with_wake,
  mark_native_active, accept_poll,
}
use deno_director.StreamPlane.Push.{
  push_chunk_with_wake, push_vectorized_with_wake, push_terminal_with_wake,
}
use deno_director.StreamPlane.Invariant.{
  IsConsistent, KeepsKeys, KeepsKeys-IsConsistent, Drops, Drops-IsConsistent, Opens,
  Opens-IsConsistent, plane_laws, key_of,
}

pub push_chunk-KeepsKeys :
    (p : NativeIncomingPlane) (id : ℕ) (c : Bytes) → KeepsKeys p (push_chunk_with_wake p id c).0
unfolding push_chunk_with_wake key_of
push_chunk-KeepsKeys p id c = grind plane_laws

pub push_vectorized-KeepsKeys :
    (p : NativeIncomingPlane) (id : ℕ) (raw : Bytes)
    → KeepsKeys p (push_vectorized_with_wake p id raw).0
unfolding push_vectorized_with_wake key_of
push_vectorized-KeepsKeys p id raw = grind plane_laws

pub push_terminal-KeepsKeys :
    (p : NativeIncomingPlane) (id : ℕ) (terminal : NativeStreamEvent)
    → KeepsKeys p (push_terminal_with_wake p id terminal).0
unfolding push_terminal_with_wake key_of
push_terminal-KeepsKeys p id terminal = grind plane_laws

pub mark_native_active-KeepsKeys :
    (p : NativeIncomingPlane) (id : ℕ) → KeepsKeys p (mark_native_active p id).0
unfolding mark_native_active key_of
mark_native_active-KeepsKeys p id = grind plane_laws

pub accept_poll-KeepsKeys :
    (p : NativeIncomingPlane) (key : Text) → KeepsKeys p (accept_poll p key).0
unfolding accept_poll key_of
accept_poll-KeepsKeys p key = grind plane_laws

insert_stream-Opens :
    (p : NativeIncomingPlane) (id : ℕ) (key : Text)
    → key_of p id ≡ none
    → get p.key_to_id key ≡ none
    → Opens p (notify_cv (notify_accept (insert_stream p id key))) id key
unfolding insert_stream key_of notify_cv notify_accept
insert_stream-Opens p id key fresh unused = grind plane_laws

-- `open_id` changes nothing, or both the id and the key are new.
open_id-cases :
    (p : NativeIncomingPlane) (id : ℕ) (key : Text)
    → (open_id p id key ≡ p)
      ⊎ ((key_of p id ≡ none)
          × (get p.key_to_id key ≡ none)
          × (open_id p id key ≡ notify_cv (notify_accept (insert_stream p id key))))
unfolding open_id key_of
open_id-cases p id key = ground arith

pub open_id-IsConsistent :
    (p : NativeIncomingPlane) (id : ℕ) (key : Text)
    → IsConsistent p
    → IsConsistent (open_id p id key)
open_id-IsConsistent p id key v = elim (open_id-cases p id key) [
  | inl same ↦ rw same v
  | inr (fresh, unused, e) ↦ rw e (Opens-IsConsistent (insert_stream-Opens p id key fresh unused) v)
]

pub open_stream-IsConsistent :
    (p : NativeIncomingPlane) (id_text key : Text)
    → IsConsistent p
    → IsConsistent (open_stream p id_text key).0
unfolding open_stream
open_stream-IsConsistent p id_text key v = elim (Option-cases (parse_u32 id_text)) [
  | inl e ↦ rw (e, open_stream) v
  | inr (id, e) ↦ elim (Bool-cases (ltb 0 id)) [
    | inl positive ↦ rw (e, open_stream, positive) (open_id-IsConsistent p id key v)
    | inr other ↦ rw (e, open_stream, other) v
  ]
]

discard-Drops :
    (p : NativeIncomingPlane) (id : ℕ) (s : NativeIncomingStream)
    → get p.streams id ≡ some s
    → Drops p (discard_with_wake p id).0 id s.key
unfolding discard_with_wake key_of
discard-Drops p id s h = grind plane_laws

discard-KeepsKeys :
    (p : NativeIncomingPlane) (id : ℕ)
    → get p.streams id ≡ none
    → KeepsKeys p (discard_with_wake p id).0
unfolding discard_with_wake key_of
discard-KeepsKeys p id h = grind plane_laws

pub discard-IsConsistent :
    (p : NativeIncomingPlane) (id : ℕ) → IsConsistent p → IsConsistent (discard_with_wake p id).0
discard-IsConsistent p id v = elim (Option-cases (get p.streams id)) [
  | inl e ↦ KeepsKeys-IsConsistent (discard-KeepsKeys p id e) v
  | inr (s, e) ↦ Drops-IsConsistent (discard-Drops p id s e) v
]
