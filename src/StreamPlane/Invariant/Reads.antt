-- ===== src/StreamPlane/Invariant/Reads.antt =====
-- The readers of src/worker/stream_plane.rs keep the maps of the plane consistent.
use deno_director.Prelude.{
  ℕ, ◌≡◌, refl, some, List, [], ◌∷◌, nat_eq, list_eq, Option-cases, inl, inr,
}
use deno_director.Prelude.Dict.{get}
use deno_director.StreamPlane.State.{NativeStreamEvent, NativeIncomingStream, NativeIncomingPlane}
use deno_director.StreamPlane.{put_stream, drop_stream}
use deno_director.StreamPlane.Read.{
  wait, poll, read_poll_event, take_event, read_wait_sync_round, read_blocking_round,
}
use deno_director.StreamPlane.Invariant.{
  IsConsistent, KeepsKeys, KeepsKeys-IsConsistent, Drops, Drops-IsConsistent, plane_laws, key_of,
}

drop_stream-Drops :
    (p : NativeIncomingPlane) (id : ℕ) (s : NativeIncomingStream)
    → get p.streams id ≡ some s
    → Drops p (drop_stream p id s.key) id s.key
unfolding drop_stream key_of
drop_stream-Drops p id s h = grind plane_laws

-- A stream is put in place of one with the same key.
put_stream-KeepsKeys :
    (p : NativeIncomingPlane) (id : ℕ) (s t : NativeIncomingStream)
    → get p.streams id ≡ some s
    → t.key ≡ s.key
    → KeepsKeys p (put_stream p id t)
unfolding put_stream key_of
put_stream-KeepsKeys p id s t h same = grind plane_laws

module _ (p : NativeIncomingPlane) (id : ℕ) (s : NativeIncomingStream)
    (found : get p.streams id ≡ some s) (v : IsConsistent p) where
  put_same : (t : NativeIncomingStream) → t.key ≡ s.key → IsConsistent (put_stream p id t)
  put_same t same = KeepsKeys-IsConsistent (put_stream-KeepsKeys p id s t found same) v

  dropped : IsConsistent (drop_stream p id s.key)
  dropped = Drops-IsConsistent (drop_stream-Drops p id s found) v

  poll-IsConsistent : (queue : List NativeStreamEvent) → IsConsistent (poll p id s queue).0
  unfolding poll wait
  poll-IsConsistent [] = put_same _ refl
  poll-IsConsistent (NativeStreamEvent.chunk c ∷ rest) = put_same _ refl
  poll-IsConsistent (NativeStreamEvent.close ∷ rest) = dropped
  poll-IsConsistent (NativeStreamEvent.error m ∷ rest) = dropped

  take_event-IsConsistent :
      (queue : List NativeStreamEvent) → IsConsistent (take_event p id s queue).0
  unfolding take_event
  take_event-IsConsistent [] = v
  take_event-IsConsistent (NativeStreamEvent.chunk c ∷ rest) = put_same _ refl
  take_event-IsConsistent (NativeStreamEvent.close ∷ rest) = dropped
  take_event-IsConsistent (NativeStreamEvent.error m ∷ rest) = dropped

pub read_poll_event-IsConsistent :
    (p : NativeIncomingPlane) (id : ℕ) → IsConsistent p → IsConsistent (read_poll_event p id).0
unfolding read_poll_event
read_poll_event-IsConsistent p id v = elim (Option-cases (get p.streams id)) [
  | inl e ↦ rw (e, read_poll_event) v
  | inr (s, e) ↦ rw (e, read_poll_event) (poll-IsConsistent p id s e v s.queue)
]

pub read_wait_sync-IsConsistent :
    (p : NativeIncomingPlane) (id : ℕ) → IsConsistent p → IsConsistent (read_wait_sync_round p id).0
unfolding read_wait_sync_round
read_wait_sync-IsConsistent p id v = elim (Option-cases (get p.streams id)) [
  | inl e ↦ rw (e, read_wait_sync_round) v
  | inr (s, e) ↦ rw (e, read_wait_sync_round) (take_event-IsConsistent p id s e v s.queue)
]

pub read_blocking-IsConsistent :
    (p : NativeIncomingPlane) (id now deadline : ℕ)
    → IsConsistent p
    → IsConsistent (read_blocking_round p id now deadline).0
unfolding read_blocking_round
read_blocking-IsConsistent p id now deadline v = elim (Option-cases (get p.streams id)) [
  | inl e ↦ rw (e, read_blocking_round) v
  | inr (s, e) ↦ rw (e, read_blocking_round) (take_event-IsConsistent p id s e v s.queue)
]
