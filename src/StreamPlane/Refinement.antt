-- ===== src/StreamPlane/Refinement.antt =====
-- The plane of src/worker/stream_plane.rs refines a family of queues, one for each stream id: what
-- each call does to each queue is a function of that queue and of whether the stream is open.
use deno_director.Prelude.{
  ℕ, ◌≡◌, Bool, true, ◌&&◌, none, some, List, [], ◌∷◌, ◌++◌, arith, if◌then◌else◌, nat_eq, list_eq,
  ◌==◌, Option-cases, inl, inr, ltb, Bool-cases,
}
use deno_director.Prelude.Dict.{get}
use deno_director.Prelude.Text.{Text, parse_u32}
use deno_director.StreamPlane
use deno_director.StreamPlane.Push
use deno_director.StreamPlane.Read
use deno_director.StreamPlane.State.{NativeStreamEvent, NativeIncomingStream, NativeIncomingPlane}
use deno_director.StreamPlane.Fifo.{
  events, events-push_chunk_with_wake, events-push_vectorized, events-push_terminal, events-open_id,
  events-discard, events-mark_native_active, events-accept_poll,
}
use deno_director.StreamPlane.Delivery.{
  after, events-put, events-drop, events-queue, read_poll_event_takes,
}
use deno_director.StreamPlane.Invariant.{IsConsistent}
use deno_director.StreamPlane.Reachable.{Call, step}

-- What the call does to the queue `q` of the stream `j`.
unfoldable pub effect : Call → ℕ → Bool → List NativeStreamEvent → List NativeStreamEvent
effect (Call.push_chunk id c) j opened q =
    if id == j then q ++ NativeStreamEvent.chunk c ∷ [] else q
effect (Call.push_vectorized id raw) j opened q = if id == j then (Push.cut raw q).queue else q
effect (Call.close id) j opened q = if id == j then NativeStreamEvent.close ∷ [] else q
effect (Call.error id message) j opened q =
    if id == j then NativeStreamEvent.error message ∷ [] else q
effect (Call.discard id) j opened q = if id == j then [] else q
effect (Call.read_poll_event id) j opened q = if id == j && opened then after q else q
effect (Call.read_wait_sync id) j opened q = if id == j && opened then after q else q
effect (Call.read_blocking id now deadline) j opened q = if id == j && opened then after q else q
effect (Call.open_stream id_text key) j opened q = q
effect (Call.accept_poll key) j opened q = q
effect (Call.mark_native_active id) j opened q = q

events-open_stream :
    (p : NativeIncomingPlane) (id_text key : Text) (j : ℕ)
    → events (StreamPlane.open_stream p id_text key).0 j ≡ events p j
unfolding StreamPlane.open_stream
events-open_stream p id_text key j = elim (Option-cases (parse_u32 id_text)) [
  | inl e ↦ rw (e, StreamPlane.open_stream)
  | inr (id, e) ↦ elim (Bool-cases (ltb 0 id)) [
    | inl positive ↦ rw (e, StreamPlane.open_stream, positive) (events-open_id p id key j)
    | inr other ↦ rw (e, StreamPlane.open_stream, other)
  ]
]

-- The oldest event of an open stream is taken out of its queue.
Takes : NativeIncomingPlane → NativeIncomingPlane → ℕ → Type 0
Takes p q id =
    (j : ℕ)
    → events q j
      ≡ (if id == j && StreamPlane.has_stream p j then after (events p j) else events p j)

module _ (p : NativeIncomingPlane) (id : ℕ) where
  Takes-open :
      (q : NativeIncomingPlane)
      → StreamPlane.has_stream p id ≡ true
      → ((j : ℕ) → events q j ≡ (if id == j then after (events p id) else events p j))
      → Takes p q id
  unfolding Takes
  Takes-open q opened h j = ground (arith, h j)

  Takes-missing : (q : NativeIncomingPlane) → get p.streams id ≡ none → q ≡ p → Takes p q id
  unfolding Takes StreamPlane.has_stream
  Takes-missing q missing same j = ground arith

  opened :
      (s : NativeIncomingStream) → get p.streams id ≡ some s → StreamPlane.has_stream p id ≡ true
  unfolding StreamPlane.has_stream
  opened s found = rw (found, StreamPlane.has_stream)

module _ (p : NativeIncomingPlane) (id : ℕ) (v : IsConsistent p) where
  events-take_event :
      (s : NativeIncomingStream)
      → get p.streams id ≡ some s
      → (queue : List NativeStreamEvent) → events p id ≡ queue
      → (j : ℕ)
      → events (Read.take_event p id s queue).0 j ≡ (if id == j then after queue else events p j)
  unfolding Read.take_event
  events-take_event s found [] e j = ground arith
  events-take_event s found (NativeStreamEvent.chunk c ∷ rest) e j = events-put p id s found v _ j
  events-take_event s found (NativeStreamEvent.close ∷ rest) e j = events-drop p id s found v j
  events-take_event s found (NativeStreamEvent.error m ∷ rest) e j = events-drop p id s found v j

  take_event-Takes :
      (s : NativeIncomingStream)
      → get p.streams id ≡ some s
      → Takes p (Read.take_event p id s s.queue).0 id
  take_event-Takes s found =
      let q = events-queue p id s found in
      Takes-open p id _ (opened p id s found) (rw q (events-take_event s found s.queue q))

  poll-Takes : Takes p (Read.read_poll_event p id).0 id
  poll-Takes = elim (Option-cases (get p.streams id)) [
    | inl e ↦ Takes-missing p id _ e (unfold Read.read_poll_event in rw (e, Read.read_poll_event))
    | inr (s, e) ↦ let h = opened p id s e in Takes-open p id _ h (read_poll_event_takes p id v h).1
  ]

  sync-Takes : Takes p (Read.read_wait_sync_round p id).0 id
  unfolding Read.read_wait_sync_round
  sync-Takes = elim (Option-cases (get p.streams id)) [
    | inl e ↦ Takes-missing p id _ e (rw (e, Read.read_wait_sync_round))
    | inr (s, e) ↦ rw (e, Read.read_wait_sync_round) (take_event-Takes s e)
  ]

  blocking-Takes : (now deadline : ℕ) → Takes p (Read.read_blocking_round p id now deadline).0 id
  unfolding Read.read_blocking_round
  blocking-Takes now deadline = elim (Option-cases (get p.streams id)) [
    | inl e ↦ Takes-missing p id _ e (rw (e, Read.read_blocking_round))
    | inr (s, e) ↦ rw (e, Read.read_blocking_round) (take_event-Takes s e)
  ]

-- Every call does to the queue of every stream what `effect` says, and looks at no other queue.
pub events-step :
    (p : NativeIncomingPlane) (c : Call) (j : ℕ)
    → IsConsistent p
    → events (step p c) j ≡ effect c j (StreamPlane.has_stream p j) (events p j)
unfolding step effect Takes
events-step p (Call.mark_native_active id) j v = events-mark_native_active p id j
events-step p (Call.accept_poll key) j v = events-accept_poll p key j
events-step p (Call.open_stream id_text key) j v = events-open_stream p id_text key j
events-step p (Call.discard id) j v = events-discard p id j
events-step p (Call.push_chunk id c) j v = ground (arith, events-push_chunk_with_wake p id c j)
events-step p (Call.push_vectorized id raw) j v = ground (arith, events-push_vectorized p id raw j)
events-step p (Call.close id) j v = events-push_terminal p id NativeStreamEvent.close j
events-step p (Call.error id message) j v =
    events-push_terminal p id (NativeStreamEvent.error message) j
events-step p (Call.read_poll_event id) j v = poll-Takes p id v j
events-step p (Call.read_wait_sync id) j v = sync-Takes p id v j
events-step p (Call.read_blocking id now deadline) j v = blocking-Takes p id v now deadline j
