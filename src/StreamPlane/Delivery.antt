-- ===== src/StreamPlane/Delivery.antt =====
-- What the readers of src/worker/stream_plane.rs get: the events of a stream, each once and in the
-- order in which they were pushed.
use deno_director.Prelude.{
  ℕ, zero, suc, ◌≡◌, refl, sym, ap, ◌∙◌, true, Option, none, some, List, [], ◌∷◌, ◌++◌, map,
  append-nil, append_assoc, arith, if◌then◌else◌, nat_eq, list_eq, ◌==◌, beq_refl, length,
  Option-cases, inl, inr, All,
}
use deno_director.Prelude.Dict.{is_some, get, get-insert, get-remove}
use deno_director.Prelude.Text.{Text}
use deno_director.StreamPlane.State.{
  Bytes, NativeStreamEvent, NativeReadEvent, NativeIncomingStream, NativeIncomingPlane,
}
use deno_director.StreamPlane.Frames.{VectorLoop, push_frame, merge_chunks}
use deno_director.StreamPlane.Frames.RoundTrip.{Fits, pushed, push_frames-merge_chunks}
use deno_director.StreamPlane.Invariant.Writes.{push_vectorized-KeepsKeys, open_id-IsConsistent}
use deno_director.StreamPlane.{open_id, has_stream, put_stream, drop_stream}
use deno_director.StreamPlane.Push.{cut, push_vectorized_with_wake}
use deno_director.StreamPlane.Read.{read_poll_event, poll, wait}
use deno_director.StreamPlane.Fifo.{
  events, events-push_vectorized, events-open_id, inner-record_chunk_telemetry,
}
use deno_director.StreamPlane.Invariant.{IsConsistent, KeepsKeys-IsConsistent, key_of}
use deno_director.StreamPlane.Invariant.Reads.{read_poll_event-IsConsistent}

-- What a reader is told of the first event, and what waits after it: a close or an error ends the
-- stream, with all that was pushed behind it.
abbrev pub first : List NativeStreamEvent → Option NativeReadEvent
first [] = none
first (NativeStreamEvent.chunk c ∷ rest) = some (NativeReadEvent.chunk c)
first (NativeStreamEvent.close ∷ rest) = some NativeReadEvent.close
first (NativeStreamEvent.error m ∷ rest) = some (NativeReadEvent.error m)

abbrev pub after : List NativeStreamEvent → List NativeStreamEvent
after [] = []
after (NativeStreamEvent.chunk c ∷ rest) = rest
after (NativeStreamEvent.close ∷ rest) = []
after (NativeStreamEvent.error m ∷ rest) = []

settled_id :
    (p : NativeIncomingPlane) (id : ℕ) (s : NativeIncomingStream)
    → IsConsistent p
    → get p.streams id ≡ some s
    → get p.pending_by_id id ≡ none
unfolding key_of
settled_id p id s v h = v.settled id s.key (rw (h, key_of))

module _ (p : NativeIncomingPlane) (id : ℕ) (s : NativeIncomingStream)
    (found : get p.streams id ≡ some s) (v : IsConsistent p) where
  poll_result : (queue : List NativeStreamEvent) → (poll p id s queue).1 ≡ first queue
  unfolding poll
  poll_result [] = refl
  poll_result (NativeStreamEvent.chunk c ∷ rest) = refl
  poll_result (NativeStreamEvent.close ∷ rest) = refl
  poll_result (NativeStreamEvent.error m ∷ rest) = refl

  pub events-put :
      (t : NativeIncomingStream) (j : ℕ)
      → events (put_stream p id t) j ≡ (if id == j then t.queue else events p j)
  unfolding put_stream events
  events-put t j = grind (arith, get-insert)

  pub events-drop :
      (j : ℕ) → events (drop_stream p id s.key) j ≡ (if id == j then [] else events p j)
  unfolding drop_stream events
  events-drop j = grind (arith, get-remove, settled_id p id s v found)

  events-poll :
      (queue : List NativeStreamEvent) (j : ℕ)
      → s.queue ≡ queue
      → events (poll p id s queue).0 j ≡ (if id == j then after queue else events p j)
  unfolding poll wait
  events-poll [] j e = rw (events-put (record s { waiting_reader = true }) j) (rw e)
  events-poll (NativeStreamEvent.chunk c ∷ rest) j e = events-put _ j
  events-poll (NativeStreamEvent.close ∷ rest) j e = events-drop j
  events-poll (NativeStreamEvent.error m ∷ rest) j e = events-drop j

pub events-queue :
    (p : NativeIncomingPlane) (id : ℕ) (s : NativeIncomingStream)
    → get p.streams id ≡ some s
    → events p id ≡ s.queue
unfolding events
events-queue p id s h = rw (h, events)

pub read_poll_event-poll :
    (p : NativeIncomingPlane) (id : ℕ) (s : NativeIncomingStream)
    → get p.streams id ≡ some s
    → read_poll_event p id ≡ poll p id s s.queue
unfolding read_poll_event
read_poll_event-poll p id s h = rw (h, read_poll_event)

-- On an open stream a reader is told of the oldest event, that event alone is taken out, and no
-- other queue changes.
pub read_poll_event_takes :
    (p : NativeIncomingPlane) (id : ℕ)
    → IsConsistent p
    → has_stream p id ≡ true
    → ((read_poll_event p id).1 ≡ first (events p id))
      × ((j : ℕ)
          → events (read_poll_event p id).0 j
            ≡ (if id == j then after (events p id) else events p j))
unfolding has_stream
read_poll_event_takes p id v h = elim (Option-cases (get p.streams id)) [
  | inl e ↦ cc (ap (λ (o : Option NativeIncomingStream). is_some o) e)
  | inr (s, e) ↦
      rw (read_poll_event-poll p id s e, events-queue p id s e)
        (poll_result p id s e v s.queue, λ j. events-poll p id s e v s.queue j refl)
]

has_stream-poll_chunk :
    (p : NativeIncomingPlane) (id : ℕ) (s : NativeIncomingStream) (c : Bytes)
    (rest : List NativeStreamEvent)
    → has_stream (poll p id s (NativeStreamEvent.chunk c ∷ rest)).0 id ≡ true
unfolding has_stream poll put_stream
has_stream-poll_chunk p id s c rest = grind (arith, get-insert)

-- After a chunk the stream is still open.
pub stays_open :
    (p : NativeIncomingPlane) (id : ℕ) (c : Bytes) (rest : List NativeStreamEvent)
    → has_stream p id ≡ true
    → events p id ≡ NativeStreamEvent.chunk c ∷ rest
    → has_stream (read_poll_event p id).0 id ≡ true
unfolding poll
stays_open p id c rest h e = elim (Option-cases (get p.streams id)) [
  | inl gone ↦ unfold has_stream in cc (ap (λ (o : Option NativeIncomingStream). is_some o) gone)
  | inr (s, found) ↦
      rw (read_poll_event-poll p id s found, sym (events-queue p id s found) ∙ e)
        (has_stream-poll_chunk p id s c rest)
]

-- `n` reads of a stream, one after the other, and the events that they got.
unfoldable pub drain : ℕ → NativeIncomingPlane → ℕ → NativeIncomingPlane × List NativeReadEvent
drain zero p id = (p, [])
drain (suc n) p id =
    let (q, event) = read_poll_event p id in
    let (r, later) = drain n q id in (r, elim event [ none ↦ later | some e ↦ e ∷ later ])

-- Reads of an open stream get its chunks in the order of its queue, each once, and leave what is
-- behind them.
pub drain_chunks :
    (cs : List Bytes) (rest : List NativeStreamEvent) (p : NativeIncomingPlane) (id : ℕ)
    → IsConsistent p
    → has_stream p id ≡ true
    → events p id ≡ map NativeStreamEvent.chunk cs ++ rest
    → ((drain (length cs) p id).1 ≡ map NativeReadEvent.chunk cs)
      × (events (drain (length cs) p id).0 id ≡ rest)
unfolding drain
drain_chunks [] rest p id v h e = (refl, e)
drain_chunks (c ∷ cs) rest p id v h e =
    let (told, left) = read_poll_event_takes p id v h in
    let (later, behind) =
      drain_chunks cs rest (read_poll_event p id).0 id (read_poll_event-IsConsistent p id v)
        (stays_open p id c _ h e) (left id ∙ rw (beq_refl id, e)) in
    (rw (drain, told, e) (ap (◌∷◌ (NativeReadEvent.chunk c)) later), behind)

queue-pushed :
    (v : VectorLoop) (cs : List Bytes)
    → (pushed v cs).queue ≡ v.queue ++ map NativeStreamEvent.chunk cs
unfolding pushed
queue-pushed v [] = sym (append-nil v.queue)
queue-pushed v (c ∷ cs) =
    queue-pushed (push_frame v c) cs
    ∙ append_assoc v.queue (NativeStreamEvent.chunk c ∷ []) (map NativeStreamEvent.chunk cs)

cut-merge_chunks :
    (cs : List Bytes) (queue : List NativeStreamEvent)
    → All Fits cs
    → (cut (merge_chunks cs) queue).queue ≡ queue ++ map NativeStreamEvent.chunk cs
cut-merge_chunks cs queue fits =
    ap (λ (v : VectorLoop). v.queue) (push_frames-merge_chunks cs _ fits) ∙ queue-pushed _ cs

has_stream-push_vectorized :
    (p : NativeIncomingPlane) (id : ℕ) (raw : Bytes)
    → has_stream p id ≡ true
    → has_stream (push_vectorized_with_wake p id raw).0 id ≡ true
unfolding has_stream push_vectorized_with_wake
has_stream-push_vectorized p id raw h = grind (arith, get-insert, inner-record_chunk_telemetry)

-- Chunks that Node merges into one message, with lengths that fit the prefix, and that are pushed to
-- an open stream with nothing in its queue, reach the reader one by one, unchanged and in order, and
-- nothing is left behind.
pub vectorized_delivery :
    (cs : List Bytes) (p : NativeIncomingPlane) (id : ℕ)
    → IsConsistent p
    → has_stream p id ≡ true
    → events p id ≡ []
    → All Fits cs
    → ((drain (length cs) (push_vectorized_with_wake p id (merge_chunks cs)).0 id).1
        ≡ map NativeReadEvent.chunk cs)
      × (events (drain (length cs) (push_vectorized_with_wake p id (merge_chunks cs)).0 id).0 id
          ≡ [])
vectorized_delivery cs p id v h empty fits =
    drain_chunks cs [] (push_vectorized_with_wake p id (merge_chunks cs)).0 id
      (KeepsKeys-IsConsistent (push_vectorized-KeepsKeys p id (merge_chunks cs)) v)
      (has_stream-push_vectorized p id (merge_chunks cs) h)
      (events-push_vectorized p id (merge_chunks cs) id
        ∙ rw (beq_refl id, empty, append-nil) (cut-merge_chunks cs [] fits))

has_stream-open_id :
    (p : NativeIncomingPlane) (id : ℕ) (key : Text)
    → IsConsistent p
    → get p.key_to_id key ≡ none
    → has_stream (open_id p id key) id ≡ true
unfolding has_stream open_id
has_stream-open_id p id key v unused = elim (Option-cases (get p.backlog key)) [
  | inl none_waiting ↦ grind (arith, get-insert)
  | inr (j, listed) ↦ cc (v.announced j key listed)
]

-- The same for chunks that arrive before the stream is open, under a key that no stream has: the
-- reader of the stream that is opened later gets all of them.
pub early_delivery :
    (cs : List Bytes) (p : NativeIncomingPlane) (id : ℕ) (key : Text)
    → IsConsistent p
    → get p.key_to_id key ≡ none
    → events p id ≡ []
    → All Fits cs
    → let q : NativeIncomingPlane =
        open_id (push_vectorized_with_wake p id (merge_chunks cs)).0 id key in
      ((drain (length cs) q id).1 ≡ map NativeReadEvent.chunk cs)
      × (events (drain (length cs) q id).0 id ≡ [])
early_delivery cs p id key v unused empty fits =
    let pushed_to = KeepsKeys-IsConsistent (push_vectorized-KeepsKeys p id (merge_chunks cs)) v in
    drain_chunks cs [] _ id
      (open_id-IsConsistent (push_vectorized_with_wake p id (merge_chunks cs)).0 id key pushed_to)
      (has_stream-open_id (push_vectorized_with_wake p id (merge_chunks cs)).0 id key pushed_to
        ((push_vectorized-KeepsKeys p id (merge_chunks cs)).ids key ∙ unused))
      (events-open_id (push_vectorized_with_wake p id (merge_chunks cs)).0 id key id
        ∙ events-push_vectorized p id (merge_chunks cs) id
        ∙ rw (beq_refl id, empty, append-nil) (cut-merge_chunks cs [] fits))
