-- ===== src/StreamOps/Agree.antt =====
-- The two ways to read a stream that src/worker/ops.rs offers: with an object and a chunk that is taken
-- from the scratch space, or with a frame.
use deno_director.Prelude.{
  ℕ, ◌≡◌, refl, sym, ap, ◌∙◌, Bool, false, Option, none, some, [], ◌∷◌, list_eq, list_beq, nat_eq,
  ◌==◌, if◌then◌else◌, beq_refl, Bool-cases, inl, inr,
}
use deno_director.Prelude.Dict.{get, get-insert, remove-insert}
use deno_director.Prelude.Int.{ℤ}
use deno_director.Prelude.Text.{Text, codes}
use deno_director.StreamPlane.State.{Bytes, NativeReadEvent, NativeIncomingPlane}
use deno_director.StreamPlane.{has_stream}
use deno_director.StreamPlane.Read.{read_poll_event}
use deno_director.StreamOps.{
  NativeReadScratch, OpState, StreamReply, stored, store, answer, with_plane, positive, read_with,
  read_raw_with, take_with, frame, error_frame, stream_read, stream_take_chunk, stream_read_raw,
}

abbrev pub take_after : Option ℕ → OpState × StreamReply → OpState × StreamReply × Bytes
take_after id (st, reply) =
    let (st', chunk) =
      if reply.kind == codes "chunk" then take_with st id st.scratch else (st, []) in
    (st', reply, chunk)

-- A read, and after a chunk the call that takes it.
unfoldable pub read_and_take : OpState → ℤ → OpState × StreamReply × Bytes
read_and_take st stream_id =
    let (st', reply) = stream_read st stream_id in
    let (st'', chunk) =
      if reply.kind == codes "chunk" then stream_take_chunk st' stream_id else (st', []) in
    (st'', reply, chunk)

abbrev pub message_of : Option Text → Text
message_of none = []
message_of (some message) = message

-- The frame that says the same as a reply with its chunk.
unfoldable pub frame_of : StreamReply → Bytes → Bytes
frame_of reply chunk =
    if reply.kind == codes "chunk"
    then 1 ∷ chunk
    else if reply.kind == codes "close"
    then 2 ∷ []
    else if reply.kind == codes "error"
    then error_frame (message_of reply.message)
    else 0 ∷ []

-- What is stored for a chunk is taken again, and leaves nothing behind.
taken :
    (st : OpState) (id : ℕ) (c : Bytes) (s : NativeReadScratch)
    → st.scratch ≡ some s
    → s.poisoned ≡ false
    → get s.chunks id ≡ none
    → take_with (store st id c) (some id) (stored (some s) id c) ≡ (st, c)
taken st id c s here sound absent =
    let same : some (record { chunks = s.chunks; poisoned = false }) ≡ st.scratch =
      ap (λ (b : Bool). some (record s { poisoned = b })) (sym sound) ∙ sym here in
    rw
      (
        sound,
        absent,
        get-insert s.chunks id (c ∷ []) id,
        beq_refl id,
        remove-insert s.chunks id (c ∷ []) absent,
      )
      (ap (λ (x : Option NativeReadScratch). (record st { scratch = x }, c)) same)

-- The state and the frame that a read with its chunk stands for.
abbrev Agree : OpState × StreamReply × Bytes → OpState × Bytes → Type 0
Agree (st, reply, chunk) (st', bytes) = (st ≡ st') × (frame_of reply chunk ≡ bytes)

module _ (st : OpState) (id : ℕ) (s : NativeReadScratch) (here : st.scratch ≡ some s)
    (sound : s.poisoned ≡ false) (absent : get s.chunks id ≡ none) where
  event_agrees :
      (q : NativeIncomingPlane) (event : Option NativeReadEvent)
      → Agree
          (take_after (some id) (answer (with_plane st q) id event))
          (with_plane st q, frame event)
  unfolding list_beq frame_of
  event_agrees q none = (refl, refl)
  event_agrees q (some NativeReadEvent.close) = (refl, refl)
  event_agrees q (some (NativeReadEvent.error message)) = (refl, refl)
  event_agrees q (some (NativeReadEvent.chunk c)) =
      let t =
        ap (λ x. take_with (store (with_plane st q) id c) (some id) (stored x id c)) here
        ∙ taken (with_plane st q) id c s here sound absent in
      (ap (λ x. x.0) t, ap (λ x. 1 ∷ x.1) t)

  plane_agrees :
      (plane : Option NativeIncomingPlane)
      → Agree
          (take_after (some id) (read_with st (some id) plane))
          (read_raw_with st (some id) plane)
  unfolding list_beq frame_of
  plane_agrees none = (refl, refl)
  plane_agrees (some p) = elim (Bool-cases (has_stream p id)) [
    | inl e ↦ rw e (event_agrees (read_poll_event p id).0 (read_poll_event p id).1)
    | inr e ↦ rw e (refl, refl)
  ]

agrees :
    (st : OpState) (id : Option ℕ) (s : NativeReadScratch)
    → st.scratch ≡ some s
    → s.poisoned ≡ false
    → ((n : ℕ) → id ≡ some n → get s.chunks n ≡ none)
    → Agree (take_after id (read_with st id st.plane)) (read_raw_with st id st.plane)
unfolding list_beq frame_of
agrees st none s here sound absent = (refl, refl)
agrees st (some id) s here sound absent = plane_agrees st id s here sound (absent id refl) st.plane

-- With a scratch space that can be used and in which nothing waits for the identifier, a read and the
-- call that takes its chunk leave the same state as a raw read, and the frame that the raw read answers
-- is that of the reply with the chunk: on every branch, errors included.
pub read_and_take-stream_read_raw :
    (st : OpState) (stream_id : ℤ) (s : NativeReadScratch)
    → st.scratch ≡ some s
    → s.poisoned ≡ false
    → ((n : ℕ) → positive stream_id ≡ some n → get s.chunks n ≡ none)
    → let (st', reply, chunk) = read_and_take st stream_id in
      (st' ≡ (stream_read_raw st stream_id).0)
      × (frame_of reply chunk ≡ (stream_read_raw st stream_id).1)
unfolding read_and_take stream_read stream_take_chunk stream_read_raw
read_and_take-stream_read_raw st stream_id s here sound absent =
    agrees st (positive stream_id) s here sound absent
