-- ===== src/StreamOps/Delivery.antt =====
-- What a script gets that reads frames of a stream until it ends (src/worker/ops.rs over
-- src/worker/stream_plane.rs).
use deno_director.Prelude.{
  ℕ, zero, suc, ◌+◌, ◌≡◌, refl, ap, ◌∙◌, true, false, Option, none, some, List, [], ◌∷◌, ◌++◌, map,
  replicate, list_eq, nat_eq, beq_refl, length, arith,
}
use deno_director.Prelude.Int.{ℤ, pos}
use deno_director.StreamPlane.State.{Bytes, NativeStreamEvent, NativeReadEvent, NativeIncomingPlane}
use deno_director.StreamPlane.{has_stream}
use deno_director.StreamPlane.Read.{read_poll_event}
use deno_director.StreamPlane.Ends.{ends, still_open, has_stream-close_with_wake}
use deno_director.StreamPlane.Push.{close_with_wake}
use deno_director.StreamPlane.Invariant.Writes.{push_terminal-KeepsKeys}
use deno_director.StreamPlane.Fifo.{events, events-push_terminal}
use deno_director.StreamPlane.Invariant.{IsConsistent, KeepsKeys-IsConsistent}
use deno_director.StreamPlane.Invariant.Reads.{read_poll_event-IsConsistent}
use deno_director.StreamPlane.Delivery.{read_poll_event_takes, stays_open}
use deno_director.StreamOps.{OpState, with_plane, frame, read_raw_with, stream_read_raw}

-- `n` raw reads, one after the other.
unfoldable pub raw_reads : ℕ → OpState → ℤ → OpState × List Bytes
raw_reads zero st id = (st, [])
raw_reads (suc n) st id =
    let (st', bytes) = stream_read_raw st id in
    let (st'', later) = raw_reads n st' id in (st'', bytes ∷ later)

closed_queue :
    (p : NativeIncomingPlane) (id : ℕ)
    → events (close_with_wake p id).0 id ≡ NativeStreamEvent.close ∷ []
unfolding close_with_wake
closed_queue p id = events-push_terminal p id NativeStreamEvent.close id ∙ rw (beq_refl id) refl

closed-IsConsistent :
    (p : NativeIncomingPlane) (id : ℕ) → IsConsistent p → IsConsistent (close_with_wake p id).0
unfolding close_with_wake
closed-IsConsistent p id v =
    KeepsKeys-IsConsistent (push_terminal-KeepsKeys p id NativeStreamEvent.close) v

module _ (k : ℕ) where
  -- The identifiers of streams are positive.
  abbrev id : ℕ
  id = suc k

  read_open :
      (st : OpState) (p : NativeIncomingPlane)
      → st.plane ≡ some p
      → has_stream p id ≡ true
      → stream_read_raw st (pos id)
        ≡ (with_plane st (read_poll_event p id).0, frame (read_poll_event p id).1)
  unfolding stream_read_raw
  read_open st p has opened = rw (has, opened) refl

  read_gone :
      (st : OpState) (p : NativeIncomingPlane)
      → st.plane ≡ some p
      → has_stream p id ≡ false
      → stream_read_raw st (pos id) ≡ (st, 2 ∷ [])
  unfolding stream_read_raw
  read_gone st p has gone =
      ap (λ (x : Option NativeIncomingPlane). read_raw_with st (some id) x) has ∙ rw gone refl

  read_first :
      (m : ℕ) (st st' : OpState) (bytes : Bytes)
      → stream_read_raw st (pos id) ≡ (st', bytes)
      → (raw_reads (suc m) st (pos id)).1 ≡ bytes ∷ (raw_reads m st' (pos id)).1
  unfolding raw_reads
  read_first m st st' bytes h = rw h refl

  raw_reads_gone :
      (n : ℕ) (st : OpState) (p : NativeIncomingPlane)
      → st.plane ≡ some p
      → has_stream p id ≡ false
      → (raw_reads n st (pos id)).1 ≡ replicate n (2 ∷ [])
  unfolding raw_reads
  raw_reads_gone zero st p has gone = refl
  raw_reads_gone (suc n) st p has gone =
      read_first n st st (2 ∷ []) (read_gone st p has gone)
      ∙ ap (◌∷◌ (2 ∷ [])) (raw_reads_gone n st p has gone)

  read_next :
      (m : ℕ) (st : OpState) (p : NativeIncomingPlane) (event : Option NativeReadEvent)
      → st.plane ≡ some p
      → has_stream p id ≡ true
      → (read_poll_event p id).1 ≡ event
      → (raw_reads (suc m) st (pos id)).1
        ≡ frame event ∷ (raw_reads m (with_plane st (read_poll_event p id).0) (pos id)).1
  read_next m st p event has opened told =
      read_first m st (with_plane st (read_poll_event p id).0) (frame event)
        (read_open st p has opened ∙ rw told refl)

  raw_reads_idle :
      (n : ℕ) (st : OpState) (p : NativeIncomingPlane)
      → st.plane ≡ some p
      → IsConsistent p
      → has_stream p id ≡ true
      → events p id ≡ []
      → (raw_reads n st (pos id)).1 ≡ replicate n (0 ∷ [])
  unfolding raw_reads
  raw_reads_idle zero st p has v opened e = refl
  raw_reads_idle (suc n) st p has v opened e =
      let (told, left) = read_poll_event_takes p id v opened in
      read_next n st p none has opened (told ∙ rw e refl)
      ∙ ap (◌∷◌ (0 ∷ [])) (
          raw_reads_idle n (with_plane st (read_poll_event p id).0) (read_poll_event p id).0 refl
            (read_poll_event-IsConsistent p id v) (still_open p id opened e)
            (left id ∙ rw (beq_refl id, e) refl))

-- A script that reads frames of an open stream with a positive number, whose queue holds chunks, in a
-- runtime with a consistent plane, gets each chunk behind the byte 1, in order, and then the empty
-- frame for as often as it reads.
pub raw_reads_all :
    (cs : List Bytes) (n k : ℕ) (st : OpState) (p : NativeIncomingPlane)
    → st.plane ≡ some p
    → IsConsistent p
    → has_stream p (suc k) ≡ true
    → events p (suc k) ≡ map NativeStreamEvent.chunk cs
    → (raw_reads (length cs + n) st (pos (suc k))).1 ≡ map (◌∷◌ 1) cs ++ replicate n (0 ∷ [])
raw_reads_all [] n k st p has v opened e =
    let one : 0 + n ≡ n = omega arith in rw one (raw_reads_idle k n st p has v opened e)
raw_reads_all (c ∷ cs) n k st p has v opened e =
    let (told, left) = read_poll_event_takes p (suc k) v opened in
    let one : length (c ∷ cs) + n ≡ suc (length cs + n) = omega arith in
    rw one (
      read_next k (length cs + n) st p (some (NativeReadEvent.chunk c)) has opened
        (told ∙ rw e refl)
      ∙ ap (◌∷◌ (1 ∷ c)) (
          raw_reads_all cs n k (with_plane st (read_poll_event p (suc k)).0)
            (read_poll_event p (suc k)).0 refl (read_poll_event-IsConsistent p (suc k) v)
            (stays_open p (suc k) c _ opened e) (left (suc k) ∙ rw (beq_refl (suc k), e) refl)))

-- Once an open stream of a consistent plane is closed, every frame that is read of it is that of the
-- close, whatever its queue held.
pub raw_reads-close_with_wake :
    (n k : ℕ) (st : OpState) (p : NativeIncomingPlane)
    → IsConsistent p
    → has_stream p (suc k) ≡ true
    → (raw_reads n (with_plane st (close_with_wake p (suc k)).0) (pos (suc k))).1
      ≡ replicate n (2 ∷ [])
unfolding raw_reads
raw_reads-close_with_wake zero k st p v opened = refl
raw_reads-close_with_wake (suc n) k st p v opened =
    let q = (close_with_wake p (suc k)).0 in
    let there = has_stream-close_with_wake p (suc k) opened in
    let e = closed_queue p (suc k) in
    let (told, _) = read_poll_event_takes q (suc k) (closed-IsConsistent p (suc k) v) there in
    read_next k n (with_plane st q) q (some NativeReadEvent.close) refl there (told ∙ rw e refl)
    ∙ ap (◌∷◌ (2 ∷ [])) (
        raw_reads_gone k n (with_plane st (read_poll_event q (suc k)).0)
          (read_poll_event q (suc k)).0 refl (ends q (suc k) there e))
