-- ===== src/StreamPlane/Read.antt =====
-- src/worker/stream_plane.rs: the operations that take events out of a stream. A call that may wait
-- is modelled by what it does each time it holds the lock: `none` means that it waits.
use deno_director.Prelude.{
  ℕ, true, false, Option, none, some, List, [], ◌∷◌, if◌then◌else◌, leb, nat_eq, list_eq,
}
use deno_director.Prelude.Dict.{get}
use deno_director.Prelude.Int.{ℤ, pos}
use deno_director.Prelude.Text.{Text, codes}
use deno_director.StreamPlane.State.{
  NativeStreamEvent, NativeReadEvent, NativeIncomingStream, NativeIncomingPlane, NativeReadReply,
}
use deno_director.StreamPlane.{put_stream, drop_stream, has_stream, accept_poll}

-- The queue is empty: note that a reader waits.
unfoldable pub wait : NativeIncomingPlane → ℕ → NativeIncomingStream → NativeIncomingPlane
unfolding put_stream
wait p id s = put_stream p id (record s { waiting_reader = true })

unfoldable pub poll :
    NativeIncomingPlane
    → ℕ
    → NativeIncomingStream
    → List NativeStreamEvent
    → NativeIncomingPlane × Option NativeReadEvent
unfolding wait put_stream drop_stream
poll p id s [] = (wait p id s, none)
poll p id s (NativeStreamEvent.chunk chunk ∷ rest) = (
  put_stream p id (record s { waiting_reader = false; queue = rest }),
  some (NativeReadEvent.chunk chunk),
)
poll p id s (NativeStreamEvent.close ∷ rest) = (drop_stream p id s.key, some NativeReadEvent.close)
poll p id s (NativeStreamEvent.error message ∷ rest) =
    (drop_stream p id s.key, some (NativeReadEvent.error message))

unfoldable pub read_poll_event :
    NativeIncomingPlane → ℕ → NativeIncomingPlane × Option NativeReadEvent
unfolding poll
read_poll_event p id = elim (get p.streams id) [ none ↦ (p, none) | some s ↦ poll p id s s.queue ]

unfoldable pub reply : NativeReadEvent → NativeReadReply
reply (NativeReadEvent.chunk chunk) = record {
  kind = codes "chunk";
  chunk = some chunk;
  message = none;
}
reply NativeReadEvent.close = record { kind = codes "close"; chunk = none; message = none }
reply (NativeReadEvent.error message) = record {
  kind = codes "error";
  chunk = none;
  message = some message;
}

abbrev reply_some : Option NativeReadEvent → Option NativeReadReply
reply_some none = none
reply_some (some event) = some (reply event)

unfoldable pub read_poll : NativeIncomingPlane → ℕ → NativeIncomingPlane × Option NativeReadReply
unfolding read_poll_event reply
read_poll p id = let (q, event) = read_poll_event p id in (q, reply_some event)

-- The blocking readers pop in place: they leave `waiting_reader` as it is.
unfoldable pub take_event :
    NativeIncomingPlane
    → ℕ
    → NativeIncomingStream
    → List NativeStreamEvent
    → NativeIncomingPlane × Option NativeReadReply
unfolding put_stream drop_stream reply
take_event p id s [] = (p, none)
take_event p id s (NativeStreamEvent.chunk chunk ∷ rest) =
    (put_stream p id (record s { queue = rest }), some (reply (NativeReadEvent.chunk chunk)))
take_event p id s (NativeStreamEvent.close ∷ rest) =
    (drop_stream p id s.key, some (reply NativeReadEvent.close))
take_event p id s (NativeStreamEvent.error message ∷ rest) =
    (drop_stream p id s.key, some (reply (NativeReadEvent.error message)))

-- One round of the loop of `read_wait_sync`.
unfoldable pub read_wait_sync_round :
    NativeIncomingPlane → ℕ → NativeIncomingPlane × Option NativeReadReply
unfolding take_event reply
read_wait_sync_round p id = elim (get p.streams id) [
  | none ↦ (p, some (reply NativeReadEvent.close))
  | some s ↦ take_event p id s s.queue
]

-- One round of the loop of `read_blocking`, at the time `now`.
pub data Round : Type 0 where
  finished : Option NativeReadReply → Round
  waiting : Round

abbrev blocked : ℕ → ℕ → Option NativeReadReply → Round
blocked now deadline (some r) = finished (some r)
blocked now deadline none = if leb deadline now then finished none else waiting

unfoldable pub read_blocking_round : NativeIncomingPlane → ℕ → ℕ → ℕ → NativeIncomingPlane × Round
unfolding take_event
read_blocking_round p id now deadline = elim (get p.streams id) [
  | none ↦ (p, finished none)
  | some s ↦ let (q, r) = take_event p id s s.queue in (q, blocked now deadline r)
]

abbrev or_closed : NativeIncomingPlane → ℕ → Option NativeReadEvent → Option NativeReadEvent
or_closed p id (some event) = some event
or_closed p id none = if has_stream p id then none else some NativeReadEvent.close

-- One round of the loop of `read_wait_event`: poll, then look whether the stream is still there.
unfoldable pub read_wait_event_round :
    NativeIncomingPlane → ℕ → NativeIncomingPlane × Option NativeReadEvent
unfolding read_poll_event has_stream
read_wait_event_round p id = let (q, event) = read_poll_event p id in (q, or_closed q id event)

-- The loop with what the rest of the process does to the plane between two rounds: the result is
-- `none` if the loop is still waiting when `others` is used up.
unfoldable pub read_wait_event :
    List (NativeIncomingPlane → NativeIncomingPlane)
    → NativeIncomingPlane
    → ℕ
    → NativeIncomingPlane × Option NativeReadEvent
unfolding read_wait_event_round
read_wait_event [] p id = read_wait_event_round p id
read_wait_event (other ∷ others) p id =
    let (q, event) = read_wait_event_round p id in
    let later = read_wait_event others (other q) id in
    elim event [ some e ↦ (q, some e) | none ↦ later ]

-- One round of the loop of `accept_wait`.
unfoldable pub accept_wait_round : NativeIncomingPlane → Text → NativeIncomingPlane × Option ℤ
unfolding accept_poll
accept_wait_round p key =
    let (q, polled) = accept_poll p key in
    (
      q,
      elim polled [
        | pos n ↦ (elim n [ ℕ.zero ↦ none | ℕ.suc k ↦ some (pos (ℕ.suc k)) ])
        | negative ↦ some negative
      ],
    )
