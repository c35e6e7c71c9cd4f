-- ===== src/StreamPlane/Ends.antt =====
-- When a stream of src/worker/stream_plane.rs is still open after a poll, and when it is gone.
use deno_director.Prelude.{
  ℕ, ◌≡◌, sym, ap, ◌∙◌, true, false, Option, [], ◌∷◌, list_eq, nat_eq, arith, Option-cases, inl,
  inr,
}
use deno_director.Prelude.Dict.{get, is_some, get-insert, get-remove}
use deno_director.StreamPlane.State.{NativeStreamEvent, NativeIncomingStream, NativeIncomingPlane}
use deno_director.StreamPlane.{has_stream, put_stream, drop_stream}
use deno_director.StreamPlane.Read.{wait, poll, read_poll_event}
use deno_director.StreamPlane.Push.{push_terminal_with_wake, close_with_wake}
use deno_director.StreamPlane.Fifo.{events}
use deno_director.StreamPlane.Delivery.{read_poll_event-poll, events-queue}

poll_gone :
    (p : NativeIncomingPlane) (id : ℕ) (s : NativeIncomingStream)
    → has_stream (poll p id s (NativeStreamEvent.close ∷ [])).0 id ≡ false
unfolding has_stream poll drop_stream
poll_gone p id s = grind (arith, get-remove)

-- After a close the stream is gone.
pub ends :
    (p : NativeIncomingPlane) (id : ℕ)
    → has_stream p id ≡ true
    → events p id ≡ NativeStreamEvent.close ∷ []
    → has_stream (read_poll_event p id).0 id ≡ false
unfolding poll
ends p id h e = elim (Option-cases (get p.streams id)) [
  | inl gone ↦ unfold has_stream in cc (ap (λ (o : Option NativeIncomingStream). is_some o) gone)
  | inr (s, found) ↦
      rw (read_poll_event-poll p id s found, sym (events-queue p id s found) ∙ e) (poll_gone p id s)
]

has_stream-wait :
    (p : NativeIncomingPlane) (id : ℕ) (s : NativeIncomingStream)
    → has_stream (poll p id s []).0 id ≡ true
unfolding has_stream poll wait put_stream
has_stream-wait p id s = grind (arith, get-insert)

-- A poll that finds nothing leaves the stream open.
pub still_open :
    (p : NativeIncomingPlane) (id : ℕ)
    → has_stream p id ≡ true
    → events p id ≡ []
    → has_stream (read_poll_event p id).0 id ≡ true
unfolding poll
still_open p id h e = elim (Option-cases (get p.streams id)) [
  | inl gone ↦ unfold has_stream in cc (ap (λ (o : Option NativeIncomingStream). is_some o) gone)
  | inr (s, found) ↦
      rw (read_poll_event-poll p id s found, sym (events-queue p id s found) ∙ e)
        (has_stream-wait p id (record s { queue = [] }))
]

pub has_stream-close_with_wake :
    (p : NativeIncomingPlane) (id : ℕ)
    → has_stream p id ≡ true
    → has_stream (close_with_wake p id).0 id ≡ true
unfolding has_stream close_with_wake push_terminal_with_wake
has_stream-close_with_wake p id h = grind (arith, get-insert)
