-- ===== src/StreamPlane/Push.antt =====
-- src/worker/stream_plane.rs: the operations that put chunks and terminal events into a stream.
use deno_director.Prelude.{
  ℕ, Bool, true, false, ◌&&◌, none, some, List, [], ◌∷◌, ◌++◌, if◌then◌else◌, length, nat_eq,
}
use deno_director.Prelude.Dict.{get, or_empty}
use deno_director.Prelude.Text.{Text}
use deno_director.StreamPlane.State.{
  Bytes, NativeStreamEvent, NativeIncomingStream, NativeIncomingPlane,
}
use deno_director.StreamPlane.Frames.{VectorLoop, push_frames}
use deno_director.StreamPlane.{
  record_chunk_telemetry, put_stream, put_pending, notify_read, notify_cv,
}

-- The queue of an open stream gets a new value, and a waiting reader is taken note of.
requeue :
    NativeIncomingPlane → ℕ → NativeIncomingStream → List NativeStreamEvent → NativeIncomingPlane
unfolding put_stream
requeue p id s queue = put_stream p id (record s { waiting_reader = false; queue = queue })

unfoldable pub push_chunk_with_wake :
    NativeIncomingPlane → ℕ → Bytes → NativeIncomingPlane × Bool × Bool
unfolding record_chunk_telemetry requeue put_pending notify_read notify_cv
push_chunk_with_wake p id chunk = elim (get p.streams id) [
  | none ↦ (
    record_chunk_telemetry
        (notify_read (
          put_pending p id
            (or_empty (get p.pending_by_id id) ++ NativeStreamEvent.chunk chunk ∷ [])))
        1 (length chunk) false false,
    true,
    false,
  )
  | some s ↦ (
    record_chunk_telemetry
        (notify_cv (notify_read (requeue p id s (s.queue ++ NativeStreamEvent.chunk chunk ∷ [])))) 1
        (length chunk) s.waiting_reader false,
    true,
    s.waiting_reader,
  )
]

unfoldable pub push_chunk : NativeIncomingPlane → ℕ → Bytes → NativeIncomingPlane × Bool
unfolding push_chunk_with_wake
push_chunk p id chunk = let (q, done, wake) = push_chunk_with_wake p id chunk in (q, done)

-- The queue that the loop of `push_vectorized_with_wake` starts from, and where it leaves it.
abbrev pub cut : Bytes → List NativeStreamEvent → VectorLoop
cut vectorized queue =
    push_frames (length vectorized) vectorized
      (record { queue = queue; pushed_any = false; pushed_chunks = 0; pushed_bytes = 0 })

vector_queued : NativeIncomingPlane → VectorLoop → Bool → NativeIncomingPlane × Bool × Bool
unfolding notify_read notify_cv record_chunk_telemetry
vector_queued p v wake = (
  record_chunk_telemetry (if v.pushed_any then notify_cv (notify_read p) else p) v.pushed_chunks
      v.pushed_bytes (wake && v.pushed_any) true,
  true,
  wake && v.pushed_any,
)

unfoldable pub push_vectorized_with_wake :
    NativeIncomingPlane → ℕ → Bytes → NativeIncomingPlane × Bool × Bool
unfolding vector_queued requeue put_pending
push_vectorized_with_wake p id vectorized = elim (get p.streams id) [
  | none ↦
      let v = cut vectorized (or_empty (get p.pending_by_id id)) in
      vector_queued (put_pending p id v.queue) v false
  | some s ↦
      let v = cut vectorized s.queue in vector_queued (requeue p id s v.queue) v s.waiting_reader
]

unfoldable pub push_terminal_with_wake :
    NativeIncomingPlane → ℕ → NativeStreamEvent → NativeIncomingPlane × Bool × Bool
unfolding requeue put_pending notify_read notify_cv
push_terminal_with_wake p id terminal = elim (get p.streams id) [
  | none ↦ (notify_cv (notify_read (put_pending p id (terminal ∷ []))), true, false)
  | some s ↦ (notify_cv (notify_read (requeue p id s (terminal ∷ []))), true, s.waiting_reader)
]

unfoldable pub close_with_wake : NativeIncomingPlane → ℕ → NativeIncomingPlane × Bool × Bool
unfolding push_terminal_with_wake
close_with_wake p id = push_terminal_with_wake p id NativeStreamEvent.close

unfoldable pub error_with_wake : NativeIncomingPlane → ℕ → Text → NativeIncomingPlane × Bool × Bool
unfolding push_terminal_with_wake
error_with_wake p id message = push_terminal_with_wake p id (NativeStreamEvent.error message)

unfoldable pub close : NativeIncomingPlane → ℕ → NativeIncomingPlane × Bool
unfolding close_with_wake
close p id = let (q, done, wake) = close_with_wake p id in (q, done)

unfoldable pub error : NativeIncomingPlane → ℕ → Text → NativeIncomingPlane × Bool
unfolding error_with_wake
error p id message = let (q, done, wake) = error_with_wake p id message in (q, done)
