-- ===== src/StreamPlane/Wake.antt =====
-- That no operation of src/worker/stream_plane.rs makes a waiting call ready and keeps quiet about it.
use deno_director.Prelude.{
  ℕ, zero, suc, ◌<◌, ◌≡◌, ◌≢◌, refl, Bool, true, false, none, some, List, [], ◌∷◌, arith, nat_eq,
  list_eq, take, drop, Option-cases, ◌⊎◌, inl, inr,
}
use deno_director.Prelude.Dict.{get, get-insert, get-remove}
use deno_director.Prelude.Text.{Text}
use deno_director.StreamPlane
use deno_director.StreamPlane.Push
use deno_director.StreamPlane.Read
use deno_director.StreamPlane.State.{
  Bytes, NativeStreamEvent, NativeIncomingStream, NativeIncomingPlane,
}
use deno_director.StreamPlane.Frames.{VectorLoop, push_frame, push_frames, from_be_bytes}
use deno_director.StreamPlane.Reachable.{Call, step}

abbrev is_nil : List NativeStreamEvent → Bool
is_nil [] = true
is_nil (e ∷ rest) = false

-- The stream is open and its queue is empty: then its readers wait.
idle : NativeIncomingPlane → ℕ → Bool
idle p id = elim (get p.streams id) [ none ↦ false | some s ↦ is_nil s.queue ]

idle_open :
    (p : NativeIncomingPlane) (id : ℕ)
    → idle p id ≡ true
    → (s : NativeIncomingStream) × (get p.streams id ≡ some s) × (s.queue ≡ [])
unfolding idle
idle_open p id h = elim (Option-cases (get p.streams id)) [
  | inl e ↦ cc
  | inr (s, e) ↦ (s, e, nil_of s.queue (rw (e, idle) at h))
]
  where
    nil_of : (l : List NativeStreamEvent) → is_nil l ≡ true → l ≡ []
    nil_of [] e = refl
    nil_of (x ∷ l) e = cc

waits_idle :
    (p : NativeIncomingPlane) (id : ℕ)
    → (Read.read_wait_event_round p id).1 ≡ none
    → idle p id ≡ true
unfolding idle Read.read_wait_event_round
waits_idle p id h = grind (arith, get-insert)

idle_waits :
    (p : NativeIncomingPlane) (id : ℕ)
    → idle p id ≡ true
    → (Read.read_wait_event_round p id).1 ≡ none
unfolding Read.read_wait_event_round
idle_waits p id h = let (s, open_now, empty) = idle_open p id h in grind (arith, get-insert)

-- The notifications that a step must make if it ends the wait.
Tells : NativeIncomingPlane → NativeIncomingPlane → ℕ → Type 0
Tells p q id =
    (idle q id ≡ true) ⊎ ((p.read_notified < q.read_notified) × (p.cv_notified < q.cv_notified))

push_chunk-Tells :
    (p : NativeIncomingPlane) (id : ℕ) (c : Bytes) (j : ℕ)
    → idle p j ≡ true
    → Tells p (Push.push_chunk_with_wake p id c).0 j
unfolding Tells idle Push.push_chunk_with_wake
push_chunk-Tells p id c j h = grind (arith, get-insert)

push_terminal-Tells :
    (p : NativeIncomingPlane) (id : ℕ) (t : NativeStreamEvent) (j : ℕ)
    → idle p j ≡ true
    → Tells p (Push.push_terminal_with_wake p id t).0 j
unfolding Tells idle Push.push_terminal_with_wake
push_terminal-Tells p id t j h = grind (arith, get-insert)

frames_told :
    (fuel : ℕ) (raw : Bytes) (v : VectorLoop)
    → ((push_frames fuel raw v).pushed_any ≡ true) ⊎ (push_frames fuel raw v ≡ v)
unfolding push_frames push_frame
frames_told zero raw v = inr refl
frames_told (suc fuel) [] v = inr refl
frames_told (suc fuel) (a ∷ []) v = inr refl
frames_told (suc fuel) (a ∷ b ∷ []) v = inr refl
frames_told (suc fuel) (a ∷ b ∷ c ∷ []) v = inr refl
frames_told (suc fuel) (a ∷ b ∷ c ∷ d ∷ rest) v =
    let len = from_be_bytes a b c d in
    ground (arith, frames_told fuel (drop len rest) (push_frame v (take len rest)))

push_vectorized-Tells :
    (p : NativeIncomingPlane) (id : ℕ) (raw : Bytes) (j : ℕ)
    → idle p j ≡ true
    → Tells p (Push.push_vectorized_with_wake p id raw).0 j
unfolding Tells idle Push.push_vectorized_with_wake
push_vectorized-Tells p id raw j h = grind (arith, get-insert, frames_told)

discard-Tells :
    (p : NativeIncomingPlane) (id j : ℕ)
    → idle p j ≡ true
    → Tells p (StreamPlane.discard_with_wake p id).0 j
unfolding Tells idle StreamPlane.discard_with_wake
discard-Tells p id j h = grind (arith, get-remove)

open_stream-Tells :
    (p : NativeIncomingPlane) (id_text key : Text) (j : ℕ)
    → idle p j ≡ true
    → Tells p (StreamPlane.open_stream p id_text key).0 j
unfolding Tells idle StreamPlane.open_stream
open_stream-Tells p id_text key j h = grind (arith, get-insert)

mark-Tells :
    (p : NativeIncomingPlane) (id j : ℕ)
    → idle p j ≡ true
    → Tells p (StreamPlane.mark_native_active p id).0 j
unfolding Tells idle StreamPlane.mark_native_active
mark-Tells p id j h = grind (arith, get-insert)

accept-Tells :
    (p : NativeIncomingPlane) (key : Text) (j : ℕ)
    → idle p j ≡ true
    → Tells p (StreamPlane.accept_poll p key).0 j
unfolding Tells idle StreamPlane.accept_poll
accept-Tells p key j h = grind (arith, get-insert)

poll-Tells :
    (p : NativeIncomingPlane) (id j : ℕ) → idle p j ≡ true → Tells p (Read.read_poll_event p id).0 j
unfolding Tells idle Read.read_poll_event
poll-Tells p id j h = grind (arith, get-insert, get-remove)

sync-Tells :
    (p : NativeIncomingPlane) (id j : ℕ)
    → idle p j ≡ true
    → Tells p (Read.read_wait_sync_round p id).0 j
unfolding Tells idle Read.read_wait_sync_round
sync-Tells p id j h = grind (arith, get-insert, get-remove)

blocking-Tells :
    (p : NativeIncomingPlane) (id now deadline j : ℕ)
    → idle p j ≡ true
    → Tells p (Read.read_blocking_round p id now deadline).0 j
unfolding Tells idle Read.read_blocking_round
blocking-Tells p id now deadline j h = grind (arith, get-insert, get-remove)

step-Tells : (p : NativeIncomingPlane) (c : Call) (j : ℕ) → idle p j ≡ true → Tells p (step p c) j
unfolding step
step-Tells p (Call.mark_native_active id) = mark-Tells p id
step-Tells p (Call.accept_poll key) = accept-Tells p key
step-Tells p (Call.open_stream id_text key) = open_stream-Tells p id_text key
step-Tells p (Call.discard id) = discard-Tells p id
step-Tells p (Call.push_chunk id c) = push_chunk-Tells p id c
step-Tells p (Call.push_vectorized id raw) = push_vectorized-Tells p id raw
step-Tells p (Call.close id) = push_terminal-Tells p id NativeStreamEvent.close
step-Tells p (Call.error id message) = push_terminal-Tells p id (NativeStreamEvent.error message)
step-Tells p (Call.read_poll_event id) = poll-Tells p id
step-Tells p (Call.read_wait_sync id) = sync-Tells p id
step-Tells p (Call.read_blocking id now deadline) = blocking-Tells p id now deadline

-- If a round of `read_wait_event` waits, and would not wait after some call on the plane, then that
-- call notified the waiting readers, those that block on the condition variable too.
pub wait_is_told :
    (p : NativeIncomingPlane) (c : Call) (id : ℕ)
    → (Read.read_wait_event_round p id).1 ≡ none
    → (Read.read_wait_event_round (step p c) id).1 ≢ none
    → (p.read_notified < (step p c).read_notified) × (p.cv_notified < (step p c).cv_notified)
unfolding Tells
wait_is_told p c id waits ready = elim (step-Tells p c id (waits_idle p id waits)) [
  | inl still ↦ absurd (ready (idle_waits (step p c) id still))
  | inr told ↦ told
]
