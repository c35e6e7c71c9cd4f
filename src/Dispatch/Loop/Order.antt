-- ===== src/Dispatch/Loop/Order.antt =====
-- In which order the loop of src/worker/runtime.rs handles the messages of its queues.
use deno_director.Prelude.{
  ℕ, zero, suc, ◌≤◌, ◌≡◌, refl, sym, ap, Bool, true, false, List, [], ◌∷◌, ◌++◌, take, drop,
  take-append-drop, length, All, if_elim, arith,
}
use deno_director.Bridge.Json.{Numbers}
use deno_director.Dispatch.State.{DenoMsg, World, Engine, Host}
use deno_director.Dispatch.Commands.{handle_deno_msg, is_data_plane}
use deno_director.Dispatch.Loop.{
  Queues, drain_data, drain_limit, handle_control, handle_data, select_data, select_control, round,
}

module _ {S : Numbers} {M D R : Type 0} (E : Engine S M D R) (host : Host) (native : Bool) where
  abbrev Msg : Type 0
  Msg = DenoMsg (Numbers.Number S) D R

  abbrev W : Type 0
  W = World M (Numbers.Number S) D R

  -- A message that is sent to the queue of the data plane.
  abbrev pub IsData : Msg → Type 0
  IsData m = is_data_plane m ≡ true

  -- Only a `Close` ends the loop.
  stays : (m : Msg) (w : W) → IsData m → (handle_deno_msg E host native m w).1 ≡ false
  unfolding handle_deno_msg is_data_plane
  stays (DenoMsg.post_message value) w h = refl
  stays (DenoMsg.post_message_typed t id payload) w h = refl
  stays (DenoMsg.post_stream_chunk id payload) w h = refl
  stays (DenoMsg.post_stream_chunk_raw id payload credit) w h = refl
  stays (DenoMsg.post_stream_chunk_raw_bin id payload credit) w h = refl
  stays (DenoMsg.post_stream_chunks id payloads) w h = refl
  stays (DenoMsg.post_stream_chunks_raw id payload) w h = refl
  stays (DenoMsg.post_stream_control kind id aux) w h = refl
  stays (DenoMsg.eval source options deferred tx) w h = refl
  stays (DenoMsg.set_global key value d) w h = refl
  stays (DenoMsg.memory d) w h = refl
  stays (DenoMsg.gc d) w h = refl
  stays (DenoMsg.close d) w h = cc h
  stays (DenoMsg.register_module name source loader d) w h = refl
  stays (DenoMsg.clear_module name d) w h = refl

  -- The world after these messages, one after the other.
  unfoldable pub handle_all : List Msg → W → W
  handle_all [] w = w
  handle_all (m ∷ ms) w = handle_all ms (handle_deno_msg E host native m w).0

  handle_all-append :
      (ms ns : List Msg) (w : W) → handle_all (ms ++ ns) w ≡ handle_all ns (handle_all ms w)
  unfolding handle_all
  handle_all-append [] ns w = refl
  handle_all-append (m ∷ ms) ns w = handle_all-append ms ns _

  drain_data_lem :
      (n : ℕ) (waiting : List Msg) (w : W)
      → All IsData waiting
      → drain_data E host native n waiting w
        ≡ (handle_all (take n waiting) w, drop n waiting, false)
  unfolding drain_data handle_all
  drain_data_lem zero waiting w h = refl
  drain_data_lem (suc n) [] w h = refl
  drain_data_lem (suc n) (m ∷ waiting) w h =
      rw (drain_data, stays m w h.0) (drain_data_lem n waiting _ h.1)

  -- What one round takes out of the front of the queues is what it handles, the messages of the data
  -- plane first.
  abbrev pub Handles : Queues Msg → W → Queues Msg × W → Type 0
  Handles q w (q', w') =
      (ds : List Msg) × (cs : List Msg) × (q.data_plane ≡ ds ++ q'.data_plane)
      × (q.control ≡ cs ++ q'.control)
      × (w' ≡ handle_all (ds ++ cs) w)

  handle_data-Handles :
      (q : Queues Msg) (m : Msg) (waiting : List Msg) (w : W)
      → q.data_plane ≡ m ∷ waiting
      → Handles q w (handle_data E host native q m waiting w)
  unfolding handle_data handle_all
  handle_data-Handles q m waiting w e = (m ∷ [], [], e, refl, refl)

  handle_control-Handles :
      (q : Queues Msg) (m : Msg) (control : List Msg) (w : W)
      → q.control ≡ m ∷ control
      → All IsData q.data_plane
      → Handles q w (handle_control E host native q m control w)
  unfolding handle_control handle_all
  handle_control-Handles q m control w e h = rw (drain_data_lem drain_limit q.data_plane w h) (
    take drain_limit q.data_plane,
    m ∷ [],
    sym (take-append-drop drain_limit q.data_plane),
    e,
    sym (handle_all-append (take drain_limit q.data_plane) (m ∷ []) w),
  )

  nothing-Handles : (q : Queues Msg) (w : W) → Handles q w (q, w)
  unfolding handle_all
  nothing-Handles q w = ([], [], refl, refl, refl)

  select_data-Handles :
      (q : Queues Msg) (waiting : List Msg) (w : W)
      → q.data_plane ≡ waiting
      → Handles q w (select_data E host native q waiting w)
  unfolding select_data
  select_data-Handles q [] w e =
      if_elim (λ (r : Queues Msg). Handles q w (r, w)) q.data_dropped (λ _. nothing-Handles q w)
        (λ _. nothing-Handles q w)
  select_data-Handles q (m ∷ waiting) w e = handle_data-Handles q m waiting w e

  select_control-Handles :
      (q : Queues Msg) (control : List Msg) (w : W)
      → q.control ≡ control
      → All IsData q.data_plane
      → Handles q w (select_control E host native q control w)
  unfolding select_control
  select_control-Handles q [] w e h =
      if_elim (Handles q w) q.control_dropped (λ _. nothing-Handles q w)
        (λ _.
          if_elim (Handles q w) q.data_open (λ _. select_data-Handles q q.data_plane w refl)
            (λ _. nothing-Handles q w))
  select_control-Handles q (m ∷ control) w e h = handle_control-Handles q m control w e h

-- If the queue of the data plane holds only messages that belong there, one round of the loop takes
-- messages out of the fronts of the two queues, none lost and none twice, and handles exactly these,
-- in their order and those of the data plane first.
pub round-Handles :
    {S : Numbers} {M D R : Type 0} (E : Engine S M D R) (host : Host) (native : Bool)
    (q : Queues (DenoMsg (Numbers.Number S) D R)) (w : World M (Numbers.Number S) D R)
    → All (IsData E host native) q.data_plane
    → Handles E host native q w (round E host native q w)
unfolding round
round-Handles E host native q w h =
    if_elim (Handles E host native q w) q.ended (λ _. nothing-Handles E host native q w)
      (λ _.
        if_elim (Handles E host native q w) q.control_open
          (λ _. select_control-Handles E host native q q.control w refl h)
          (λ _.
            if_elim (Handles E host native q w) q.data_open
              (λ _. select_data-Handles E host native q q.data_plane w refl)
              (λ _. nothing-Handles E host native q w)))

take_whole : {A : Type 0} (n : ℕ) (xs : List A) → length xs ≤ n → take n xs ≡ xs
take_whole zero [] h = refl
take_whole zero (x ∷ xs) h = absurd (omega arith)
take_whole (suc n) [] h = refl
take_whole (suc n) (x ∷ xs) h = ap (◌∷◌ x) (take_whole n xs (omega arith))

drop_whole : {A : Type 0} (n : ℕ) (xs : List A) → length xs ≤ n → drop n xs ≡ []
drop_whole zero [] h = refl
drop_whole zero (x ∷ xs) h = absurd (omega arith)
drop_whole (suc n) [] h = refl
drop_whole (suc n) (x ∷ xs) h = drop_whole n xs (omega arith)

-- In a round of an open loop in which a control message waits, with at most 1024 messages in the queue
-- of the data plane that all belong there, all of these are handled before the control message, both
-- are taken out, and the loop ends exactly if the handler of the control message says so.
pub round-control :
    {S : Numbers} {M D R : Type 0} (E : Engine S M D R) (host : Host) (native : Bool)
    (q : Queues (DenoMsg (Numbers.Number S) D R)) (w : World M (Numbers.Number S) D R)
    (m : DenoMsg (Numbers.Number S) D R) (control : List (DenoMsg (Numbers.Number S) D R))
    → All (IsData E host native) q.data_plane
    → length q.data_plane ≤ 1024
    → q.ended ≡ false
    → q.control_open ≡ true
    → q.control ≡ m ∷ control
    → let (q', w') = round E host native q w in
      let (w'', last) = handle_deno_msg E host native m (handle_all E host native q.data_plane w) in
      (w' ≡ w'') × (q'.data_plane ≡ []) × (q'.control ≡ control) × (q'.ended ≡ last)
unfolding round select_control handle_control
round-control E host native q w m control h few going opened e =
    rw
      (
        round,
        going,
        opened,
        e,
        select_control,
        handle_control,
        drain_data_lem E host native drain_limit q.data_plane w h,
        take_whole drain_limit q.data_plane few,
        drop_whole drain_limit q.data_plane few,
      )
      (refl, refl, refl, refl)
