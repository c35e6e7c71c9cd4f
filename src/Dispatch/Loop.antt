-- ===== src/Dispatch/Loop.antt =====
-- The loop of a worker over its two queues (`spawn_worker_thread` of src/worker/runtime.rs), one round
-- at a time. A message that arrives while a round runs, and that the round still takes, stands in its
-- queue from the beginning of the round on: a waiting control message goes first in any case.
pub mod Order
use deno_director.Prelude.{ℕ, zero, suc, Bool, true, false, List, [], ◌∷◌, if◌then◌else◌}
use deno_director.Bridge.Json.{Numbers}
use deno_director.Dispatch.State.{DenoMsg, World, Engine, Host}
use deno_director.Dispatch.Commands.{handle_deno_msg}

-- The queues, whether all their senders are gone, and the variables of the loop.
pub record Queues (A : Type 0) : Type 0 where
  pub control : List A
  pub data_plane : List A
  pub control_dropped : Bool
  pub data_dropped : Bool
  pub control_open : Bool
  pub data_open : Bool
  -- the loop was left because of a close
  pub ended : Bool

-- The number of messages that go before a control message.
abbrev pub drain_limit : ℕ
drain_limit = 1024

module _ {S : Numbers} {M D R : Type 0} (E : Engine S M D R) (host : Host) (native : Bool) where
  abbrev Msg : Type 0
  Msg = DenoMsg (Numbers.Number S) D R

  abbrev W : Type 0
  W = World M (Numbers.Number S) D R

  -- Up to `n` messages of the data plane: the world, what is left, and whether a close was asked for.
  unfoldable pub drain_data : ℕ → List Msg → W → W × List Msg × Bool
  drain_data zero waiting w = (w, waiting, false)
  drain_data (suc n) [] w = (w, [], false)
  drain_data (suc n) (m ∷ waiting) w =
      let (w', close) = handle_deno_msg E host native m w in
      let rest = drain_data n waiting w' in if close then (w', waiting, true) else rest

  -- The loop sees that the data plane has no senders if it drains the queue below the limit.
  abbrev sees_end : Queues Msg → Bool → Bool
  sees_end q true = q.data_open
  sees_end q false = if q.data_dropped then false else q.data_open

  -- The drain stopped at its limit, and not at the end of the queue.
  unfoldable pub stops_early : ℕ → List Msg → Bool
  stops_early zero waiting = true
  stops_early (suc n) [] = false
  stops_early (suc n) (m ∷ waiting) = stops_early n waiting

  unfoldable pub handle_control : Queues Msg → Msg → List Msg → W → Queues Msg × W
  handle_control q m control w =
      let (w', left, close) = drain_data drain_limit q.data_plane w in
      let (w'', last) = handle_deno_msg E host native m w' in
      if close then (record q { control = control; data_plane = left; ended = true }, w') else (
        record q {
          control = control;
          data_plane = left;
          data_open = sees_end q (stops_early drain_limit q.data_plane);
          ended = last;
        },
        w'',
      )

  unfoldable pub handle_data : Queues Msg → Msg → List Msg → W → Queues Msg × W
  handle_data q m waiting w =
      let (w', close) = handle_deno_msg E host native m w in
      (record q { data_plane = waiting; ended = close }, w')

  -- The second branch of the selection, which is looked at if the first is not ready.
  unfoldable pub select_data : Queues Msg → List Msg → W → Queues Msg × W
  select_data q [] w = (if q.data_dropped then record q { data_open = false } else q, w)
  select_data q (m ∷ waiting) w = handle_data q m waiting w

  unfoldable pub select_control : Queues Msg → List Msg → W → Queues Msg × W
  select_control q (m ∷ control) w = handle_control q m control w
  select_control q [] w =
      if q.control_dropped
      then (record q { control_open = false }, w)
      else if q.data_open
      then select_data q q.data_plane w
      else (q, w)

  -- One round; a round in which no branch is ready changes nothing.
  unfoldable pub round : Queues Msg → W → Queues Msg × W
  round q w =
      if q.ended
      then (q, w)
      else if q.control_open
      then select_control q q.control w
      else if q.data_open
      then select_data q q.data_plane w
      else (q, w)
