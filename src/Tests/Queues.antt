-- ===== src/Tests/Queues.antt =====
-- Runs of the routing of messages in src/lib.rs, and the theorem at such a run.
use deno_director.Prelude.{ℕ, ◌≡◌, refl, true, false, some, [], ◌++◌}
use deno_director.Bridge.Types
use deno_director.Dispatch.State.{DenoMsg}
use deno_director.Dispatch.Commands.{is_data_plane}
use deno_director.Dispatch.Routing
use deno_director.Dispatch.Routing.{
  Channel, TrySend, Routed, queued, dropped, carried, queue_deno_msg_or_reject,
}
use deno_director.Dispatch.Keeps.Settled.{settled, owed}
use deno_director.Dispatch.Routing.Settled.{settled_after, sent_settles_once}
use deno_director.Tests.Wire.{SerdeNumber}
use deno_director.Tests.Messages.{idle, alive, streaming}
use deno_director.Prelude.Text.{codes}

-- A channel without room that gets room later.
abbrev saturated : Channel
saturated = record { try_send = TrySend.full; blocking_send = true }

abbrev message : DenoMsg ℕ ℕ ℕ
message = DenoMsg.post_message (Types.bool true)

dropped_message : queue_deno_msg_or_reject (some saturated) (some saturated) message ≡ dropped []
unfolding queue_deno_msg_or_reject is_data_plane Routing.queue_with_backpressure carried
dropped_message = refl

-- A worker that is told to clear a module while its queue of control messages is closed.
abbrev closed_queue : Channel
closed_queue = record { try_send = TrySend.closed; blocking_send = false }

abbrev clearing : DenoMsg SerdeNumber ℕ ℕ
clearing = DenoMsg.clear_module (codes "m") 5

sent_settles_once_example :
    settled_after idle alive true
      (queue_deno_msg_or_reject (some closed_queue) (some saturated) clearing)
      clearing
      streaming
    ≡ owed clearing ++ settled streaming.effects
sent_settles_once_example =
    sent_settles_once idle alive true (some closed_queue) (some saturated) clearing streaming tt
