-- ===== src/Dispatch/Routing.antt =====
-- How a message gets into a queue of a worker (src/lib.rs), and the bounded channels as their senders
-- see them (src/native_api/worker_api.rs, src/native_api/worker_api/channel_send.rs). What tokio's
-- channel answers is the parameter `Channel`.
pub mod Settled
use deno_director.Prelude.{
  ◌⊎◌, inl, inr, Bool, true, false, Option, none, some, List, [], ◌∷◌, if◌then◌else◌, arith,
}
use deno_director.Prelude.Text.{Text}
use deno_director.Dispatch.State.{DenoMsg}
use deno_director.Dispatch.Commands.{is_data_plane}

-- The answer of `try_send`.
pub data TrySend : Type 0 where
  sent : TrySend
  full : TrySend
  closed : TrySend

pub record Channel : Type 0 where
  pub try_send : TrySend
  -- `blocking_send` puts the message into the queue
  pub blocking_send : Bool

pub data SendOutcome : Type 0 where
  sent : SendOutcome
  full : SendOutcome
  closed : SendOutcome

unfoldable pub send_with_backpressure : Channel → SendOutcome
send_with_backpressure tx = elim tx.try_send [
  | TrySend.sent ↦ SendOutcome.sent
  | TrySend.full ↦ SendOutcome.full
  | TrySend.closed ↦ SendOutcome.closed
]

-- `Err(message)` is `inr`.
abbrev refused : Bool → Text → Bool ⊎ Text
refused strict message = if strict then inr message else inl false

unfoldable pub send_bool_with_optional_blocking : Bool → Channel → Text → Bool ⊎ Text
send_bool_with_optional_blocking strict tx strict_message = elim tx.try_send [
  | TrySend.sent ↦ inl true
  | TrySend.full ↦ (if tx.blocking_send then inl true else refused strict strict_message)
  | TrySend.closed ↦ refused strict strict_message
]

-- Where a message ends: in a queue, or nowhere, with the promises that are rejected.
pub data Routed (D : Type 0) : Type 0 where
  queued : Routed D
  dropped : List D → Routed D

module _ {N D R : Type 0} where
  -- The promises that are rejected if a message cannot be queued.
  unfoldable pub carried : DenoMsg N D R → List D
  carried (DenoMsg.eval source options (some d) tx) = d ∷ []
  carried (DenoMsg.eval source options none tx) = []
  carried (DenoMsg.close d) = d ∷ []
  carried (DenoMsg.memory d) = d ∷ []
  carried (DenoMsg.gc d) = d ∷ []
  carried (DenoMsg.set_global key value d) = d ∷ []
  carried (DenoMsg.register_module name source loader d) = d ∷ []
  carried (DenoMsg.clear_module name d) = d ∷ []
  carried (DenoMsg.post_message value) = []
  carried (DenoMsg.post_message_typed t id payload) = []
  carried (DenoMsg.post_stream_chunk id payload) = []
  carried (DenoMsg.post_stream_chunk_raw id payload credit) = []
  carried (DenoMsg.post_stream_chunk_raw_bin id payload credit) = []
  carried (DenoMsg.post_stream_chunks id payloads) = []
  carried (DenoMsg.post_stream_chunks_raw id payload) = []
  carried (DenoMsg.post_stream_control kind id aux) = []

  -- A message of the data plane does not wait for room.
  abbrev pub after_try : TrySend → Channel → DenoMsg N D R → Routed D
  after_try TrySend.sent tx msg = queued
  after_try TrySend.full tx msg =
      if is_data_plane msg
      then dropped (carried msg)
      else if tx.blocking_send
      then queued
      else dropped (carried msg)
  after_try TrySend.closed tx msg = dropped (carried msg)

  unfoldable pub queue_with_backpressure : Channel → DenoMsg N D R → Routed D
  queue_with_backpressure tx msg = after_try tx.try_send tx msg

  abbrev pub sent_to : Option Channel → DenoMsg N D R → Routed D
  sent_to none msg = dropped (carried msg)
  sent_to (some tx) msg = queue_with_backpressure tx msg

  -- The channels of the worker with the two queues, as far as it is listed.
  unfoldable pub queue_deno_msg_or_reject :
      Option Channel → Option Channel → DenoMsg N D R → Routed D
  queue_deno_msg_or_reject control data_plane msg =
      sent_to (if is_data_plane msg then data_plane else control) msg
