-- ===== src/Dispatch/Routing/Settled.antt =====
-- The promises of the messages that are sent to a worker: src/lib.rs rejects what cannot be queued, and the
-- handlers of src/worker/dispatch/deno_commands.rs settle what can.
use deno_director.Prelude.{◌≡◌, refl, ap, Bool, Option, none, some, List, ◌++◌, if_elim}
use mathlib.Core.Path.{subst}
use deno_director.Bridge.Json.{Numbers}
use deno_director.Dispatch.State.{DenoMsg, World, Engine, Host}
use deno_director.Dispatch.Commands.{is_data_plane, handle_deno_msg}
use deno_director.Dispatch.Keeps.Settled.{settled, owed, settles_once}
use deno_director.Dispatch.Routing.{
  TrySend, Channel, Routed, queued, dropped, carried, after_try, sent_to, queue_with_backpressure,
  queue_deno_msg_or_reject,
}

-- The answer to an evaluation goes to a promise or to a channel, not to both.
abbrev pub HasOneAnswer : {N D R : Type 0} → DenoMsg N D R → Type 0
HasOneAnswer (DenoMsg.eval source options (some d) (some tx)) = ⊥
HasOneAnswer (DenoMsg.eval source options (some d) none) = Unit
HasOneAnswer (DenoMsg.eval source options none tx) = Unit
HasOneAnswer (DenoMsg.set_global key value d) = Unit
HasOneAnswer (DenoMsg.memory d) = Unit
HasOneAnswer (DenoMsg.gc d) = Unit
HasOneAnswer (DenoMsg.close d) = Unit
HasOneAnswer (DenoMsg.register_module name source loader d) = Unit
HasOneAnswer (DenoMsg.clear_module name d) = Unit
HasOneAnswer (DenoMsg.post_message value) = Unit
HasOneAnswer (DenoMsg.post_message_typed t id payload) = Unit
HasOneAnswer (DenoMsg.post_stream_chunk id payload) = Unit
HasOneAnswer (DenoMsg.post_stream_chunk_raw id payload credit) = Unit
HasOneAnswer (DenoMsg.post_stream_chunk_raw_bin id payload credit) = Unit
HasOneAnswer (DenoMsg.post_stream_chunks id payloads) = Unit
HasOneAnswer (DenoMsg.post_stream_chunks_raw id payload) = Unit
HasOneAnswer (DenoMsg.post_stream_control kind id aux) = Unit

-- A message that is dropped has these promises rejected.
abbrev Rejects : {D : Type 0} → List D → Routed D → Type 0
Rejects ds queued = Unit
Rejects ds (dropped es) = es ≡ ds

module _ {N D R : Type 0} where
  -- What is rejected for a message is what it carries for its handler.
  carried_lem : (msg : DenoMsg N D R) → HasOneAnswer msg → carried msg ≡ owed msg
  unfolding carried
  carried_lem (DenoMsg.eval source options (some d) (some tx)) h = absurd h
  carried_lem (DenoMsg.eval source options (some d) none) h = refl
  carried_lem (DenoMsg.eval source options none (some tx)) h = refl
  carried_lem (DenoMsg.eval source options none none) h = refl
  carried_lem (DenoMsg.set_global key value d) h = refl
  carried_lem (DenoMsg.memory d) h = refl
  carried_lem (DenoMsg.gc d) h = refl
  carried_lem (DenoMsg.close d) h = refl
  carried_lem (DenoMsg.register_module name source loader d) h = refl
  carried_lem (DenoMsg.clear_module name d) h = refl
  carried_lem (DenoMsg.post_message value) h = refl
  carried_lem (DenoMsg.post_message_typed t id payload) h = refl
  carried_lem (DenoMsg.post_stream_chunk id payload) h = refl
  carried_lem (DenoMsg.post_stream_chunk_raw id payload credit) h = refl
  carried_lem (DenoMsg.post_stream_chunk_raw_bin id payload credit) h = refl
  carried_lem (DenoMsg.post_stream_chunks id payloads) h = refl
  carried_lem (DenoMsg.post_stream_chunks_raw id payload) h = refl
  carried_lem (DenoMsg.post_stream_control kind id aux) h = refl

  after_try-Rejects :
      (t : TrySend) (tx : Channel) (msg : DenoMsg N D R)
      → Rejects (carried msg) (after_try t tx msg)
  after_try-Rejects TrySend.sent tx msg = tt
  after_try-Rejects TrySend.full tx msg =
      if_elim (Rejects (carried msg)) (is_data_plane msg) (λ _. refl)
        (λ _. if_elim (Rejects (carried msg)) tx.blocking_send (λ _. tt) (λ _. refl))
  after_try-Rejects TrySend.closed tx msg = refl

  sent_to-Rejects :
      (o : Option Channel) (msg : DenoMsg N D R) → Rejects (carried msg) (sent_to o msg)
  unfolding queue_with_backpressure
  sent_to-Rejects none msg = refl
  sent_to-Rejects (some tx) msg = after_try-Rejects tx.try_send tx msg

module _ {S : Numbers} {M D R : Type 0} (E : Engine S M D R) (host : Host) (native : Bool) where
  -- The promises that are settled after a message was sent in this way, and handled if it was queued.
  abbrev pub settled_after :
      Routed D → DenoMsg (Numbers.Number S) D R → World M (Numbers.Number S) D R → List D
  settled_after queued msg w = settled (handle_deno_msg E host native msg w).0.effects
  settled_after (dropped ds) msg w = ds ++ settled w.effects

  after-once :
      (r : Routed D) (msg : DenoMsg (Numbers.Number S) D R) (w : World M (Numbers.Number S) D R)
      → Rejects (owed msg) r
      → settled_after r msg w ≡ owed msg ++ settled w.effects
  after-once queued msg w h = settles_once E host native msg w
  after-once (dropped ds) msg w h = ap (λ ds. ds ++ settled w.effects) h

-- Whatever the two queues of a worker do with a message (they take it, are full, are closed, or are gone),
-- exactly the promise that it carries is settled, once: by its handler if the message is queued and then
-- handled, and by the sender if not. The message is no evaluation with both a promise and a channel for
-- its answer.
pub sent_settles_once :
    {S : Numbers} {M D R : Type 0} (E : Engine S M D R) (host : Host) (native : Bool)
    (control data_plane : Option Channel) (msg : DenoMsg (Numbers.Number S) D R)
    (w : World M (Numbers.Number S) D R)
    → HasOneAnswer msg
    → settled_after E host native (queue_deno_msg_or_reject control data_plane msg) msg w
      ≡ owed msg ++ settled w.effects
unfolding queue_deno_msg_or_reject
sent_settles_once E host native control data_plane msg w h = after-once E host native _ msg w (
    subst (λ ds. Rejects ds (queue_deno_msg_or_reject control data_plane msg)) (carried_lem msg h)
      (sent_to-Rejects _ msg))
