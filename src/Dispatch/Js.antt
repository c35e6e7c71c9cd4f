-- ===== src/Dispatch/Js.antt =====
-- Calls into the JavaScript of a worker, and the handlers of plain and typed messages in
-- src/worker/dispatch/deno_commands.rs. Each gives the new world; all of them answer `false`, which
-- keeps the event loop running.
use deno_director.Prelude.{ℕ, Option, none, some, ◌∷◌, ◌++◌, list_eq}
use deno_director.Prelude.Text.{Text, codes}
use deno_director.Bridge.Json
use deno_director.Bridge.Json.{Json, Numbers}
use deno_director.Bridge.Types
use deno_director.Bridge.Types.{JsValueBridge, buffer_view}
use deno_director.Bridge.Wire.{to_wire_json}
use deno_director.Dispatch.State.{JsCall, Outcome, Effect, World, Engine}

abbrev pub text_or : Option Text → Text → Text
text_or none s = s
text_or (some t) s = t

abbrev pub number_or : Option ℕ → ℕ → ℕ
number_or none n = n
number_or (some m) n = m

module _ {S : Numbers} {M D R : Type 0} (E : Engine S M D R) where
  abbrev V : Type 0
  V = JsValueBridge (Numbers.Number S)

  abbrev W : Type 0
  W = World M (Numbers.Number S) D R

  -- A call of a function of the bootstrap script.
  unfoldable pub js_call : JsCall (Numbers.Number S) → W → W × Outcome
  js_call c w =
      let (deno, outcome) = Engine.call E c w.deno in
      (record { deno = deno; effects = Effect.called c ∷ w.effects }, outcome)

  -- A call with what to do where the function throws. Where it is not available, nothing is done.
  unfoldable pub js_call_or : JsCall (Numbers.Number S) → (W → W) → W → W
  js_call_or c fallback w =
      let (w', outcome) = js_call c w in
      elim outcome [
        | Outcome.unavailable ↦ w'
        | Outcome.returned ↦ w'
        | Outcome.threw ↦ fallback w'
      ]

  unfoldable pub run_script : Text → Text → W → W × Option Text
  run_script name script w =
      let (deno, failure) = Engine.execute_script E name script w.deno in
      (record { deno = deno; effects = Effect.ran_script name script ∷ w.effects }, failure)

  unfoldable pub handle_post_message_msg : V → W → W
  handle_post_message_msg value = js_call_or (JsCall.dispatch_node_message value) (λ w.
      (run_script (codes "<postMessage>")
        (codes "globalThis.__dispatchNodeMessage(globalThis.__hydrate("
          ++ (text_or (Engine.to_string E (to_wire_json S value)) (codes "null") ++ codes "))"))
        w).0)

  -- The object of a typed message, as plain JSON.
  abbrev typed_json : Text → ℕ → V → V
  typed_json message_type id payload = Types.json (
      Json.object (
        Json.field (codes "type") (Json.string message_type) (
          Json.field (codes "id") (Json.number (Numbers.from_u64 S id))
            (Json.field (codes "payload") (to_wire_json S payload) Json.end))))

  -- The slow path of a typed message.
  unfoldable pub post_typed_object : Text → ℕ → V → W → W
  post_typed_object message_type id payload =
      js_call_or (JsCall.dispatch_node_message_object message_type id payload)
        (handle_post_message_msg (typed_json message_type id payload))

  unfoldable pub handle_post_message_typed_msg : Text → ℕ → V → W → W
  handle_post_message_typed_msg message_type id payload w =
      let (w', outcome) = js_call (JsCall.dispatch_node_typed_message message_type id payload) w in
      elim outcome [
        | Outcome.returned ↦ w'
        | Outcome.unavailable ↦ post_typed_object message_type id payload w'
        | Outcome.threw ↦ post_typed_object message_type id payload w'
      ]
