-- ===== src/Dispatch/State.antt =====
-- What a handler of src/worker/dispatch/deno_commands.rs works on: the messages of
-- src/worker/messages.rs, what a runtime holds, and what a handler does to the world outside.
-- `D` is the type of `PromiseSettler` and `R` that of the reply channels.
use deno_director.Prelude.{ℕ, Bool, Option, some, List, ◌∷◌, ◌⊎◌}
use deno_director.Prelude.Text.{Text}
use deno_director.Bridge.Float64.{F64}
use deno_director.Bridge.Json.{Json, Numbers}
use deno_director.Bridge.Types.{JsValueBridge}
use deno_director.StreamPlane.State.{Bytes, NativeIncomingPlane}
use deno_director.Registry.State.{ModuleRegistryState}

pub record ExecStats : Type 0 where
  pub cpu_time_ms : F64
  pub eval_time_ms : F64

pub record EvalOptions (N : Type 0) : Type 0 where
  pub filename : Text
  pub is_module : Bool
  pub loader : Text
  pub args : List (JsValueBridge N)
  pub args_provided : Bool
  pub max_eval_ms : Option ℕ
  pub max_cpu_ms : Option ℕ

pub data EvalReply (N : Type 0) : Type 0 where
  ok : JsValueBridge N → ExecStats → EvalReply N
  err : JsValueBridge N → ExecStats → EvalReply N

pub data DenoMsg (N D R : Type 0) : Type 0 where
  eval : Text → EvalOptions N → Option D → Option R → DenoMsg N D R
  set_global : Text → JsValueBridge N → D → DenoMsg N D R
  post_message : JsValueBridge N → DenoMsg N D R
  post_message_typed : Text → ℕ → JsValueBridge N → DenoMsg N D R
  post_stream_chunk : Text → JsValueBridge N → DenoMsg N D R
  post_stream_chunk_raw : ℕ → JsValueBridge N → Option ℕ → DenoMsg N D R
  post_stream_chunk_raw_bin : ℕ → Bytes → Option ℕ → DenoMsg N D R
  post_stream_chunks : Text → List (JsValueBridge N) → DenoMsg N D R
  post_stream_chunks_raw : ℕ → JsValueBridge N → DenoMsg N D R
  post_stream_control : Text → Text → Option Text → DenoMsg N D R
  memory : D → DenoMsg N D R
  gc : D → DenoMsg N D R
  close : D → DenoMsg N D R
  register_module : Text → Text → Text → D → DenoMsg N D R
  clear_module : Text → D → DenoMsg N D R

-- `Ok(value)` is `inl`, `Err(error)` is `inr`.
pub data ResolvePayload (N : Type 0) : Type 0 where
  void : ResolvePayload N
  json : Json N → ResolvePayload N
  result : JsValueBridge N ⊎ JsValueBridge N → ExecStats → ResolvePayload N

-- The messages to the Node thread that the handlers send.
pub data NodeMsg (N D : Type 0) : Type 0 where
  emit_close : NodeMsg N D
  resolve : D → ResolvePayload N → NodeMsg N D

-- A call of a function of the bootstrap script, by its global name.
pub data JsCall (N : Type 0) : Type 0 where
  dispatch_node_message : JsValueBridge N → JsCall N
  dispatch_node_typed_message : Text → ℕ → JsValueBridge N → JsCall N
  -- `__dispatchNodeMessage` of the object with `type`, `id` and `payload`
  dispatch_node_message_object : Text → ℕ → JsValueBridge N → JsCall N
  dispatch_node_stream_chunk : Text → JsValueBridge N → JsCall N
  dispatch_node_stream_chunks : Text → List (JsValueBridge N) → JsCall N
  dispatch_node_stream_chunk_raw : ℕ → JsValueBridge N → Option ℕ → JsCall N
  dispatch_node_stream_chunk_bin : ℕ → Bytes → Option ℕ → JsCall N
  dispatch_node_stream_chunk_vectorized : ℕ → JsValueBridge N → JsCall N
  dispatch_node_stream_control : Text → Text → Option Text → JsCall N
  dispatch_native_stream_poke : ℕ → JsCall N

-- `unavailable`: the function is missing, or an argument has no V8 value, so that nothing was called.
pub data Outcome : Type 0 where
  unavailable : Outcome
  returned : Outcome
  threw : Outcome

-- What the runtime of a worker holds in its `OpState`.
pub record Deno (M : Type 0) : Type 0 where
  pub plane : Option NativeIncomingPlane
  pub registry : ModuleRegistryState M

-- What a handler does outside of the runtime, and its calls into it.
pub data Effect (N D R : Type 0) : Type 0 where
  called : JsCall N → Effect N D R
  ran_script : Text → Text → Effect N D R
  sent_node : NodeMsg N D → Effect N D R
  rejected : D → Text → Effect N D R
  resolved : D → JsValueBridge N → Effect N D R
  replied : R → EvalReply N → Effect N D R
  low_memory_notification : Effect N D R
  marked_closed : Effect N D R
  queued_close_callback : Effect N D R
  removed_worker : Effect N D R

-- The runtime, and what was done so far, the latest first.
pub record World (M N D R : Type 0) : Type 0 where
  pub deno : Deno M
  pub effects : List (Effect N D R)

-- Deno and V8: what JavaScript answers, and what it does to what the runtime holds. The types of
-- promises and reply channels stand beside that of module types, for all that handles one worker.
pub record Engine (S : Numbers) (M D R : Type 0) : Type 1 where
  pub call : JsCall (Numbers.Number S) → Deno M → Deno M × Outcome
  -- `execute_script` with the text of an error
  pub execute_script : Text → Text → Deno M → Deno M × Option Text
  -- `serde_json::to_string`
  pub to_string : Json (Numbers.Number S) → Option Text
  pub eval_in_runtime :
      Text → EvalOptions (Numbers.Number S) → Deno M → Deno M × EvalReply (Numbers.Number S)
  -- `maybe_transpile_eval_source` of a name, a loader and a source
  pub transpile : Text → Text → Text → Text ⊎ JsValueBridge (Numbers.Number S)
  pub heap_statistics : Deno M → Json (Numbers.Number S)
  pub named_virtual_specifier : Text → Text
  pub javascript : M

-- What the rest of the process answers while one message is handled.
pub record Host : Type 0 where
  -- the worker is in the table, and its lock is not poisoned
  pub listed : Bool
  -- the Node thread receives what is sent, and has room for what is sent without waiting
  pub node_receives : Bool
  pub node_has_room : Bool
  -- the Neon channel takes a closure
  pub channel_open : Bool

module _ {M N D R : Type 0} where
  abbrev pub emit : Effect N D R → World M N D R → World M N D R
  emit e w = record { deno = w.deno; effects = e ∷ w.effects }

  abbrev pub with_plane : NativeIncomingPlane → World M N D R → World M N D R
  with_plane p w = record {
    deno = record { plane = some p; registry = w.deno.registry };
    effects = w.effects;
  }

  abbrev pub with_registry : ModuleRegistryState M → World M N D R → World M N D R
  with_registry r w = record {
    deno = record { plane = w.deno.plane; registry = r };
    effects = w.effects;
  }
