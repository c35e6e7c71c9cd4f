-- ===== src/Dispatch/Commands.antt =====
-- The handlers of src/worker/dispatch/deno_commands.rs that settle a promise, and `handle_deno_msg`,
-- which answers whether the event loop is to end.
use deno_director.Prelude.{
  Bool, true, false, Option, none, some, ◌++◌, ◌⊎◌, inl, inr, if◌then◌else◌,
}
use deno_director.Prelude.Text.{Text, codes, trim, is_empty}
use deno_director.Bridge.Json.{Json, Numbers}
use deno_director.Bridge.Types
use deno_director.Bridge.Types.{JsValueBridge, undefined, error, no_cause}
use deno_director.Bridge.Wire.{to_wire_json}
use deno_director.Registry.{put_named_persistent, remove_named}
use deno_director.Dispatch.State.{
  ExecStats, EvalOptions, EvalReply, DenoMsg, ResolvePayload, NodeMsg, Effect, World, Engine, Host,
  emit, with_registry,
}
use deno_director.Dispatch.Js.{run_script}
use deno_director.Dispatch.Js
use deno_director.Dispatch.Streams
use deno_director.Dispatch.Control

abbrev unavailable : Text
unavailable = codes "Node thread is unavailable"

abbrev pub no_stats : ExecStats
no_stats = record { cpu_time_ms = 0; eval_time_ms = 0 }

-- `errors::error("Error", message)`
abbrev plain_error : {N : Type 0} → Text → JsValueBridge N
plain_error message = error (codes "Error") message none none no_cause

module _ {S : Numbers} {M D R : Type 0} (E : Engine S M D R) (host : Host) where
  abbrev N : Type 0
  N = Numbers.Number S

  abbrev W : Type 0
  W = World M N D R

  -- `send_node_msg_or_reject` of a `Resolve`
  unfoldable pub send_node_msg_or_reject : D → ResolvePayload N → W → W
  send_node_msg_or_reject deferred payload = emit (
      if host.node_receives
      then Effect.sent_node (NodeMsg.resolve deferred payload)
      else Effect.rejected deferred unavailable)

  -- The end of most handlers: the Node thread resolves the promise, if the worker is still listed.
  unfoldable pub settle : D → ResolvePayload N → W → W
  settle deferred payload =
      if host.listed
      then send_node_msg_or_reject deferred payload
      else emit (Effect.rejected deferred unavailable)

  -- The direct cleanup of a listed worker whose Node thread is gone or full.
  abbrev cleanup : W → W
  cleanup = emit (if host.channel_open then Effect.queued_close_callback else Effect.removed_worker)

  unfoldable pub handle_close_msg : D → W → W
  handle_close_msg deferred w =
      let resolved = emit (Effect.resolved deferred undefined) w in
      if host.listed
      then (if host.node_has_room
          then emit (Effect.sent_node NodeMsg.emit_close) (emit Effect.marked_closed resolved)
          else cleanup (emit Effect.marked_closed resolved))
      else resolved

  unfoldable pub handle_memory_msg : D → W → W
  handle_memory_msg deferred w =
      settle deferred (ResolvePayload.json (Engine.heap_statistics E w.deno)) w

  unfoldable pub handle_gc_msg : D → W → W
  handle_gc_msg deferred w =
      emit (Effect.resolved deferred undefined) (emit Effect.low_memory_notification w)

  abbrev json_text : Option Text → Text → Text
  json_text none s = s
  json_text (some t) s = t

  abbrev global_json : JsValueBridge N → Text
  global_json undefined = codes "null"
  global_json value = json_text (Engine.to_string E (to_wire_json S value)) (codes "null")

  abbrev script_payload : Option Text → ResolvePayload N
  script_payload none = ResolvePayload.void
  script_payload (some message) = ResolvePayload.result (inr (plain_error message)) no_stats

  unfoldable pub set_global_script : Text → JsValueBridge N → Text
  set_global_script key value =
      codes "globalThis.__globals["
      ++ (json_text (Engine.to_string E (Json.string key)) (codes "\"\"")
          ++ (codes "] = " ++ (global_json value ++ codes "; globalThis.__applyGlobals();")))

  -- The answer to a script that ran.
  unfoldable pub settle_script : D → W × Option Text → W
  settle_script deferred (w, failure) = settle deferred (script_payload failure) w

  unfoldable pub handle_set_global_msg : Text → JsValueBridge N → D → W → W
  handle_set_global_msg key value deferred w =
      settle_script deferred (run_script E (codes "<setGlobal>") (set_global_script key value) w)

  abbrev no_name : ResolvePayload N
  no_name =
      ResolvePayload.result (inr (plain_error (codes "moduleName must be a non-empty string")))
        no_stats

  abbrev pub register_source : Text → D → W → Text ⊎ JsValueBridge N → W
  register_source module_name deferred w (inr failure) =
      settle deferred (ResolvePayload.result (inr failure) no_stats) w
  register_source module_name deferred w (inl source) = settle deferred ResolvePayload.void (
      with_registry
        (put_named_persistent (Engine.named_virtual_specifier E) w.deno.registry module_name source
          (Engine.javascript E))
        w)

  unfoldable pub handle_register_module_msg : Text → Text → Text → D → W → W
  handle_register_module_msg name source loader deferred w =
      let module_name = trim name in
      if is_empty module_name
      then settle deferred no_name w
      else register_source module_name deferred w (Engine.transpile E module_name loader source)

  unfoldable pub handle_clear_module_msg : Text → D → W → W
  handle_clear_module_msg name deferred w =
      let module_name = trim name in
      if is_empty module_name
      then settle deferred no_name w
      else (let (registry, removed) = remove_named w.deno.registry module_name in
          settle deferred (ResolvePayload.result (inl (Types.bool removed)) no_stats)
            (with_registry registry w))

  abbrev eval_payload : EvalReply N → ResolvePayload N
  eval_payload (EvalReply.ok value stats) = ResolvePayload.result (inl value) stats
  eval_payload (EvalReply.err failure stats) = ResolvePayload.result (inr failure) stats

  abbrev pub answer_eval : Option D → Option R → EvalReply N → W → W
  answer_eval deferred (some tx) reply w = emit (Effect.replied tx reply) w
  answer_eval (some d) none reply w = settle d (eval_payload reply) w
  answer_eval none none reply w = w

  unfoldable pub handle_eval_msg : Text → EvalOptions N → Option D → Option R → W → W
  handle_eval_msg source options deferred sync_reply w =
      let (deno, reply) = Engine.eval_in_runtime E source options w.deno in
      answer_eval deferred sync_reply reply (record { deno = deno; effects = w.effects })

  unfoldable pub handle_deno_msg : Bool → DenoMsg N D R → W → W × Bool
  handle_deno_msg native (DenoMsg.close deferred) w = (handle_close_msg deferred w, true)
  handle_deno_msg native (DenoMsg.memory deferred) w = (handle_memory_msg deferred w, false)
  handle_deno_msg native (DenoMsg.gc deferred) w = (handle_gc_msg deferred w, false)
  handle_deno_msg native (DenoMsg.post_message value) w =
      (Js.handle_post_message_msg E value w, false)
  handle_deno_msg native (DenoMsg.post_message_typed message_type id payload) w =
      (Js.handle_post_message_typed_msg E message_type id payload w, false)
  handle_deno_msg native (DenoMsg.post_stream_chunk id payload) w =
      (Streams.handle_post_stream_chunk_msg E id payload native w, false)
  handle_deno_msg native (DenoMsg.post_stream_chunk_raw id payload credit) w =
      (Streams.handle_post_stream_chunk_raw_msg E id payload credit native w, false)
  handle_deno_msg native (DenoMsg.post_stream_chunk_raw_bin id payload credit) w =
      (Streams.handle_post_stream_chunk_raw_bin_msg E id payload credit native w, false)
  handle_deno_msg native (DenoMsg.post_stream_chunks id payloads) w =
      (Streams.handle_post_stream_chunks_msg E id payloads native w, false)
  handle_deno_msg native (DenoMsg.post_stream_chunks_raw id payload) w =
      (Streams.handle_post_stream_chunks_raw_msg E id payload native w, false)
  handle_deno_msg native (DenoMsg.post_stream_control kind id aux) w =
      (Control.handle_post_stream_control_msg E kind id aux native w, false)
  handle_deno_msg native (DenoMsg.set_global key value deferred) w =
      (handle_set_global_msg key value deferred w, false)
  handle_deno_msg native (DenoMsg.register_module name source loader deferred) w =
      (handle_register_module_msg name source loader deferred w, false)
  handle_deno_msg native (DenoMsg.clear_module name deferred) w =
      (handle_clear_module_msg name deferred w, false)
  handle_deno_msg native (DenoMsg.eval source options deferred sync_reply) w =
      (handle_eval_msg source options deferred sync_reply w, false)

-- `is_data_plane`: the messages that use the queue of the data plane.
unfoldable pub is_data_plane : {N D R : Type 0} → DenoMsg N D R → Bool
is_data_plane (DenoMsg.post_message value) = true
is_data_plane (DenoMsg.post_message_typed message_type id payload) = true
is_data_plane (DenoMsg.post_stream_chunk id payload) = true
is_data_plane (DenoMsg.post_stream_chunk_raw id payload credit) = true
is_data_plane (DenoMsg.post_stream_chunk_raw_bin id payload credit) = true
is_data_plane (DenoMsg.post_stream_chunks id payloads) = true
is_data_plane (DenoMsg.post_stream_chunks_raw id payload) = true
is_data_plane (DenoMsg.post_stream_control kind id aux) = true
is_data_plane (DenoMsg.eval source options deferred sync_reply) = false
is_data_plane (DenoMsg.set_global key value deferred) = false
is_data_plane (DenoMsg.memory deferred) = false
is_data_plane (DenoMsg.gc deferred) = false
is_data_plane (DenoMsg.close deferred) = false
is_data_plane (DenoMsg.register_module name source loader deferred) = false
is_data_plane (DenoMsg.clear_module name deferred) = false
