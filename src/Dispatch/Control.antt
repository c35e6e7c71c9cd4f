-- ===== src/Dispatch/Control.antt =====
-- The handler of control messages of streams in src/worker/dispatch/deno_commands.rs.
use deno_director.Prelude.{
  ℕ, Bool, true, false, Option, none, some, [], ◌++◌, ◌==◌, list_eq, if◌then◌else◌,
}
use deno_director.Prelude.Text.{Text, codes, parse_u32}
use deno_director.Bridge.Json.{Numbers}
use deno_director.Bridge.Types
use deno_director.Bridge.Types.{JsValueBridge, buffer_view}
use deno_director.StreamPlane.State.{NativeIncomingPlane}
use deno_director.StreamPlane
use deno_director.StreamPlane.Push.{close_with_wake, error_with_wake}
use deno_director.Dispatch.State.{JsCall, World, Engine, with_plane}
use deno_director.Dispatch.Js.{text_or, js_call, js_call_or, handle_post_message_typed_msg}

-- An operation on the stream with the number that the text stands for.
abbrev pub on_stream :
    NativeIncomingPlane
    → Option ℕ
    → (ℕ → NativeIncomingPlane × Bool × Bool)
    → NativeIncomingPlane × Bool × Bool
on_stream p none operation = (p, false, false)
on_stream p (some id) operation = operation id

-- The plane's answer to a control message: the plane, whether it took the message, whether to poke.
unfoldable pub control :
    NativeIncomingPlane → Text → Text → Option Text → NativeIncomingPlane × Bool × Bool
control p kind stream_id aux =
    if kind == codes "open"
    then (let (q, handled) = StreamPlane.open_stream p stream_id (text_or aux []) in
        (q, handled, false))
    else if kind == codes "close"
    then on_stream p (parse_u32 stream_id) (close_with_wake p)
    else if kind == codes "error"
    then on_stream p (parse_u32 stream_id)
        (λ id. error_with_wake p id (text_or aux (codes "Remote stream error")))
    else if kind == codes "cancel"
    then on_stream p (parse_u32 stream_id)
        (λ id. error_with_wake p id (text_or aux (codes "Remote stream cancelled")))
    else if kind == codes "discard"
    then on_stream p (parse_u32 stream_id) (StreamPlane.discard_with_wake p)
    else (p, false, false)

module _ {S : Numbers} {M D R : Type 0} (E : Engine S M D R) where
  abbrev V : Type 0
  V = JsValueBridge (Numbers.Number S)

  abbrev W : Type 0
  W = World M (Numbers.Number S) D R

  unfoldable pub control_in_js : Text → Text → Option Text → W → W
  control_in_js kind stream_id aux =
      js_call_or E (JsCall.dispatch_node_stream_control kind stream_id aux) (
        handle_post_message_typed_msg E
          (codes "__denojs_worker_stream_control_v1:" ++ (kind ++ (codes ":" ++ stream_id))) 0
          (Types.string (text_or aux [])))

  abbrev pub poked_if : Bool → Option ℕ → W → W
  poked_if true (some id) w = (js_call E (JsCall.dispatch_native_stream_poke id) w).0
  poked_if true none w = w
  poked_if false id w = w

  unfoldable pub controlled : Text → Text → Option Text → NativeIncomingPlane × Bool × Bool → W → W
  controlled kind stream_id aux (p, handled, wake) w =
      if handled
      then poked_if wake (parse_u32 stream_id) (with_plane p w)
      else control_in_js kind stream_id aux (with_plane p w)

  unfoldable pub control_with : Text → Text → Option Text → Option NativeIncomingPlane → W → W
  control_with kind stream_id aux none = control_in_js kind stream_id aux
  control_with kind stream_id aux (some p) =
      controlled kind stream_id aux (control p kind stream_id aux)

  unfoldable pub handle_post_stream_control_msg : Text → Text → Option Text → Bool → W → W
  handle_post_stream_control_msg kind stream_id aux use_native w =
      control_with kind stream_id aux (if use_native then w.deno.plane else none) w
