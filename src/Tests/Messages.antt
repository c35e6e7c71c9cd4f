-- ===== src/Tests/Messages.antt =====
-- Runs of the handlers of src/worker/dispatch/deno_commands.rs in a runtime whose JavaScript does
-- nothing, and the theorems at these runs.
use deno_director.Prelude.{
  ℕ, ◌≡◌, refl, true, false, none, some, List, [], ◌∷◌, ◌++◌, map, inl, list_beq, arith, length,
  take, drop,
}
use deno_director.Prelude.Text.{codes, trim, is_empty, parse_u32, parse_unsigned}
use deno_director.Bridge.Json
use deno_director.Bridge.Types
use deno_director.Bridge.Types.{JsValueBridge, buffer_view}
use deno_director.Bridge.Windows.{
  is_whole_buffer, element_window, buffer_view_window, bytes_per_element, window_bytes,
}
use deno_director.Registry
use deno_director.Registry.State.{with_persistent_limit}
use deno_director.StreamPlane.State.{NativeReadEvent}
use deno_director.StreamPlane.Fifo.{events}
use deno_director.StreamPlane.Frames.{merge_chunks}
use deno_director.StreamPlane.Push.{push_vectorized_with_wake}
use deno_director.StreamPlane.Reachable.{Call, start, next, reachable-IsConsistent}
use deno_director.StreamPlane.Delivery.{drain}
use deno_director.Dispatch.State.{DenoMsg, EvalReply, Outcome, World, Engine, Host}
use deno_director.Dispatch.Payload.{
  payload_window, view_chunk_bytes, element_size, payload_to_chunk_bytes, window_bytes_of,
}
use deno_director.Dispatch.Payload.View.{view_chunk_bytes_lem}
use deno_director.Dispatch.Streams.{all_chunks, pushed, handle_post_stream_chunks_msg}
use deno_director.Dispatch.Streams.Delivery.{chunks_delivery}
use deno_director.Dispatch.Commands.{
  no_stats, is_data_plane, handle_deno_msg, handle_register_module_msg,
}
use deno_director.Dispatch.Keeps.Settled.{settled, settles_once}
use deno_director.Dispatch.Keeps.Planes.{HoldsPlane, KeepsPlane, handle_deno_msg-HoldsPlane}
use deno_director.Dispatch.Modules.{get_for_load-handle_register_module_msg}
use deno_director.Dispatch.Loop.{Queues, round}
use deno_director.Dispatch.Loop.Order.{Handles, handle_all, round-Handles, round-control}
use deno_director.Tests.Wire.{SerdeNumber, serde_numbers}
use deno_director.Tests.Stream.{opened, two_chunks, open_now, empty_now}

-- JavaScript that returns at once, and a transpiler that changes nothing.
abbrev pub idle : Engine serde_numbers ℕ ℕ ℕ
idle = record {
  call = λ c deno. (deno, Outcome.returned);
  execute_script = λ name script deno. (deno, none);
  to_string = λ j. some (codes "null");
  eval_in_runtime = λ source options deno. (deno, EvalReply.ok Types.undefined no_stats);
  transpile = λ name loader source. inl source;
  heap_statistics = λ deno. Json.Json.null;
  named_virtual_specifier = λ name. codes "denojs-worker://named/" ++ name;
  javascript = 0;
}

abbrev pub alive : Host
alive = record { listed = true; node_receives = true; node_has_room = true; channel_open = true }

-- A runtime with the stream 7 open and no modules.
abbrev pub streaming : World ℕ SerdeNumber ℕ ℕ
streaming = record {
  deno = record { plane = some opened; registry = with_persistent_limit 8 };
  effects = [];
}

opened-HoldsPlane : HoldsPlane (some opened)
opened-HoldsPlane =
    reachable-IsConsistent false none (next start (Call.open_stream (codes "7") (codes "k")))

idle-KeepsPlane : KeepsPlane idle
idle-KeepsPlane = record {
  by_call = λ c deno h. h;
  by_script = λ name script deno h. h;
  by_eval = λ source options deno h. h;
}

abbrev chunk_values : List (JsValueBridge SerdeNumber)
chunk_values =
    buffer_view (codes "Uint8Array") (1 ∷ 2 ∷ []) 0 2
    ∷ buffer_view (codes "Uint8Array") (9 ∷ 3 ∷ []) 1 1
    ∷ []

settles_once_example :
    settled
      (handle_deno_msg idle alive true (DenoMsg.clear_module (codes " m ") 5) streaming).0.effects
    ≡ 5 ∷ []
unfolding settled
settles_once_example = settles_once idle alive true (DenoMsg.clear_module (codes " m ") 5) streaming

handle_deno_msg-HoldsPlane_example :
    HoldsPlane
      (handle_deno_msg idle alive true
        (DenoMsg.post_stream_chunks (codes "7") chunk_values)
        streaming).0.deno.plane
handle_deno_msg-HoldsPlane_example =
    handle_deno_msg-HoldsPlane idle idle-KeepsPlane alive true
      (DenoMsg.post_stream_chunks (codes "7") chunk_values) streaming opened-HoldsPlane

chunk_values_binary : all_chunks chunk_values ≡ some two_chunks
unfolding all_chunks view_chunk_bytes payload_window is_whole_buffer element_window element_size
    list_beq payload_to_chunk_bytes window_bytes_of
chunk_values_binary = refl

seven : parse_u32 (codes "7") ≡ some 7
unfolding parse_unsigned
seven = refl

chunks_delivery_example :
    (handle_post_stream_chunks_msg idle (codes "7") chunk_values true streaming
      ≡ pushed idle 7 (push_vectorized_with_wake opened 7 (merge_chunks two_chunks)) streaming)
    × ((drain 2 (push_vectorized_with_wake opened 7 (merge_chunks two_chunks)).0 7).1
        ≡ map NativeReadEvent.chunk two_chunks)
    × (events (drain 2 (push_vectorized_with_wake opened 7 (merge_chunks two_chunks)).0 7).0 7 ≡ [])
chunks_delivery_example =
    chunks_delivery idle (codes "7") chunk_values streaming opened 7 (1 ∷ 2 ∷ []) ((3 ∷ []) ∷ [])
      chunk_values_binary refl seven (omega arith) opened-HoldsPlane open_now empty_now
      (omega arith)

words : buffer_view_window (codes "Uint16Array") 4 2 1 ≡ some (2, 1)
unfolding buffer_view_window list_beq bytes_per_element is_whole_buffer element_window
words = refl

abbrev four_bytes : List ℕ
four_bytes = 1 ∷ 2 ∷ 3 ∷ 4 ∷ []

view_chunk_bytes_lem_example :
    (view_chunk_bytes (codes "Uint16Array") four_bytes 2 1
      ≡ some (take (window_bytes (codes "Uint16Array") 1) (drop 2 four_bytes)))
    × (length (take (window_bytes (codes "Uint16Array") 1) (drop 2 four_bytes))
        ≡ window_bytes (codes "Uint16Array") 1)
view_chunk_bytes_lem_example =
    view_chunk_bytes_lem (codes "Uint16Array") four_bytes 2 1 (2, 1) (omega arith) words

named : is_empty (trim (codes " m ")) ≡ false
unfolding trim
named = refl

get_for_load-handle_register_module_msg_example :
    (Registry.get_for_load
      (handle_register_module_msg idle alive
        (codes " m ")
        (codes "1")
        (codes "js")
        5
        streaming).deno.registry
      (trim (codes " m "))).1
    ≡ some (codes "1", 0)
unfolding with_persistent_limit
get_for_load-handle_register_module_msg_example =
    get_for_load-handle_register_module_msg idle alive (codes " m ") (codes "1") (codes "js")
      (codes "1") 5 streaming named refl tt

-- A chunk and a request to collect garbage wait.
abbrev waiting : Queues (DenoMsg SerdeNumber ℕ ℕ)
waiting = record {
  control = DenoMsg.gc 5 ∷ [];
  data_plane = DenoMsg.post_stream_chunks (codes "7") chunk_values ∷ [];
  control_dropped = false;
  data_dropped = false;
  control_open = true;
  data_open = true;
  ended = false;
}

round-Handles_example :
    Handles idle alive true waiting streaming (round idle alive true waiting streaming)
unfolding is_data_plane
round-Handles_example = round-Handles idle alive true waiting streaming (refl, tt)

round-control_example :
    let (q', w') = round idle alive true waiting streaming in
    let (w'', last) =
      handle_deno_msg idle alive true
        (DenoMsg.gc 5)
        (handle_all idle alive true waiting.data_plane streaming) in
    (w' ≡ w'') × (q'.data_plane ≡ []) × (q'.control ≡ []) × (q'.ended ≡ last)
unfolding is_data_plane
round-control_example =
    round-control idle alive true waiting streaming (DenoMsg.gc 5) [] (refl, tt) (omega arith) refl
      refl refl
