-- ===== src/Dispatch/Payload.antt =====
-- The bytes of a binary payload (`payload_to_chunk_bytes` of src/worker/dispatch/deno_commands.rs,
-- with the copies of the window functions that stand there). `usize` has 64 bits.
pub mod View
use deno_director.Prelude.{
  ℕ, ◌+◌, ◌-◌, ◌*◌, min, ◌||◌, Option, none, some, ltb, ◌==◌, list_eq, if◌then◌else◌, length, take,
  drop,
}
use deno_director.Prelude.Text.{Text, codes}
use deno_director.Bridge.Types
use deno_director.Bridge.Types.{
  JsValueBridge, undefined, big_int, date_ms, reg_exp, buffer_view, map_of, set_of, url,
  url_search_params, json, v8_serialized, error, host_function,
}
use deno_director.Bridge.Windows.{two_64, is_whole_buffer, element_window}
use deno_director.StreamPlane.State.{Bytes}

-- `buffer_view_bytes_per_element`
unfoldable pub element_size : Text → ℕ
element_size kind =
    if kind == codes "Int8Array"
      || kind == codes "Uint8Array"
      || kind == codes "Uint8ClampedArray"
      || kind == codes "DataView"
      || kind == codes "ArrayBuffer"
      || kind == codes "SharedArrayBuffer"
    then 1
    else if kind == codes "Int16Array" || kind == codes "Uint16Array"
    then 2
    else if kind == codes "Int32Array"
        || kind == codes "Uint32Array"
        || kind == codes "Float32Array"
    then 4
    else if kind == codes "Float64Array"
        || kind == codes "BigInt64Array"
        || kind == codes "BigUint64Array"
    then 8
    else 1

-- `buffer_view_window`
unfoldable pub payload_window : Text → ℕ → ℕ → ℕ → Option (ℕ × ℕ)
payload_window kind raw_len offset len =
    if is_whole_buffer kind
    then some (0, min len raw_len)
    else element_window (element_size kind) raw_len offset len

-- `bytes.slice(start..end)`
abbrev slice : Bytes → ℕ → ℕ → Bytes
slice bytes start end = take (end - start) (drop start bytes)

-- The checked product and sum of the window; `element_len` elements from `start`.
unfoldable pub window_bytes_of : Text → Bytes → ℕ → ℕ → Option Bytes
window_bytes_of kind bytes start element_len =
    let byte_len = element_len * element_size kind in
    if ltb byte_len two_64
    then (if ltb (start + byte_len) two_64
        then some (slice bytes start (min (start + byte_len) (length bytes)))
        else none)
    else none

unfoldable pub view_chunk_bytes : Text → Bytes → ℕ → ℕ → Option Bytes
view_chunk_bytes kind bytes offset len = elim (payload_window kind (length bytes) offset len) [
  | none ↦ none
  | some w ↦ window_bytes_of kind bytes w.0 w.1
]

unfoldable pub payload_to_chunk_bytes : {N : Type 0} → JsValueBridge N → Option Bytes
payload_to_chunk_bytes (buffer_view kind bytes offset len) = view_chunk_bytes kind bytes offset len
payload_to_chunk_bytes undefined = none
payload_to_chunk_bytes Types.null = none
payload_to_chunk_bytes (Types.bool b) = none
payload_to_chunk_bytes (Types.number x) = none
payload_to_chunk_bytes (Types.string s) = none
payload_to_chunk_bytes (big_int s) = none
payload_to_chunk_bytes (date_ms x) = none
payload_to_chunk_bytes (reg_exp source flags) = none
payload_to_chunk_bytes (map_of pairs) = none
payload_to_chunk_bytes (set_of items) = none
payload_to_chunk_bytes (url href) = none
payload_to_chunk_bytes (url_search_params query) = none
payload_to_chunk_bytes (json j) = none
payload_to_chunk_bytes (v8_serialized bytes) = none
payload_to_chunk_bytes (error name message stack code origin) = none
payload_to_chunk_bytes (host_function id is_async) = none
