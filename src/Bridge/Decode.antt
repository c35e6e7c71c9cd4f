-- ===== src/Bridge/Decode.antt =====
-- The decoding of the JSON form (`from_wire_json` of src/bridge/wire.rs and its helpers). A decoding
-- answers `none` only if its fuel, a bound on the nesting, runs out.
use deno_director.Prelude.{
  ℕ, zero, suc, Bool, false, Option, none, some, List, [], nat_beq, ◌==◌, list_eq, nat_eq,
  if◌then◌else◌, length,
}
use deno_director.Prelude.Text.{Text, codes}
use deno_director.Bridge.Float64.{zero_bits, neg_zero}
use deno_director.Bridge.Json
use deno_director.Bridge.Json.{
  Numbers, Json, Items, Fields, get, as_str, as_bool, as_number, as_array, as_object, is_null,
}
use deno_director.Bridge.Types
use deno_director.Bridge.Types.{
  JsValueBridge, Entries, Values, Cause, undefined, big_int, date_ms, reg_exp, buffer_view, map_of,
  set_of, url, url_search_params, json, v8_serialized, error, host_function, no_cause, cause,
  no_entries, entry, no_values, value,
}
use deno_director.Bridge.Windows.{buffer_view_window}
use deno_director.Bridge.Wire.{
  and_then, unwrap_or, if_some, decode_special_number_tag, parse_u8_array, type_key, undefined_key,
  number_key, neg_zero_key, bigint_key, date_key, regexp_key, buffer_key, map_key, set_key, url_key,
  url_search_params_key, v8_key, console_key,
}

-- `parse_base64` is the decoder of the base64 crate.
module _ (S : Numbers) (parse_base64 : Text → Option (List ℕ)) where
  abbrev V : Type 0
  V = JsValueBridge (Numbers.Number S)

  abbrev J : Type 0
  J = Json (Numbers.Number S)

  abbrev Obj : Type 0
  Obj = Fields (Numbers.Number S)

  abbrev pub text_at : Obj → Text → Option Text
  text_at m k = and_then (get m k) as_str

  abbrev pub has_text : Option Text → Text → Bool
  has_text none s = false
  has_text (some t) s = t == s

  abbrev pub is_true : Option Bool → Bool
  is_true none = false
  is_true (some b) = b

  abbrev u64_at : Obj → Text → Option ℕ
  u64_at m k = and_then (and_then (get m k) as_number) (Numbers.as_u64 S)

  -- `f` answers for the value of the cause.
  unfoldable pub decode_cause : (J → Option V) → Option J → Option (Cause (Numbers.Number S))
  decode_cause f none = some no_cause
  decode_cause f (some v) =
      if is_null v then some no_cause else and_then (f v) (λ w. some (cause w))

  unfoldable pub decode_error_object : (J → Option V) → Obj → Option (Option V)
  unfolding decode_cause
  decode_error_object f m =
      if has_text (text_at m type_key) (codes "error")
      then some (
          and_then (decode_cause f (get m (codes "cause"))) (λ c. some (
            error (unwrap_or (text_at m (codes "name")) (codes "Error"))
              (unwrap_or (text_at m (codes "message")) []) (text_at m (codes "stack"))
              (text_at m (codes "code")) c)))
      else none

  unfoldable pub decode_host_function_object : Obj → Option V
  decode_host_function_object m =
      if has_text (text_at m type_key) (codes "function")
      then and_then (u64_at m (codes "id")) (λ id.
        some (host_function id (unwrap_or (and_then (get m (codes "async")) as_bool) false)))
      else none

  -- The bytes of a buffer object, from an array or from base64.
  unfoldable pub buffer_bytes : Obj → Option (List ℕ)
  unfolding parse_u8_array
  buffer_bytes obj =
      if_some (and_then (get obj (codes "bytes")) as_array) (parse_u8_array S)
        (if_some (text_at obj (codes "base64")) parse_base64 none)

  -- The inner `none` is `Err(())`.
  unfoldable pub decode_buffer_view_object : Obj → Option (Option V)
  unfolding buffer_bytes buffer_view_window
  decode_buffer_view_object m = and_then (and_then (get m buffer_key) as_object) (λ obj. some (
      let kind = unwrap_or (text_at obj (codes "kind")) (codes "Uint8Array") in
      let offset = unwrap_or (u64_at obj (codes "byteOffset")) 0 in
      let requested = unwrap_or (u64_at obj (codes "length")) 0 in
      and_then (buffer_bytes obj) (λ bytes.
        and_then (buffer_view_window kind (length bytes) offset requested)
          (λ w. some (buffer_view kind bytes w.0 w.1)))))

  unfoldable pub decode_v8_serialized_object : Obj → Option (Option V)
  unfolding parse_u8_array
  decode_v8_serialized_object m =
      and_then (and_then (get m v8_key) as_array)
        (λ a. some (and_then (parse_u8_array S a) (λ bytes. some (v8_serialized bytes))))

  unfoldable pub decode_console_buffer_object : Obj → Option (Option V)
  unfolding parse_u8_array
  decode_console_buffer_object m = and_then (and_then (get m console_key) as_array) (λ a. some (
      and_then (parse_u8_array S a)
        (λ bytes. some (buffer_view (codes "Uint8Array") bytes 0 (length bytes)))))

  -- Only an array of two elements is an entry.
  unfoldable pub decode_map_entries :
      (J → Option V) → Items (Numbers.Number S) → Option (Entries (Numbers.Number S))
  decode_map_entries f Json.nil = some no_entries
  decode_map_entries f (Json.cons (Json.array (Json.cons k (Json.cons v Json.nil))) rest) =
      and_then (f k)
        (λ a. and_then (f v) (λ b. and_then (decode_map_entries f rest) (λ l. some (entry a b l))))
  decode_map_entries f (Json.cons (Json.array (Json.cons k (Json.cons v (Json.cons w a)))) rest) =
      decode_map_entries f rest
  decode_map_entries f (Json.cons (Json.array (Json.cons k Json.nil)) rest) =
      decode_map_entries f rest
  decode_map_entries f (Json.cons (Json.array Json.nil) rest) = decode_map_entries f rest
  decode_map_entries f (Json.cons Json.null rest) = decode_map_entries f rest
  decode_map_entries f (Json.cons (Json.bool b) rest) = decode_map_entries f rest
  decode_map_entries f (Json.cons (Json.number n) rest) = decode_map_entries f rest
  decode_map_entries f (Json.cons (Json.string s) rest) = decode_map_entries f rest
  decode_map_entries f (Json.cons (Json.object m) rest) = decode_map_entries f rest

  unfoldable pub decode_set_items :
      (J → Option V) → Items (Numbers.Number S) → Option (Values (Numbers.Number S))
  decode_set_items f Json.nil = some no_values
  decode_set_items f (Json.cons v rest) =
      and_then (f v) (λ a. and_then (decode_set_items f rest) (λ l. some (value a l)))

  abbrev keep : Obj → Option V → V
  keep m o = unwrap_or o (json (Json.object m))

  -- The object branch, with `f` for the recursive calls.
  unfoldable pub from_wire_object : (J → Option V) → Obj → Option V
  unfolding decode_error_object decode_host_function_object decode_buffer_view_object
      decode_v8_serialized_object decode_console_buffer_object decode_map_entries decode_set_items
      decode_special_number_tag
  from_wire_object f m =
      if is_true (and_then (get m undefined_key) as_bool)
      then some undefined
      else if has_text (text_at m neg_zero_key) (codes "-0")
      then some (Types.number neg_zero)
      else if_some (text_at m number_key)
          (λ tag. some (if_some (decode_special_number_tag tag) Types.number undefined))
          (if_some (and_then (and_then (get m date_key) as_number) (Numbers.as_f64 S))
            (λ ms. some (date_ms ms))
            (if_some (text_at m bigint_key) (λ s. some (big_int s))
              (if_some (and_then (get m regexp_key) as_object)
                (λ obj. some (
                  reg_exp (unwrap_or (text_at obj (codes "source")) [])
                    (unwrap_or (text_at obj (codes "flags")) [])))
                (if_some (decode_buffer_view_object m) (λ r. some (keep m r))
                  (if_some (decode_console_buffer_object m) (λ r. some (keep m r))
                    (if_some (and_then (get m map_key) as_array)
                      (λ a. and_then (decode_map_entries f a) (λ l. some (map_of l)))
                      (if_some (and_then (get m set_key) as_array)
                        (λ a. and_then (decode_set_items f a) (λ l. some (set_of l)))
                        (if_some (text_at m url_key) (λ href. some (url href))
                          (if_some (text_at m url_search_params_key)
                            (λ q. some (url_search_params q))
                            (if_some (decode_v8_serialized_object m) (λ r. some (keep m r))
                              (if_some (decode_error_object f m) (λ r. r)
                                (if_some (decode_host_function_object m) some
                                  (some (json (Json.object m)))))))))))))))

  unfoldable pub from_wire_json : ℕ → J → Option V
  unfolding from_wire_object
  from_wire_json zero v = none
  from_wire_json (suc fuel) Json.null = some Types.null
  from_wire_json (suc fuel) (Json.bool b) = some (Types.bool b)
  from_wire_json (suc fuel) (Json.number n) =
      let x = unwrap_or (Numbers.as_f64 S n) zero_bits in
      some (if nat_beq x neg_zero then Types.number neg_zero else Types.number x)
  from_wire_json (suc fuel) (Json.string s) = some (Types.string s)
  from_wire_json (suc fuel) (Json.array a) = some (json (Json.array a))
  from_wire_json (suc fuel) (Json.object m) = from_wire_object (from_wire_json fuel) m
