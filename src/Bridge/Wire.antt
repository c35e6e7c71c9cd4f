-- ===== src/Bridge/Wire.antt =====
-- The JSON form of a value and its decoding (`to_wire_json` and `from_wire_json` of
-- src/bridge/wire.rs, with the keys of src/bridge/tags.rs). A decoding answers `none` only if its fuel,
-- a bound on the nesting, runs out.
use deno_director.Prelude.{
  ℕ, ◌-◌, ◌%◌, true, Option, none, some, List, [], ◌∷◌, nat_beq, ◌==◌, list_eq, nat_eq,
  if◌then◌else◌,
}
use deno_director.Prelude.Text.{Text, codes}
use deno_director.Prelude.Int.{ℤ, pos, negsuc}
use deno_director.Bridge.Float64.{F64, nan, infinity, neg_infinity, neg_zero, is_nan, is_finite}
use deno_director.Bridge.Json
use deno_director.Bridge.Json.{
  Numbers, Json, Items, Fields, get, as_str, as_bool, as_number, as_array, as_object, is_null,
}
use deno_director.Bridge.Types
use deno_director.Bridge.Types.{
  JsValueBridge, Entries, Values, Cause, undefined, big_int, date_ms, reg_exp, buffer_view, map_of,
  set_of, url, url_search_params, json, v8_serialized, error, host_function, no_cause, cause,
  no_entries, entry, no_values, value,
}

abbrev pub type_key : Text
type_key = codes "__denojs_worker_type"

abbrev pub undefined_key : Text
undefined_key = codes "__undef"

abbrev pub number_key : Text
number_key = codes "__num"

abbrev pub neg_zero_key : Text
neg_zero_key = codes "__denojs_worker_num"

abbrev pub bigint_key : Text
bigint_key = codes "__bigint"

abbrev pub date_key : Text
date_key = codes "__date"

abbrev pub regexp_key : Text
regexp_key = codes "__regexp"

abbrev pub buffer_key : Text
buffer_key = codes "__buffer"

abbrev pub map_key : Text
map_key = codes "__map"

abbrev pub set_key : Text
set_key = codes "__set"

abbrev pub url_key : Text
url_key = codes "__url"

abbrev pub url_search_params_key : Text
url_search_params_key = codes "__urlSearchParams"

abbrev pub v8_key : Text
v8_key = codes "__v8"

abbrev pub console_key : Text
console_key = codes "__denojs_worker_console_buffer"

-- `and_then` and `unwrap_or` of options.
abbrev pub and_then {ℓ κ} : {A : Type ℓ} {B : Type κ} → Option A → (A → Option B) → Option B
and_then none f = none
and_then (some a) f = f a

abbrev pub unwrap_or {ℓ} : {A : Type ℓ} → Option A → A → A
unwrap_or none a = a
unwrap_or (some b) a = b

-- `if let Some(a) = o { return f(a) }` before the rest of a function.
unfoldable pub if_some {ℓ κ} : {A : Type ℓ} {B : Type κ} → Option A → (A → B) → B → B
if_some none f rest = rest
if_some (some a) f rest = f a

unfoldable pub decode_special_number_tag : Text → Option F64
decode_special_number_tag tag =
    if tag == codes "NaN"
    then some nan
    else if tag == codes "Infinity"
    then some infinity
    else if tag == codes "-Infinity"
    then some neg_infinity
    else none

-- `n as u8` of a signed integer.
abbrev pub to_u8 : ℤ → ℕ
to_u8 (pos n) = n % 256
to_u8 (negsuc n) = 255 - n % 256

module _ (S : Numbers) where
  abbrev N : Type 0
  N = Numbers.Number S

  abbrev pub byte_of : Option N → Option ℕ
  byte_of none = none
  byte_of (some n) =
      if_some (Numbers.as_i64 S n) (λ i. some (to_u8 i))
        (and_then (Numbers.as_u64 S n) (λ u. some (u % 256)))

  unfoldable pub parse_u8_array : Items N → Option (List ℕ)
  parse_u8_array Json.nil = some []
  parse_u8_array (Json.cons v a) =
      and_then (byte_of (as_number v)) (λ b. and_then (parse_u8_array a) (λ l. some (b ∷ l)))

  -- Encoding

  abbrev pub json_f64 : F64 → Json N
  json_f64 x = if_some (Numbers.from_f64 S x) Json.number Json.null

  abbrev pub json_u64 : ℕ → Json N
  json_u64 n = Json.number (Numbers.from_u64 S n)

  abbrev pub json_text : Option Text → Json N
  json_text none = Json.null
  json_text (some s) = Json.string s

  abbrev pub one : Text → Json N → Json N
  one k v = Json.object (Json.field k v Json.end)

  unfoldable pub json_bytes : List ℕ → Items N
  json_bytes [] = Json.nil
  json_bytes (b ∷ l) = Json.cons (json_u64 b) (json_bytes l)

  unfoldable pub number_to_wire : F64 → Json N
  number_to_wire n =
      if is_nan n
      then one number_key (Json.string (codes "NaN"))
      else if nat_beq n infinity
      then one number_key (Json.string (codes "Infinity"))
      else if nat_beq n neg_infinity
      then one number_key (Json.string (codes "-Infinity"))
      else if nat_beq n neg_zero
      then one neg_zero_key (Json.string (codes "-0"))
      else if is_finite n
      then json_f64 n
      else one undefined_key (Json.bool true)

  unfoldable mutual
    unfolding json_bytes number_to_wire

    pub to_wire_json : JsValueBridge N → Json N
    to_wire_json undefined = one undefined_key (Json.bool true)
    to_wire_json Types.null = Json.null
    to_wire_json (Types.bool b) = Json.bool b
    to_wire_json (Types.number n) = number_to_wire n
    to_wire_json (Types.string s) = Json.string s
    to_wire_json (big_int s) = one bigint_key (Json.string s)
    to_wire_json (date_ms ms) = one date_key (json_f64 ms)
    to_wire_json (reg_exp source flags) = one regexp_key (
        Json.object (
          Json.field (codes "source") (Json.string source)
            (Json.field (codes "flags") (Json.string flags) Json.end)))
    to_wire_json (buffer_view kind bytes offset len) = one buffer_key (
        Json.object (
          Json.field (codes "kind") (Json.string kind) (
            Json.field (codes "bytes") (Json.array (json_bytes bytes)) (
              Json.field (codes "byteOffset") (json_u64 offset)
                (Json.field (codes "length") (json_u64 len) Json.end)))))
    to_wire_json (map_of entries) = one map_key (Json.array (entries_to_wire entries))
    to_wire_json (set_of items) = one set_key (Json.array (values_to_wire items))
    to_wire_json (url href) = one url_key (Json.string href)
    to_wire_json (url_search_params query) = one url_search_params_key (Json.string query)
    to_wire_json (json j) = j
    to_wire_json (v8_serialized bytes) = one v8_key (Json.array (json_bytes bytes))
    to_wire_json (error name message stack code origin) = Json.object (
        Json.field type_key (Json.string (codes "error")) (
          Json.field (codes "name") (Json.string name) (
            Json.field (codes "message") (Json.string message) (
              Json.field (codes "stack") (json_text stack) (
                Json.field (codes "code") (json_text code)
                  (Json.field (codes "cause") (cause_to_wire origin) Json.end))))))
    to_wire_json (host_function id is_async) = Json.object (
        Json.field type_key (Json.string (codes "function")) (
          Json.field (codes "id") (json_u64 id)
            (Json.field (codes "async") (Json.bool is_async) Json.end)))

    pub entries_to_wire : Entries N → Items N
    entries_to_wire no_entries = Json.nil
    entries_to_wire (entry k v rest) =
        Json.cons (Json.array (Json.cons (to_wire_json k) (Json.cons (to_wire_json v) Json.nil)))
          (entries_to_wire rest)

    pub values_to_wire : Values N → Items N
    values_to_wire no_values = Json.nil
    values_to_wire (value v rest) = Json.cons (to_wire_json v) (values_to_wire rest)

    pub cause_to_wire : Cause N → Json N
    cause_to_wire no_cause = Json.null
    cause_to_wire (cause v) = to_wire_json v
