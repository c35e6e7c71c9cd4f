-- ===== src/Tests/Wire.antt =====
-- Runs of the wire format, and its theorems at concrete values.
use deno_director.Prelude.{
  ℕ, ◌≡◌, refl, true, Option, none, some, List, [], ◌∷◌, ltb, if◌then◌else◌, ◌<◌, arith, list_beq,
}
use deno_director.Prelude.Text.{Text, codes}
use deno_director.Prelude.Int.{ℤ, pos}
use deno_director.Bridge.Float64.{F64, nan, is_finite, is_nan}
use deno_director.Bridge.Json
use deno_director.Bridge.Json.{Numbers, Json}
use deno_director.Bridge.Types
use deno_director.Bridge.Types.{
  JsValueBridge, map_of, set_of, buffer_view, error, cause, no_cause, entry, no_entries, value,
  no_values, date_ms,
}
use deno_director.Bridge.Windows.{
  is_whole_buffer, element_window, fallback_window, buffer_view_window, bytes_per_element,
}
use deno_director.Bridge.Wire.{if_some, to_wire_json}
use deno_director.Bridge.Decode.{from_wire_json}
use deno_director.Bridge.Canonical.{IsCanonical, depth}
use deno_director.Bridge.Total.{Answers, json_depth, from_wire_json-Answers}
use deno_director.Bridge.RoundTrip.{from_wire_json-to_wire_json}

pub data SerdeNumber : Type 0 where
  integer : ℕ → SerdeNumber
  float : F64 → SerdeNumber

abbrev pub from_float : F64 → Option SerdeNumber
from_float x = if is_finite x then some (float x) else none

abbrev pub to_float : SerdeNumber → Option F64
to_float (integer n) = none
to_float (float x) = some x

abbrev pub unsigned : SerdeNumber → Option ℕ
unsigned (integer n) = some n
unsigned (float x) = none

abbrev pub signed : SerdeNumber → Option ℤ
signed (integer n) = if ltb n 0x8000_0000_0000_0000 then some (pos n) else none
signed (float x) = none

pub from_float-back : (x : F64) → is_finite x ≡ true → from_float x ≡ some (float x)
from_float-back x h = rw h refl

pub signed-back : (n : ℕ) → n < 0x8000_0000_0000_0000 → signed (integer n) ≡ some (pos n)
signed-back n h = ground arith

abbrev pub serde_numbers : Numbers
serde_numbers = record {
  Number = SerdeNumber;
  from_f64 = from_float;
  as_f64 = to_float;
  from_u64 = integer;
  as_u64 = unsigned;
  as_i64 = signed;
  f64_back = λ x h. (float x, from_float-back x h, refl);
  u64_back = λ n h. refl;
  i64_back = signed-back;
}

abbrev no_base64 : Text → Option (List ℕ)
no_base64 s = none

abbrev words : JsValueBridge SerdeNumber
words = buffer_view (codes "Uint16Array") (1 ∷ 2 ∷ 3 ∷ 4 ∷ []) 2 1

abbrev failure : JsValueBridge SerdeNumber
failure = error (codes "TypeError") (codes "no") none (some (codes "E1")) (cause (Types.number nan))

abbrev sample : JsValueBridge SerdeNumber
sample = map_of (
    entry (Types.string (codes "a")) words
      (entry Types.null (set_of (value failure no_values)) no_entries))

sample-IsCanonical : IsCanonical sample
unfolding IsCanonical buffer_view_window is_nan list_beq bytes_per_element is_whole_buffer
    element_window fallback_window
sample-IsCanonical = (
  tt,
  ((omega arith, (omega arith, (omega arith, (omega arith, tt)))), omega arith, omega arith, refl),
  (tt, (((omega arith, λ e. refl), λ e. cc), tt), tt),
)

sample-depth : depth sample < 4
unfolding depth
sample-depth = omega arith

from_wire_json-to_wire_json_example :
    from_wire_json serde_numbers no_base64 4 (to_wire_json serde_numbers sample) ≡ some sample
from_wire_json-to_wire_json_example =
    from_wire_json-to_wire_json serde_numbers no_base64 sample sample-IsCanonical 4 (sample-depth)

-- A date that is not finite is sent as `null` inside its marker and comes back as plain JSON.
invalid_date :
    from_wire_json serde_numbers no_base64 1 (to_wire_json serde_numbers (date_ms nan))
    ≡ some (Types.json (to_wire_json serde_numbers (date_ms nan)))
unfolding list_beq from_wire_json to_wire_json Json.get is_finite if_some
invalid_date = refl

half_word : buffer_view_window (codes "Uint16Array") 5 4 2 ≡ some (0, 2)
unfolding buffer_view_window list_beq bytes_per_element is_whole_buffer element_window
    fallback_window
half_word = refl

abbrev one_null : Json SerdeNumber
one_null =
    Json.object (Json.field (codes "__set") (Json.array (Json.cons Json.null Json.nil)) Json.end)

one_null_shallow : json_depth one_null < 3
unfolding json_depth
one_null_shallow = omega arith

from_wire_json-Answers_example : Answers (from_wire_json serde_numbers no_base64 3 one_null)
from_wire_json-Answers_example =
    from_wire_json-Answers serde_numbers no_base64 3 one_null one_null_shallow
