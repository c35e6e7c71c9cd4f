-- ===== src/Bridge/RoundTrip.antt =====
-- A value that is encoded is decoded to itself (src/bridge/wire.rs).
use deno_director.Prelude.{
  ℕ, zero, suc, ◌≤◌, ◌<◌, ◌%◌, ◌≡◌, ◌≢◌, refl, ◌⊎◌, inl, inr, true, false, Option, none, some, List,
  [], ◌∷◌, nat_beq, nat_beq_iff, list_beq, All, arith, Bool-cases,
}
use deno_director.Prelude.Text.{Text}
use deno_director.Bridge.Float64.{F64, nan, infinity, neg_infinity, neg_zero, is_nan, is_finite}
use deno_director.Bridge.Json.{is_null, Numbers, Json, Fields, get}
use deno_director.Bridge.Types
use deno_director.Bridge.Types.{
  JsValueBridge, Entries, Values, Cause, undefined, big_int, date_ms, reg_exp, buffer_view, map_of,
  set_of, url, url_search_params, json, v8_serialized, error, host_function, no_cause, cause,
  no_entries, entry, no_values, value,
}
use deno_director.Bridge.Windows.{two_64}
use deno_director.Bridge.Wire.{
  if_some, cause_to_wire, decode_special_number_tag, to_wire_json, entries_to_wire, values_to_wire,
  json_bytes, parse_u8_array, number_to_wire,
}
use deno_director.Bridge.Decode.{
  decode_cause, decode_map_entries, decode_set_items, from_wire_json, from_wire_object,
}
use deno_director.Bridge.Canonical.{
  IsCanonical, AreCanonicalEntries, AreCanonical, IsCanonicalCause, PlainJson, Untagged, depth,
  depth_entries, depth_values, depth_cause,
}

-- A float that is no NaN is finite or one of the infinities.
special_cases :
    (x : F64)
    → x < two_64
    → is_nan x ≡ false
    → is_finite x ≡ false
    → (x ≡ infinity) ⊎ (x ≡ neg_infinity)
unfolding is_nan is_finite
special_cases x h e f = grind arith

module _ (S : Numbers) (parse_base64 : Text → Option (List ℕ)) where
  bytes-back : (l : List ℕ) → All (λ b. b < 256) l → parse_u8_array S (json_bytes S l) ≡ some l
  unfolding if_some parse_u8_array json_bytes
  bytes-back [] h = refl
  bytes-back (b ∷ l) (hb, h) =
      let small : b % 256 ≡ b = omega arith in
      rw (Numbers.i64_back S b (omega arith), small, bytes-back l h)

  Untagged-Back :
      (f : Json (Numbers.Number S) → Option (JsValueBridge (Numbers.Number S)))
      (m : Fields (Numbers.Number S))
      → Untagged m
      → from_wire_object S parse_base64 f m ≡ some (json (Json.object m))
  unfolding if_some from_wire_object
  Untagged-Back f m (a, b, c, d, e, g, h, i, j, k, l, n, o, p) =
      rw (a, b, c, d, e, g, h, i, j, k, l, n, o, p)

  abbrev Back : ℕ → JsValueBridge (Numbers.Number S) → Type 0
  Back fuel v = from_wire_json S parse_base64 fuel (to_wire_json S v) ≡ some v

  float-Back : (fuel : ℕ) (x : F64) → is_finite x ≡ true → Back (suc fuel) (date_ms x)
  unfolding if_some list_beq from_wire_json from_wire_object to_wire_json get
  float-Back fuel x h = let (n, e, b) = Numbers.f64_back S x h in rw (e, b)

  buffer-Back :
      (fuel : ℕ) (kind : Text) (bytes : List ℕ) (offset len : ℕ)
      → IsCanonical {N = Numbers.Number S} (buffer_view kind bytes offset len)
      → Back (suc fuel) (buffer_view kind bytes offset len)
  unfolding if_some list_beq from_wire_json from_wire_object to_wire_json get IsCanonical
  buffer-Back fuel kind bytes offset len (h, o, l, w) =
      rw (bytes-back bytes h, Numbers.u64_back S offset o, Numbers.u64_back S len l, w)

  nan-Back : (fuel : ℕ) → Back (suc fuel) (Types.number nan)
  unfolding if_some list_beq from_wire_json from_wire_object to_wire_json get number_to_wire
      decode_special_number_tag is_nan
  nan-Back fuel = refl

  infinity-Back : (fuel : ℕ) → Back (suc fuel) (Types.number infinity)
  unfolding if_some list_beq from_wire_json from_wire_object to_wire_json get number_to_wire
      decode_special_number_tag is_nan
  infinity-Back fuel = refl

  neg_infinity-Back : (fuel : ℕ) → Back (suc fuel) (Types.number neg_infinity)
  unfolding if_some list_beq from_wire_json from_wire_object to_wire_json get number_to_wire
      decode_special_number_tag is_nan
  neg_infinity-Back fuel = refl

  neg_zero-Back : (fuel : ℕ) → Back (suc fuel) (Types.number neg_zero)
  unfolding if_some list_beq from_wire_json from_wire_object to_wire_json get number_to_wire
      decode_special_number_tag is_nan
  neg_zero-Back fuel = refl

  plain_number-Back :
      (fuel : ℕ) (x : F64)
      → is_nan x ≡ false
      → nat_beq x infinity ≡ false
      → nat_beq x neg_infinity ≡ false
      → nat_beq x neg_zero ≡ false
      → is_finite x ≡ true
      → Back (suc fuel) (Types.number x)
  unfolding if_some from_wire_json to_wire_json number_to_wire
  plain_number-Back fuel x a b c d f =
      let (n, e, g) = Numbers.f64_back S x f in rw (a, b, c, d, f, e, g, d)

  number-Back :
      (fuel : ℕ) (x : F64)
      → x < two_64
      → (is_nan x ≡ true → x ≡ nan)
      → Back (suc fuel) (Types.number x)
  number-Back fuel x h c = elim (Bool-cases (is_nan x)) [
    | inl e ↦ rw (c e) (nan-Back fuel)
    | inr a ↦ elim (Bool-cases (nat_beq x infinity)) [
      | inl e ↦ rw ((nat_beq_iff x infinity).0 e) (infinity-Back fuel)
      | inr b ↦ elim (Bool-cases (nat_beq x neg_infinity)) [
        | inl e ↦ rw ((nat_beq_iff x neg_infinity).0 e) (neg_infinity-Back fuel)
        | inr d ↦ elim (Bool-cases (nat_beq x neg_zero)) [
          | inl e ↦ rw ((nat_beq_iff x neg_zero).0 e) (neg_zero-Back fuel)
          | inr e ↦ elim (Bool-cases (is_finite x)) [
            | inl f ↦ plain_number-Back fuel x a b d e f
            | inr f ↦ elim (special_cases x h a f) [
              | inl g ↦ rw g (infinity-Back fuel)
              | inr g ↦ rw g (neg_infinity-Back fuel)
            ]
          ]
        ]
      ]
    ]
  ]

  number-not-null : (x : F64) → is_null (number_to_wire S x) ≡ false
  unfolding if_some number_to_wire
  number-not-null x = elim (Bool-cases (is_finite x)) [
    | inl f ↦ let (n, e, g) = Numbers.f64_back S x f in rw (f, e) (ground arith)
    | inr f ↦ rw f (ground arith)
  ]

  -- Only the undefined value and the null value have the JSON form `null`.
  not-null :
      (v : JsValueBridge (Numbers.Number S))
      → IsCanonical v
      → v ≢ Types.null
      → is_null (to_wire_json S v) ≡ false
  unfolding if_some IsCanonical PlainJson to_wire_json number_to_wire
  not-null undefined c e = refl
  not-null Types.null c e = absurd (e refl)
  not-null (Types.bool b) c e = refl
  not-null (Types.number x) c e = number-not-null x
  not-null (Types.string s) c e = refl
  not-null (big_int s) c e = refl
  not-null (date_ms x) c e = refl
  not-null (reg_exp source flags) c e = refl
  not-null (buffer_view kind bytes offset len) c e = refl
  not-null (map_of pairs) c e = refl
  not-null (set_of items) c e = refl
  not-null (url href) c e = refl
  not-null (url_search_params query) c e = refl
  not-null (json (Json.array a)) c e = refl
  not-null (json (Json.object m)) c e = refl
  not-null (json Json.null) c e = absurd c
  not-null (json (Json.bool b)) c e = absurd c
  not-null (json (Json.number n)) c e = absurd c
  not-null (json (Json.string s)) c e = absurd c
  not-null (v8_serialized bytes) c e = refl
  not-null (error name message stack code origin) c e = refl
  not-null (host_function id is_async) c e = refl

  mutual
    unfolding if_some list_beq IsCanonical PlainJson depth from_wire_json from_wire_object
        to_wire_json get decode_cause decode_map_entries decode_set_items

    value-Back :
        (fuel : ℕ) (v : JsValueBridge (Numbers.Number S))
        → IsCanonical v
        → depth v ≤ fuel
        → Back (suc fuel) v
    value-Back fuel undefined c h = refl
    value-Back fuel Types.null c h = refl
    value-Back fuel (Types.bool b) c h = refl
    value-Back fuel (Types.number x) (small, c) h = number-Back fuel x small c
    value-Back fuel (Types.string s) c h = refl
    value-Back fuel (big_int s) c h = refl
    value-Back fuel (date_ms x) c h = float-Back fuel x c
    value-Back fuel (reg_exp source flags) c h = refl
    value-Back fuel (buffer_view kind bytes offset len) c h =
        buffer-Back fuel kind bytes offset len c
    value-Back zero (map_of pairs) c h = absurd (omega arith)
    value-Back (suc fuel) (map_of pairs) c h = rw (entries-back fuel pairs c (omega arith))
    value-Back zero (set_of items) c h = absurd (omega arith)
    value-Back (suc fuel) (set_of items) c h = rw (values-back fuel items c (omega arith))
    value-Back fuel (url href) c h = refl
    value-Back fuel (url_search_params query) c h = refl
    value-Back fuel (json (Json.array a)) c h = refl
    value-Back fuel (json (Json.object m)) c h =
        Untagged-Back (from_wire_json S parse_base64 fuel) m c
    value-Back fuel (json Json.null) c h = absurd c
    value-Back fuel (json (Json.bool b)) c h = absurd c
    value-Back fuel (json (Json.number n)) c h = absurd c
    value-Back fuel (json (Json.string s)) c h = absurd c
    value-Back fuel (v8_serialized bytes) c h = rw (bytes-back bytes c)
    value-Back zero (error name message stack code origin) c h = absurd (omega arith)
    value-Back (suc fuel) (error name message none none origin) c h =
        rw (cause-back fuel origin c (omega arith))
    value-Back (suc fuel) (error name message none (some code) origin) c h =
        rw (cause-back fuel origin c (omega arith))
    value-Back (suc fuel) (error name message (some stack) none origin) c h =
        rw (cause-back fuel origin c (omega arith))
    value-Back (suc fuel) (error name message (some stack) (some code) origin) c h =
        rw (cause-back fuel origin c (omega arith))
    value-Back fuel (host_function id is_async) c h = rw (Numbers.u64_back S id c)

    entries-back :
        (fuel : ℕ) (es : Entries (Numbers.Number S))
        → AreCanonicalEntries es
        → depth_entries es ≤ fuel
        → decode_map_entries S parse_base64
            (from_wire_json S parse_base64 (suc fuel))
            (entries_to_wire S es)
          ≡ some es
    entries-back fuel no_entries c h = refl
    entries-back fuel (entry k v rest) (ck, cv, c) h = rw (
      value-Back fuel k ck (omega arith),
      value-Back fuel v cv (omega arith),
      entries-back fuel rest c (omega arith),
    )

    values-back :
        (fuel : ℕ) (vs : Values (Numbers.Number S))
        → AreCanonical vs
        → depth_values vs ≤ fuel
        → decode_set_items S parse_base64
            (from_wire_json S parse_base64 (suc fuel))
            (values_to_wire S vs)
          ≡ some vs
    values-back fuel no_values c h = refl
    values-back fuel (value v rest) (cv, c) h =
        rw (value-Back fuel v cv (omega arith), values-back fuel rest c (omega arith))

    cause-back :
        (fuel : ℕ) (o : Cause (Numbers.Number S))
        → IsCanonicalCause o
        → depth_cause o ≤ fuel
        → decode_cause S parse_base64
            (from_wire_json S parse_base64 (suc fuel))
            (some (cause_to_wire S o))
          ≡ some o
    cause-back fuel no_cause c h = refl
    cause-back fuel (cause v) (c, n) h = rw (not-null v c n, value-Back fuel v c h)

-- A value of the wire format is decoded from its JSON form, with fuel for its nesting, to itself:
-- a float below 2^64 that is the standard NaN if it is a NaN, a finite date, bytes below 256 with a
-- window that fits, a cause that is not null, identifiers and windows below 2^64, and as plain JSON
-- arrays and objects without a key of the format.
pub from_wire_json-to_wire_json :
    (S : Numbers) (parse_base64 : Text → Option (List ℕ)) (v : JsValueBridge (Numbers.Number S))
    → IsCanonical v
    → (fuel : ℕ) → depth v < fuel
    → from_wire_json S parse_base64 fuel (to_wire_json S v) ≡ some v
from_wire_json-to_wire_json S parse_base64 v c zero h = absurd (omega arith)
from_wire_json-to_wire_json S parse_base64 v c (suc fuel) h =
    value-Back S parse_base64 fuel v c (omega arith)
