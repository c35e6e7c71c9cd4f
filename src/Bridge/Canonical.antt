-- ===== src/Bridge/Canonical.antt =====
-- The values that the wire format tells apart, and how deep they nest (src/bridge/wire.rs).
use deno_director.Prelude.{ℕ, suc, ◌<◌, ◌≡◌, ◌≢◌, true, none, some, All, length}
use Prim.Native.Nat.{max}
use deno_director.Bridge.Float64.{nan, is_nan, is_finite}
use deno_director.Bridge.Json.{Json, Fields, get}
use deno_director.Bridge.Types
use deno_director.Bridge.Types.{
  JsValueBridge, Entries, Values, Cause, undefined, big_int, date_ms, reg_exp, buffer_view, map_of,
  set_of, url, url_search_params, json, v8_serialized, error, host_function, no_cause, cause,
  no_entries, entry, no_values, value,
}
use deno_director.Bridge.Windows.{buffer_view_window, two_64}
use deno_director.Bridge.Wire.{
  type_key, undefined_key, number_key, neg_zero_key, bigint_key, date_key, regexp_key, buffer_key,
  map_key, set_key, url_key, url_search_params_key, v8_key, console_key,
}

module _ {N : Type 0} where
  -- None of the keys of the wire format occurs.
  abbrev pub Untagged : Fields N → Type 0
  Untagged m =
      (get m undefined_key ≡ none)
      × (get m neg_zero_key ≡ none)
      × (get m number_key ≡ none)
      × (get m date_key ≡ none)
      × (get m bigint_key ≡ none)
      × (get m regexp_key ≡ none)
      × (get m buffer_key ≡ none)
      × (get m console_key ≡ none)
      × (get m map_key ≡ none)
      × (get m set_key ≡ none)
      × (get m url_key ≡ none)
      × (get m url_search_params_key ≡ none)
      × (get m v8_key ≡ none)
      × (get m type_key ≡ none)

  -- The JSON values that the bridge has no other variant for.
  unfoldable pub PlainJson : Json N → Type 0
  PlainJson (Json.array a) = Unit
  PlainJson (Json.object m) = Untagged m
  PlainJson Json.null = ⊥
  PlainJson (Json.bool b) = ⊥
  PlainJson (Json.number n) = ⊥
  PlainJson (Json.string s) = ⊥

  -- The values of `JsValueBridge` that the wire format tells apart.
  unfoldable mutual
    unfolding PlainJson

    pub IsCanonical : JsValueBridge N → Type 0
    IsCanonical undefined = Unit
    IsCanonical Types.null = Unit
    IsCanonical (Types.bool b) = Unit
    IsCanonical (Types.number x) = (x < two_64) × (is_nan x ≡ true → x ≡ nan)
    IsCanonical (Types.string s) = Unit
    IsCanonical (big_int s) = Unit
    IsCanonical (date_ms x) = is_finite x ≡ true
    IsCanonical (reg_exp source flags) = Unit
    IsCanonical (buffer_view kind bytes offset len) =
        All (λ b. b < 256) bytes
        × (offset < two_64)
        × (len < two_64)
        × (buffer_view_window kind (length bytes) offset len ≡ some (offset, len))
    IsCanonical (map_of entries) = AreCanonicalEntries entries
    IsCanonical (set_of items) = AreCanonical items
    IsCanonical (url href) = Unit
    IsCanonical (url_search_params query) = Unit
    IsCanonical (json j) = PlainJson j
    IsCanonical (v8_serialized bytes) = All (λ b. b < 256) bytes
    IsCanonical (error name message stack code origin) = IsCanonicalCause origin
    IsCanonical (host_function id is_async) = id < two_64

    pub AreCanonicalEntries : Entries N → Type 0
    AreCanonicalEntries no_entries = Unit
    AreCanonicalEntries (entry k v rest) = IsCanonical k × IsCanonical v × AreCanonicalEntries rest

    pub AreCanonical : Values N → Type 0
    AreCanonical no_values = Unit
    AreCanonical (value v rest) = IsCanonical v × AreCanonical rest

    pub IsCanonicalCause : Cause N → Type 0
    IsCanonicalCause no_cause = Unit
    IsCanonicalCause (cause v) = IsCanonical v × (v ≢ Types.null)

  -- How deep the decoding of the wire form recurses.
  unfoldable mutual
    pub depth : JsValueBridge N → ℕ
    depth undefined = 0
    depth Types.null = 0
    depth (Types.bool b) = 0
    depth (Types.number x) = 0
    depth (Types.string s) = 0
    depth (big_int s) = 0
    depth (date_ms x) = 0
    depth (reg_exp source flags) = 0
    depth (buffer_view kind bytes offset len) = 0
    depth (map_of entries) = suc (depth_entries entries)
    depth (set_of items) = suc (depth_values items)
    depth (url href) = 0
    depth (url_search_params query) = 0
    depth (json j) = 0
    depth (v8_serialized bytes) = 0
    depth (error name message stack code origin) = suc (depth_cause origin)
    depth (host_function id is_async) = 0

    pub depth_entries : Entries N → ℕ
    depth_entries no_entries = 0
    depth_entries (entry k v rest) = max (max (depth k) (depth v)) (depth_entries rest)

    pub depth_values : Values N → ℕ
    depth_values no_values = 0
    depth_values (value v rest) = max (depth v) (depth_values rest)

    pub depth_cause : Cause N → ℕ
    depth_cause no_cause = 0
    depth_cause (cause v) = depth v
