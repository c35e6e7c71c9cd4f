-- ===== src/Bridge/Json.antt =====
-- `serde_json::Value`, with the methods of it that the bridge calls. An object is the list of its
-- entries, each key once. Numbers are those of serde_json, given as a parameter.
use deno_director.Prelude.{
  ℕ, ◌<◌, ◌≡◌, Bool, true, false, Option, none, some, ◌==◌, list_eq, nat_eq, if◌then◌else◌,
}
use deno_director.Prelude.Text.{Text}
use deno_director.Prelude.Int.{ℤ, pos}
use deno_director.Bridge.Float64.{F64, is_finite}

-- `serde_json::Number`: the conversions that the bridge relies on, and what their documentation says of
-- them: a finite float and an unsigned integer are kept.
pub record Numbers : Type 1 where
  pub Number : Type 0
  pub from_f64 : F64 → Option Number
  pub as_f64 : Number → Option F64
  pub from_u64 : ℕ → Number
  pub as_u64 : Number → Option ℕ
  pub as_i64 : Number → Option ℤ
  pub f64_back :
      (x : F64) → is_finite x ≡ true → (n : Number) × (from_f64 x ≡ some n) × (as_f64 n ≡ some x)
  pub u64_back : (n : ℕ) → n < 0x1_0000_0000_0000_0000 → as_u64 (from_u64 n) ≡ some n
  pub i64_back : (n : ℕ) → n < 0x8000_0000_0000_0000 → as_i64 (from_u64 n) ≡ some (pos n)

mutual
  pub data Json (N : Type 0) : Type 0 where
    null : Json N
    bool : Bool → Json N
    number : N → Json N
    string : Text → Json N
    array : Items N → Json N
    object : Fields N → Json N

  pub data Items (N : Type 0) : Type 0 where
    nil : Items N
    cons : Json N → Items N → Items N

  pub data Fields (N : Type 0) : Type 0 where
    end : Fields N
    field : Text → Json N → Fields N → Fields N

module _ {N : Type 0} where
  unfoldable pub get : Fields N → Text → Option (Json N)
  get end k = none
  get (field j v m) k = if j == k then some v else get m k

  abbrev pub as_str : Json N → Option Text
  as_str (string s) = some s
  as_str null = none
  as_str (bool b) = none
  as_str (number n) = none
  as_str (array a) = none
  as_str (object m) = none

  abbrev pub as_bool : Json N → Option Bool
  as_bool (bool b) = some b
  as_bool null = none
  as_bool (string s) = none
  as_bool (number n) = none
  as_bool (array a) = none
  as_bool (object m) = none

  abbrev pub as_number : Json N → Option N
  as_number (number n) = some n
  as_number null = none
  as_number (string s) = none
  as_number (bool b) = none
  as_number (array a) = none
  as_number (object m) = none

  abbrev pub as_array : Json N → Option (Items N)
  as_array (array a) = some a
  as_array null = none
  as_array (string s) = none
  as_array (bool b) = none
  as_array (number n) = none
  as_array (object m) = none

  abbrev pub as_object : Json N → Option (Fields N)
  as_object (object m) = some m
  as_object null = none
  as_object (string s) = none
  as_object (bool b) = none
  as_object (number n) = none
  as_object (array a) = none

  abbrev pub is_null : Json N → Bool
  is_null null = true
  is_null (string s) = false
  is_null (bool b) = false
  is_null (number n) = false
  is_null (array a) = false
  is_null (object m) = false
