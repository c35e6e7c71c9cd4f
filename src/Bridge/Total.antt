-- ===== src/Bridge/Total.antt =====
-- The decoding ends: fuel for the nesting of a JSON value is enough (src/bridge/wire.rs).
use deno_director.Prelude.{
  ℕ, zero, suc, ◌≤◌, ◌<◌, ◌≡◌, refl, inl, inr, Bool, true, false, Option, none, some, List, ◌==◌,
  list_eq, if◌then◌else◌, arith, Bool-cases, Option-cases,
}
use Prim.Native.Nat.{max}
use deno_director.Prelude.Text.{Text, codes}
use deno_director.Bridge.Json
use deno_director.Bridge.Json.{as_bool, Numbers, Json, Items, Fields, get, is_null, as_array}
use deno_director.Bridge.Types.{JsValueBridge, map_of, set_of}
use deno_director.Bridge.Wire.{undefined_key, neg_zero_key, and_then, if_some, map_key, set_key}
use deno_director.Bridge.Decode.{
  is_true, has_text, text_at, from_wire_json, from_wire_object, decode_error_object, decode_cause,
  decode_map_entries, decode_set_items,
}

module _ {N : Type 0} where
  unfoldable mutual
    pub json_depth : Json N → ℕ
    json_depth Json.null = 0
    json_depth (Json.bool b) = 0
    json_depth (Json.number n) = 0
    json_depth (Json.string s) = 0
    json_depth (Json.array a) = suc (items_depth a)
    json_depth (Json.object m) = suc (fields_depth m)

    pub items_depth : Items N → ℕ
    items_depth Json.nil = 0
    items_depth (Json.cons v rest) = max (json_depth v) (items_depth rest)

    pub fields_depth : Fields N → ℕ
    fields_depth Json.end = 0
    fields_depth (Json.field k v rest) = max (json_depth v) (fields_depth rest)

  get-depth :
      (m : Fields N) (k : Text) (v : Json N) → get m k ≡ some v → json_depth v ≤ fields_depth m
  unfolding get json_depth
  get-depth Json.end k v h = absurd cc
  get-depth (Json.field j w m) k v h = elim (Bool-cases (j == k)) [
    | inl e ↦ let g : some w ≡ some v = rw (get, e) at h in grind arith
    | inr e ↦ let g = get-depth m k v (rw (get, e) at h) in omega arith
  ]

  array-depth :
      (m : Fields N) (k : Text) (a : Items N)
      → and_then (get m k) as_array ≡ some a
      → suc (items_depth a) ≤ fields_depth m
  unfolding json_depth
  array-depth m k a h = elim (Option-cases (get m k)) [
    | inl e ↦ absurd (let g = rw e at h in cc)
    | inr (v, e) ↦ depth_of v (get-depth m k v e) (rw e at h)
  ]
    where
      depth_of :
          (v : Json N)
          → json_depth v ≤ fields_depth m
          → as_array v ≡ some a
          → suc (items_depth a) ≤ fields_depth m
      depth_of (Json.array b) d g = grind arith
      depth_of Json.null d g = absurd cc
      depth_of (Json.bool b) d g = absurd cc
      depth_of (Json.number n) d g = absurd cc
      depth_of (Json.string s) d g = absurd cc
      depth_of (Json.object o) d g = absurd cc

abbrev pub Answers {ℓ} : {A : Type ℓ} → Option A → Type ℓ
Answers {A = A} o = (a : A) × (o ≡ some a)

if_some-Answers :
    {A B : Type 0} (o : Option A) (g : A → Option B) (rest : Option B)
    → ((a : A) → o ≡ some a → Answers (g a))
    → Answers rest
    → Answers (if_some o g rest)
unfolding if_some
if_some-Answers none g rest h r = r
if_some-Answers (some a) g rest h r = h a refl

if-Answers :
    {B : Type 0} (b : Bool) (x y : Option B) → Answers x → Answers y → Answers (if b then x else y)
if-Answers true x y p q = p
if-Answers false x y p q = q

if_some_of :
    {B : Type 0} (b : Bool) (x r : Option B) → (if b then some x else none) ≡ some r → x ≡ r
if_some_of true x r h = cc
if_some_of false x r h = absurd cc

and_then-Answers :
    {A B : Type 0} (o : Option A) (g : A → Option B)
    → Answers o
    → ((a : A) → Answers (g a))
    → Answers (and_then o g)
and_then-Answers none g (a, e) h = absurd cc
and_then-Answers (some b) g p h = h b

module _ (S : Numbers) (parse_base64 : Text → Option (List ℕ)) (n : ℕ)
    (f : Json (Numbers.Number S) → Option (JsValueBridge (Numbers.Number S)))
    (total : (v : Json (Numbers.Number S)) → json_depth v ≤ n → Answers (f v)) where
  decode_set-Answers :
      (a : Items (Numbers.Number S))
      → items_depth a ≤ n
      → Answers (decode_set_items S parse_base64 f a)
  unfolding decode_set_items json_depth
  decode_set-Answers Json.nil h = (_, refl)
  decode_set-Answers (Json.cons v rest) h =
      and_then-Answers _ _ (total v (omega arith))
        (λ a. and_then-Answers _ _ (decode_set-Answers rest (omega arith)) (λ l. (_, refl)))

  decode_map-Answers :
      (a : Items (Numbers.Number S))
      → items_depth a ≤ n
      → Answers (decode_map_entries S parse_base64 f a)
  unfolding decode_map_entries json_depth
  decode_map-Answers Json.nil h = (_, refl)
  decode_map-Answers (Json.cons (Json.array (Json.cons k (Json.cons v Json.nil))) rest) h =
      and_then-Answers _ _ (total k (omega arith)) (λ a.
        and_then-Answers _ _ (total v (omega arith))
          (λ b. and_then-Answers _ _ (decode_map-Answers rest (omega arith)) (λ l. (_, refl))))
  decode_map-Answers (Json.cons (Json.array (Json.cons k (Json.cons v (Json.cons w a)))) rest) h =
      decode_map-Answers rest (omega arith)
  decode_map-Answers (Json.cons (Json.array (Json.cons k Json.nil)) rest) h =
      decode_map-Answers rest (omega arith)
  decode_map-Answers (Json.cons (Json.array Json.nil) rest) h =
      decode_map-Answers rest (omega arith)
  decode_map-Answers (Json.cons Json.null rest) h = decode_map-Answers rest (omega arith)
  decode_map-Answers (Json.cons (Json.bool b) rest) h = decode_map-Answers rest (omega arith)
  decode_map-Answers (Json.cons (Json.number m) rest) h = decode_map-Answers rest (omega arith)
  decode_map-Answers (Json.cons (Json.string s) rest) h = decode_map-Answers rest (omega arith)
  decode_map-Answers (Json.cons (Json.object m) rest) h = decode_map-Answers rest (omega arith)

  decode_cause-Answers :
      (o : Option (Json (Numbers.Number S)))
      → ((v : Json (Numbers.Number S)) → o ≡ some v → json_depth v ≤ n)
      → Answers (decode_cause S parse_base64 f o)
  unfolding decode_cause
  decode_cause-Answers none h = (_, refl)
  decode_cause-Answers (some v) h =
      if-Answers (is_null v) _ _ (_, refl)
        (and_then-Answers _ _ (total v (h v refl)) (λ w. (_, refl)))

  decode_error-Answers :
      (m : Fields (Numbers.Number S)) (r : Option (JsValueBridge (Numbers.Number S)))
      → fields_depth m ≤ n
      → decode_error_object S parse_base64 f m ≡ some r
      → Answers r
  unfolding decode_error_object
  decode_error-Answers m r d h =
      let e = if_some_of _ _ r h in
      rw (← e) (
        and_then-Answers _ _
          (decode_cause-Answers (get m (codes "cause"))
            (λ v g. let k = get-depth m (codes "cause") v g in omega arith))
          (λ c. (_, refl)))

  map_value-Answers :
      (a : Items (Numbers.Number S))
      → items_depth a ≤ n
      → Answers (and_then (decode_map_entries S parse_base64 f a) (λ l. some (map_of l)))
  map_value-Answers a h = and_then-Answers _ _ (decode_map-Answers a h) (λ l. (_, refl))

  set_value-Answers :
      (a : Items (Numbers.Number S))
      → items_depth a ≤ n
      → Answers (and_then (decode_set_items S parse_base64 f a) (λ l. some (set_of l)))
  set_value-Answers a h = and_then-Answers _ _ (decode_set-Answers a h) (λ l. (_, refl))

  object-Answers :
      (m : Fields (Numbers.Number S))
      → fields_depth m ≤ n
      → Answers (from_wire_object S parse_base64 f m)
  unfolding from_wire_object
  object-Answers m d =
      if-Answers (is_true S parse_base64 (and_then (get m undefined_key) as_bool)) _ _ (_, refl)
        (if-Answers (has_text S parse_base64 (text_at S parse_base64 m neg_zero_key) (codes "-0")) _
          _ (_, refl)
          (if_some-Answers _ _ _ (λ a e. (_, refl))
            (if_some-Answers _ _ _ (λ a e. (_, refl))
              (if_some-Answers _ _ _ (λ a e. (_, refl))
                (if_some-Answers _ _ _ (λ a e. (_, refl))
                  (if_some-Answers _ _ _ (λ a e. (_, refl))
                    (if_some-Answers _ _ _ (λ a e. (_, refl))
                      (if_some-Answers _ _ _
                        (λ a e.
                          map_value-Answers a (let g = array-depth m map_key a e in omega arith))
                        (if_some-Answers _ _ _
                          (λ a e.
                            set_value-Answers a (let g = array-depth m set_key a e in omega arith))
                          (if_some-Answers _ _ _ (λ a e. (_, refl))
                            (if_some-Answers _ _ _ (λ a e. (_, refl))
                              (if_some-Answers _ _ _ (λ a e. (_, refl))
                                (if_some-Answers _ _ _ (λ r e. decode_error-Answers m r d e)
                                  (if_some-Answers _ _ _ (λ a e. (_, refl)) (_, refl)))))))))))))))

-- With more fuel than a JSON value is deep, the decoding answers with a value.
pub from_wire_json-Answers :
    (S : Numbers) (parse_base64 : Text → Option (List ℕ)) (fuel : ℕ) (v : Json (Numbers.Number S))
    → json_depth v < fuel
    → Answers (from_wire_json S parse_base64 fuel v)
unfolding from_wire_json json_depth
from_wire_json-Answers S parse_base64 zero v h = absurd (omega arith)
from_wire_json-Answers S parse_base64 (suc fuel) Json.null h = (_, refl)
from_wire_json-Answers S parse_base64 (suc fuel) (Json.bool b) h = (_, refl)
from_wire_json-Answers S parse_base64 (suc fuel) (Json.number n) h = (_, refl)
from_wire_json-Answers S parse_base64 (suc fuel) (Json.string s) h = (_, refl)
from_wire_json-Answers S parse_base64 (suc fuel) (Json.array a) h = (_, refl)
from_wire_json-Answers S parse_base64 (suc zero) (Json.object m) h = absurd (omega arith)
from_wire_json-Answers S parse_base64 (suc (suc fuel)) (Json.object m) h =
    object-Answers S parse_base64 fuel (from_wire_json S parse_base64 (suc fuel))
      (λ v d. from_wire_json-Answers S parse_base64 (suc fuel) v (omega arith)) m (omega arith)
