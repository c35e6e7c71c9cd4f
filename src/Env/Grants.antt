-- ===== src/Env/Grants.antt =====
-- The permissions give access to a variable only by a grant (src/worker/env.rs).
use deno_director.Prelude.{
  ◌≡◌, refl, ◌⊎◌, inl, inr, true, false, Option, none, some, ◌==◌, list_eq, list_beq_iff,
  Bool-cases, ap,
}
use deno_director.Prelude.Text.{Text, codes}
use deno_director.Bridge.Json
use deno_director.Bridge.Json.{Json, Items, Fields}
use deno_director.Env.{
  allows, contains, string_items, env_access_from_value, env_access_from_permissions,
}

module _ {N : Type 0} where
  -- The text is an element of the array.
  abbrev pub Names : Items N → Text → Type 0
  Names Json.nil key = ⊥
  Names (Json.cons v rest) key = (v ≡ Json.string key) ⊎ Names rest key

  -- The value of `permissions.env` is `true`, or an array with the key.
  abbrev pub Grants : Option (Json N) → Text → Type 0
  Grants v key =
      (v ≡ some (Json.bool true)) ⊎ ((a : Items N) × (v ≡ some (Json.array a)) × Names a key)

  contains-Names : (a : Items N) (key : Text) → contains (string_items a) key ≡ true → Names a key
  unfolding contains string_items
  contains-Names Json.nil key h = absurd cc
  contains-Names (Json.cons (Json.string s) rest) key h = elim (Bool-cases (s == key)) [
    | inl e ↦ inl (ap Json.string ((list_beq_iff s key).0 e))
    | inr e ↦ inr (contains-Names rest key (rw (contains, string_items, e) at h))
  ]
  contains-Names (Json.cons Json.null rest) key h = inr (contains-Names rest key h)
  contains-Names (Json.cons (Json.bool b) rest) key h = inr (contains-Names rest key h)
  contains-Names (Json.cons (Json.number n) rest) key h = inr (contains-Names rest key h)
  contains-Names (Json.cons (Json.array b) rest) key h = inr (contains-Names rest key h)
  contains-Names (Json.cons (Json.object m) rest) key h = inr (contains-Names rest key h)

  value-Grants :
      (v : Option (Json N)) (key : Text)
      → allows (env_access_from_value v) key ≡ true
      → Grants v key
  unfolding allows env_access_from_value
  value-Grants none key h = absurd cc
  value-Grants (some (Json.bool true)) key h = inl refl
  value-Grants (some (Json.bool false)) key h = absurd cc
  value-Grants (some (Json.array a)) key h = inr (a, refl, contains-Names a key h)
  value-Grants (some Json.null) key h = absurd cc
  value-Grants (some (Json.number n)) key h = absurd cc
  value-Grants (some (Json.string s)) key h = absurd cc
  value-Grants (some (Json.object m)) key h = absurd cc

-- If the access policy of some permissions allows a variable, then the permissions are `true`, or an
-- object whose `env` is `true` or an array that names the variable.
pub permissions-Grants :
    {N : Type 0} (permissions : Option (Json N)) (key : Text)
    → allows (env_access_from_permissions permissions) key ≡ true
    → (permissions ≡ some (Json.bool true))
      ⊎ ((m : Fields N) × (permissions ≡ some (Json.object m))
          × Grants (Json.get m (codes "env")) key)
unfolding allows env_access_from_permissions
permissions-Grants none key h = absurd cc
permissions-Grants (some (Json.bool true)) key h = inl refl
permissions-Grants (some (Json.bool false)) key h = absurd cc
permissions-Grants (some (Json.object m)) key h = inr (m, refl, value-Grants _ key h)
permissions-Grants (some Json.null) key h = absurd cc
permissions-Grants (some (Json.number n)) key h = absurd cc
permissions-Grants (some (Json.string s)) key h = absurd cc
permissions-Grants (some (Json.array a)) key h = absurd cc
