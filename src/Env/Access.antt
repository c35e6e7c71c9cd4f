-- ===== src/Env/Access.antt =====
-- What scripts can see and change (src/worker/ops.rs).
use deno_director.Prelude.{
  ◌≡◌, Bool, true, false, inl, inr, Option, none, some, [], ◌∷◌, ◌==◌, list_eq, list_beq_iff,
  if◌then◌else◌, Bool-cases, arith,
}
use deno_director.Prelude.Dict.{Dict, get, get-insert, get-remove}
use deno_director.Prelude.Text.{Text}
use deno_director.Bridge.Json
use deno_director.Bridge.Json.{Json}
use deno_director.Bridge.Types
use deno_director.Bridge.Types.{JsValueBridge, undefined, json}
use deno_director.Env.{
  EnvAccess, EnvRuntimeState, allows, valid_env_key, env_get, env_set, env_delete, guard,
  allowed_fields, ok,
}

module _ {N : Type 0} where
  -- A variable that a script may set, with a lock that is not poisoned, is read back with the value, and
  -- what a script reads of other variables does not change.
  pub env_get-env_set :
      (env : EnvRuntimeState) (key value other : Text)
      → valid_env_key key ≡ true
      → allows env.access key ≡ true
      → env.poisoned ≡ false
      → env_get {N = N} (env_set {N = N} (some env) key value).0 other
        ≡ (if key == other then ok (Types.string value) else env_get (some env) other)
  unfolding env_get env_set guard
  env_get-env_set env key value other v a p =
      ground (arith, get-insert env.vars key value other, list_beq_iff key other)

  -- After a deletion that is allowed, with a lock that is not poisoned, a script reads the variable as
  -- undefined, and what it reads of other variables does not change.
  pub env_get-env_delete :
      (env : EnvRuntimeState) (key other : Text)
      → valid_env_key key ≡ true
      → allows env.access key ≡ true
      → env.poisoned ≡ false
      → env_get {N = N} (env_delete {N = N} (some env) key).0 other
        ≡ (if key == other then ok undefined else env_get (some env) other)
  unfolding env_get env_delete guard
  env_get-env_delete env key other v a p =
      ground (arith, get-remove env.vars key other, list_beq_iff key other)

  abbrev pub shown : Bool → Option Text → Option (Json N)
  shown false v = none
  shown true none = none
  shown true (some v) = some (Json.string v)

  -- The object of all variables has exactly the allowed variables, with their values.
  pub get-allowed_fields :
      (access : EnvAccess) (vars : Dict Text Text) (key : Text)
      → Json.get (allowed_fields access vars) key ≡ shown (allows access key) (get vars key)
  unfolding allowed_fields Json.get get
  get-allowed_fields access [] key = ground arith
  get-allowed_fields access ((k, v) ∷ vars) key = elim (Bool-cases (allows access k)) [
    | inl a ↦ rw a (ground (arith, get-allowed_fields access vars key, list_beq_iff k key))
    | inr a ↦ rw a (ground (arith, get-allowed_fields access vars key, list_beq_iff k key))
  ]
