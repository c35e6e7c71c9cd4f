-- ===== src/Env.antt =====
-- The environment of a worker: who may see which variable (src/worker/env.rs) and the four operations
-- that scripts call (src/worker/ops.rs). A set of keys is a list; a lock that a panic has poisoned is a
-- flag of the state.
use deno_director.Prelude.{
  Bool, true, false, not, ◌&&◌, ◌||◌, Option, none, some, List, [], ◌∷◌, ◌++◌, leb, ◌==◌, list_eq,
  if◌then◌else◌,
}
use deno_director.Prelude.Dict.{Dict, get, insert, remove, contains_key}
use deno_director.Prelude.Text.{Text, codes, byte_len, is_empty, contains_char}
use deno_director.Bridge.Json
use deno_director.Bridge.Json.{Json, Items, Fields}
use deno_director.Bridge.Types
use deno_director.Bridge.Types.{JsValueBridge, undefined, json}
pub mod Access
pub mod Merge
pub mod Grants

pub data EnvAccess : Type 0 where
  deny : EnvAccess
  allow_all : EnvAccess
  allow_keys : List Text → EnvAccess

unfoldable pub contains : List Text → Text → Bool
contains [] key = false
contains (k ∷ keys) key = k == key || contains keys key

unfoldable pub allows : EnvAccess → Text → Bool
allows deny key = false
allows allow_all key = true
allows (allow_keys keys) key = contains keys key

unfoldable pub valid_env_key : Text → Bool
valid_env_key k = not (is_empty k) && leb (byte_len k) 4096 && not (contains_char k 0)

pub data EnvConfig : Type 0 where
  map_of : Dict Text Text → EnvConfig

unfoldable pub merge_entries : Dict Text Text → Dict Text Text → Dict Text Text
merge_entries snapshot [] = snapshot
merge_entries snapshot ((k, v) ∷ entries) =
    merge_entries (if valid_env_key k then insert snapshot k v else snapshot) entries

unfoldable pub merge_env_snapshot : Dict Text Text → Option EnvConfig → Dict Text Text
merge_env_snapshot snapshot none = snapshot
merge_env_snapshot snapshot (some (map_of entries)) = merge_entries snapshot entries

module _ {N : Type 0} where
  unfoldable pub string_items : Items N → List Text
  string_items Json.nil = []
  string_items (Json.cons (Json.string s) rest) = s ∷ string_items rest
  string_items (Json.cons Json.null rest) = string_items rest
  string_items (Json.cons (Json.bool b) rest) = string_items rest
  string_items (Json.cons (Json.number n) rest) = string_items rest
  string_items (Json.cons (Json.array a) rest) = string_items rest
  string_items (Json.cons (Json.object m) rest) = string_items rest

  -- The value of `permissions.env`.
  unfoldable pub env_access_from_value : Option (Json N) → EnvAccess
  env_access_from_value none = deny
  env_access_from_value (some (Json.bool true)) = allow_all
  env_access_from_value (some (Json.bool false)) = deny
  env_access_from_value (some (Json.array a)) = allow_keys (string_items a)
  env_access_from_value (some Json.null) = deny
  env_access_from_value (some (Json.number n)) = deny
  env_access_from_value (some (Json.string s)) = deny
  env_access_from_value (some (Json.object m)) = deny

  -- `get` of a value that is no object answers `None`.
  unfoldable pub env_access_from_permissions : Option (Json N) → EnvAccess
  env_access_from_permissions none = deny
  env_access_from_permissions (some (Json.bool true)) = allow_all
  env_access_from_permissions (some (Json.bool false)) = deny
  env_access_from_permissions (some (Json.object m)) =
      env_access_from_value (Json.get m (codes "env"))
  env_access_from_permissions (some Json.null) = deny
  env_access_from_permissions (some (Json.number n)) = deny
  env_access_from_permissions (some (Json.string s)) = deny
  env_access_from_permissions (some (Json.array a)) = deny

pub record EnvRuntimeState : Type 0 where
  pub vars : Dict Text Text
  pub poisoned : Bool
  pub access : EnvAccess

-- What `ok_reply` and `err_reply` (with a name and a message) wrap.
pub data Reply (N : Type 0) : Type 0 where
  ok : JsValueBridge N → Reply N
  err : Text → Text → Reply N

abbrev with_vars : EnvRuntimeState → Dict Text Text → EnvRuntimeState
with_vars env vars = record { vars = vars; poisoned = env.poisoned; access = env.access }

module _ {N : Type 0} where
  -- The checks that the operations on one key share.
  unfoldable pub guard : EnvRuntimeState → Text → Option (Reply N)
  guard env key =
      if not (valid_env_key key)
      then some (err (codes "TypeError") (codes "Invalid environment variable key"))
      else if not (allows env.access key)
      then some
          (err (codes "PermissionDenied") (codes "Requires env access to \"" ++ key ++ codes "\""))
      else none

  abbrev missing : Reply N
  missing = err (codes "OpStateError") (codes "EnvRuntimeState missing in OpState")

  abbrev lock_poisoned : Reply N
  lock_poisoned = err (codes "Error") (codes "Environment map lock poisoned")

  abbrev found : Option Text → Reply N
  found none = ok undefined
  found (some s) = ok (Types.string s)

  unfoldable pub env_get : Option EnvRuntimeState → Text → Reply N
  env_get none key = missing
  env_get (some env) key = elim (guard env key) [
    | some r ↦ r
    | none ↦ found (if env.poisoned then none else get env.vars key)
  ]

  unfoldable pub env_set : Option EnvRuntimeState → Text → Text → Option EnvRuntimeState × Reply N
  env_set none key value = (none, missing)
  env_set (some env) key value = elim (guard env key) [
    | some r ↦ (some env, r)
    | none ↦
        if env.poisoned
        then (some env, lock_poisoned)
        else (some (with_vars env (insert env.vars key value)), ok Types.null)
  ]

  unfoldable pub env_delete : Option EnvRuntimeState → Text → Option EnvRuntimeState × Reply N
  env_delete none key = (none, missing)
  env_delete (some env) key = elim (guard env key) [
    | some r ↦ (some env, r)
    | none ↦ if env.poisoned then (some env, lock_poisoned) else (
      some (with_vars env (remove env.vars key)),
      ok (Types.bool (contains_key env.vars key)),
    )
  ]

  unfoldable pub allowed_fields : EnvAccess → Dict Text Text → Fields N
  allowed_fields access [] = Json.end
  allowed_fields access ((k, v) ∷ vars) =
      let rest = allowed_fields access vars in
      if allows access k then Json.field k (Json.string v) rest else rest

  unfoldable pub env_to_object : Option EnvRuntimeState → Reply N
  env_to_object none = missing
  env_to_object (some env) =
      if env.poisoned
      then lock_poisoned
      else ok (json (Json.object (allowed_fields env.access env.vars)))
