-- ===== src/Permissions/Env.antt =====
-- What the configuration of an environment adds to the permissions (src/worker/state.rs), seen through
-- the access policy of src/worker/env.rs.
use deno_director.Prelude.{◌≡◌, Bool, ◌&&◌, ◌||◌, Option, List, list_eq}
use deno_director.Prelude.Dict.{Dict}
use deno_director.Prelude.Text.{Text, codes}
use deno_director.Bridge.Json
use deno_director.Bridge.Json.{Json, Items}
use deno_director.Env.{allows, contains, env_access_from_permissions}
use deno_director.Permissions.{is_nil, ensured, expanded, unset}

module _ {N : Type 0} where
  -- What the permissions say of the environment.
  abbrev pub env_setting : Option (Json N) → Option (Json N)
  env_setting permissions = Json.get (expanded permissions) (codes "env")

module _ {N : Type 0} (permissions : Option (Json N)) (key : Text) where
  -- Who may see the variable after the keys were added.
  abbrev Shown : Bool → List Text → Type 0
  Shown enable_env keys =
      allows (env_access_from_permissions (ensured permissions enable_env keys).0) key ≡ (
        allows (env_access_from_permissions permissions) key
        || (unset (env_setting permissions) && (contains keys key || (enable_env && is_nil keys))))
