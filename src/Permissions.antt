-- ===== src/Permissions.antt =====
-- The permissions of a worker (src/worker/state.rs, src/worker/runtime.rs): their short forms, the access
-- to the configured environment, and one field of what Deno gets.
pub mod Env
pub mod Options
pub mod Sandbox
use deno_director.Prelude.{
  Bool, true, false, not, ◌||◌, Option, none, some, List, [], ◌∷◌, ◌++◌, map, ltb, ◌==◌, list_eq,
  if◌then◌else◌,
}
use deno_director.Prelude.Dict.{Dict}
use deno_director.Prelude.Text.{Text, codes}
use deno_director.Bridge.Json
use deno_director.Bridge.Json.{Json, Items, Fields}
use deno_director.Env.{contains, string_items}

-- The order of `String`.
abbrev pub text_leb : Text → Text → Bool
text_leb [] t = true
text_leb (c ∷ s) [] = false
text_leb (c ∷ s) (d ∷ t) =
    let rest = text_leb s t in if ltb c d then true else if ltb d c then false else rest

unfoldable pub insert_sorted : Text → List Text → List Text
insert_sorted s [] = s ∷ []
insert_sorted s (t ∷ l) =
    let rest = insert_sorted s l in if text_leb s t then s ∷ t ∷ l else t ∷ rest

unfoldable pub sort : List Text → List Text
sort [] = []
sort (s ∷ l) = insert_sorted s (sort l)

abbrev pub keys_of : Option (Dict Text Text) → List Text
keys_of none = []
keys_of (some m) = map (λ (entry : Text × Text). entry.0) m

abbrev pub is_nil : List Text → Bool
is_nil [] = true
is_nil (k ∷ keys) = false

unfoldable pub join : List Text → Text
join [] = []
join (s ∷ []) = s
join (s ∷ t ∷ l) = s ++ codes ", " ++ join (t ∷ l)

-- The configured keys that a list of readable keys does not have.
unfoldable pub blocked : List Text → List Text → List Text
blocked [] allow = []
blocked (k ∷ keys) allow =
    let rest = blocked keys allow in if contains allow k then rest else k ∷ rest

abbrev pub warnings_of : List Text → List Text
warnings_of [] = []
warnings_of (k ∷ keys) =
    (codes "Some env keys are configured but not readable by permissions.env: " ++ join (k ∷ keys))
    ∷ []

abbrev pub warnings_for : List Text → Option (List Text) → List Text
warnings_for keys none = []
warnings_for keys (some allow) = warnings_of (sort (blocked keys allow))

module _ {N : Type 0} where
  -- `Map::insert`
  unfoldable pub put : Fields N → Text → Json N → Fields N
  put Json.end k v = Json.field k v Json.end
  put (Json.field j u m) k v =
      let rest = put m k v in if j == k then Json.field j v m else Json.field j u rest

  abbrev pub all_fields : Bool → Fields N
  all_fields all = Json.field (codes "read") (Json.bool all) (
      Json.field (codes "write") (Json.bool all) (
        Json.field (codes "net") (Json.bool all) (
          Json.field (codes "env") (Json.bool all) (
            Json.field (codes "run") (Json.bool all) (
              Json.field (codes "ffi") (Json.bool all) (
                Json.field (codes "sys") (Json.bool all) (
                  Json.field (codes "import") (Json.bool all) (
                    Json.field (codes "hrtime") (Json.bool all)
                      (Json.field (codes "wasm") (Json.bool all) Json.end)))))))))

  unfoldable pub expand_permissions_shorthand : Json N → Json N
  expand_permissions_shorthand (Json.bool all) = Json.object (all_fields all)
  expand_permissions_shorthand Json.null = Json.null
  expand_permissions_shorthand (Json.number n) = Json.number n
  expand_permissions_shorthand (Json.string s) = Json.string s
  expand_permissions_shorthand (Json.array a) = Json.array a
  expand_permissions_shorthand (Json.object m) = Json.object m

  abbrev pub object_of : Option (Json N) → Fields N
  object_of none = Json.end
  object_of (some (Json.object m)) = m
  object_of (some Json.null) = Json.end
  object_of (some (Json.bool b)) = Json.end
  object_of (some (Json.number n)) = Json.end
  object_of (some (Json.string s)) = Json.end
  object_of (some (Json.array a)) = Json.end

  -- The object that the configuration of the environment is added to.
  abbrev pub expanded : Option (Json N) → Fields N
  expanded none = Json.end
  expanded (some v) = object_of (some (expand_permissions_shorthand v))

  -- `permissions.env` is not given, or is an empty list.
  abbrev pub unset : Option (Json N) → Bool
  unset none = true
  unset (some (Json.array Json.nil)) = true
  unset (some (Json.array (Json.cons v a))) = false
  unset (some Json.null) = false
  unset (some (Json.bool b)) = false
  unset (some (Json.number n)) = false
  unset (some (Json.string s)) = false
  unset (some (Json.object m)) = false

  unfoldable pub with_env : Fields N → Json N → Fields N
  with_env m v = if unset (Json.get m (codes "env")) then put m (codes "env") v else m

  unfoldable pub key_items : List Text → Items N
  key_items [] = Json.nil
  key_items (k ∷ keys) = Json.cons (Json.string k) (key_items keys)

  -- The readable keys, `none` for all.
  abbrev pub effective_allow : List Text → Option (Json N) → Option (List Text)
  effective_allow keys none = some keys
  effective_allow keys (some (Json.array Json.nil)) = some keys
  effective_allow keys (some (Json.array (Json.cons v a))) = some (string_items (Json.cons v a))
  effective_allow keys (some (Json.bool true)) = none
  effective_allow keys (some (Json.bool false)) = some []
  effective_allow keys (some Json.null) = some []
  effective_allow keys (some (Json.number n)) = some []
  effective_allow keys (some (Json.string s)) = some []
  effective_allow keys (some (Json.object m)) = some []

  abbrev pub ensured : Option (Json N) → Bool → List Text → Option (Json N) × List Text
  ensured permissions false [] = (permissions, [])
  ensured permissions true [] =
      (some (Json.object (with_env (expanded permissions) (Json.bool true))), [])
  ensured permissions enable_env (k ∷ keys) =
      let out = expanded permissions in
      (
        some (Json.object (with_env out (Json.array (key_items (sort (k ∷ keys)))))),
        warnings_for (k ∷ keys) (effective_allow (k ∷ keys) (Json.get out (codes "env"))),
      )

  unfoldable pub ensure_env_permission_enabled :
      Option (Json N) → Option (Dict Text Text) → Bool → Option (Json N) × List Text
  ensure_env_permission_enabled permissions env_keys enable_env =
      ensured permissions enable_env (keys_of env_keys)

  -- The value of one field of permissions that are an object.
  abbrev pub field_of : Option (Json N) → Text → Option (Json N)
  field_of permissions name = Json.get (object_of permissions) name

  abbrev pub run_given : Option (Json N) → Bool
  run_given none = false
  run_given (some (Json.bool b)) = b
  run_given (some (Json.array Json.nil)) = false
  run_given (some (Json.array (Json.cons v a))) = true
  run_given (some Json.null) = false
  run_given (some (Json.number n)) = false
  run_given (some (Json.string s)) = false
  run_given (some (Json.object m)) = false

  abbrev pub is_true : Option (Json N) → Bool
  is_true none = false
  is_true (some (Json.bool b)) = b
  is_true (some (Json.array a)) = false
  is_true (some Json.null) = false
  is_true (some (Json.number n)) = false
  is_true (some (Json.string s)) = false
  is_true (some (Json.object m)) = false

  unfoldable pub run_permission_enabled : Option (Json N) → Bool
  run_permission_enabled permissions =
      is_true permissions || run_given (field_of permissions (codes "run"))

  unfoldable pub hrtime_permission_enabled : Option (Json N) → Bool
  hrtime_permission_enabled permissions =
      is_true permissions || is_true (field_of permissions (codes "hrtime"))

  -- One field of the options of Deno, from its value before.
  unfoldable pub apply_perm_field :
      Option (Json N) → Option (List Text) → (List Text → List Text) → Option (List Text)
  apply_perm_field none dst map_paths = dst
  apply_perm_field (some (Json.bool true)) dst map_paths = some []
  apply_perm_field (some (Json.bool false)) dst map_paths = none
  apply_perm_field (some (Json.array a)) dst map_paths = some (map_paths (string_items a))
  apply_perm_field (some Json.null) dst map_paths = dst
  apply_perm_field (some (Json.number n)) dst map_paths = dst
  apply_perm_field (some (Json.string s)) dst map_paths = dst
  apply_perm_field (some (Json.object m)) dst map_paths = dst
