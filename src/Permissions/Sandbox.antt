-- ===== src/Permissions/Sandbox.antt =====
-- The file permissions that a worker gets (src/worker/runtime.rs) with the filter of the sandbox
-- (src/worker/filesystem.rs).
use deno_director.Prelude.{
  ◌≡◌, ◌⊎◌, inl, inr, refl, ◌↔◌, true, false, Option, none, some, List, [], ◌∷◌, All, if_elim,
}
use deno_director.Prelude.Text.{Text, codes}
use deno_director.Bridge.Json
use deno_director.Bridge.Json.{Json, Items}
use deno_director.Env.{string_items}
use deno_director.Paths.{FilePath, Files, or_else, sandboxed_path_list}
use deno_director.Paths.Inside.{Inside, sandboxed_path_list-Inside}
use deno_director.Permissions.{apply_perm_field, is_true, field_of}
use deno_director.Permissions.Options.{PermissionsOptions, path_field, permissions_from_limits}

-- Each entry of an option has the property.
abbrev pub Each : (Text → Type 0) → Option (List Text) → Type 0
Each P none = Unit
Each P (some l) = All P l

module _ (files : Files) (root : FilePath) where
  abbrev pub canonical : FilePath
  canonical = or_else (Files.canonicalize files root) root

  -- The root itself, or a path in it.
  abbrev pub Within : Text → Type 0
  Within text = (text ≡ Files.to_text files canonical) ⊎ Inside files canonical text

  All-Within : (l : List Text) → All (Inside files canonical) l → All Within l
  All-Within [] h = h
  All-Within (s ∷ l) h = (inr h.0, All-Within l h.1)

  module _ {N : Type 0} where
    -- The permission is a list of which the filter of the sandbox leaves nothing.
    abbrev pub LeavesNothing : Option (Json N) → Type 0
    LeavesNothing v =
        (a : Items N) × (v ≡ some (Json.array a))
        × (sandboxed_path_list files root (string_items a) ≡ [])

    -- The paths of an option are within the sandbox, and it is the empty list, which opens the whole
    -- disk, exactly if nothing is left of the permission.
    abbrev pub Confined : Option (List Text) → Option (Json N) → Type 0
    Confined o v = Each Within o × ((o ≡ some []) ↔ LeavesNothing v)

    abbrev pub BothConfined : PermissionsOptions → Option (Json N) → Type 0
    BothConfined options permissions =
        Confined options.allow_read (field_of permissions (codes "read"))
        × Confined options.allow_write (field_of permissions (codes "write"))

  module _ {N : Type 0} (r : canonical.rooted ≡ true) where
    applied-Within :
        (v : Option (Json N))
        → Each Within (apply_perm_field v none (sandboxed_path_list files root))
    unfolding apply_perm_field
    applied-Within none = tt
    applied-Within (some (Json.bool true)) = tt
    applied-Within (some (Json.bool false)) = tt
    applied-Within (some (Json.array a)) =
        All-Within _ (sandboxed_path_list-Inside files root (string_items a) r)
    applied-Within (some Json.null) = tt
    applied-Within (some (Json.number n)) = tt
    applied-Within (some (Json.string s)) = tt
    applied-Within (some (Json.object m)) = tt

    path_field_iff :
        (v : Option (Json N))
        → (path_field (Files.to_text files canonical) (sandboxed_path_list files root) v ≡ some [])
          ↔ LeavesNothing v
    unfolding apply_perm_field
    path_field_iff none = (λ h. cc h, λ h. cc h.1)
    path_field_iff (some (Json.bool true)) = (λ h. cc h, λ h. cc h.1)
    path_field_iff (some (Json.bool false)) = (λ h. cc h, λ h. cc h.1)
    path_field_iff (some (Json.array a)) = (λ h. (a, refl, cc h), λ h. cc (h.1, h.2))
    path_field_iff (some Json.null) = (λ h. cc h, λ h. cc h.1)
    path_field_iff (some (Json.number n)) = (λ h. cc h, λ h. cc h.1)
    path_field_iff (some (Json.string s)) = (λ h. cc h, λ h. cc h.1)
    path_field_iff (some (Json.object m)) = (λ h. cc h, λ h. cc h.1)

    path_field-Within :
        (v : Option (Json N))
        → Each Within
            (path_field (Files.to_text files canonical) (sandboxed_path_list files root) v)
    path_field-Within v =
        if_elim (Each Within) (is_true v) (λ _. (inl refl, tt)) (λ _. applied-Within v)

    path_field-Confined :
        (v : Option (Json N))
        → Confined (path_field (Files.to_text files canonical) (sandboxed_path_list files root) v) v
    path_field-Confined v = (path_field-Within v, path_field_iff v)

    -- A permission that is no object has no fields.
    root-Confined : Confined {N = N} (some (Files.to_text files canonical ∷ [])) none
    root-Confined = ((inl refl, tt), (λ h. cc h, λ h. cc h.1))

    options-BothConfined :
        (permissions : Option (Json N))
        → BothConfined
            (permissions_from_limits
              (Files.to_text files canonical)
              (sandboxed_path_list files root)
              permissions)
            permissions
    unfolding permissions_from_limits Json.get
    options-BothConfined none = (path_field-Confined _, path_field-Confined _)
    options-BothConfined (some (Json.bool true)) = (root-Confined, root-Confined)
    options-BothConfined (some (Json.bool false)) = (path_field-Confined _, path_field-Confined _)
    options-BothConfined (some (Json.array a)) = (path_field-Confined _, path_field-Confined _)
    options-BothConfined (some Json.null) = (path_field-Confined _, path_field-Confined _)
    options-BothConfined (some (Json.number n)) = (path_field-Confined _, path_field-Confined _)
    options-BothConfined (some (Json.string s)) = (path_field-Confined _, path_field-Confined _)
    options-BothConfined (some (Json.object m)) = (path_field-Confined _, path_field-Confined _)

-- In a worker with an absolute root, each path in the list for reading, or in that for writing, is the
-- canonical root, or a path that starts with it and has no component that leads upwards. Either list is
-- there and empty, which opens the whole disk, exactly if the permission is a list of which the filter of
-- the sandbox leaves nothing.
pub permissions_from_limits-Within :
    {N : Type 0} (files : Files) (root : FilePath) (permissions : Option (Json N))
    → (canonical files root).rooted ≡ true
    → BothConfined files root
        (permissions_from_limits
          (Files.to_text files (canonical files root))
          (sandboxed_path_list files root)
          permissions)
        permissions
permissions_from_limits-Within files root permissions r =
    options-BothConfined files root r permissions
