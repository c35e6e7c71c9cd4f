-- ===== src/Permissions/Options.antt =====
-- The options that Deno gets of a worker (`permissions_from_limits` of src/worker/runtime.rs). The empty
-- list of an option stands for everything.
use deno_director.Prelude.{Option, none, some, List, [], ◌∷◌, if◌then◌else◌}
use deno_director.Prelude.Text.{Text, codes}
use deno_director.Bridge.Json.{Json}
use deno_director.Permissions.{apply_perm_field, is_true, field_of}

-- The fields of `PermissionsOptions` that are set here.
pub record PermissionsOptions : Type 0 where
  pub allow_read : Option (List Text)
  pub allow_write : Option (List Text)
  pub allow_net : Option (List Text)
  pub allow_env : Option (List Text)
  pub allow_run : Option (List Text)
  pub allow_ffi : Option (List Text)
  pub allow_sys : Option (List Text)
  pub allow_import : Option (List Text)

-- The options of a worker without permissions.
abbrev pub no_options : PermissionsOptions
no_options = record {
  allow_read = none;
  allow_write = none;
  allow_net = none;
  allow_env = none;
  allow_run = none;
  allow_ffi = none;
  allow_sys = none;
  allow_import = none;
}

-- The options of a worker with all permissions.
abbrev pub all_options : Text → PermissionsOptions
all_options root = record {
  allow_read = some (root ∷ []);
  allow_write = some (root ∷ []);
  allow_net = some [];
  allow_env = some [];
  allow_run = some [];
  allow_ffi = some [];
  allow_sys = some [];
  allow_import = some [];
}

module _ {N : Type 0} (root : Text) (sandboxed : List Text → List Text) where
  -- A field with paths: all of the root if it is `true`, and otherwise the paths in the sandbox.
  abbrev pub path_field : Option (Json N) → Option (List Text)
  path_field v = if is_true v then some (root ∷ []) else apply_perm_field v none sandboxed

  abbrev pub list_field : Option (Json N) → Option (List Text)
  list_field v = apply_perm_field v none (λ items. items)

  abbrev options_from : Option (Json N) → PermissionsOptions
  options_from cfg = record {
    allow_read = path_field (field_of cfg (codes "read"));
    allow_write = path_field (field_of cfg (codes "write"));
    allow_net = list_field (field_of cfg (codes "net"));
    allow_env = list_field (field_of cfg (codes "env"));
    allow_run = list_field (field_of cfg (codes "run"));
    allow_ffi = list_field (field_of cfg (codes "ffi"));
    allow_sys = list_field (field_of cfg (codes "sys"));
    allow_import = list_field (field_of cfg (codes "import"));
  }

  -- The options that `permissions_from_limits` makes of the permissions, with the canonical root and
  -- the filter of the sandbox.
  unfoldable pub permissions_from_limits : Option (Json N) → PermissionsOptions
  permissions_from_limits permissions =
      if is_true permissions then all_options root else options_from permissions
