-- ===== src/Tests/Policy.antt =====
-- Runs of the environment and of the loader's checks, and their theorems at concrete inputs.
use deno_director.Prelude.{
  ◌⊎◌, ℕ, ◌≡◌, ◌↔◌, refl, true, false, ◌||◌, none, some, [], ◌∷◌, ◌==◌, list_eq, list_beq, inl,
  if◌then◌else◌,
}
use deno_director.Prelude.Text.{
  Text, codes, byte_len, utf8_width, contains_char, strip_prefix, starts_with,
}
use deno_director.Bridge.Json
use deno_director.Bridge.Json.{Json, Fields}
use deno_director.Bridge.Types
use deno_director.Bridge.Types.{undefined}
use deno_director.Env.{
  env_access_from_permissions, env_access_from_value, string_items, EnvRuntimeState, allow_keys,
  contains, allows, valid_env_key, env_get, env_set, ok,
}
use deno_director.Env.Access.{env_get-env_set}
use deno_director.Env.Grants.{Grants, permissions-Grants}
use deno_director.LoaderConfig.{Urls, DynamicModuleLoader, default_config, allow_disk}
use deno_director.Loader.{
  allowed, path_is_prefix_boundary, import_entry, net_entry, allows_import_url, allows_net_url,
  ensure_remote_load_allowed,
}
use deno_director.Loader.Remote.{remote_load-Granted, Granted, switched_on}
use deno_director.Loader.Paths.{Covers, boundary_iff}

abbrev home : Text
home = codes "HOME"

abbrev secret : Text
secret = codes "SECRET"

abbrev env : EnvRuntimeState
env = record {
  vars = (home, codes "/root") ∷ (secret, codes "x") ∷ [];
  poisoned = false;
  access = allow_keys (home ∷ []);
}

home_valid : valid_env_key home ≡ true
unfolding valid_env_key byte_len utf8_width contains_char
home_valid = refl

home_allowed : allows env.access home ≡ true
unfolding allows contains list_beq
home_allowed = refl

env_get-env_set_example :
    env_get {N = ℕ} (env_set {N = ℕ} (some env) home secret).0 home
    ≡ (if home == home then ok (Types.string secret) else env_get (some env) home)
env_get-env_set_example = env_get-env_set env home secret home home_valid home_allowed refl

boundary_iff_example :
    (path_is_prefix_boundary (codes "/a") (codes "/a/b") ≡ true)
    ↔ Covers (codes "/a") (codes "/a/b")
boundary_iff_example = boundary_iff (codes "/a") (codes "/a/b")

-- An allowed path that ends in a slash does not cover what lies below it.
trailing_slash : path_is_prefix_boundary (codes "/a/") (codes "/a/b") ≡ false
unfolding path_is_prefix_boundary list_beq strip_prefix starts_with
trailing_slash = refl

-- A URL is its scheme and its host.
abbrev urls : Urls
urls = record {
  Url = Text × Text;
  parse = λ s. none;
  parse_error = λ s. s;
  display = λ u. u.1;
  scheme = λ u. u.0;
  host_str = λ u. some u.1;
  port_or_known_default = λ u. some 443;
  path = λ u. codes "/";
  query_pairs = λ u. [];
  with_query_pairs = λ s q. (codes "https", s);
  to_file_path = λ u. none;
  from_file_path = λ p. none;
  from_directory_path = λ p. none;
  resolve_import = λ s r. inl s;
}

abbrev loader : DynamicModuleLoader ℕ
loader = record {
  permissions = some (
      Json.object (
        Json.field (codes "import") (Json.bool true)
          (Json.field (codes "net") (Json.bool true) Json.end)));
  module_loader = some (record default_config { https_resolve = true });
  node_resolve = false;
  node_compat = false;
  imports_policy = allow_disk;
  wasm = true;
  sandbox_root = record { rooted = true; components = [] };
  eval_sync_active = none;
}

abbrev page : Urls.Url urls
page = (codes "https", codes "deno.land")

page_remote : (page.0 == codes "http" || page.0 == codes "https") ≡ true
unfolding list_beq
page_remote = refl

remote_load-Granted_example :
    ((ensure_remote_load_allowed urls loader page ≡ allowed) ↔ (
      (switched_on urls loader page ≡ true)
      × (allows_import_url urls loader page ≡ true)
      × (allows_net_url urls loader page ≡ true)))
    × (ensure_remote_load_allowed urls loader page ≡ allowed
        → Granted loader (codes "import") (λ s. import_entry urls s page)
          × Granted loader (codes "net") (λ s. net_entry urls s page))
remote_load-Granted_example = remote_load-Granted urls loader page page_remote

abbrev env_grant : Fields ℕ
env_grant =
    Json.field (codes "env")
      (Json.array (Json.cons Json.null (Json.cons (Json.string home) Json.nil))) Json.end

home_granted : allows (env_access_from_permissions (some (Json.object env_grant))) home ≡ true
unfolding allows contains list_beq env_access_from_permissions env_access_from_value string_items
    Json.get
home_granted = refl

permissions-Grants_example :
    (some (Json.object env_grant) ≡ some (Json.bool true))
    ⊎ ((m : Fields ℕ) × (some (Json.object env_grant) ≡ some (Json.object m))
        × Grants (Json.get m (codes "env")) home)
permissions-Grants_example = permissions-Grants (some (Json.object env_grant)) home home_granted
