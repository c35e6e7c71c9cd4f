-- ===== src/Resolve.antt =====
-- How the module loader of src/worker/modules.rs turns a specifier into a URL. What the registry holds, the
-- disk, the `url` crate and Deno's own resolver are arguments.
pub mod Node
pub mod Exports
pub mod Candidates
pub mod Sandbox
pub mod Wasm
pub mod Packages
pub mod NotFound
pub mod Carried
pub mod Found
pub mod Real
use deno_director.Prelude.{
  ◌⊎◌, inl, inr, Bool, false, not, ◌&&◌, ◌||◌, Option, none, some, List, [], ◌∷◌, ◌++◌, ◌==◌,
  list_eq, if◌then◌else◌,
}
use deno_director.Prelude.Outcome.{found, missing, crashed, Result, done, failed, panicked}
use deno_director.Prelude.Text.{Text, codes, starts_with, trim}
use deno_director.LoaderConfig.{
  Urls, ImportsPolicy, deny_all, allow_disk, callback, DynamicModuleLoader,
}
use deno_director.Registry.State.{ModuleRegistryState}
use deno_director.Registry.{resolve_specifier}
use deno_director.Loader.{is_internal_virtual_url, module_loader_cfg, node_disk_resolve_enabled}
use deno_director.Loader.Specifiers.{is_bare_specifier, map_jsr_specifier}
use Node.{Disk}
use Sandbox.{dir_url_from_path, encode_resolve_url}
use Wasm.{ModuleType, is_wasm_specifier}
use Packages.{try_node_resolve_disk}
use NotFound.{module_not_found_error}

-- The modules of Node that a specifier may name without `node:`.
abbrev pub core : List Text
core =
    codes "assert"
    ∷ codes "buffer"
    ∷ codes "child_process"
    ∷ codes "cluster"
    ∷ codes "console"
    ∷ codes "constants"
    ∷ codes "crypto"
    ∷ codes "dgram"
    ∷ codes "diagnostics_channel"
    ∷ codes "dns"
    ∷ codes "domain"
    ∷ codes "events"
    ∷ codes "fs"
    ∷ codes "http"
    ∷ codes "http2"
    ∷ codes "https"
    ∷ codes "inspector"
    ∷ codes "module"
    ∷ codes "net"
    ∷ codes "os"
    ∷ codes "path"
    ∷ codes "perf_hooks"
    ∷ codes "process"
    ∷ codes "punycode"
    ∷ codes "querystring"
    ∷ codes "readline"
    ∷ codes "repl"
    ∷ codes "stream"
    ∷ codes "string_decoder"
    ∷ codes "sys"
    ∷ codes "timers"
    ∷ codes "tls"
    ∷ codes "tty"
    ∷ codes "url"
    ∷ codes "util"
    ∷ codes "v8"
    ∷ codes "vm"
    ∷ codes "worker_threads"
    ∷ codes "zlib"
    ∷ []

unfoldable pub any_is : List Text → Text → Bool
any_is [] s = false
any_is (m ∷ ms) s = m == s || any_is ms s

unfoldable pub normalize_cjs_require_specifier : Text → Text
normalize_cjs_require_specifier spec =
    if starts_with spec (codes "node:")
    then spec
    else if any_is core spec
    then codes "node:" ++ spec
    else spec

module _ {N : Type 0} (U : Urls) (disk : Disk N) (l : DynamicModuleLoader N) where
  abbrev from_deno : Text ⊎ Urls.Url U → Result (Urls.Url U)
  from_deno (inl e) = failed e
  from_deno (inr u) = done u

  unfoldable pub try_deno_resolve : Text → Text → Result (Urls.Url U)
  try_deno_resolve specifier referrer = from_deno (
      Urls.resolve_import U specifier (
        if starts_with referrer (codes "denojs-worker://virtual/")
        then dir_url_from_path U l.sandbox_root
        else referrer))

  -- The URL of a specifier that is an internal one itself.
  unfoldable pub internal_url : Text → Option (Urls.Url U)
  internal_url specifier = elim (Urls.parse U specifier) [
    | none ↦ none
    | some u ↦ if is_internal_virtual_url U u then some u else none
  ]

  -- The URL under which the registry holds a specifier.
  unfoldable pub registered_url : ModuleRegistryState ModuleType → Text → Option (Urls.Url U)
  registered_url reg specifier = elim (resolve_specifier reg specifier) [
    | none ↦ none
    | some key ↦ Urls.parse U key
  ]

  unfoldable pub known_url : ModuleRegistryState ModuleType → Text → Option (Urls.Url U)
  known_url reg specifier = elim (internal_url specifier) [
    | some u ↦ some u
    | none ↦ registered_url reg specifier
  ]

  abbrev jsr_spec : Text → Option Text
  jsr_spec specifier =
      if (module_loader_cfg l).jsr_resolve then map_jsr_specifier specifier else none

  -- What is left when neither the registry nor the disk knows the specifier. The test for http and
  -- https leads to the same call as the end.
  unfoldable pub resolve_elsewhere : Text → Text → Result (Urls.Url U)
  resolve_elsewhere specifier referrer = elim (jsr_spec specifier) [
    | some spec ↦ try_deno_resolve spec referrer
    | none ↦
        if is_bare_specifier specifier && not (node_disk_resolve_enabled l)
        then failed (module_not_found_error U disk.files l specifier referrer none)
        else if (starts_with specifier (codes "http://") && (module_loader_cfg l).http_resolve)
            || (starts_with specifier (codes "https://") && (module_loader_cfg l).https_resolve)
        then try_deno_resolve specifier referrer
        else try_deno_resolve specifier referrer
  ]

  unfoldable pub resolve_normalized :
      ModuleRegistryState ModuleType → Text → Text → Result (Urls.Url U)
  resolve_normalized reg specifier referrer = elim (known_url reg specifier) [
    | some u ↦ done u
    | none ↦ elim (try_node_resolve_disk U disk l specifier referrer) [
      | found u ↦ done u
      | crashed ↦ panicked
      | missing ↦ resolve_elsewhere specifier referrer
    ]
  ]

  unfoldable pub resolve_like_allow_disk :
      ModuleRegistryState ModuleType → Text → Text → Result (Urls.Url U)
  resolve_like_allow_disk reg specifier referrer =
      resolve_normalized reg (normalize_cjs_require_specifier specifier) referrer

  -- A replacement that the callback gives is trimmed.
  unfoldable pub resolve_rewritten :
      ModuleRegistryState ModuleType → Text → Text → Result (Urls.Url U)
  resolve_rewritten reg new_spec referrer = resolve_like_allow_disk reg (trim new_spec) referrer

  abbrev parsed : Text → Result (Urls.Url U)
  parsed s = elim (Urls.parse U s) [ some u ↦ done u | none ↦ failed (Urls.parse_error U s) ]

  -- The end of `resolve`, by the policy.
  unfoldable pub resolve_by_policy :
      ImportsPolicy → ModuleRegistryState ModuleType → Text → Text → Result (Urls.Url U)
  resolve_by_policy callback reg specifier referrer = done (encode_resolve_url U specifier referrer)
  resolve_by_policy deny_all reg specifier referrer = resolve_like_allow_disk reg specifier referrer
  resolve_by_policy allow_disk reg specifier referrer =
      resolve_like_allow_disk reg specifier referrer

  unfoldable pub resolve_specifier_text :
      ModuleRegistryState ModuleType → Text → Text → Result (Urls.Url U)
  resolve_specifier_text reg specifier referrer =
      if not l.wasm && is_wasm_specifier U specifier
      then failed (codes "WASM module loading is disabled by permissions.wasm: " ++ specifier)
      else elim (known_url reg specifier) [
        | some u ↦ done u
        | none ↦
            if starts_with specifier (codes "node:")
            then parsed specifier
            else resolve_by_policy l.imports_policy reg specifier referrer
      ]

  unfoldable pub resolve : ModuleRegistryState ModuleType → Text → Text → Result (Urls.Url U)
  resolve reg specifier referrer =
      resolve_specifier_text reg (normalize_cjs_require_specifier specifier) referrer
