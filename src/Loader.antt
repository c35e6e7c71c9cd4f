-- ===== src/Loader.antt =====
-- The checks that the module loader makes before it loads from the network (`DynamicModuleLoader` of
-- src/worker/modules.rs). The `url` crate is a parameter.
use deno_director.Prelude.{
  ℕ, Bool, true, false, not, ◌&&◌, ◌||◌, Option, none, some, ◌++◌, ltb, nat_beq, ◌==◌, list_eq,
  if◌then◌else◌,
}
use deno_director.Prelude.Dict.{is_some}
use deno_director.Prelude.Text.{
  Text, codes, trim, is_empty, starts_with, strip_prefix, split_once, rsplit_once, count_char,
  eq_ignore_ascii_case, parse_u16,
}
use deno_director.Bridge.Json
use deno_director.Bridge.Json.{Json, Items, as_object, as_str}
use deno_director.LoaderConfig.{Urls, ModuleLoaderConfig, default_config, DynamicModuleLoader}
pub mod Remote
pub mod Paths
pub mod Specifiers

-- `Result<(), JsErrorBox>`.
pub data Check : Type 0 where
  allowed : Check
  denied : Text → Check

unfoldable pub path_is_prefix_boundary : Text → Text → Bool
path_is_prefix_boundary allow_path req_path =
    if is_empty allow_path || allow_path == codes "/"
    then true
    else if req_path == allow_path
    then true
    else elim (strip_prefix req_path allow_path) [
      | none ↦ false
      | some rest ↦ starts_with rest (codes "/")
    ]

abbrev pub port_is : Option ℕ → Option ℕ → Bool
port_is none none = true
port_is none (some q) = false
port_is (some p) none = false
port_is (some p) (some q) = nat_beq p q

module _ (U : Urls) where
  unfoldable pub is_internal_virtual_url : Urls.Url U → Bool
  is_internal_virtual_url u =
      Urls.scheme U u == codes "denojs-worker"
      && elim (Urls.host_str U u) [ none ↦ false | some h ↦ h == codes "virtual" ]

  -- The tests of `match_allow_url_prefix` for an allowed URL and a request that have hosts.
  abbrev same_origin : Urls.Url U → Urls.Url U → Text → Text → Bool
  same_origin allow req allow_host req_host =
      eq_ignore_ascii_case allow_host req_host
      && not (
          is_some (Urls.port_or_known_default U allow)
          && not (port_is (Urls.port_or_known_default U allow) (Urls.port_or_known_default U req)))
      && path_is_prefix_boundary (Urls.path U allow) (Urls.path U req)

  unfoldable pub match_allow_url_prefix : Urls.Url U → Urls.Url U → Bool
  match_allow_url_prefix allow req =
      eq_ignore_ascii_case (Urls.scheme U allow) (Urls.scheme U req)
      && elim (Urls.host_str U allow) [
        | none ↦ false
        | some a ↦ elim (Urls.host_str U req) [ none ↦ false | some r ↦ same_origin allow req a r ]
      ]

  abbrev is_web : Text → Bool
  is_web s = starts_with s (codes "http://") || starts_with s (codes "https://")

  -- An entry that is a URL.
  unfoldable pub match_url_entry : Text → Text → Option ℕ → Bool
  match_url_entry allow host port = elim (Urls.parse U allow) [
    | none ↦ false
    | some u ↦ elim (Urls.host_str U u) [
      | none ↦ false
      | some h ↦
          eq_ignore_ascii_case h host
          && (not (is_some (Urls.port_or_known_default U u))
              || port_is (Urls.port_or_known_default U u) port)
    ]
  ]

  abbrev port_text_is : Text → Option ℕ → Bool
  port_text_is p port = elim (parse_u16 p) [ none ↦ false | some n ↦ port_is (some n) port ]

  -- The rest of an entry behind its opening bracket.
  unfoldable pub match_bracketed : Text → Text → Option ℕ → Bool
  match_bracketed rest host port = elim (split_once rest b']') [
    | none ↦ false
    | some w ↦
        not (is_empty w.0)
        && eq_ignore_ascii_case w.0 host
        && (is_empty w.1
            || elim (strip_prefix w.1 (codes ":")) [ none ↦ false | some p ↦ port_text_is p port ])
  ]

  unfoldable pub match_plain : Text → Text → Option ℕ → Bool
  match_plain allow host port =
      if ltb 1 (count_char allow b':')
      then eq_ignore_ascii_case allow host
      else elim (rsplit_once allow b':') [
        | none ↦ eq_ignore_ascii_case allow host
        | some w ↦ elim (parse_u16 w.1) [
          | none ↦ false
          | some p ↦ eq_ignore_ascii_case w.0 host && port_is (some p) port
        ]
      ]

  unfoldable pub match_host_port : Text → Text → Option ℕ → Bool
  match_host_port entry host port =
      let allow = trim entry in
      if is_empty allow
      then false
      else if allow == codes "*"
      then true
      else if is_web allow
      then match_url_entry allow host port
      else elim (strip_prefix allow (codes "[")) [
        | some rest ↦ match_bracketed rest host port
        | none ↦ match_plain allow host port
      ]

  abbrev host_matches : Text → Urls.Url U → Bool
  host_matches s u = elim (Urls.host_str U u) [
    | none ↦ false
    | some h ↦ match_host_port s h (Urls.port_or_known_default U u)
  ]

  -- One text of `permissions.import`, and one of `permissions.net`.
  unfoldable pub import_entry : Text → Urls.Url U → Bool
  import_entry item u =
      let s = trim item in
      if s == codes "*"
      then true
      else if is_web s
      then (elim (Urls.parse U s) [ none ↦ false | some au ↦ match_allow_url_prefix au u ])
      else host_matches s u

  unfoldable pub net_entry : Text → Urls.Url U → Bool
  net_entry item u = host_matches item u

module _ {N : Type 0} where
  -- Whether a text of the list passes the test.
  unfoldable pub any_text : (Text → Bool) → Items N → Bool
  any_text f Json.nil = false
  any_text f (Json.cons v rest) = elim (as_str v) [
    | none ↦ any_text f rest
    | some s ↦ f s || any_text f rest
  ]

  -- The value of a permission: everything, nothing, or the list of what is allowed.
  unfoldable pub value_allows : (Text → Bool) → Json N → Bool
  value_allows f (Json.bool b) = b
  value_allows f (Json.array a) = any_text f a
  value_allows f Json.null = false
  value_allows f (Json.number n) = false
  value_allows f (Json.string s) = false
  value_allows f (Json.object m) = false

  unfoldable pub permission : DynamicModuleLoader N → Text → Option (Json N)
  permission l key = elim l.permissions [
    | none ↦ none
    | some cfg ↦ elim (as_object cfg) [ none ↦ none | some m ↦ Json.get m key ]
  ]

  abbrev allows_by : Option (Json N) → (Text → Bool) → Bool
  allows_by none f = false
  allows_by (some v) f = value_allows f v

  abbrev pub module_loader_cfg : DynamicModuleLoader N → ModuleLoaderConfig
  module_loader_cfg l = elim l.module_loader [ none ↦ default_config | some c ↦ c ]

  unfoldable pub node_disk_resolve_enabled : DynamicModuleLoader N → Bool
  node_disk_resolve_enabled l =
      l.node_resolve
      || l.node_compat
      || elim l.module_loader [ none ↦ false | some c ↦ c.node_resolve ]

module _ {N : Type 0} (U : Urls) where
  unfoldable pub allows_import_url : DynamicModuleLoader N → Urls.Url U → Bool
  allows_import_url l u = allows_by (permission l (codes "import")) (λ s. import_entry U s u)

  unfoldable pub allows_net_url : DynamicModuleLoader N → Urls.Url U → Bool
  allows_net_url l u = allows_by (permission l (codes "net")) (λ s. net_entry U s u)

  unfoldable pub ensure_remote_permissions : DynamicModuleLoader N → Urls.Url U → Check
  ensure_remote_permissions l u =
      if not (allows_import_url l u)
      then denied (codes "Remote import denied by permissions.import: " ++ Urls.display U u)
      else if not (allows_net_url l u)
      then denied (codes "Remote import denied by permissions.net: " ++ Urls.display U u)
      else allowed

  unfoldable pub ensure_remote_load_allowed : DynamicModuleLoader N → Urls.Url U → Check
  ensure_remote_load_allowed l u =
      let cfg = module_loader_cfg l in
      let s = Urls.scheme U u in
      if not (s == codes "http") && not (s == codes "https")
      then allowed
      else if s == codes "https" && not cfg.https_resolve
      then denied (
          codes "Remote HTTPS import blocked (moduleLoader.httpsResolve disabled): "
          ++ Urls.display U u)
      else if s == codes "http" && not cfg.http_resolve
      then denied (
          codes "Remote HTTP import blocked (moduleLoader.httpResolve disabled): "
          ++ Urls.display U u)
      else ensure_remote_permissions l u
