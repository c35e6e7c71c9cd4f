-- ===== src/Loader/Remote.antt =====
-- What lets a remote module load pass (src/worker/modules.rs).
use deno_director.Prelude.{
  ◌≡◌, ◌⊎◌, inl, inr, ◌↔◌, Bool, true, false, not, ◌&&◌, ◌||◌, some, ◌==◌, list_eq, Bool-cases,
  Option-cases, arith,
}
use deno_director.Prelude.Text.{Text, codes}
use deno_director.Bridge.Json
use deno_director.Bridge.Json.{Json, Items, as_str}
use deno_director.LoaderConfig.{Urls, DynamicModuleLoader}
use deno_director.Loader.{
  allowed, module_loader_cfg, any_text, value_allows, permission, import_entry, net_entry,
  allows_import_url, allows_net_url, ensure_remote_permissions, ensure_remote_load_allowed,
}

module _ {N : Type 0} where
  -- The text is an element of the array.
  abbrev pub Listed : Text → Items N → Type 0
  Listed s Json.nil = ⊥
  Listed s (Json.cons v rest) = (as_str v ≡ some s) ⊎ Listed s rest

  -- The permission is given whole, or a text of its list passes the test.
  abbrev pub Granted : DynamicModuleLoader N → Text → (Text → Bool) → Type 0
  Granted l key f =
      (permission l key ≡ some (Json.bool true))
      ⊎ ((a : Items N) × (permission l key ≡ some (Json.array a))
          × (s : Text) × Listed s a
          × (f s ≡ true))

  any_text-Listed :
      (f : Text → Bool) (a : Items N) → any_text f a ≡ true → (s : Text) × Listed s a × (f s ≡ true)
  unfolding any_text
  any_text-Listed f Json.nil h = absurd cc
  any_text-Listed f (Json.cons v rest) h = elim (Option-cases (as_str v)) [
    | inl e ↦ let (s, m, t) = any_text-Listed f rest (rw (any_text, e) at h) in (s, inr m, t)
    | inr (s, e) ↦ elim (Bool-cases (f s)) [
      | inl t ↦ (s, inl e, t)
      | inr t ↦ let (r, m, u) = any_text-Listed f rest (rw (any_text, e, t) at h) in (r, inr m, u)
    ]
  ]

  value-Granted :
      (l : DynamicModuleLoader N) (key : Text) (f : Text → Bool) (v : Json N)
      → permission l key ≡ some v
      → value_allows f v ≡ true
      → Granted l key f
  unfolding value_allows
  value-Granted l key f (Json.bool true) e h = inl e
  value-Granted l key f (Json.bool false) e h = absurd cc
  value-Granted l key f (Json.array a) e h =
      let (s, m, t) = any_text-Listed f a h in inr (a, e, s, m, t)
  value-Granted l key f Json.null e h = absurd cc
  value-Granted l key f (Json.number n) e h = absurd cc
  value-Granted l key f (Json.string s) e h = absurd cc
  value-Granted l key f (Json.object m) e h = absurd cc

module _ {N : Type 0} (U : Urls) (l : DynamicModuleLoader N) (u : Urls.Url U) where
  import-Granted :
      allows_import_url U l u ≡ true → Granted l (codes "import") (λ s. import_entry U s u)
  unfolding allows_import_url
  import-Granted h = elim (Option-cases (permission l (codes "import"))) [
    | inl e ↦ absurd (let g = rw e at h in cc)
    | inr (v, e) ↦ value-Granted l _ _ v e (rw e at h)
  ]

  net-Granted : allows_net_url U l u ≡ true → Granted l (codes "net") (λ s. net_entry U s u)
  unfolding allows_net_url
  net-Granted h = elim (Option-cases (permission l (codes "net"))) [
    | inl e ↦ absurd (let g = rw e at h in cc)
    | inr (v, e) ↦ value-Granted l _ _ v e (rw e at h)
  ]

  abbrev pub switched_on : Bool
  switched_on =
      (not (Urls.scheme U u == codes "https") || (module_loader_cfg l).https_resolve)
      && (not (Urls.scheme U u == codes "http") || (module_loader_cfg l).http_resolve)

  abbrev pub is_remote : Bool
  is_remote = Urls.scheme U u == codes "http" || Urls.scheme U u == codes "https"

  passes :
      is_remote ≡ true
      → ensure_remote_load_allowed U l u ≡ allowed
      → (switched_on ≡ true) × (allows_import_url U l u ≡ true) × (allows_net_url U l u ≡ true)
  unfolding ensure_remote_load_allowed ensure_remote_permissions
  passes r h = ground arith

  permitted :
      is_remote ≡ true
      → switched_on ≡ true
      → allows_import_url U l u ≡ true
      → allows_net_url U l u ≡ true
      → ensure_remote_load_allowed U l u ≡ allowed
  unfolding ensure_remote_load_allowed ensure_remote_permissions
  permitted r s i n = ground arith

-- A load over http or https passes exactly if the loader has the scheme switched on and the URL passes
-- both permissions, and each permission it passes is given whole or by a text in its list.
pub remote_load-Granted :
    {N : Type 0} (U : Urls) (l : DynamicModuleLoader N) (u : Urls.Url U)
    → is_remote U l u ≡ true
    → ((ensure_remote_load_allowed U l u ≡ allowed) ↔ (
        (switched_on U l u ≡ true)
        × (allows_import_url U l u ≡ true)
        × (allows_net_url U l u ≡ true)))
      × (ensure_remote_load_allowed U l u ≡ allowed
          → Granted l (codes "import") (λ s. import_entry U s u)
            × Granted l (codes "net") (λ s. net_entry U s u))
remote_load-Granted U l u r = (
  (λ h. passes U l u r h, λ (s, i, n). permitted U l u r s i n),
  λ h. let (s, i, n) = passes U l u r h in (import-Granted U l u i, net-Granted U l u n),
)
