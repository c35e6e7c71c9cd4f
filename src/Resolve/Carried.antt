-- ===== src/Resolve/Carried.antt =====
-- The import that a URL of `encode_resolve_url` carries (src/worker/modules.rs).
use deno_director.Prelude.{
  ◌≡◌, refl, ap, ◌∙◌, false, not, ◌&&◌, Option, none, some, List, ◌==◌, list_eq, list_beq, if_elim,
}
use deno_director.Prelude.Outcome.{Result, done}
use deno_director.Prelude.Text.{Text, codes, starts_with}
use deno_director.LoaderConfig.{Urls, callback, DynamicModuleLoader}
use deno_director.Registry.State.{ModuleRegistryState}
use deno_director.Resolve.{
  any_is, core, normalize_cjs_require_specifier, known_url, resolve_by_policy,
  resolve_specifier_text, resolve,
}
use deno_director.Resolve.Node.{Disk}
use deno_director.Resolve.Sandbox.{
  encode_resolve_url, carried, decode_resolve_url, scan_pairs, original_spec_and_referrer,
}
use deno_director.Resolve.Wasm.{ModuleType, is_wasm_specifier}

-- A URL keeps the pairs that were appended to its query, and its scheme.
pub record KeepsQuery (U : Urls) : Type 0 where
  pub pairs_back :
      (pairs : List (Text × Text))
      → Urls.query_pairs U (Urls.with_query_pairs U (codes "denojs-worker://resolve") pairs) ≡ pairs
  pub scheme_back :
      (pairs : List (Text × Text))
      → Urls.scheme U (Urls.with_query_pairs U (codes "denojs-worker://resolve") pairs)
        ≡ codes "denojs-worker"

module _ (U : Urls) (k : KeepsQuery U) where
  scan-encode :
      (specifier referrer : Text)
      → scan_pairs U none none (Urls.query_pairs U (encode_resolve_url U specifier referrer))
        ≡ (some specifier, some referrer)
  unfolding encode_resolve_url scan_pairs list_beq
  scan-encode specifier referrer = rw (encode_resolve_url, k.pairs_back _) refl

  decode-encode :
      (specifier referrer : Text)
      → decode_resolve_url U (encode_resolve_url U specifier referrer) ≡ some (specifier, referrer)
  unfolding decode_resolve_url
  decode-encode specifier referrer =
      let Same : Option (Text × Text) → Type 0 = λ o. o ≡ some (specifier, referrer) in
      if_elim Same
        (not (Urls.scheme U (encode_resolve_url U specifier referrer) == codes "denojs-worker"))
        (λ n.
          absurd (unfold encode_resolve_url list_beq in let g = rw (k.scheme_back _) at n in cc))
        (λ _. ap (carried U) (scan-encode specifier referrer))

  pub original-encode :
      (specifier referrer : Text) (runtime : Option (Urls.Url U))
      → original_spec_and_referrer U (encode_resolve_url U specifier referrer) runtime
        ≡ (specifier, referrer)
  unfolding original_spec_and_referrer
  original-encode specifier referrer runtime =
      rw (original_spec_and_referrer, decode-encode specifier referrer) refl

-- A specifier is changed only into one of Node's own modules.
normalized_same :
    (spec : Text)
    → starts_with (normalize_cjs_require_specifier spec) (codes "node:") ≡ false
    → normalize_cjs_require_specifier spec ≡ spec
unfolding normalize_cjs_require_specifier starts_with
normalized_same spec =
    let Same : Text → Type 0 = λ n. starts_with n (codes "node:") ≡ false → n ≡ spec in
    if_elim Same (starts_with spec (codes "node:")) (λ _ _. refl)
      (λ _. if_elim Same (any_is core spec) (λ _ h. absurd cc) (λ _ _. refl))

module _ {N : Type 0} (U : Urls) (disk : Disk N) (l : DynamicModuleLoader N) where
  -- Nothing but the callback decides on the import.
  abbrev pub IsForCallback : ModuleRegistryState ModuleType → Text → Type 0
  IsForCallback reg spec =
      (l.imports_policy ≡ callback)
      × (known_url U disk l reg spec ≡ none)
      × ((not l.wasm && is_wasm_specifier U spec) ≡ false)
      × (starts_with (normalize_cjs_require_specifier spec) (codes "node:") ≡ false)

  carries :
      (reg : ModuleRegistryState ModuleType) (spec ref : Text)
      → IsForCallback reg spec
      → resolve_specifier_text U disk l reg spec ref ≡ done (encode_resolve_url U spec ref)
  unfolding resolve_specifier_text resolve_by_policy
  carries reg spec ref (p, known, wasm, node) =
      let Carries : Result (Urls.Url U) → Type 0 = λ r. r ≡ done (encode_resolve_url U spec ref) in
      if_elim Carries (not l.wasm && is_wasm_specifier U spec) (λ t. absurd cc)
        (λ _. rw known (
          if_elim Carries (starts_with spec (codes "node:"))
            (λ t. absurd (let g = rw (normalized_same spec node) at node in cc)) (λ _. rw p refl)))

  pub resolve-encode :
      (reg : ModuleRegistryState ModuleType) (spec ref : Text)
      → IsForCallback reg spec
      → resolve U disk l reg spec ref ≡ done (encode_resolve_url U spec ref)
  unfolding resolve
  resolve-encode reg spec ref h =
      ap (λ n. resolve_specifier_text U disk l reg n ref) (normalized_same spec h.3)
      ∙ carries reg spec ref h
