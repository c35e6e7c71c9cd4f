-- ===== src/Resolve/Sandbox.antt =====
-- The sandbox of file imports, and the URLs that carry an import to the callback of the user
-- (src/worker/modules.rs, src/worker/filesystem.rs).
use deno_director.Prelude.{
  Bool, false, not, ◌||◌, Option, none, some, List, [], ◌∷◌, ◌==◌, list_eq, if◌then◌else◌,
}
use deno_director.Prelude.Text.{Text, codes}
use deno_director.Paths
use deno_director.Paths.{FilePath, Files, normalize_lexical_path, or_else}
use deno_director.LoaderConfig.{Urls, DynamicModuleLoader}

module _ {N : Type 0} (U : Urls) (files : Files) (l : DynamicModuleLoader N) where
  -- The root of the sandbox, canonical if it exists.
  abbrev pub root_abs : FilePath
  root_abs = or_else (Files.canonicalize files l.sandbox_root) l.sandbox_root

  unfoldable pub within_sandbox : Urls.Url U → Bool
  within_sandbox u = elim (Urls.to_file_path U u) [
    | none ↦ false
    | some path ↦
        let cand_lex = normalize_lexical_path path in
        let cand_abs = or_else (Files.canonicalize files path) cand_lex in
        Paths.starts_with cand_abs root_abs || Paths.starts_with cand_lex root_abs
  ]

module _ (U : Urls) where
  unfoldable pub encode_resolve_url : Text → Text → Urls.Url U
  encode_resolve_url specifier referrer =
      Urls.with_query_pairs U (codes "denojs-worker://resolve")
        ((codes "specifier", specifier) ∷ (codes "referrer", referrer) ∷ [])

  -- The last pair with a key is the one that counts.
  unfoldable pub scan_pairs :
      Option Text → Option Text → List (Text × Text) → Option Text × Option Text
  scan_pairs spec referrer [] = (spec, referrer)
  scan_pairs spec referrer ((k, v) ∷ pairs) =
      if k == codes "specifier"
      then scan_pairs (some v) referrer pairs
      else if k == codes "referrer"
      then scan_pairs spec (some v) pairs
      else scan_pairs spec referrer pairs

  -- Without a referrer the text is empty.
  abbrev pub carried : Option Text × Option Text → Option (Text × Text)
  carried (none, referrer) = none
  carried (some spec, none) = some (spec, [])
  carried (some spec, some referrer) = some (spec, referrer)

  unfoldable pub decode_resolve_url : Urls.Url U → Option (Text × Text)
  decode_resolve_url u =
      if not (Urls.scheme U u == codes "denojs-worker")
      then none
      else carried (scan_pairs none none (Urls.query_pairs U u))

  unfoldable pub original_spec_and_referrer : Urls.Url U → Option (Urls.Url U) → Text × Text
  original_spec_and_referrer module_specifier referrer =
      elim (decode_resolve_url module_specifier) [
        | some w ↦ w
        | none ↦ (
          Urls.display U module_specifier,
          elim referrer [ none ↦ [] | some r ↦ Urls.display U r ],
        )
      ]

  -- `Url::parse` of a fixed file URL does not fail, and its text is itself.
  unfoldable pub dir_url_from_path : FilePath → Text
  dir_url_from_path p = elim (Urls.from_directory_path U p) [
    | some u ↦ Urls.display U u
    | none ↦ codes "file:///"
  ]

  unfoldable pub should_wrap_with_redirect : Urls.Url U → Bool
  should_wrap_with_redirect requested = Urls.scheme U requested == codes "denojs-worker"
