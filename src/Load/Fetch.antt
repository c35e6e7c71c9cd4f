-- ===== src/Load/Fetch.antt =====
-- Remote modules (src/worker/modules.rs): the cache on disk, and the body of a response with the limit on
-- its size.
use deno_director.Prelude.{
  ◌⊎◌, inl, inr, ℕ, ◌+◌, Bool, false, not, Option, none, some, List, [], ◌∷◌, ◌++◌, ltb, length,
  take, map, min, if◌then◌else◌,
}
use deno_director.Prelude.Int.{ℤ, pos, negsuc}
use deno_director.Prelude.Outcome.{Result, done, failed, panicked}
use deno_director.Prelude.Text.{Text, codes, decimal}
use deno_director.Prelude.Utf8.{from_utf8}
use deno_director.Paths.{FilePath}
use deno_director.LoaderConfig.{Urls, DynamicModuleLoader}
use deno_director.Loader.{module_loader_cfg}
use deno_director.Resolve.Node.{joined}
use deno_director.Resolve.Wasm.{module_ext}
use deno_director.Load.World.{
  Body, finish, broken, chunk, Response, World, Effect, fetches, follows, reads_cache, writes_cache,
  Attempt,
}
use deno_director.Paths.{Files}

-- A negative limit is none.
unfoldable pub limit_of : ℤ → Option ℕ
limit_of (pos n) = some n
limit_of (negsuc n) = none

unfoldable pub saturating_add : ℕ → ℕ → ℕ
saturating_add a b = min (a + b) 0xFFFF_FFFF_FFFF_FFFF

abbrev pub exceeds : Option ℕ → ℕ → Bool
exceeds none n = false
exceeds (some limit) n = ltb limit n

abbrev limit_text : Option ℕ → Text
limit_text none = []
limit_text (some limit) = decimal limit

abbrev pub too_large : Option ℕ → Text → Text
too_large limit url =
    codes "Remote payload too large: exceeds limit " ++ limit_text limit ++ codes " for " ++ url

-- The loop over the chunks.
unfoldable pub read_body : Option ℕ → Text → List ℕ → Body → Text ⊎ List ℕ
read_body limit url bytes finish = inr bytes
read_body limit url bytes (broken e) = inl (codes "Remote body read failed: " ++ e)
read_body limit url bytes (chunk c body) =
    let rest = read_body limit url (bytes ++ c) body in
    if exceeds limit (saturating_add (length bytes) (length c))
    then inl (too_large limit url)
    else rest

abbrev announced : Response → ℕ
announced resp = elim resp.content_length [ none ↦ 0 | some n ↦ n ]

-- The length that a response announces is too large.
abbrev pub announces_too_much : Option ℕ → Option ℕ → Bool
announces_too_much limit none = false
announces_too_much limit (some n) = exceeds limit n

module _ {N : Type 0} (U : Urls) (w : World N U) where
  abbrev pub decoded : Text ⊎ List ℕ → Result Text
  decoded (inl e) = failed e
  decoded (inr bytes) = elim (from_utf8 bytes) [
    | none ↦ failed (codes "Remote body decode failed: " ++ w.utf8_error bytes)
    | some s ↦ done s
  ]

  unfoldable pub accept_response : Option ℕ → Text → Response → Result Text
  accept_response limit url resp =
      if not resp.is_success
      then failed (codes "Remote fetch failed (status=" ++ resp.status ++ codes "): " ++ url)
      else if announces_too_much limit resp.content_length
      then failed (
          codes "Remote payload too large: "
          ++ decimal (announced resp)
          ++ codes " bytes exceeds limit "
          ++ limit_text limit
          ++ codes " for "
          ++ url)
      else decoded (read_body limit url [] resp.body)

  unfoldable pub fetch_remote_text : Urls.Url U → ℤ → Result Text
  fetch_remote_text u max_payload_bytes = elim w.client_error [
    | some e ↦ failed (codes "Remote fetch client build failed: " ++ e)
    | none ↦ elim (w.send u) [
      | inl e ↦ failed (codes "Remote fetch failed: " ++ e)
      | inr resp ↦ accept_response (limit_of max_payload_bytes) (Urls.display U u) resp
    ]
  ]

module _ {N : Type 0} (U : Urls) (w : World N U) (l : DynamicModuleLoader N) where
  unfoldable pub remote_cache_path : Urls.Url U → FilePath
  remote_cache_path u =
      let base : FilePath = elim (module_loader_cfg l).cache_dir [
        | some dir ↦ Files.parse w.disk.files dir
        | none ↦ joined w.disk l.sandbox_root (codes ".deno_remote_cache")
      ] in
      joined w.disk base (w.hash (some (Urls.display U u) ∷ []) ++ codes "." ++ module_ext U u)

  -- The policy of the client follows so many redirects, to whatever URL.
  abbrev pub max_redirects : ℕ
  max_redirects = 10

  -- What goes over the network for a URL, if there is a client.
  unfoldable pub requests : Urls.Url U → List (Effect (Urls.Url U))
  requests u = elim w.client_error [
    | some e ↦ []
    | none ↦ fetches u ∷ map (follows u) (take max_redirects (w.redirects u))
  ]

  -- Only a text that was fetched is stored.
  abbrev pub saves : FilePath → Result Text → List (Effect (Urls.Url U))
  saves path (done s) = writes_cache path s ∷ []
  saves path (failed e) = []
  saves path panicked = []

  unfoldable pub fetch_and_store : Urls.Url U → Attempt U Text
  fetch_and_store u =
      let r : Result Text = fetch_remote_text U w u (module_loader_cfg l).max_payload_bytes in
      record { effects = requests u ++ saves (remote_cache_path u) r; result = r }

  abbrev pub after_cache : FilePath → Attempt U Text → Attempt U Text
  after_cache path a = record a { effects = reads_cache path ∷ a.effects }

  unfoldable pub read_or_fetch_remote_source : Urls.Url U → Attempt U Text
  read_or_fetch_remote_source u =
      let path = remote_cache_path u in
      if (module_loader_cfg l).reload
      then fetch_and_store u
      else after_cache path (elim (w.disk.read_to_string path) [
        | some hit ↦ record { effects = []; result = done hit }
        | none ↦ fetch_and_store u
      ])
