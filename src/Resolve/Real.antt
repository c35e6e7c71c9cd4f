-- ===== src/Resolve/Real.antt =====
-- What the resolution in the style of Node finds, and when it panics (src/worker/modules.rs).
use deno_director.Prelude.{
  ◌⊎◌, Bool-cases, ◌≡◌, refl, inl, inr, true, false, ◌++◌, Option, none, some, List, list_eq,
  Option-cases, if_elim,
}
use deno_director.Prelude.Outcome.{Search, found, missing, crashed, from_option}
use deno_director.Prelude.Text.{Text, codes}
use deno_director.Prelude.Patterns.{trim_start_here}
use deno_director.Bridge.Json.{Json, Fields}
use deno_director.Paths.{FilePath}
use deno_director.LoaderConfig.{Urls, DynamicModuleLoader}
use deno_director.Loader.{node_disk_resolve_enabled}
use deno_director.Loader.Specifiers.{is_bare_specifier}
use deno_director.Resolve.Node.{Disk, lookup, read_package, is_file, joined, resolve_node_candidate}
use deno_director.Resolve.Exports.{
  search_exports, resolve_node_package_exports, exact, pick_field, found_or,
}
use deno_director.Resolve.Packages.{
  is_path_specifier, split_package, url_of, resolve_path, resolve_inside, resolve_package,
  all_extensions, package_extensions, base_dir, search_disk, try_node_resolve_disk,
}
use deno_director.Resolve.Found.{
  HasOverlap, Honest, candidate-IsFile, target-IsFile, found_or-Honest, patterns-Honest,
}

module _ {N : Type 0} (disk : Disk N) where
  -- What a search on disk finds is a file, and it panics only in a given case.
  abbrev pub Real : Type 0 → Search FilePath → Type 0
  Real Panic (found p) = is_file disk p ≡ true
  Real Panic missing = Unit
  Real Panic crashed = Panic

  -- The exports of the package in the directory have a pattern whose prefix and suffix overlap in the
  -- request.
  abbrev pub OverlapsIn : FilePath → Text → Type 0
  OverlapsIn dir request =
      (pkg : Json N) × (m : Fields N) × (read_package disk dir ≡ some pkg)
      × (lookup pkg (codes "exports") ≡ some (Json.object m))
      × HasOverlap disk request m

  weaken : (P Q : Type 0) (r : Search FilePath) → (P → Q) → Real P r → Real Q r
  weaken P Q (found p) k h = h
  weaken P Q missing k h = tt
  weaken P Q crashed k h = k h

  from_option-Real :
      (Panic : Type 0) (o : Option FilePath)
      → ((p : FilePath) → o ≡ some p → is_file disk p ≡ true)
      → Real Panic (from_option o)
  from_option-Real Panic none h = tt
  from_option-Real Panic (some p) h = h p refl

  Honest-Real :
      (dir : FilePath) (pkg : Json N) (m : Fields N) (request : Text) (r : Search FilePath)
      → read_package disk dir ≡ some pkg
      → lookup pkg (codes "exports") ≡ some (Json.object m)
      → Honest disk request m r
      → Real (OverlapsIn dir request) r
  Honest-Real dir pkg m request (found p) e f h = h
  Honest-Real dir pkg m request missing e f h = tt
  Honest-Real dir pkg m request crashed e f h = (pkg, m, e, f, h)

  module _ (dir : FilePath) (exts : List Text) where
    exact-IsFile :
        (o : Option Text) (p : FilePath) → exact disk dir exts o ≡ some p → is_file disk p ≡ true
    exact-IsFile none p h = absurd cc
    exact-IsFile (some t) p h = target-IsFile disk dir exts t p h

    exports-Real :
        (pkg exports : Json N) (request : Text)
        → read_package disk dir ≡ some pkg
        → lookup pkg (codes "exports") ≡ some exports
        → Real (OverlapsIn dir request) (search_exports disk dir exts request exports)
    unfolding search_exports
    exports-Real pkg (Json.object m) request e f = Honest-Real dir pkg m request _ e f (
        found_or-Honest disk request m (exact disk dir exts (pick_field m request)) _
          (exact-IsFile (pick_field m request)) (patterns-Honest disk dir exts request m))
    exports-Real pkg (Json.string s) request e f = from_option-Real _ _ (exact-IsFile _)
    exports-Real pkg (Json.array a) request e f = from_option-Real _ _ (exact-IsFile _)
    exports-Real pkg Json.null request e f = tt
    exports-Real pkg (Json.bool b) request e f = tt
    exports-Real pkg (Json.number n) request e f = tt

    package_exports-Real :
        (Panic : Type 0) (subpath : Text)
        → (OverlapsIn dir (codes "./" ++ trim_start_here subpath) → Panic)
        → Real Panic (resolve_node_package_exports disk dir exts subpath)
    unfolding resolve_node_package_exports
    package_exports-Real Panic subpath k = elim (Option-cases (read_package disk dir)) [
      | inl e ↦ rw (resolve_node_package_exports, e) tt
      | inr (pkg, e) ↦ elim (Option-cases (lookup pkg (codes "exports"))) [
        | inl f ↦ rw (resolve_node_package_exports, e, f) tt
        | inr (exports, f) ↦
            rw (resolve_node_package_exports, e, f)
              (weaken (OverlapsIn dir (codes "./" ++ trim_start_here subpath)) Panic _ k
                (exports-Real pkg exports _ e f))
      ]
    ]

    candidate-Real :
        (Panic : Type 0) (candidate : FilePath)
        → Real Panic (from_option (resolve_node_candidate disk candidate exts))
    candidate-Real Panic candidate =
        from_option-Real Panic _ (λ p h. candidate-IsFile disk candidate p exts h)

module _ {N : Type 0} (U : Urls) (disk : Disk N) (l : DynamicModuleLoader N) where
  -- The directory of a package of that name.
  abbrev pub package_dir : Text → FilePath
  package_dir pkg = joined disk (joined disk l.sandbox_root (codes "node_modules")) pkg

  -- The specifier is bare and names a subpath of a package that is there, the subpath is no file, and an
  -- exports pattern of the package overlaps in the request for the subpath.
  abbrev pub PanicsOn : Text → Type 0
  PanicsOn specifier =
      (pkg sp : Text) × (is_path_specifier specifier ≡ false)
      × (is_bare_specifier specifier ≡ true)
      × (split_package specifier ≡ some (pkg, some sp))
      × (disk.exists (package_dir pkg) ≡ true)
      × (resolve_node_candidate disk (joined disk (package_dir pkg) sp) all_extensions ≡ none)
      × OverlapsIn disk (package_dir pkg) (codes "./" ++ trim_start_here sp)

  module _ (specifier pkg : Text) (path : is_path_specifier specifier ≡ false)
      (bare : is_bare_specifier specifier ≡ true)
      (there : disk.exists (package_dir pkg) ≡ true) where
    subpath-Real :
        (sp : Text) (o : Option FilePath)
        → split_package specifier ≡ some (pkg, some sp)
        → resolve_node_candidate disk (joined disk (package_dir pkg) sp) all_extensions ≡ o
        → Real disk
            (PanicsOn specifier)
            (found_or o (resolve_node_package_exports disk (package_dir pkg) all_extensions sp))
    subpath-Real sp none e n =
        package_exports-Real disk (package_dir pkg) all_extensions (PanicsOn specifier) sp
          (λ h. (pkg, sp, path, bare, e, there, n, h))
    subpath-Real sp (some p) e n = candidate-IsFile disk _ p all_extensions n

    inside-Real :
        (subpath : Option Text)
        → split_package specifier ≡ some (pkg, subpath)
        → Real disk (PanicsOn specifier) (resolve_inside U disk l (package_dir pkg) subpath)
    inside-Real none e = candidate-Real disk (package_dir pkg) package_extensions _ _
    inside-Real (some sp) e = subpath-Real sp _ e refl

  package-Real :
      (specifier pkg : Text) (subpath : Option Text)
      → is_path_specifier specifier ≡ false
      → is_bare_specifier specifier ≡ true
      → split_package specifier ≡ some (pkg, subpath)
      → Real disk (PanicsOn specifier) (resolve_package U disk l pkg subpath)
  unfolding resolve_package
  package-Real specifier pkg subpath path bare e =
      elim (Bool-cases (disk.exists (package_dir pkg))) [
        | inl there ↦ rw there (inside-Real specifier pkg path bare there subpath e)
        | inr absent ↦ rw absent tt
      ]

  split-Real :
      (specifier : Text) (o : Option (Text × Option Text))
      → is_path_specifier specifier ≡ false
      → is_bare_specifier specifier ≡ true
      → split_package specifier ≡ o
      → Real disk
          (PanicsOn specifier)
          (elim o [ none ↦ missing | some w ↦ resolve_package U disk l w.0 w.1 ])
  split-Real specifier none path bare e = tt
  split-Real specifier (some (pkg, subpath)) path bare e =
      package-Real specifier pkg subpath path bare e

  search-Real :
      (specifier referrer : Text)
      → Real disk (PanicsOn specifier) (search_disk U disk l specifier referrer)
  unfolding search_disk resolve_path
  search-Real specifier referrer =
      if_elim (Real disk (PanicsOn specifier)) (is_path_specifier specifier)
        (λ _. candidate-Real disk (base_dir U disk l referrer) all_extensions _ _)
        (λ path.
          if_elim (Real disk (PanicsOn specifier)) (is_bare_specifier specifier)
            (λ bare. split-Real specifier (split_package specifier) path bare refl) (λ _. tt))

  -- The URL is that of a file, and a panic comes of the specifier.
  abbrev pub IsOfFile : Text → Search (Urls.Url U) → Type 0
  IsOfFile specifier (found u) =
      (path : FilePath) × (Urls.from_file_path U path ≡ some u) × (is_file disk path ≡ true)
  IsOfFile specifier missing = Unit
  IsOfFile specifier crashed = PanicsOn specifier

  from_option-IsOfFile :
      (specifier : Text) (path : FilePath) (o : Option (Urls.Url U))
      → Urls.from_file_path U path ≡ o
      → is_file disk path ≡ true
      → IsOfFile specifier (from_option o)
  from_option-IsOfFile specifier path none e h = tt
  from_option-IsOfFile specifier path (some u) e h = (path, e, h)

  url-IsOfFile :
      (specifier : Text) (r : Search FilePath)
      → Real disk (PanicsOn specifier) r
      → IsOfFile specifier (url_of U disk l r)
  url-IsOfFile specifier (found path) h = from_option-IsOfFile specifier path _ refl h
  url-IsOfFile specifier missing h = tt
  url-IsOfFile specifier crashed h = h

  -- What the resolution in the style of Node finds is the URL of a file that exists. It panics only if
  -- the specifier is bare and names a subpath of a package whose directory exists, the subpath itself
  -- leads to no file, and the exports in the package.json of that directory have a pattern whose prefix
  -- and suffix both fit the request for the subpath and overlap in it. It finds nothing while it is
  -- switched off.
  pub try_node_resolve_disk-IsOfFile :
      (specifier referrer : Text)
      → IsOfFile specifier (try_node_resolve_disk U disk l specifier referrer)
        × ((node_disk_resolve_enabled l ≡ true)
            ⊎ (try_node_resolve_disk U disk l specifier referrer ≡ missing))
  unfolding try_node_resolve_disk
  try_node_resolve_disk-IsOfFile specifier referrer = (
    if_elim (IsOfFile specifier) (node_disk_resolve_enabled l)
        (λ _. url-IsOfFile specifier _ (search-Real specifier referrer)) (λ _. tt),
    elim (Bool-cases (node_disk_resolve_enabled l)) [ inl e ↦ inl e | inr e ↦ inr (rw e refl) ],
  )
