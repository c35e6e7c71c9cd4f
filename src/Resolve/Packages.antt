-- ===== src/Resolve/Packages.antt =====
-- `try_node_resolve_disk` of src/worker/modules.rs: relative and absolute paths, and packages in the
-- node_modules of the sandbox.
use deno_director.Prelude.{Bool, not, ◌||◌, Option, none, some, List, [], ◌∷◌, ◌++◌, if◌then◌else◌}
use deno_director.Prelude.Outcome.{Search, found, missing, crashed, from_option}
use deno_director.Prelude.Text.{Text, codes, starts_with, split_once}
use deno_director.Paths.{FilePath, or_else}
use deno_director.Paths.Names.{parent}
use deno_director.LoaderConfig.{Urls, DynamicModuleLoader}
use deno_director.Loader.{node_disk_resolve_enabled}
use deno_director.Loader.Specifiers.{is_bare_specifier}
use deno_director.Resolve.Node.{Disk, joined, resolve_node_candidate}
use deno_director.Resolve.Exports.{found_or, resolve_node_package_exports}

unfoldable pub is_path_specifier : Text → Bool
is_path_specifier s =
    starts_with s (codes "./") || starts_with s (codes "../") || starts_with s (codes "/")

abbrev pub all_extensions : List Text
all_extensions = codes "js" ∷ codes "mjs" ∷ codes "cjs" ∷ codes "ts" ∷ codes "mts" ∷ []

abbrev pub package_extensions : List Text
package_extensions = codes "js" ∷ codes "mjs" ∷ codes "cjs" ∷ []

abbrev rest_of : Text → Text × Option Text
rest_of s = elim (split_once s b'/') [ none ↦ (s, none) | some w ↦ (w.0, some w.1) ]

-- The name of the package in a specifier, and the subpath behind it.
unfoldable pub split_package : Text → Option (Text × Option Text)
split_package specifier =
    if starts_with specifier (codes "@")
    then (elim (split_once specifier b'/') [
      | none ↦ none
      | some w ↦ (let (name, rest) = rest_of w.1 in some (w.0 ++ codes "/" ++ name, rest))
    ])
    else some (rest_of specifier)

module _ {N : Type 0} (U : Urls) (disk : Disk N) (l : DynamicModuleLoader N) where
  -- The URL of a file that was found.
  abbrev pub url_of : Search FilePath → Search (Urls.Url U)
  url_of missing = missing
  url_of crashed = crashed
  url_of (found path) = from_option (Urls.from_file_path U path)

  abbrev parent_of : Option (Urls.Url U) → Option FilePath
  parent_of none = none
  parent_of (some u) = elim (Urls.to_file_path U u) [ none ↦ none | some p ↦ parent p ]

  -- The directory of the referrer, if that is a file, or the root of the sandbox.
  unfoldable pub base_dir : Text → FilePath
  base_dir referrer =
      if starts_with referrer (codes "file://")
      then or_else (parent_of (Urls.parse U referrer)) l.sandbox_root
      else l.sandbox_root

  -- `PathBuf::join` takes an absolute specifier as it is.
  unfoldable pub resolve_path : Text → Text → Search FilePath
  resolve_path specifier referrer =
      from_option
        (resolve_node_candidate disk (joined disk (base_dir referrer) specifier) all_extensions)

  -- The package itself, or a subpath of it.
  abbrev pub resolve_inside : FilePath → Option Text → Search FilePath
  resolve_inside pkg_dir none = from_option (resolve_node_candidate disk pkg_dir package_extensions)
  resolve_inside pkg_dir (some sp) =
      found_or (resolve_node_candidate disk (joined disk pkg_dir sp) all_extensions)
        (resolve_node_package_exports disk pkg_dir all_extensions sp)

  unfoldable pub resolve_package : Text → Option Text → Search FilePath
  resolve_package pkg subpath =
      let pkg_dir = joined disk (joined disk l.sandbox_root (codes "node_modules")) pkg in
      if not (disk.exists pkg_dir) then missing else resolve_inside pkg_dir subpath

  unfoldable pub search_disk : Text → Text → Search FilePath
  search_disk specifier referrer =
      if is_path_specifier specifier
      then resolve_path specifier referrer
      else if is_bare_specifier specifier
      then (elim (split_package specifier) [ none ↦ missing | some w ↦ resolve_package w.0 w.1 ])
      else missing

  unfoldable pub try_node_resolve_disk : Text → Text → Search (Urls.Url U)
  try_node_resolve_disk specifier referrer =
      if node_disk_resolve_enabled l then url_of (search_disk specifier referrer) else missing
