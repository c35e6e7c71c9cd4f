-- ===== src/Resolve/Node.antt =====
-- How the module loader looks for a file in the style of Node (src/worker/modules.rs): extensions, index
-- files, and the entry that package.json names. The file system and serde_json are the parameter `Disk`.
use deno_director.Prelude.{Bool, Option, none, some, List, [], ◌∷◌, ◌++◌, if◌then◌else◌}
use deno_director.Prelude.Outcome.{or_try}
use deno_director.Prelude.Text.{Text, codes, trim, is_empty}
use deno_director.Bridge.Json
use deno_director.Bridge.Json.{Json, as_str, as_object}
use deno_director.Paths.{FilePath, Files, join}
use deno_director.Paths.Names.{extension, set_extension, same_path}

pub record Disk (N : Type 0) : Type 0 where
  pub files : Files
  pub is_dir : FilePath → Bool
  pub exists : FilePath → Bool
  pub read_to_string : FilePath → Option Text
  pub from_str : Text → Option (Json N)

-- `Value::get` with a text.
unfoldable pub lookup : {N : Type 0} → Json N → Text → Option (Json N)
lookup j key = elim (as_object j) [ none ↦ none | some m ↦ Json.get m key ]

abbrev pub text_at : {N : Type 0} → Json N → Text → Option Text
text_at j key = elim (lookup j key) [ none ↦ none | some v ↦ as_str v ]

-- The entry that package.json names, if its first text is not blank.
unfoldable pub package_entry : {N : Type 0} → Json N → Option Text
package_entry j = elim (or_try (text_at j (codes "module")) (text_at j (codes "main"))) [
  | none ↦ none
  | some s ↦ if is_empty (trim s) then none else some (trim s)
]

module _ {N : Type 0} (disk : Disk N) where
  abbrev pub is_file : FilePath → Bool
  is_file p = Files.is_file disk.files p

  abbrev pub joined : FilePath → Text → FilePath
  joined dir s = join dir (Files.parse disk.files s)

  unfoldable pub try_extensions : FilePath → List Text → Option FilePath
  try_extensions candidate [] = none
  try_extensions candidate (ext ∷ exts) =
      let rest = try_extensions candidate exts in
      let pp = set_extension candidate ext in if is_file pp then some pp else rest

  unfoldable pub try_indexes : FilePath → List Text → Option FilePath
  try_indexes dir [] = none
  try_indexes dir (ext ∷ exts) =
      let rest = try_indexes dir exts in
      let idx = joined dir (codes "index." ++ ext) in if is_file idx then some idx else rest

  abbrev pub without_extension : FilePath → List Text → Option FilePath
  without_extension candidate exts = elim (extension candidate) [
    | none ↦ try_extensions candidate exts
    | some e ↦ none
  ]

  -- The parsed package.json of a directory.
  unfoldable pub read_package : FilePath → Option (Json N)
  read_package pkg_dir =
      let pkg_json = joined pkg_dir (codes "package.json") in
      if disk.exists pkg_json
      then (elim (disk.read_to_string pkg_json) [ none ↦ none | some text ↦ disk.from_str text ])
      else none

  -- The file that an entry stands for.
  unfoldable pub entry_file : FilePath → List Text → Text → Option FilePath
  entry_file pkg_dir exts entry =
      let cand = joined pkg_dir entry in
      if same_path cand pkg_dir
      then none
      else if is_file cand
      then some cand
      else or_try (without_extension cand exts)
          (if disk.is_dir cand then try_indexes cand exts else none)

  unfoldable pub resolve_node_package_dir : FilePath → List Text → Option FilePath
  resolve_node_package_dir pkg_dir exts = elim (read_package pkg_dir) [
    | none ↦ none
    | some j ↦ elim (package_entry j) [ none ↦ none | some entry ↦ entry_file pkg_dir exts entry ]
  ]

  unfoldable pub resolve_node_candidate : FilePath → List Text → Option FilePath
  resolve_node_candidate candidate exts =
      if is_file candidate
      then some candidate
      else or_try (without_extension candidate exts) (
          if disk.is_dir candidate
          then or_try (resolve_node_package_dir candidate exts) (try_indexes candidate exts)
          else none)
