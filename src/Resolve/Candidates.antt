-- ===== src/Resolve/Candidates.antt =====
-- The search for a file in the style of Node (src/worker/modules.rs), against the list of the paths that it
-- tries.
use deno_director.Prelude.{
  ◌≡◌, refl, sym, Bool, true, false, Option, none, some, List, [], ◌∷◌, ◌++◌, map, arith,
  Bool-cases, Option-cases, inl, inr, if◌then◌else◌,
}
use deno_director.Prelude.Outcome.{or_try}
use deno_director.Prelude.Text.{Text, codes}
use deno_director.Paths.{FilePath}
use deno_director.Paths.Names.{extension, set_extension, same_path}
use deno_director.Resolve.Node.{
  Disk, package_entry, is_file, joined, try_extensions, try_indexes, without_extension,
  read_package, entry_file, resolve_node_package_dir, resolve_node_candidate,
}

module _ {N : Type 0} (disk : Disk N) where
  -- The first path of a list that is a file.
  unfoldable pub first_file : List FilePath → Option FilePath
  first_file [] = none
  first_file (p ∷ ps) = let rest = first_file ps in if is_file disk p then some p else rest

  -- A path without an extension is tried with each of them.
  unfoldable pub with_extensions : FilePath → List Text → List FilePath
  with_extensions p exts = elim (extension p) [
    | none ↦ map (λ e. set_extension p e) exts
    | some e ↦ []
  ]

  unfoldable pub indexes : FilePath → List Text → List FilePath
  indexes p exts = map (λ e. joined disk p (codes "index." ++ e)) exts

  unfoldable pub entry_paths : FilePath → List Text → Text → List FilePath
  entry_paths dir exts entry =
      let cand = joined disk dir entry in
      if same_path cand dir
      then []
      else cand
        ∷ (with_extensions cand exts ++ (if disk.is_dir cand then indexes cand exts else []))

  -- The paths of the entry that package.json names.
  unfoldable pub package_paths : FilePath → List Text → List FilePath
  package_paths dir exts = elim (read_package disk dir) [
    | none ↦ []
    | some j ↦ elim (package_entry j) [ none ↦ [] | some entry ↦ entry_paths dir exts entry ]
  ]

  -- The path itself, then with an extension, then, for a directory, its entry and its index files.
  unfoldable pub candidates : FilePath → List Text → List FilePath
  candidates p exts =
      p
      ∷ (with_extensions p exts
          ++ (if disk.is_dir p then package_paths p exts ++ indexes p exts else []))

  first_file-append :
      (ps qs : List FilePath) → first_file (ps ++ qs) ≡ or_try (first_file ps) (first_file qs)
  unfolding first_file
  first_file-append [] qs = refl
  first_file-append (p ∷ ps) qs = rw (first_file-append ps qs) (ground arith)

  try_extensions_lem :
      (p : FilePath) (exts : List Text)
      → try_extensions disk p exts ≡ first_file (map (λ e. set_extension p e) exts)
  unfolding first_file try_extensions
  try_extensions_lem p [] = refl
  try_extensions_lem p (e ∷ exts) = rw (try_extensions_lem p exts) refl

  try_indexes_lem :
      (p : FilePath) (exts : List Text) → try_indexes disk p exts ≡ first_file (indexes p exts)
  unfolding first_file try_indexes indexes
  try_indexes_lem p [] = refl
  try_indexes_lem p (e ∷ exts) = rw (try_indexes_lem p exts) refl

  without_extension_lem :
      (p : FilePath) (exts : List Text)
      → without_extension disk p exts ≡ first_file (with_extensions p exts)
  unfolding first_file with_extensions
  without_extension_lem p exts = elim (Option-cases (extension p)) [
    | inl e ↦ rw (without_extension, with_extensions, e) (try_extensions_lem p exts)
    | inr (x, e) ↦ rw (without_extension, with_extensions, e) refl
  ]

  first_file_if :
      (b : Bool) (ps : List FilePath)
      → first_file (if b then ps else []) ≡ (if b then first_file ps else none)
  unfolding first_file
  first_file_if true ps = refl
  first_file_if false ps = refl

  entry_file_lem :
      (dir : FilePath) (exts : List Text) (entry : Text)
      → entry_file disk dir exts entry ≡ first_file (entry_paths dir exts entry)
  unfolding entry_file first_file entry_paths
  entry_file_lem dir exts entry =
      let cand = joined disk dir entry in
      elim (Bool-cases (same_path cand dir)) [
        | inl e ↦ rw (entry_file, entry_paths, e) refl
        | inr e ↦
            rw
              (
                entry_file,
                entry_paths,
                e,
                without_extension_lem cand exts,
                try_indexes_lem cand exts,
                sym (first_file_if (disk.is_dir cand) (indexes cand exts)),
                sym (
                    first_file-append (with_extensions cand exts)
                      (if disk.is_dir cand then indexes cand exts else [])),
              )
              refl
      ]

  package_dir_lem :
      (dir : FilePath) (exts : List Text)
      → resolve_node_package_dir disk dir exts ≡ first_file (package_paths dir exts)
  unfolding resolve_node_package_dir first_file package_paths
  package_dir_lem dir exts = elim (Option-cases (read_package disk dir)) [
    | inl e ↦ rw (resolve_node_package_dir, package_paths, e) refl
    | inr (j, e) ↦ elim (Option-cases (package_entry j)) [
      | inl g ↦ rw (resolve_node_package_dir, package_paths, e, g) refl
      | inr (entry, g) ↦
          rw (resolve_node_package_dir, package_paths, e, g) (entry_file_lem dir exts entry)
    ]
  ]

  -- The search for a file in the style of Node returns the first path that is a file of these: the
  -- candidate, the candidate with each extension if it has none, and for a directory the entry that its
  -- package.json names, searched for in the same way without reading another package.json, and its
  -- index files.
  pub resolve_node_candidate-first_file :
      (candidate : FilePath) (exts : List Text)
      → resolve_node_candidate disk candidate exts ≡ first_file (candidates candidate exts)
  unfolding resolve_node_candidate first_file candidates
  resolve_node_candidate-first_file p exts =
      rw
        (
          resolve_node_candidate,
          candidates,
          without_extension_lem p exts,
          package_dir_lem p exts,
          try_indexes_lem p exts,
          sym (first_file-append (package_paths p exts) (indexes p exts)),
          sym (first_file_if (disk.is_dir p) (package_paths p exts ++ indexes p exts)),
          sym (
              first_file-append (with_extensions p exts)
                (if disk.is_dir p then package_paths p exts ++ indexes p exts else [])),
        )
        refl
