-- ===== src/Paths/Names.antt =====
-- The methods of Rust's `Path` that look at the last component of a path, on the paths of Paths.
use deno_director.Prelude.{Bool, ◌&&◌, Option, none, some, List, [], ◌∷◌, ◌++◌}
use mathlib.Core.List.{reverse}
use deno_director.Prelude.Text.{Text, codes, rsplit_once}
use deno_director.Paths.{Component, cur_dir, parent_dir, normal, FilePath, same_bool, is_prefix}

abbrev named : List Component → Option Text
named [] = none
named (normal s ∷ cs) = some s
named (cur_dir ∷ cs) = none
named (parent_dir ∷ cs) = none

unfoldable pub file_name : FilePath → Option Text
file_name path = named (reverse path.components)

-- What stands before and behind the last dot of a name, which is not its first character.
unfoldable pub split_name : Text → Option (Text × Text)
split_name name = elim (rsplit_once name b'.') [
  | none ↦ none
  | some w ↦ elim w.0 [ [] ↦ none | c ∷ s ↦ some w ]
]

unfoldable pub extension : FilePath → Option Text
extension path = elim (file_name path) [
  | none ↦ none
  | some name ↦ elim (split_name name) [ none ↦ none | some w ↦ some w.1 ]
]

abbrev file_stem : Text → Text
file_stem name = elim (split_name name) [ none ↦ name | some w ↦ w.0 ]

-- The components without the last one.
abbrev tail : List Component → List Component
tail [] = []
tail (c ∷ cs) = cs

-- `PathBuf::set_extension` with an extension that is not empty.
unfoldable pub set_extension : FilePath → Text → FilePath
set_extension path ext = elim (file_name path) [
  | none ↦ path
  | some name ↦ record path {
    components =
        reverse (tail (reverse path.components))
        ++ (normal (file_stem name ++ codes "." ++ ext) ∷ []);
  }
]

unfoldable pub parent : FilePath → Option FilePath
parent path = elim path.components [
  | [] ↦ none
  | c ∷ cs ↦ some (record path { components = reverse (tail (reverse (c ∷ cs))) })
]

-- `==` on paths compares whole components.
unfoldable pub same_path : FilePath → FilePath → Bool
same_path p q =
    same_bool p.rooted q.rooted
    && is_prefix p.components q.components
    && is_prefix q.components p.components
