-- ===== src/Paths/Inside.antt =====
-- What the filter of the sandbox lets pass (src/worker/filesystem.rs).
use deno_director.Prelude.{◌≡◌, refl, true, List, [], ◌∷◌, All, All-reverse, if_elim, arith}
use deno_director.Prelude.Text.{Text, trim, is_empty}
use deno_director.Paths.{
  Component, cur_dir, parent_dir, normal, FilePath, Files, starts_with, push_component,
  push_components, normalize_lexical_path, or_else, located, resolved, sandboxed_items,
  sandboxed_path_list,
}

-- A component that names an entry of its directory.
abbrev pub IsNormal : Component → Type 0
IsNormal (normal s) = Unit
IsNormal cur_dir = ⊥
IsNormal parent_dir = ⊥

push_component-IsNormal :
    (parts : List Component) (c : Component)
    → All IsNormal parts
    → All IsNormal (push_component true parts c)
unfolding push_component
push_component-IsNormal parts cur_dir h = h
push_component-IsNormal parts (normal s) h = (tt, h)
push_component-IsNormal [] parent_dir h = h
push_component-IsNormal (normal s ∷ parts) parent_dir h = h.1
push_component-IsNormal (cur_dir ∷ parts) parent_dir h = h.1
push_component-IsNormal (parent_dir ∷ parts) parent_dir h = h

push_components-IsNormal :
    (cs parts : List Component) → All IsNormal parts → All IsNormal (push_components true parts cs)
unfolding push_components
push_components-IsNormal [] parts h = h
push_components-IsNormal (c ∷ cs) parts h =
    push_components-IsNormal cs (push_component true parts c) (push_component-IsNormal parts c h)

-- A rooted path is normalized to names only: nothing in it leads upwards.
normalize-IsNormal :
    (path : FilePath) → path.rooted ≡ true → All IsNormal (normalize_lexical_path path).components
unfolding normalize_lexical_path
normalize-IsNormal path h =
    rw h (All-reverse IsNormal _ (push_components-IsNormal path.components [] tt))

same_rooted :
    (path base : FilePath) → starts_with path base ≡ true → base.rooted ≡ true → path.rooted ≡ true
unfolding starts_with
same_rooted path base h r = grind arith

module _ (files : Files) where
  -- The text of a path that starts with the root of the sandbox and has names only.
  abbrev pub Inside : FilePath → Text → Type 0
  Inside root text =
      (path : FilePath) × (text ≡ Files.to_text files path)
      × (starts_with path root ≡ true)
      × All IsNormal path.components

  resolved-Inside :
      (root p : FilePath)
      → root.rooted ≡ true
      → starts_with (resolved files p) root ≡ true
      → Inside root (Files.to_text files (resolved files p))
  resolved-Inside root p r h = (
    resolved files p,
    refl,
    h,
    normalize-IsNormal (or_else (Files.canonicalize files p) p)
        (unfold normalize_lexical_path in same_rooted (resolved files p) root h r),
  )

  sandboxed_items-Inside :
      (root : FilePath) (items : List Text)
      → root.rooted ≡ true
      → All (Inside root) (sandboxed_items files root items)
  unfolding sandboxed_items
  sandboxed_items-Inside root [] r = tt
  sandboxed_items-Inside root (item ∷ items) r =
      let rest = sandboxed_items-Inside root items r in
      if_elim (All (Inside root)) (is_empty (trim item)) (λ _. rest)
        (λ _.
          if_elim (All (Inside root))
            (starts_with (resolved files (located files root (trim item))) root)
            (λ h. (resolved-Inside root _ r h, rest)) (λ _. rest))

-- Every path that the filter of the sandbox lets pass starts with the canonical root and has no
-- component that leads upwards, if the root is absolute.
pub sandboxed_path_list-Inside :
    (files : Files) (root : FilePath) (items : List Text)
    → (or_else (Files.canonicalize files root) root).rooted ≡ true
    → All
        (Inside files (or_else (Files.canonicalize files root) root))
        (sandboxed_path_list files root items)
unfolding sandboxed_path_list
sandboxed_path_list-Inside files root items r = sandboxed_items-Inside files _ items r
