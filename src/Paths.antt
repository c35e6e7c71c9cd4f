-- ===== src/Paths.antt =====
-- Paths and the sandbox of a worker (src/worker/filesystem.rs, src/worker/state.rs), on a system whose
-- paths have no prefix. A path is what `Path::components` gives of it. The file system, the url crate
-- and the texts of paths are the parameter `Files`.
pub mod Inside
pub mod Names
use deno_director.Prelude.{
  Bool, true, false, ◌&&◌, Option, none, some, List, [], ◌∷◌, ◌++◌, ◌==◌, list_eq, if◌then◌else◌,
}
use mathlib.Core.List.{reverse}
use deno_director.Prelude.Text.{Text, codes, trim, is_empty}
use deno_director.Prelude.Text

pub data Component : Type 0 where
  cur_dir : Component
  parent_dir : Component
  normal : Text → Component

pub record FilePath : Type 0 where
  pub rooted : Bool
  pub components : List Component

-- What the code asks of the system and of the url crate.
pub record Files : Type 0 where
  -- `Path::new`, and `to_string_lossy`
  pub parse : Text → FilePath
  pub to_text : FilePath → Text
  -- `std::fs::canonicalize` and `is_file`
  pub canonicalize : FilePath → Option FilePath
  pub is_file : FilePath → Bool
  -- the path of a text that is a file URL, and the URL of a path
  pub file_url_path : Text → Option FilePath
  pub from_file_path : FilePath → Option Text
  pub temp_dir : FilePath
  pub current_dir : Option FilePath

abbrev pub same_component : Component → Component → Bool
same_component cur_dir cur_dir = true
same_component parent_dir parent_dir = true
same_component (normal s) (normal t) = s == t
same_component cur_dir parent_dir = false
same_component cur_dir (normal t) = false
same_component parent_dir cur_dir = false
same_component parent_dir (normal t) = false
same_component (normal s) cur_dir = false
same_component (normal s) parent_dir = false

abbrev pub same_bool : Bool → Bool → Bool
same_bool true b = b
same_bool false true = false
same_bool false false = true

unfoldable pub is_prefix : List Component → List Component → Bool
is_prefix [] path = true
is_prefix (c ∷ base) [] = false
is_prefix (c ∷ base) (d ∷ path) = let rest = is_prefix base path in same_component c d && rest

-- `Path::starts_with`, which compares whole components.
unfoldable pub starts_with : FilePath → FilePath → Bool
starts_with path base =
    same_bool base.rooted path.rooted && is_prefix base.components path.components

-- `PathBuf::join` with an absolute or a relative path.
unfoldable pub join : FilePath → FilePath → FilePath
join base path =
    if path.rooted then path else record base { components = base.components ++ path.components }

-- One component of the loop of `normalize_lexical_path`; `parts` has the last part first.
unfoldable pub push_component : Bool → List Component → Component → List Component
push_component rooted parts cur_dir = parts
push_component rooted parts (normal s) = normal s ∷ parts
push_component true [] parent_dir = []
push_component false [] parent_dir = parent_dir ∷ []
push_component rooted (normal s ∷ parts) parent_dir = parts
push_component rooted (cur_dir ∷ parts) parent_dir = parts
push_component true (parent_dir ∷ parts) parent_dir = parent_dir ∷ parts
push_component false (parent_dir ∷ parts) parent_dir = parent_dir ∷ parent_dir ∷ parts

unfoldable pub push_components : Bool → List Component → List Component → List Component
push_components rooted parts [] = parts
push_components rooted parts (c ∷ cs) = push_components rooted (push_component rooted parts c) cs

-- The empty relative path is the current directory.
abbrev pub or_current : Bool → List Component → List Component
or_current true parts = parts
or_current false [] = cur_dir ∷ []
or_current false (c ∷ parts) = c ∷ parts

unfoldable pub normalize_lexical_path : FilePath → FilePath
normalize_lexical_path path = record {
  rooted = path.rooted;
  components = or_current path.rooted (reverse (push_components path.rooted [] path.components));
}

abbrev pub or_else : Option FilePath → FilePath → FilePath
or_else none path = path
or_else (some other) path = other

module _ (files : Files) where
  abbrev is_file_url : Text → Bool
  is_file_url s = Text.starts_with s (codes "file://")

  unfoldable pub canonicalize_or_lexical : FilePath → FilePath
  canonicalize_or_lexical path =
      or_else (Files.canonicalize files path) (normalize_lexical_path path)

  unfoldable pub within_base_dir : FilePath → FilePath → Bool
  within_base_dir base_dir candidate =
      starts_with (canonicalize_or_lexical candidate) (canonicalize_or_lexical base_dir)

  unfoldable pub resolve_env_path : FilePath → Text → FilePath
  resolve_env_path base_cwd raw =
      let s = trim raw in
      or_else (if is_file_url s then Files.file_url_path files s else none)
        (join base_cwd (Files.parse files s))

  unfoldable pub normalize_cwd : Option Text → FilePath
  normalize_cwd none = join (Files.temp_dir files) (record {
    rooted = false;
    components = normal (codes "deno-director") ∷ normal (codes "sandbox") ∷ [];
  })
  normalize_cwd (some raw) =
      let s = trim raw in
      if is_empty s
      then join (Files.temp_dir files) (record {
        rooted = false;
        components = normal (codes "deno-director") ∷ normal (codes "sandbox") ∷ [];
      })
      else if is_file_url s
      then or_else (Files.file_url_path files s) (Files.parse files s)
      else join
          (or_else (Files.current_dir files) (record { rooted = false; components = cur_dir ∷ [] }))
          (Files.parse files s)

  -- A canonical file in the sandbox has a URL.
  abbrev startup_file : FilePath → Option FilePath → Option Text
  startup_file cwd none = none
  startup_file cwd (some file) =
      if starts_with file cwd && Files.is_file files file
      then Files.from_file_path files file
      else none

  abbrev startup_candidate : FilePath → Option FilePath → Option Text
  startup_candidate cwd none = none
  startup_candidate cwd (some candidate) = startup_file cwd (Files.canonicalize files candidate)

  unfoldable pub normalize_startup_url : FilePath → Option Text → Option Text
  normalize_startup_url cwd none = none
  normalize_startup_url cwd (some raw) =
      let s = trim raw in
      let cwd_abs = or_else (Files.canonicalize files cwd) cwd in
      if is_empty s
      then none
      else startup_candidate cwd_abs (
          if is_file_url s
          then Files.file_url_path files s
          else some (join cwd_abs (Files.parse files s)))

  -- The path that an item of a list of the sandbox stands for.
  unfoldable pub located : FilePath → Text → FilePath
  located root_abs it =
      if is_file_url it
      then or_else (Files.file_url_path files it) root_abs
      else join root_abs (Files.parse files it)

  abbrev pub resolved : FilePath → FilePath
  resolved p = normalize_lexical_path (or_else (Files.canonicalize files p) p)

  unfoldable pub sandboxed_items : FilePath → List Text → List Text
  sandboxed_items root_abs [] = []
  sandboxed_items root_abs (item ∷ items) =
      let rest = sandboxed_items root_abs items in
      let it = trim item in
      let abs = resolved (located root_abs it) in
      if is_empty it
      then rest
      else if starts_with abs root_abs
      then Files.to_text files abs ∷ rest
      else rest

  unfoldable pub sandboxed_path_list : FilePath → List Text → List Text
  sandboxed_path_list root items =
      sandboxed_items (or_else (Files.canonicalize files root) root) items
