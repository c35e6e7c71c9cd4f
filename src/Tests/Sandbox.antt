-- ===== src/Tests/Sandbox.antt =====
-- Runs of the permissions and paths of src/worker/state.rs, src/worker/runtime.rs and
-- src/worker/filesystem.rs, and the theorems at these runs.
use deno_director.Prelude.{
  ℕ, ◌≡◌, refl, true, false, none, some, List, [], ◌∷◌, list_beq, if◌then◌else◌,
}
use deno_director.Prelude.Text
use deno_director.Prelude.Text.{Text, codes, trim}
use deno_director.Bridge.Json
use deno_director.Bridge.Json.{Json}
use deno_director.Env.{string_items}
use deno_director.Paths
use deno_director.Paths.{
  FilePath, Files, cur_dir, parent_dir, normal, located, sandboxed_items, sandboxed_path_list,
}
use deno_director.Permissions.{apply_perm_field}
use deno_director.Permissions.Options.{permissions_from_limits}
use deno_director.Permissions.Sandbox.{BothConfined, canonical, permissions_from_limits-Within}

-- The root of the sandbox, and two paths that are written relative to it.
abbrev sandbox : FilePath
sandbox = record { rooted = true; components = normal (codes "box") ∷ [] }

abbrev in_data : FilePath
in_data = record { rooted = false; components = normal (codes "data") ∷ [] }

abbrev upwards : FilePath
upwards = record { rooted = false; components = parent_dir ∷ normal (codes "etc") ∷ [] }

abbrev parsed : Text → FilePath
parsed [] = in_data
parsed (c ∷ s) = if Text.starts_with (c ∷ s) (codes "..") then upwards else in_data

abbrev printed : FilePath → Text
printed path = if path.rooted then codes "/" else codes "."

-- A disk without links on which no file exists.
abbrev empty_disk : Files
empty_disk = record {
  parse = parsed;
  to_text = printed;
  canonicalize = λ path. none;
  is_file = λ path. false;
  file_url_path = λ s. none;
  from_file_path = λ path. none;
  temp_dir = sandbox;
  current_dir = some sandbox;
}

-- A list with the path above the root only: nothing of it is left.
abbrev outside : List Text
outside = codes "../etc" ∷ []

nothing_left : sandboxed_path_list empty_disk sandbox outside ≡ []
unfolding sandboxed_path_list sandboxed_items located trim Text.starts_with Paths.join
    Paths.normalize_lexical_path Paths.push_components Paths.push_component Paths.starts_with
    Paths.is_prefix list_beq
nothing_left = refl

one_left : sandboxed_path_list empty_disk sandbox (codes "data" ∷ outside) ≡ codes "/" ∷ []
unfolding sandboxed_path_list sandboxed_items located trim Text.starts_with Paths.join
    Paths.normalize_lexical_path Paths.push_components Paths.push_component Paths.starts_with
    Paths.is_prefix list_beq
one_left = refl

abbrev only_outside : Json ℕ
only_outside = Json.array (Json.cons (Json.string (codes "../etc")) Json.nil)

-- A worker that may read what lies outside of its sandbox, of which the filter leaves nothing.
abbrev reading_outside : Json ℕ
reading_outside = Json.object (Json.field (codes "read") only_outside Json.end)

-- Its list for reading is there and empty, so that it may read the whole disk.
whole_disk :
    (permissions_from_limits
      (codes "/box")
      (sandboxed_path_list empty_disk sandbox)
      (some reading_outside)).allow_read
    ≡ some []
unfolding string_items permissions_from_limits Json.get apply_perm_field list_beq
    sandboxed_path_list sandboxed_items located trim Text.starts_with Paths.join
    Paths.normalize_lexical_path Paths.push_components Paths.push_component Paths.starts_with
    Paths.is_prefix
whole_disk = refl

permissions_from_limits-Within_example :
    BothConfined empty_disk sandbox
      (permissions_from_limits
        (Files.to_text empty_disk (canonical empty_disk sandbox))
        (sandboxed_path_list empty_disk sandbox)
        (some reading_outside))
      (some reading_outside)
permissions_from_limits-Within_example =
    permissions_from_limits-Within empty_disk sandbox (some reading_outside) refl

abbrev reading : Json ℕ
reading = Json.object (
    Json.field (codes "read") (Json.array (Json.cons (Json.string (codes "data")) Json.nil))
      Json.end)

abbrev configured : List (Text × Text)
configured = (codes "HOME", codes "/box") ∷ []
