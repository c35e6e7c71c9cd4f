-- ===== src/Load/Packages.antt =====
-- What src/worker/modules.rs asks the package of a file: the package.json that is nearest to the file,
-- whether it declares the file a module, and whether it names the file as its entry.
pub mod Reads
use deno_director.Prelude.{
  Bool, false, list_eq, Option, none, some, List, [], ◌∷◌, ◌++◌, if◌then◌else◌,
}
use mathlib.Core.List.{reverse}
use deno_director.Prelude.Dict.{get, insert}
use deno_director.Prelude.Text.{Text, codes, trim, eq_ignore_ascii_case}
use deno_director.Paths.{Component, FilePath, Files}
use deno_director.Paths.Names.{same_path}
use deno_director.LoaderConfig.{Urls}
use deno_director.Bridge.Json.{Json}
use deno_director.Resolve.Node.{is_file, joined, text_at}
use deno_director.Load.World.{World, Effect, reads_package, LoaderState}

-- The directories above what these components lead to, last component first.
unfoldable pub above : Bool → List Component → List FilePath
above rooted [] = []
above rooted (c ∷ cs) = record { rooted = rooted; components = reverse cs } ∷ above rooted cs

-- `Path::parent` again and again, the nearest directory first.
abbrev pub ancestors : FilePath → List FilePath
ancestors path = above path.rooted (reverse path.components)

-- An answer, the package.json files that were read for it, and the state with the cache of answers.
pub record Asked (U : Urls) : Type 0 where
  pub state : LoaderState
  pub effects : List (Effect (Urls.Url U))
  pub answer : Bool

-- An answer without a question.
abbrev pub at_once : {U : Urls} → LoaderState → Bool → Asked U
at_once st b = record { state = st; effects = []; answer = b }

module _ {N : Type 0} (U : Urls) (w : World N U) where
  -- The root of a package and its package.json.
  abbrev pub Package : Type 0
  Package = FilePath × Json N

  abbrev pub package_json : FilePath → FilePath
  package_json dir = joined w.disk dir (codes "package.json")

  -- The package of a directory, if its package.json can be read and parsed.
  abbrev parsed : FilePath → Option Text → Option Package
  parsed dir none = none
  parsed dir (some text) = elim (w.disk.from_str text) [ none ↦ none | some j ↦ some (dir, j) ]

  -- The loop over the directories above a path.
  unfoldable pub nearest_in : FilePath → List FilePath → List (Effect (Urls.Url U)) × Option Package
  nearest_in path [] = ([], none)
  nearest_in path (dir ∷ dirs) =
      let rest = nearest_in path dirs in
      if is_file w.disk (package_json dir)
      then (
        reads_package path (package_json dir) ∷ [],
        parsed dir (w.disk.read_to_string (package_json dir)),
      )
      else rest

  unfoldable pub nearest_package_json : FilePath → List (Effect (Urls.Url U)) × Option Package
  nearest_package_json path = nearest_in path (ancestors path)

  abbrev declares_module : Option Package → Bool
  declares_module none = false
  declares_module (some (dir, j)) = elim (text_at j (codes "type")) [
    | none ↦ false
    | some ty ↦ eq_ignore_ascii_case (trim ty) (codes "module")
  ]

  -- The answer is kept under the directory.
  abbrev pub kept : LoaderState → Text → List (Effect (Urls.Url U)) × Option Package → Asked U
  kept st key (es, pkg) = record {
    state = record st { package_cache = insert st.package_cache key (declares_module pkg) };
    effects = es;
    answer = declares_module pkg;
  }

  unfoldable pub module_in : LoaderState → FilePath → List FilePath → Asked U
  module_in st path [] = at_once st false
  module_in st path (dir ∷ dirs) =
      let rest = module_in st path dirs in
      let key = Files.to_text w.disk.files dir in
      elim (get st.package_cache key) [
        | some cached ↦ at_once st cached
        | none ↦
            if is_file w.disk (package_json dir)
            then kept st key (nearest_package_json path)
            else rest
      ]

  unfoldable pub js_file_is_package_module : LoaderState → FilePath → Asked U
  js_file_is_package_module st path = module_in st path (ancestors path)

  -- The canonical paths are compared, if there are both.
  abbrev same_file : FilePath → FilePath → Option FilePath → Option FilePath → Bool
  same_file path target none right = same_path path target
  same_file path target (some left) none = same_path path target
  same_file path target (some left) (some right) = same_path left right

  abbrev is_entry : FilePath → Option Package → Bool
  is_entry path none = false
  is_entry path (some (dir, j)) = elim (text_at j (codes "module")) [
    | none ↦ false
    | some entry ↦
        (let target = joined w.disk dir entry in
          same_file path target (Files.canonicalize w.disk.files path)
            (Files.canonicalize w.disk.files target))
  ]

  unfoldable pub js_file_is_package_module_entry : FilePath → List (Effect (Urls.Url U)) × Bool
  js_file_is_package_module_entry path =
      let (es, pkg) = nearest_package_json path in (es, is_entry path pkg)

  -- A js file that is not classified as CommonJS is not wrapped, whatever its package answers. The entry
  -- of the package is asked for only if the package does not declare a module.
  abbrev pub entry_after : FilePath → Asked U → Asked U
  entry_after path a = if a.answer then record a { answer = false } else record a {
    effects = a.effects ++ (js_file_is_package_module_entry path).0;
    answer = false;
  }
