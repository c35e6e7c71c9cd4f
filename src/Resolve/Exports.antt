-- ===== src/Resolve/Exports.antt =====
-- The subpaths that package.json exports: `resolve_node_package_exports` of src/worker/modules.rs. A slice
-- of a text whose start lies behind its end panics.
use deno_director.Prelude.{
  ◌+◌, ◌-◌, not, ◌||◌, Option, none, some, List, ◌++◌, ◌==◌, list_eq, ltb, length, take, drop,
  if◌then◌else◌,
}
use deno_director.Prelude.Outcome.{Search, found, missing, crashed, from_option, or_try}
use deno_director.Prelude.Text.{Text, codes, trim, is_empty, starts_with, split_once, byte_len}
use deno_director.Prelude.Patterns.{ends_with, replace_char, trim_start_here}
use deno_director.Bridge.Json
use deno_director.Bridge.Json.{Json, Items, Fields}
use deno_director.Paths.{FilePath}
use deno_director.Resolve.Node.{Disk, lookup, read_package, resolve_node_candidate, joined}

-- A target that is not empty.
abbrev filled : Option Text → Option Text
filled none = none
filled (some s) = if is_empty s then none else some s

unfoldable mutual
  pub pick_target : {N : Type 0} → Json N → Option Text
  pick_target (Json.string s) = some (trim s)
  pick_target (Json.array a) = pick_item a
  pick_target (Json.object m) = or_try (filled (pick_field m (codes "import"))) (
      or_try (filled (pick_field m (codes "module"))) (
        or_try (filled (pick_field m (codes "default"))) (filled (pick_field m (codes "require")))))
  pick_target Json.null = none
  pick_target (Json.bool b) = none
  pick_target (Json.number n) = none

  pub pick_item : {N : Type 0} → Items N → Option Text
  pick_item Json.nil = none
  pick_item (Json.cons v rest) = or_try (filled (pick_target v)) (pick_item rest)

  -- `map.get(key).and_then(pick_target)`
  pub pick_field : {N : Type 0} → Fields N → Text → Option Text
  pick_field Json.end key = none
  pick_field (Json.field j v m) key =
      let here = pick_target v in let rest = pick_field m key in if j == key then here else rest

-- The search goes on where nothing was found.
abbrev pub found_or : Option FilePath → Search FilePath → Search FilePath
found_or none others = others
found_or (some path) others = found path

-- The request with `prefix` and `suffix` taken away.
abbrev pub middle : Text → Text → Text → Text
middle request prefix suffix =
    let rest = drop (length prefix) request in take (length rest - length suffix) rest

module _ {N : Type 0} (disk : Disk N) (pkg_dir : FilePath) (exts : List Text) where
  unfoldable pub candidate_from_target : Text → Option FilePath
  candidate_from_target target =
      if is_empty (trim target)
      then none
      else resolve_node_candidate disk (joined disk pkg_dir (trim_start_here (trim target))) exts

  -- A pattern that the request fits is given its target, or ends the search.
  unfoldable pub search_target : Text → Text → Text → Json N → Search FilePath → Search FilePath
  search_target request prefix suffix target others =
      if ltb (byte_len request) (byte_len prefix + byte_len suffix)
      then crashed
      else elim (pick_target target) [
        | none ↦ missing
        | some t ↦
            found_or (candidate_from_target (replace_char t b'*' (middle request prefix suffix)))
              others
      ]

  unfoldable pub search_patterns : Text → Fields N → Search FilePath
  search_patterns request Json.end = missing
  search_patterns request (Json.field pattern target m) =
      let others = search_patterns request m in
      elim (split_once pattern b'*') [
        | none ↦ others
        | some w ↦
            if not (starts_with request w.0) || not (ends_with request w.1)
            then others
            else search_target request w.0 w.1 target others
      ]

  abbrev pub exact : Option Text → Option FilePath
  exact none = none
  exact (some target) = candidate_from_target target

  unfoldable pub search_exports : Text → Json N → Search FilePath
  search_exports request (Json.object m) =
      found_or (exact (pick_field m request)) (search_patterns request m)
  search_exports request (Json.string s) = from_option (exact (pick_target {N = N} (Json.string s)))
  search_exports request (Json.array a) = from_option (exact (pick_target (Json.array a)))
  search_exports request Json.null = missing
  search_exports request (Json.bool b) = missing
  search_exports request (Json.number n) = missing

  unfoldable pub resolve_node_package_exports : Text → Search FilePath
  resolve_node_package_exports subpath = elim (read_package disk pkg_dir) [
    | none ↦ missing
    | some pkg ↦ elim (lookup pkg (codes "exports")) [
      | none ↦ missing
      | some exports ↦ search_exports (codes "./" ++ trim_start_here subpath) exports
    ]
  ]
