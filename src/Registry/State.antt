-- ===== src/Registry/State.antt =====
-- The state of `ModuleRegistry` in src/worker/modules.rs, its least-recently-used queue and the
-- eviction of persistent modules.
use deno_director.Prelude.{
  ℕ, zero, suc, ◌+◌, ◌-◌, ◌*◌, Bool, false, ◌&&◌, Option, none, some, List, [], ◌∷◌, ◌++◌, ltb, leb,
  if◌then◌else◌, list_eq, ◌==◌, length,
}
use deno_director.Prelude.Dict.{Dict, get, remove}
use deno_director.Prelude.Text.{Text}

pub record ModuleEntry (M : Type 0) : Type 0 where
  pub code : Text
  pub module_type : M
  pub persistent : Bool
  pub uses_left : Option ℕ
  pub loaded_once : Bool

pub record ModuleRegistryState (M : Type 0) : Type 0 where
  pub modules : Dict Text (ModuleEntry M)
  pub aliases : Dict Text Text
  pub persistent_lru : List Text
  pub persistent_limit : ℕ

-- `if let Some(i) = lru.iter().position(…) { lru.remove(i); }`
unfoldable pub remove_first : List Text → Text → List Text
remove_first [] s = []
remove_first (x ∷ xs) s = if x == s then xs else x ∷ remove_first xs s

unfoldable pub touch_lru : List Text → Text → List Text
touch_lru lru specifier = remove_first lru specifier ++ specifier ∷ []

-- Rounds that are enough for a queue of `n` entries of which `checks` are still to be looked at.
abbrev pub rounds : ℕ → ℕ → ℕ
rounds n checks = n * (n + 1) + checks + 1

module _ {M : Type 0} where
  unfoldable pub with_persistent_limit : ℕ → ModuleRegistryState M
  with_persistent_limit limit = record {
    modules = [];
    aliases = [];
    persistent_lru = [];
    persistent_limit = limit;
  }

  -- `modules.values().filter(|e| e.persistent).count()`
  unfoldable pub count_persistent : Dict Text (ModuleEntry M) → ℕ
  count_persistent [] = 0
  count_persistent ((k, e) ∷ m) = (if e.persistent then 1 else 0) + count_persistent m

  unfoldable pub can_evict : Dict Text (ModuleEntry M) → Text → Bool
  can_evict modules candidate = elim (get modules candidate) [
    | none ↦ false
    | some entry ↦ entry.persistent && entry.loaded_once
  ]

  -- The `while` loop of `evict_persistent_if_needed`; `none` means that the fuel ran out. With an
  -- empty queue it ends at once, by its test or by `break`.
  unfoldable pub evict_loop :
      ℕ
      → Dict Text (ModuleEntry M)
      → List Text
      → ℕ
      → ℕ
      → ℕ
      → Option (Dict Text (ModuleEntry M) × List Text)
  unfolding can_evict
  evict_loop zero modules lru limit persistent_count checks_remaining = none
  evict_loop (suc fuel) modules [] limit persistent_count checks_remaining = some (modules, [])
  evict_loop (suc fuel) modules (candidate ∷ rest) limit persistent_count checks_remaining =
      let evicted =
        evict_loop fuel (remove modules candidate) rest limit (persistent_count - 1)
          (length rest) in
      let kept =
        evict_loop fuel modules (rest ++ candidate ∷ []) limit persistent_count
          (checks_remaining - 1) in
      if ltb limit persistent_count && ltb 0 checks_remaining
      then (if can_evict modules candidate then evicted else kept)
      else some (modules, candidate ∷ rest)

  evicted_state :
      ModuleRegistryState M → Option (Dict Text (ModuleEntry M) × List Text) → ModuleRegistryState M
  evicted_state st none = st
  evicted_state st (some (modules, lru)) = record st { modules = modules; persistent_lru = lru }

  unfoldable pub evict_persistent_if_needed : ModuleRegistryState M → ModuleRegistryState M
  unfolding evicted_state
  evict_persistent_if_needed st =
      let n = length st.persistent_lru in
      let persistent_count = count_persistent st.modules in
      if leb persistent_count st.persistent_limit
      then st
      else evicted_state st (
          evict_loop (rounds n n) st.modules st.persistent_lru st.persistent_limit persistent_count
            n)
