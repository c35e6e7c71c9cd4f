-- ===== src/Registry.antt =====
-- `ModuleRegistry` of src/worker/modules.rs: the modules that a worker holds in memory under internal
-- specifiers, the names that users gave to some of them, and the least-recently-used order in which
-- persistent ones are evicted. The mutex makes each method one step; `M` stands for Deno's
-- `ModuleType`, which is stored and handed back.
pub mod Names
pub mod State
pub mod Eviction
pub mod Queue
pub mod WellFormed
pub mod Calls
pub mod Loads
use deno_director.Prelude.{
  ℕ, suc, Bool, true, false, ◌||◌, Option, none, some, [], ◌∷◌, leb, if◌then◌else◌, list_eq, ◌==◌,
}
use deno_director.Prelude.Dict.{Dict, is_some, get, insert, remove, contains_key}
use deno_director.Prelude.Text.{Text}
use State.{ModuleEntry, ModuleRegistryState, remove_first, touch_lru, evict_persistent_if_needed}

-- `aliases.retain(|_, v| v != specifier)`
unfoldable pub retain_other : Dict Text Text → Text → Dict Text Text
retain_other [] specifier = []
retain_other ((k, v) ∷ m) specifier =
    let rest = retain_other m specifier in if v == specifier then rest else (k, v) ∷ rest

abbrev or_self : Option Text → Text → Text
or_self none specifier = specifier
or_self (some canonical) specifier = canonical

module _ {M : Type 0} where
  unfoldable pub has : ModuleRegistryState M → Text → Bool
  has st specifier = contains_key st.modules specifier || (elim (get st.aliases specifier) [
    | none ↦ false
    | some resolved ↦ contains_key st.modules resolved
  ])

  unfoldable pub resolve_specifier : ModuleRegistryState M → Text → Option Text
  resolve_specifier st specifier =
      if contains_key st.modules specifier then some specifier else get st.aliases specifier

  ephemeral_entry : Text → M → ModuleEntry M
  ephemeral_entry code module_type = record {
    code = code;
    module_type = module_type;
    persistent = false;
    uses_left = some 3;
    loaded_once = false;
  }

  unfoldable pub put_ephemeral : ModuleRegistryState M → Text → Text → M → ModuleRegistryState M
  unfolding ephemeral_entry
  put_ephemeral st specifier code module_type = record st {
    modules = insert st.modules specifier (ephemeral_entry code module_type);
    persistent_lru = remove_first st.persistent_lru specifier;
  }

  persistent_entry : Text → M → ModuleEntry M
  persistent_entry code module_type = record {
    code = code;
    module_type = module_type;
    persistent = true;
    uses_left = none;
    loaded_once = false;
  }

  -- The registry before the eviction that ends `put_persistent`.
  store_persistent : ModuleRegistryState M → Text → Text → M → ModuleRegistryState M
  unfolding persistent_entry touch_lru
  store_persistent st specifier code module_type = record st {
    modules = insert st.modules specifier (persistent_entry code module_type);
    persistent_lru = touch_lru st.persistent_lru specifier;
  }

  unfoldable pub put_persistent : ModuleRegistryState M → Text → Text → M → ModuleRegistryState M
  unfolding store_persistent
  put_persistent st specifier code module_type =
      evict_persistent_if_needed (store_persistent st specifier code module_type)

  -- The name of the module under which it is stored is computed from the user's name.
  unfoldable pub put_named_persistent :
      (Text → Text) → ModuleRegistryState M → Text → Text → M → ModuleRegistryState M
  unfolding store_persistent
  put_named_persistent named_virtual_specifier st module_name code module_type =
      let canonical = named_virtual_specifier module_name in
      evict_persistent_if_needed (
        store_persistent (record st { aliases = insert st.aliases module_name canonical }) canonical
          code module_type)

  forget_canonical : ModuleRegistryState M → Option Text → ModuleRegistryState M
  forget_canonical st none = st
  forget_canonical st (some canonical) = record st {
    modules = remove st.modules canonical;
    persistent_lru = remove_first st.persistent_lru canonical;
  }

  -- `remove`
  unfoldable pub remove_module : ModuleRegistryState M → Text → ModuleRegistryState M
  unfolding forget_canonical
  remove_module st specifier =
      let dropped =
        forget_canonical
          (record st {
            modules = remove st.modules specifier;
            aliases = remove st.aliases specifier;
          })
          (get st.aliases specifier) in
      record dropped {
        persistent_lru = remove_first dropped.persistent_lru specifier;
        aliases = retain_other dropped.aliases specifier;
      }

  unfoldable pub remove_named : ModuleRegistryState M → Text → ModuleRegistryState M × Bool
  unfolding forget_canonical
  remove_named st module_name =
      let canonical = get st.aliases module_name in
      let removed_module : Bool = elim canonical [
        | none ↦ false
        | some key ↦ contains_key st.modules key
      ] in
      (
        forget_canonical (record st { aliases = remove st.aliases module_name }) canonical,
        is_some canonical || removed_module,
      )

  -- The second half of `get_for_load`: an entry with a budget of loads.
  use_up :
      ModuleRegistryState M
      → Text
      → ModuleEntry M
      → Option ℕ
      → ModuleRegistryState M × Option (Text × M)
  use_up st key entry (some (suc n)) = (
    record st {
      modules =
          if leb n 0
          then remove st.modules key
          else insert st.modules key (record entry { uses_left = some n });
    },
    some (entry.code, entry.module_type),
  )
  use_up st key entry _ = (record st { modules = remove st.modules key }, none)

  load_entry :
      ModuleRegistryState M
      → Text
      → Option (ModuleEntry M)
      → ModuleRegistryState M × Option (Text × M)
  unfolding use_up touch_lru
  load_entry st key none = (st, none)
  load_entry st key (some entry) =
      if entry.persistent
      then (
        record st {
          modules = insert st.modules key (record entry { loaded_once = true });
          persistent_lru = touch_lru st.persistent_lru key;
        },
        some (entry.code, entry.module_type),
      )
      else use_up st key entry entry.uses_left

  unfoldable pub get_for_load :
      ModuleRegistryState M → Text → ModuleRegistryState M × Option (Text × M)
  unfolding load_entry
  get_for_load st specifier =
      let lookup_key = or_self (get st.aliases specifier) specifier in
      load_entry st lookup_key (get st.modules lookup_key)
