-- ===== src/Tests/Modules.antt =====
-- Runs of `ModuleRegistry` of src/worker/modules.rs, and its theorems at these runs.
use deno_director.Prelude.{
  ◌≤◌, ◌≡◌, refl, Bool, true, false, none, some, List, [], ◌∷◌, ◌⊎◌, list_eq, list_beq,
}
use deno_director.Prelude.Dict
use deno_director.Prelude.Dict.{is_some}
use deno_director.Prelude.Text.{Text, codes}
use deno_director.Registry
use deno_director.Registry.State.{
  evict_loop, touch_lru, remove_first, ModuleRegistryState, with_persistent_limit, count_persistent,
  can_evict, evict_persistent_if_needed,
}
use deno_director.Registry.Names.{name_label}
use deno_director.Registry.Queue.{evict_bound}
use deno_director.Registry.WellFormed.{IsWellFormed}
use deno_director.Registry.Calls.{Call, run, step, registry-IsWellFormed}
use deno_director.Registry.Loads.{loads, loads-put_ephemeral, get_for_load-put_named_persistent}

-- An internal name for a user's name, as short as a test needs it.
abbrev internal : Text → Text
internal name = b'!' ∷ name

abbrev empty : ModuleRegistryState Bool
empty = with_persistent_limit 1

abbrev calls : List (Call Bool)
calls =
    Call.put_persistent (codes "a") (codes "1") true
    ∷ Call.get_for_load (codes "a")
    ∷ Call.put_named_persistent (codes "b") (codes "2") true
    ∷ []

registry-IsWellFormed_example :
    IsWellFormed (run internal (with_persistent_limit {M = Bool} 1) calls)
registry-IsWellFormed_example = registry-IsWellFormed internal 1 calls

evict_bound_example :
    (count_persistent (evict_persistent_if_needed (run internal empty calls)).modules
      ≤ (run internal empty calls).persistent_limit)
    ⊎ ((k : Text)
        → can_evict (evict_persistent_if_needed (run internal empty calls)).modules k ≡ false)
evict_bound_example =
    let v = registry-IsWellFormed internal 1 calls in
    evict_bound (run internal empty calls) v.unique v.queued

get_for_load-put_named_persistent_example :
    (Registry.get_for_load
      (Registry.put_named_persistent internal empty (codes "b") (codes "2") true)
      (codes "b")).1
    ≡ some (codes "2", true)
unfolding run
get_for_load-put_named_persistent_example =
    get_for_load-put_named_persistent internal empty (codes "b") (codes "2") true
      (registry-IsWellFormed internal 1 []).unique

no_alias : Dict.get empty.aliases (codes "a") ≡ none
unfolding with_persistent_limit Dict.get
no_alias = refl

no_module : Dict.get empty.modules (codes "a") ≡ none
unfolding with_persistent_limit Dict.get
no_module = refl

loads-put_ephemeral_example :
    loads 5 (Registry.put_ephemeral empty (codes "a") (codes "1") true) (codes "a")
    ≡ some (codes "1", true) ∷ some (codes "1", true) ∷ some (codes "1", true) ∷ none ∷ none ∷ []
loads-put_ephemeral_example = loads-put_ephemeral 2 empty (codes "a") (codes "1") true no_alias

label_of : name_label (codes "--My  Tool! v1.2") ≡ codes "my-tool-v1.2"
unfolding name_label
label_of = refl

-- With a limit of one, the module that was loaded makes room for the new one.
evicts_loaded : Registry.has (run internal empty calls) (codes "a") ≡ false
unfolding run step Registry.has Registry.put_persistent Registry.put_named_persistent
    Registry.get_for_load evict_persistent_if_needed evict_loop can_evict count_persistent
    with_persistent_limit Dict.get Dict.insert Dict.remove list_beq touch_lru remove_first
evicts_loaded = refl
