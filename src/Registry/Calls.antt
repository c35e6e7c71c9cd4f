-- ===== src/Registry/Calls.antt =====
-- Any sequence of calls of the methods of `ModuleRegistry` in src/worker/modules.rs.
use deno_director.Prelude.{ℕ, refl, List, [], ◌∷◌, list_eq}
use deno_director.Prelude.Dict.{get}
use deno_director.Prelude.Text.{Text}
use deno_director.Registry
use deno_director.Registry.State.{ModuleRegistryState, with_persistent_limit}
use deno_director.Registry.Queue.{occurs, is_persistent}
use deno_director.Registry.WellFormed.{
  IsWellFormed, put_ephemeral-IsWellFormed, put_persistent-IsWellFormed, put_named-IsWellFormed,
  remove_module-IsWellFormed, remove_named-IsWellFormed, get_for_load-IsWellFormed,
}

-- A call of a method that changes the registry.
pub data Call (M : Type 0) : Type 0 where
  put_ephemeral : Text → Text → M → Call M
  put_persistent : Text → Text → M → Call M
  put_named_persistent : Text → Text → M → Call M
  remove_module : Text → Call M
  remove_named : Text → Call M
  get_for_load : Text → Call M

module _ {M : Type 0} (named : Text → Text) where
  unfoldable pub step : ModuleRegistryState M → Call M → ModuleRegistryState M
  step st (Call.put_ephemeral s code t) = Registry.put_ephemeral st s code t
  step st (Call.put_persistent s code t) = Registry.put_persistent st s code t
  step st (Call.put_named_persistent name code t) =
      Registry.put_named_persistent named st name code t
  step st (Call.remove_module s) = Registry.remove_module st s
  step st (Call.remove_named name) = (Registry.remove_named st name).0
  step st (Call.get_for_load s) = (Registry.get_for_load st s).0

  step-IsWellFormed :
      (st : ModuleRegistryState M) (c : Call M) → IsWellFormed st → IsWellFormed (step st c)
  unfolding step
  step-IsWellFormed st (Call.put_ephemeral s code t) = put_ephemeral-IsWellFormed st s code t
  step-IsWellFormed st (Call.put_persistent s code t) = put_persistent-IsWellFormed st s code t
  step-IsWellFormed st (Call.put_named_persistent name code t) =
      put_named-IsWellFormed named st name code t
  step-IsWellFormed st (Call.remove_module s) = remove_module-IsWellFormed st s
  step-IsWellFormed st (Call.remove_named name) = remove_named-IsWellFormed st name
  step-IsWellFormed st (Call.get_for_load s) = get_for_load-IsWellFormed st s

  unfoldable pub run : ModuleRegistryState M → List (Call M) → ModuleRegistryState M
  run st [] = st
  run st (c ∷ cs) = run (step st c) cs

  new-IsWellFormed : (limit : ℕ) → IsWellFormed (with_persistent_limit {M = M} limit)
  unfolding with_persistent_limit occurs is_persistent get
  new-IsWellFormed limit = record { unique = tt; queued = λ k. refl }

  run-IsWellFormed :
      (st : ModuleRegistryState M) (cs : List (Call M)) → IsWellFormed st → IsWellFormed (run st cs)
  unfolding run
  run-IsWellFormed st [] v = v
  run-IsWellFormed st (c ∷ cs) v = run-IsWellFormed (step st c) cs (step-IsWellFormed st c v)

  -- Whatever calls are made on a new registry, its table has one entry for each specifier, and its
  -- queue holds each persistent module once and nothing else.
  pub registry-IsWellFormed :
      (limit : ℕ) (cs : List (Call M)) → IsWellFormed (run (with_persistent_limit limit) cs)
  registry-IsWellFormed limit cs = run-IsWellFormed _ cs (new-IsWellFormed limit)
