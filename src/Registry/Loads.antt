-- ===== src/Registry/Loads.antt =====
-- What a load gets from `ModuleRegistry` in src/worker/modules.rs after a module was stored.
use deno_director.Prelude.{
  ℕ, zero, suc, ◌+◌, ◌≡◌, refl, ap, ◌∙◌, true, false, Option, none, some, List, [], ◌∷◌, ◌++◌,
  arith, if◌then◌else◌, replicate, leb, list_eq, list_beq_iff, beq_refl, inl, inr, Option-cases,
}
use mathlib.Core.Path.{ap₂}
use deno_director.Prelude.Dict.{
  Dict, is_some, get, insert, get-insert, get-remove, insert-Unique, Unique,
}
use deno_director.Prelude.Text.{Text}
use deno_director.Registry
use deno_director.Registry.State.{
  ModuleEntry, ModuleRegistryState, can_evict, evict_persistent_if_needed,
}
use deno_director.Registry.Eviction.{evict_persistent-Evicted}

module _ {M : Type 0} where
  aliases-evict :
      (st : ModuleRegistryState M) → (evict_persistent_if_needed st).aliases ≡ st.aliases
  unfolding evict_persistent_if_needed
  aliases-evict st = ground arith

  -- The load of a persistent module that is in the table.
  load_persistent :
      (st : ModuleRegistryState M) (s key : Text) (e : ModuleEntry M)
      → Registry.or_self (get st.aliases s) s ≡ key
      → get st.modules key ≡ some e
      → e.persistent ≡ true
      → (Registry.get_for_load st s).1 ≡ some (e.code, e.module_type)
  unfolding Registry.get_for_load
  load_persistent st s key e a h p = ground (arith, a)

  can_evict-new :
      (m : Dict Text (ModuleEntry M)) (s code : Text) (t : M)
      → can_evict (insert m s (Registry.persistent_entry code t)) s ≡ false
  unfolding can_evict Registry.persistent_entry
  can_evict-new m s code t =
      ground (arith, get-insert m s (Registry.persistent_entry code t) s, list_beq_iff s s)

  -- A module that was just stored is not evicted.
  evict_keeps_new :
      (st : ModuleRegistryState M) (s code : Text) (t : M)
      → Unique st.modules
      → get (evict_persistent_if_needed (Registry.store_persistent st s code t)).modules s
        ≡ some (Registry.persistent_entry code t)
  unfolding Registry.store_persistent
  evict_keeps_new st s code t u =
      let new : ModuleRegistryState M = Registry.store_persistent st s code t in
      let v = evict_persistent-Evicted new (insert-Unique st.modules s _ u) in
      elim (v.kept s) [
        | inl same ↦ same ∙ get-insert st.modules s _ s ∙ rw (beq_refl s)
        | inr gone ↦ cc (gone.1, can_evict-new st.modules s code t)
      ]

  -- A module that was stored under a user's name is found by that name, whatever was stored before
  -- and whatever had to be evicted.
  pub get_for_load-put_named_persistent :
      (named : Text → Text) (st : ModuleRegistryState M) (name code : Text) (t : M)
      → Unique st.modules
      → (Registry.get_for_load (Registry.put_named_persistent named st name code t) name).1
        ≡ some (code, t)
  unfolding Registry.put_named_persistent
  get_for_load-put_named_persistent named st name code t u =
      let aliases = insert st.aliases name (named name) in
      let named_st : ModuleRegistryState M = record st { aliases = aliases } in
      load_persistent _ name (named name) (Registry.persistent_entry code t)
        (rw (
          aliases-evict (Registry.store_persistent named_st (named name) code t),
          get-insert st.aliases name (named name) name,
          beq_refl name,
        ))
        (evict_keeps_new named_st (named name) code t u) refl

  -- The same for a module under its own specifier, unless the specifier is also a user's name.
  pub get_for_load-put_persistent :
      (st : ModuleRegistryState M) (s code : Text) (t : M)
      → Unique st.modules
      → get st.aliases s ≡ none
      → (Registry.get_for_load (Registry.put_persistent st s code t) s).1 ≡ some (code, t)
  unfolding Registry.put_persistent
  get_for_load-put_persistent st s code t u free =
      load_persistent _ s s (Registry.persistent_entry code t)
        (rw (aliases-evict (Registry.store_persistent st s code t), free))
        (evict_keeps_new st s code t u) refl

  -- The results of loads of one specifier, one after the other.
  unfoldable pub loads : ℕ → ModuleRegistryState M → Text → List (Option (Text × M))
  loads zero st s = []
  loads (suc n) st s =
      let (st', out) = Registry.get_for_load st s in let later = loads n st' s in out ∷ later

  -- A load of a specifier that is no user's name and is not in the table.
  loads_missing :
      (n : ℕ) (st : ModuleRegistryState M) (s : Text)
      → get st.aliases s ≡ none
      → get st.modules s ≡ none
      → loads n st s ≡ replicate n none
  unfolding loads Registry.get_for_load
  loads_missing zero st s free gone = refl
  loads_missing (suc n) st s free gone =
      rw (free, gone) (ap (◌∷◌ none) (loads_missing n st s free gone))

  -- A load that uses up one of the loads of an entry.
  load_budget :
      (st : ModuleRegistryState M) (s : Text) (e : ModuleEntry M) (n : ℕ)
      → get st.aliases s ≡ none
      → get st.modules s ≡ some e
      → e.persistent ≡ false
      → e.uses_left ≡ some (suc n)
      → let (st', out) = Registry.get_for_load st s in
        (out ≡ some (e.code, e.module_type))
        × (st'.aliases ≡ st.aliases)
        × (get st'.modules s ≡ (if leb n 0 then none else some (record e { uses_left = some n })))
  unfolding Registry.get_for_load
  load_budget st s e n free found plain budget = ground (
    arith,
    get-insert st.modules s (record e { uses_left = some n }) s,
    get-remove st.modules s s,
    beq_refl s,
  )

  -- Loads of an entry with a budget: each gets the module, until the budget is used up.
  loads_budget :
      (left more : ℕ) (st : ModuleRegistryState M) (s : Text) (e : ModuleEntry M)
      → get st.aliases s ≡ none
      → get st.modules s ≡ some e
      → e.persistent ≡ false
      → e.uses_left ≡ some (suc left)
      → loads (suc left + more) st s
        ≡ replicate (suc left) (some (e.code, e.module_type)) ++ replicate more none
  unfolding loads
  loads_budget zero more st s e free found plain budget =
      let (got, aliases, gone) = load_budget st s e zero free found plain budget in
      let one : suc zero + more ≡ suc more = omega arith in
      rw one (
        ap₂ ◌∷◌ got (
          loads_missing more (Registry.get_for_load st s).0 s
            (ap (λ (m : Dict Text Text). get m s) aliases ∙ free) gone))
  loads_budget (suc left) more st s e free found plain budget =
      let (got, aliases, kept) = load_budget st s e (suc left) free found plain budget in
      let again : suc (suc left) + more ≡ suc (suc left + more) = omega arith in
      let some_left : leb (suc left) 0 ≡ false = ground arith in
      rw again (
        ap₂ ◌∷◌ got (
          loads_budget left more (Registry.get_for_load st s).0 s
            (record e { uses_left = some (suc left) })
            (ap (λ (m : Dict Text Text). get m s) aliases ∙ free) (rw some_left at kept) plain
            refl))

  -- A module that was stored for a few loads is handed out three times, and never again, unless its
  -- specifier is also a user's name.
  pub loads-put_ephemeral :
      (more : ℕ) (st : ModuleRegistryState M) (s code : Text) (t : M)
      → get st.aliases s ≡ none
      → loads (3 + more) (Registry.put_ephemeral st s code t) s
        ≡ some (code, t) ∷ some (code, t) ∷ some (code, t) ∷ replicate more none
  unfolding Registry.put_ephemeral
  loads-put_ephemeral more st s code t free =
      loads_budget 2 more (Registry.put_ephemeral st s code t) s (Registry.ephemeral_entry code t)
        free (get-insert st.modules s (Registry.ephemeral_entry code t) s ∙ rw (beq_refl s)) refl
        refl

  -- Once a name is removed nothing is loaded under it, unless a module has it as its specifier.
  pub get_for_load-remove_named :
      (st : ModuleRegistryState M) (name : Text)
      → get st.modules name ≡ none
      → ((Registry.get_for_load (Registry.remove_named st name).0 name).1 ≡ none)
        × (Registry.has (Registry.remove_named st name).0 name ≡ false)
        × ((Registry.remove_named st name).1 ≡ is_some (get st.aliases name))
  unfolding Registry.remove_named Registry.has Registry.get_for_load
  get_for_load-remove_named st name free = elim (Option-cases (get st.aliases name)) [
    | inl e ↦ ground (arith, get-remove st.aliases name name, beq_refl name)
    | inr (key, e) ↦
        ground
          (arith, e, get-remove st.aliases name name, get-remove st.modules key name, beq_refl name)
  ]
