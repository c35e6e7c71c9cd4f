-- ===== src/Registry/WellFormed.antt =====
-- What holds of `ModuleRegistry` in src/worker/modules.rs after any calls of its methods.
use deno_director.Prelude.{
  ℕ, zero, suc, ◌≡◌, true, false, Option, none, some, arith, leb, list_eq, list_beq_iff, if_elim,
  inl, inr, Option-cases,
}
use deno_director.Prelude.Dict.{Dict, get, insert, remove, Unique, remove-Unique, insert-Unique}
use deno_director.Prelude.Text.{Text}
use deno_director.Registry
use deno_director.Registry.State.{
  ModuleEntry, ModuleRegistryState, remove_first, touch_lru, evict_persistent_if_needed,
}
use deno_director.Registry.Eviction.{evict_persistent-Evicted}
use deno_director.Registry.Queue.{
  occurs-remove_first, occurs-touch_lru, is_persistent, is_persistent-remove, is_persistent-insert,
  IsQueued, evict-IsQueued,
}

-- Each specifier has one entry, and the queue holds each persistent module once and nothing else.
pub record IsWellFormed {M : Type 0} (st : ModuleRegistryState M) : Type 0 where
  pub unique : Unique st.modules
  pub queued : IsQueued st.modules st.persistent_lru

module _ {M : Type 0} where
  evict-IsWellFormed :
      (st : ModuleRegistryState M) → IsWellFormed st → IsWellFormed (evict_persistent_if_needed st)
  evict-IsWellFormed st v = record {
    unique = (evict_persistent-Evicted st v.unique).unique;
    queued = evict-IsQueued st v.queued;
  }

  store_persistent-IsWellFormed :
      (st : ModuleRegistryState M) (s code : Text) (t : M)
      → IsWellFormed st
      → IsWellFormed (Registry.store_persistent st s code t)
  unfolding Registry.store_persistent
  store_persistent-IsWellFormed st s code t v = record {
    unique = insert-Unique st.modules s _ v.unique;
    queued = λ k. ground (
      arith,
      v.queued k,
      occurs-touch_lru st.persistent_lru s k,
      is_persistent-insert st.modules s (Registry.persistent_entry code t) k,
    );
  }

  pub put_ephemeral-IsWellFormed :
      (st : ModuleRegistryState M) (s code : Text) (t : M)
      → IsWellFormed st
      → IsWellFormed (Registry.put_ephemeral st s code t)
  unfolding Registry.put_ephemeral
  put_ephemeral-IsWellFormed st s code t v = record {
    unique = insert-Unique st.modules s _ v.unique;
    queued = λ k. ground (
      arith,
      v.queued k,
      occurs-remove_first st.persistent_lru s k,
      is_persistent-insert st.modules s (Registry.ephemeral_entry code t) k,
    );
  }

  -- A module goes, from the table and from the queue.
  removed-IsWellFormed :
      (st : ModuleRegistryState M) (aliases : Dict Text Text) (s : Text)
      → IsWellFormed st
      → IsWellFormed (record st {
        modules = remove st.modules s;
        aliases = aliases;
        persistent_lru = remove_first st.persistent_lru s;
      })
  removed-IsWellFormed st aliases s v = record {
    unique = remove-Unique st.modules s v.unique;
    queued = λ k. ground (
      arith,
      v.queued k,
      occurs-remove_first st.persistent_lru s k,
      is_persistent-remove st.modules s k,
    );
  }

  same_tables-IsWellFormed :
      (st : ModuleRegistryState M) (aliases : Dict Text Text)
      → IsWellFormed st
      → IsWellFormed (record st { aliases = aliases })
  same_tables-IsWellFormed st aliases v = record { unique = v.unique; queued = v.queued }

  forget-IsWellFormed :
      (st : ModuleRegistryState M) (canonical : Option Text)
      → IsWellFormed st
      → IsWellFormed (Registry.forget_canonical st canonical)
  unfolding Registry.forget_canonical
  forget-IsWellFormed st none v = v
  forget-IsWellFormed st (some c) v = removed-IsWellFormed st st.aliases c v

  pub put_persistent-IsWellFormed :
      (st : ModuleRegistryState M) (s code : Text) (t : M)
      → IsWellFormed st
      → IsWellFormed (Registry.put_persistent st s code t)
  unfolding Registry.put_persistent
  put_persistent-IsWellFormed st s code t v =
      evict-IsWellFormed _ (store_persistent-IsWellFormed st s code t v)

  pub put_named-IsWellFormed :
      (named : Text → Text) (st : ModuleRegistryState M) (name code : Text) (t : M)
      → IsWellFormed st
      → IsWellFormed (Registry.put_named_persistent named st name code t)
  unfolding Registry.put_named_persistent
  put_named-IsWellFormed named st name code t v =
      evict-IsWellFormed _
        (store_persistent-IsWellFormed _ (named name) code t (same_tables-IsWellFormed st _ v))

  pub remove_named-IsWellFormed :
      (st : ModuleRegistryState M) (name : Text)
      → IsWellFormed st
      → IsWellFormed (Registry.remove_named st name).0
  unfolding Registry.remove_named
  remove_named-IsWellFormed st name v =
      forget-IsWellFormed _ (get st.aliases name) (same_tables-IsWellFormed st _ v)

  module _ (st : ModuleRegistryState M) (key : Text) (entry : ModuleEntry M)
      (found : get st.modules key ≡ some entry) (v : IsWellFormed st) where
    plain : entry.persistent ≡ false → is_persistent st.modules key ≡ false
    unfolding is_persistent
    plain e = rw (found, is_persistent, e)

    used-IsWellFormed :
        (e : ModuleEntry M)
        → entry.persistent ≡ false
        → e.persistent ≡ false
        → IsWellFormed (record st { modules = insert st.modules key e })
    used-IsWellFormed e p q = record {
      unique = insert-Unique st.modules key e v.unique;
      queued = λ k.
          ground (
            arith,
            v.queued k,
            is_persistent-insert st.modules key e k,
            plain p,
            list_beq_iff key k,
          );
    }

    expired-IsWellFormed :
        entry.persistent ≡ false → IsWellFormed (record st { modules = remove st.modules key })
    expired-IsWellFormed p = record {
      unique = remove-Unique st.modules key v.unique;
      queued = λ k.
          ground
            (arith, v.queued k, is_persistent-remove st.modules key k, plain p, list_beq_iff key k);
    }

    use_up-IsWellFormed :
        (uses : Option ℕ)
        → entry.persistent ≡ false
        → IsWellFormed (Registry.use_up st key entry uses).0
    unfolding Registry.use_up
    use_up-IsWellFormed none p = expired-IsWellFormed p
    use_up-IsWellFormed (some zero) p = expired-IsWellFormed p
    use_up-IsWellFormed (some (suc zero)) p = expired-IsWellFormed p
    use_up-IsWellFormed (some (suc (suc n))) p =
        let more : leb (suc n) 0 ≡ false = ground arith in rw more (used-IsWellFormed _ p p)

    loaded-IsWellFormed :
        entry.persistent ≡ true
        → IsWellFormed (record st {
          modules = insert st.modules key (record entry { loaded_once = true });
          persistent_lru = touch_lru st.persistent_lru key;
        })
    loaded-IsWellFormed p = record {
      unique = insert-Unique st.modules key _ v.unique;
      queued = λ k. ground (
        arith,
        v.queued k,
        occurs-touch_lru st.persistent_lru key k,
        is_persistent-insert st.modules key (record entry { loaded_once = true }) k,
        p,
      );
    }

    load_entry-IsWellFormed : IsWellFormed (Registry.load_entry st key (some entry)).0
    unfolding Registry.load_entry
    load_entry-IsWellFormed =
        if_elim (λ (r : ModuleRegistryState M × Option (Text × M)). IsWellFormed r.0)
          entry.persistent loaded-IsWellFormed (use_up-IsWellFormed entry.uses_left)

  pub get_for_load-IsWellFormed :
      (st : ModuleRegistryState M) (s : Text)
      → IsWellFormed st
      → IsWellFormed (Registry.get_for_load st s).0
  unfolding Registry.get_for_load
  get_for_load-IsWellFormed st s v =
      let key = Registry.or_self (get st.aliases s) s in
      elim (Option-cases (get st.modules key)) [
        | inl e ↦ rw e v
        | inr (entry, e) ↦ rw e (load_entry-IsWellFormed st key entry e v)
      ]

  removed_twice-IsWellFormed :
      (st : ModuleRegistryState M) (aliases : Dict Text Text) (s c : Text)
      → IsWellFormed st
      → IsWellFormed (record st {
        modules = remove (remove st.modules s) c;
        aliases = aliases;
        persistent_lru = remove_first (remove_first st.persistent_lru c) s;
      })
  removed_twice-IsWellFormed st aliases s c v = record {
    unique = remove-Unique _ c (remove-Unique st.modules s v.unique);
    queued = λ k. ground (
      arith,
      v.queued k,
      occurs-remove_first st.persistent_lru c k,
      occurs-remove_first (remove_first st.persistent_lru c) s k,
      is_persistent-remove st.modules s k,
      is_persistent-remove (remove st.modules s) c k,
    );
  }

  pub remove_module-IsWellFormed :
      (st : ModuleRegistryState M) (s : Text)
      → IsWellFormed st
      → IsWellFormed (Registry.remove_module st s)
  unfolding Registry.remove_module Registry.forget_canonical
  remove_module-IsWellFormed st s v = elim (Option-cases (get st.aliases s)) [
    | inl e ↦ rw (e, Registry.remove_module) (removed-IsWellFormed st _ s v)
    | inr (c, e) ↦ rw (e, Registry.remove_module) (removed_twice-IsWellFormed st _ s c v)
  ]
