-- ===== src/Registry/Queue.antt =====
-- The queue of persistent modules in src/worker/modules.rs: each persistent module stands in it once,
-- and nothing else does.
use deno_director.Prelude.{
  ℕ, zero, suc, ◌+◌, ◌-◌, ◌≤◌, ◌≡◌, refl, ◌∙◌, Bool, true, false, ◌&&◌, Option, none, some, List,
  [], ◌∷◌, ◌++◌, arith, ltb, leb, if◌then◌else◌, list_eq, ◌==◌, list_beq_iff, length, All,
  Bool-cases, ◌⊎◌, inl, inr,
}
use deno_director.Prelude.Dict.{Dict, get, insert, remove, get-insert, get-remove, Unique}
use deno_director.Prelude.Text.{Text}
use deno_director.Registry.Eviction.{evict_loop_total, evict_persistent-Evicted}
use deno_director.Registry.State.{
  ModuleEntry, ModuleRegistryState, remove_first, touch_lru, count_persistent, can_evict,
  evict_loop, rounds, evict_persistent_if_needed,
}

-- How often an element stands in a list.
unfoldable pub occurs : List Text → Text → ℕ
occurs [] k = 0
occurs (x ∷ xs) k = (if x == k then 1 else 0) + occurs xs k

pub occurs-append : (xs ys : List Text) (k : Text) → occurs (xs ++ ys) k ≡ occurs xs k + occurs ys k
unfolding occurs
occurs-append [] ys k = omega arith
occurs-append (x ∷ xs) ys k = omega (arith, occurs-append xs ys k)

pub occurs-remove_first :
    (xs : List Text) (s k : Text)
    → occurs (remove_first xs s) k ≡ occurs xs k - (if s == k then 1 else 0)
unfolding occurs remove_first
occurs-remove_first [] s k = ground arith
occurs-remove_first (x ∷ xs) s k =
    ground (arith, occurs-remove_first xs s k, list_beq_iff x s, list_beq_iff x k, list_beq_iff s k)

pub occurs-touch_lru :
    (xs : List Text) (s k : Text)
    → occurs (touch_lru xs s) k ≡ (if s == k then (occurs xs k - 1) + 1 else occurs xs k)
unfolding touch_lru occurs
occurs-touch_lru xs s k =
    ground (arith, occurs-append (remove_first xs s) (s ∷ []) k, occurs-remove_first xs s k)

occurs_cons :
    (c : Text) (rest : List Text) (k : Text)
    → occurs (c ∷ rest) k ≡ (if c == k then 1 else 0) + occurs rest k
unfolding occurs
occurs_cons c rest k = refl

occurs-rotate :
    (c : Text) (rest : List Text) (k : Text) → occurs (rest ++ c ∷ []) k ≡ occurs (c ∷ rest) k
unfolding occurs
occurs-rotate c rest k = omega (arith, occurs-append rest (c ∷ []) k)

module _ {M : Type 0} where
  unfoldable pub is_persistent : Dict Text (ModuleEntry M) → Text → Bool
  is_persistent m k = elim (get m k) [ none ↦ false | some e ↦ e.persistent ]

  -- Each persistent module stands in the queue once, and nothing else stands in it.
  abbrev pub IsQueued : Dict Text (ModuleEntry M) → List Text → Type 0
  IsQueued m lru = (k : Text) → occurs lru k ≡ (if is_persistent m k then 1 else 0)

  pub is_persistent-remove :
      (m : Dict Text (ModuleEntry M)) (s k : Text)
      → is_persistent (remove m s) k ≡ (if s == k then false else is_persistent m k)
  unfolding is_persistent
  is_persistent-remove m s k = ground (arith, get-remove m s k)

  pub is_persistent-insert :
      (m : Dict Text (ModuleEntry M)) (s : Text) (e : ModuleEntry M) (k : Text)
      → is_persistent (insert m s e) k ≡ (if s == k then e.persistent else is_persistent m k)
  unfolding is_persistent
  is_persistent-insert m s e k = ground (arith, get-insert m s e k)

  IsQueued-out :
      (m₁ m₂ : Dict Text (ModuleEntry M)) (lru₁ lru₂ : List Text)
      → ◌≡◌ {A = Option (Dict Text (ModuleEntry M) × List Text)} (some (m₁, lru₁)) (some (m₂, lru₂))
      → IsQueued m₁ lru₁
      → IsQueued m₂ lru₂
  IsQueued-out m₁ m₂ lru₁ lru₂ e q =
      let modules : m₁ ≡ m₂ = cc in let queue : lru₁ ≡ lru₂ = cc in rw (modules, queue) at q

  evict_loop-IsQueued :
      (fuel : ℕ) (m : Dict Text (ModuleEntry M)) (lru : List Text) (limit count checks : ℕ)
      (m' : Dict Text (ModuleEntry M)) (lru' : List Text)
      → IsQueued m lru
      → evict_loop fuel m lru limit count checks ≡ some (m', lru')
      → IsQueued m' lru'
  unfolding evict_loop
  evict_loop-IsQueued zero m lru limit count checks m' lru' q e = cc
  evict_loop-IsQueued (suc fuel) m [] limit count checks m' lru' q e = IsQueued-out m m' [] lru' e q
  evict_loop-IsQueued (suc fuel) m (c ∷ rest) limit count checks m' lru' q e =
      elim (Bool-cases (ltb limit count && ltb 0 checks)) [
        | inr done ↦ IsQueued-out m m' (c ∷ rest) lru' (rw done at e) q
        | inl more ↦ elim (Bool-cases (can_evict m c)) [
          | inl evictable ↦
              evict_loop-IsQueued fuel (remove m c) rest limit (count - 1) (length rest) m' lru'
                (λ k. ground (arith, q k, occurs_cons c rest k, is_persistent-remove m c k))
                (rw (more, evictable) at e)
          | inr kept ↦
              evict_loop-IsQueued fuel m (rest ++ c ∷ []) limit count (checks - 1) m' lru'
                (λ k. occurs-rotate c rest k ∙ q k) (rw (more, kept) at e)
        ]
      ]

  pub evict-IsQueued :
      (st : ModuleRegistryState M)
      → IsQueued st.modules st.persistent_lru
      → IsQueued
          (evict_persistent_if_needed st).modules
          (evict_persistent_if_needed st).persistent_lru
  unfolding evict_persistent_if_needed
  evict-IsQueued st q =
      let n = length st.persistent_lru in
      let total = count_persistent st.modules in
      elim (Bool-cases (leb total st.persistent_limit)) [
        | inl small ↦ rw small q
        | inr large ↦
            let (out, e) =
              evict_loop_total (rounds n n) st.modules st.persistent_lru st.persistent_limit total n
                (omega arith) in
            rw (large, e)
              (evict_loop-IsQueued (rounds n n) st.modules st.persistent_lru st.persistent_limit
                total n out.0 out.1 q e)
      ]

  can_evict-is_persistent :
      (m : Dict Text (ModuleEntry M)) (k : Text) → can_evict m k ≡ true → is_persistent m k ≡ true
  unfolding can_evict is_persistent
  can_evict-is_persistent m k h = ground arith

  unqueued :
      (m : Dict Text (ModuleEntry M)) (lru : List Text) (k : Text)
      → All (λ j. can_evict m j ≡ false) lru
      → can_evict m k ≡ true
      → occurs lru k ≡ 0
  unfolding occurs
  unqueued m [] k a h = refl
  unqueued m (x ∷ lru) k a h = ground (arith, unqueued m lru k a.1 h, list_beq_iff x k)

  -- After the eviction no more persistent modules than the limit are held, or every persistent
  -- module that is held has never been loaded.
  pub evict_bound :
      (st : ModuleRegistryState M)
      → Unique st.modules
      → IsQueued st.modules st.persistent_lru
      → (count_persistent (evict_persistent_if_needed st).modules ≤ st.persistent_limit)
        ⊎ ((k : Text) → can_evict (evict_persistent_if_needed st).modules k ≡ false)
  evict_bound st u q =
      let v = evict_persistent-Evicted st u in
      let queued = evict-IsQueued st q in
      elim v.enough [
        | inl within ↦ inl within
        | inr none_left ↦ inr (λ k.
            elim (Bool-cases (can_evict (evict_persistent_if_needed st).modules k)) [
              | inr e ↦ e
              | inl e ↦ absurd (omega (arith, unqueued _ _ k none_left e, queued_once k e))
            ])
      ]
    where
      queued_once :
          (k : Text)
          → can_evict (evict_persistent_if_needed st).modules k ≡ true
          → occurs (evict_persistent_if_needed st).persistent_lru k ≡ 1
      queued_once k e = evict-IsQueued st q k ∙ rw (can_evict-is_persistent _ k e)
