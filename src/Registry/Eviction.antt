-- ===== src/Registry/Eviction.antt =====
-- The eviction loop of src/worker/modules.rs: it ends, and what it leaves.
use deno_director.Prelude.{
  ℕ, zero, suc, ◌+◌, ◌-◌, ◌≤◌, ◌<◌, ◌≡◌, refl, true, false, ◌&&◌, Option, none, some, List, [], ◌∷◌,
  ◌++◌, arith, ltb, leb, list_eq, list_beq_iff, length, length-append, drop, All, Bool-cases, ◌⊎◌,
  inl, inr,
}
use deno_director.Prelude.Dict.{Dict, get, remove, get-remove, Unique, remove-Unique, remove_absent}
use deno_director.Prelude.Text.{Text}
use deno_director.Registry.State.{
  ModuleEntry, ModuleRegistryState, count_persistent, can_evict, evict_loop, rounds,
  evict_persistent_if_needed,
}

drop_rotate :
    (P : Text → Type 0) (n : ℕ) (rest : List Text) (c : Text)
    → n ≤ length rest
    → P c
    → All P (drop n rest)
    → All P (drop n (rest ++ c ∷ []))
drop_rotate P zero [] c h pc a = (pc, tt)
drop_rotate P zero (x ∷ rest) c h pc a = (a.0, drop_rotate P zero rest c (omega arith) pc a.1)
drop_rotate P (suc n) [] c h pc a = absurd (omega arith)
drop_rotate P (suc n) (x ∷ rest) c h pc a = drop_rotate P n rest c (omega arith) pc a

drop-length : (P : Text → Type 0) (l : List Text) → All P (drop (length l) l)
drop-length P [] = tt
drop-length P (x ∷ l) = drop-length P l

-- The entry that goes from the front of the queue to its end joins those that were looked at.
rotate :
    (P : Text → Type 0) (checks : ℕ) (rest : List Text) (c : Text)
    → 0 < checks
    → checks ≤ suc (length rest)
    → P c
    → All P (drop checks (c ∷ rest))
    → All P (drop (checks - 1) (rest ++ c ∷ []))
rotate P zero rest c pos h pc a = absurd (omega arith)
rotate P (suc n) rest c pos h pc a =
    let e : suc n - 1 ≡ n = omega arith in rw e (drop_rotate P n rest c (omega arith) pc a)

module _ {M : Type 0} where
  -- The loop comes to its end within `rounds` rounds.
  pub evict_loop_total :
      (fuel : ℕ) (modules : Dict Text (ModuleEntry M)) (lru : List Text) (limit count checks : ℕ)
      → rounds (length lru) checks ≤ fuel
      → (out : Dict Text (ModuleEntry M) × List Text) × (evict_loop fuel modules lru limit count
            checks
          ≡ some out)
  unfolding evict_loop
  evict_loop_total zero modules lru limit count checks h = absurd (omega arith)
  evict_loop_total (suc fuel) modules [] limit count checks h = ((modules, []), refl)
  evict_loop_total (suc fuel) modules (c ∷ rest) limit count checks h =
      elim (Bool-cases (ltb limit count && ltb 0 checks)) [
        | inr done ↦ ((modules, c ∷ rest), rw done)
        | inl more ↦ elim (Bool-cases (can_evict modules c)) [
          | inl evictable ↦
              rw (more, evictable)
                (evict_loop_total fuel (remove modules c) rest limit (count - 1) (length rest)
                  (omega arith))
          | inr kept ↦
              rw (more, kept)
                (evict_loop_total fuel modules (rest ++ c ∷ []) limit count (checks - 1)
                  (rw (length-append rest (c ∷ [])) (ground arith)))
        ]
      ]

  count_persistent-remove :
      (m : Dict Text (ModuleEntry M)) (k : Text)
      → Unique m
      → can_evict m k ≡ true
      → count_persistent (remove m k) + 1 ≡ count_persistent m
  unfolding count_persistent can_evict remove get
  count_persistent-remove [] k u h = cc
  count_persistent-remove ((j, e) ∷ m) k (fresh, u) h =
      ground (arith, count_persistent-remove m k u, remove_absent m k, list_beq_iff j k)

  -- What an eviction leaves: every entry is as it was, or it was persistent and loaded and is gone;
  -- and no more persistent entries than the limit are left, or none that is queued can be evicted.
  pub record Evicted (limit : ℕ) (before after : Dict Text (ModuleEntry M)) (lru : List Text)
      : Type 0 where
    pub kept :
        (k : Text)
        → (get after k ≡ get before k) ⊎ ((get after k ≡ none) × (can_evict before k ≡ true))
    pub unique : Unique after
    pub enough : (count_persistent after ≤ limit) ⊎ All (λ k. can_evict after k ≡ false) lru

  can_evict-remove :
      (m : Dict Text (ModuleEntry M)) (c k : Text)
      → can_evict (remove m c) k ≡ true
      → can_evict m k ≡ true
  unfolding can_evict
  can_evict-remove m c k h = ground (arith, get-remove m c k)

  Evicted-remove :
      (m m' : Dict Text (ModuleEntry M)) (lru : List Text) (limit : ℕ) (c : Text)
      → can_evict m c ≡ true
      → Evicted limit (remove m c) m' lru
      → Evicted limit m m' lru
  Evicted-remove m m' lru limit c h v = record {
    kept =
        λ k. ground (arith, v.kept k, get-remove m c k, list_beq_iff c k, can_evict-remove m c k);
    unique = v.unique;
    enough = v.enough;
  }

  stopped-Evicted :
      (m : Dict Text (ModuleEntry M)) (lru : List Text) (limit count checks : ℕ)
      → Unique m
      → count ≡ count_persistent m
      → All (λ k. can_evict m k ≡ false) (drop checks lru)
      → (ltb limit count && ltb 0 checks) ≡ false
      → Evicted limit m m lru
  stopped-Evicted m lru limit count zero u n a done = record {
    kept = λ k. inl refl;
    unique = u;
    enough = inr a;
  }
  stopped-Evicted m lru limit count (suc checks) u n a done = record {
    kept = λ k. inl refl;
    unique = u;
    enough = inl (ground arith);
  }

  Evicted-out :
      (m m₁ m₂ : Dict Text (ModuleEntry M)) (lru₁ lru₂ : List Text) (limit : ℕ)
      → ◌≡◌ {A = Option (Dict Text (ModuleEntry M) × List Text)} (some (m₁, lru₁)) (some (m₂, lru₂))
      → Evicted limit m m₁ lru₁
      → Evicted limit m m₂ lru₂
  Evicted-out m m₁ m₂ lru₁ lru₂ limit e v =
      let modules : m₁ ≡ m₂ = cc in let queue : lru₁ ≡ lru₂ = cc in rw (modules, queue) at v

  evict_loop-Evicted :
      (fuel : ℕ) (m : Dict Text (ModuleEntry M)) (lru : List Text) (limit count checks : ℕ)
      (m' : Dict Text (ModuleEntry M)) (lru' : List Text)
      → Unique m
      → count ≡ count_persistent m
      → checks ≤ length lru
      → All (λ k. can_evict m k ≡ false) (drop checks lru)
      → evict_loop fuel m lru limit count checks ≡ some (m', lru')
      → Evicted limit m m' lru'
  unfolding evict_loop
  evict_loop-Evicted zero m lru limit count checks m' lru' u n h a e = cc
  evict_loop-Evicted (suc fuel) m [] limit count zero m' lru' u n h a e =
      Evicted-out m m m' [] lru' limit e
        (record { kept = λ k. inl refl; unique = u; enough = inr tt })
  evict_loop-Evicted (suc fuel) m [] limit count (suc checks) m' lru' u n h a e =
      absurd (omega arith)
  evict_loop-Evicted (suc fuel) m (c ∷ rest) limit count checks m' lru' u n h a e =
      elim (Bool-cases (ltb limit count && ltb 0 checks)) [
        | inr done ↦
            Evicted-out m m m' (c ∷ rest) lru' limit (rw done at e)
              (stopped-Evicted m (c ∷ rest) limit count checks u n a done)
        | inl more ↦ elim (Bool-cases (can_evict m c)) [
          | inl evictable ↦ Evicted-remove m m' lru' limit c evictable (
              evict_loop-Evicted fuel (remove m c) rest limit (count - 1) (length rest) m' lru'
                (remove-Unique m c u) (omega (arith, count_persistent-remove m c u evictable))
                (omega arith) (drop-length _ rest) (rw (more, evictable) at e))
          | inr kept ↦
              evict_loop-Evicted fuel m (rest ++ c ∷ []) limit count (checks - 1) m' lru' u n
                (omega (arith, length-append rest (c ∷ [])))
                (rotate _ checks rest c (ground arith) h kept a) (rw (more, kept) at e)
        ]
      ]

  -- `evict_persistent_if_needed` ends, and leaves what `Evicted` says.
  pub evict_persistent-Evicted :
      (st : ModuleRegistryState M)
      → Unique st.modules
      → Evicted st.persistent_limit st.modules
          (evict_persistent_if_needed st).modules
          (evict_persistent_if_needed st).persistent_lru
  unfolding evict_persistent_if_needed
  evict_persistent-Evicted st u =
      let n = length st.persistent_lru in
      let total = count_persistent st.modules in
      elim (Bool-cases (leb total st.persistent_limit)) [
        | inl small ↦
            rw small (record { kept = λ k. inl refl; unique = u; enough = inl (ground arith) })
        | inr large ↦
            let (out, e) =
              evict_loop_total (rounds n n) st.modules st.persistent_lru st.persistent_limit total n
                (omega arith) in
            rw (large, e)
              (evict_loop-Evicted (rounds n n) st.modules st.persistent_lru st.persistent_limit
                total n out.0 out.1 u refl (omega arith) (drop-length _ st.persistent_lru) e)
      ]
