-- ===== src/Prelude/Dict.antt =====
-- Rust's `HashMap` as an association list with one entry for a key. The order of entries is not the
-- order in which Rust iterates, and nothing that is modelled depends on it.
use mathlib.Core.Path.{◌≡◌, refl, ◌∙◌}
use mathlib.Core.Bool.{Bool, true, false}
use mathlib.Core.Option.{Option, none, some}
use mathlib.Core.List.{List, [], ◌∷◌}
use native.Mathlib.Omega.{arith}
use deno_director.Prelude.Tests.{EqTest, ◌==◌, beq_refl, if◌then◌else◌}

abbrev pub Dict {ℓ κ} : Type ℓ → Type κ → Type (ℓ ⊔ κ)
Dict K V = List (K × V)

abbrev pub is_some {ℓ} : {A : Type ℓ} → Option A → Bool
is_some none = false
is_some (some a) = true

-- `unwrap_or_default` on an optional queue.
abbrev pub or_empty {ℓ} : {A : Type ℓ} → Option (List A) → List A
or_empty none = []
or_empty (some l) = l

module _ {ℓ κ} {K : Type ℓ} {V : Type κ} ⦃e : EqTest K⦄ where
  unfoldable pub get : Dict K V → K → Option V
  get [] k = none
  get ((j, v) ∷ m) k = if j == k then some v else get m k

  unfoldable pub remove : Dict K V → K → Dict K V
  remove [] k = []
  remove ((j, v) ∷ m) k = let rest = remove m k in if j == k then rest else (j, v) ∷ rest

  unfoldable pub insert : Dict K V → K → V → Dict K V
  unfolding remove
  insert m k v = (k, v) ∷ remove m k

  abbrev pub contains_key : Dict K V → K → Bool
  contains_key m k = is_some (get m k)

  pub get-remove :
      (m : Dict K V) (k j : K) → get (remove m k) j ≡ (if k == j then none else get m j)
  unfolding get remove
  get-remove [] k j = ground arith
  get-remove ((i, v) ∷ m) k j =
      ground (arith, get-remove m k j, e.test_iff i k, e.test_iff i j, e.test_iff k j)

  pub get-insert :
      (m : Dict K V) (k : K) (v : V) (j : K)
      → get (insert m k v) j ≡ (if k == j then some v else get m j)
  unfolding get insert
  get-insert m k v j = ground (arith, get-remove m k j)

  pub get-empty : (k : K) → get [] k ≡ none
  unfolding get
  get-empty k = refl

module _ {ℓ κ} {K : Type ℓ} {V : Type κ} ⦃e : EqTest K⦄ where
  -- Each key has one entry.
  abbrev pub Unique : Dict K V → Type κ
  Unique [] = Unit
  Unique ((k, v) ∷ m) = (get m k ≡ none) × Unique m

  pub remove_absent : (m : Dict K V) (k : K) → get m k ≡ none → remove m k ≡ m
  unfolding get remove
  remove_absent [] k h = refl
  remove_absent ((j, v) ∷ m) k h = ground (arith, remove_absent m k)

  -- A new entry can be taken away again.
  pub remove-insert : (m : Dict K V) (k : K) (v : V) → get m k ≡ none → remove (insert m k v) k ≡ m
  unfolding insert remove
  remove-insert m k v h = rw (beq_refl k, remove_absent m k h) (remove_absent m k h)

  pub remove-Unique : (m : Dict K V) (k : K) → Unique m → Unique (remove m k)
  unfolding remove
  remove-Unique [] k u = tt
  remove-Unique ((j, v) ∷ m) k (fresh, u) = ground (arith, remove-Unique m k u, get-remove m k j)

  pub insert-Unique : (m : Dict K V) (k : K) (v : V) → Unique m → Unique (insert m k v)
  unfolding insert
  insert-Unique m k v u = (get-remove m k k ∙ rw (beq_refl k), remove-Unique m k u)

pub ruleset dict_laws = (get-empty, get-remove, get-insert)
