-- ===== src/Requests.antt =====
-- The requests that wait for an answer (`PendingRequests` of src/worker/state.rs). A settler is a
-- parameter. The lock is held for each step; the exchange of the counter may fail any number of times.
use deno_director.Prelude.{
  ℕ, ◌+◌, ◌≤◌, ◌<◌, ◌%◌, ◌≡◌, Option, none, some, List, [], ◌∷◌, length, nat_beq, ◌==◌, nat_eq,
  if◌then◌else◌, arith, Bool-cases, Option-cases, nat_beq_iff, inl, inr,
}
use deno_director.Prelude.Dict.{Dict, get, insert, remove, get-insert, get-remove}

pub record PendingRequests {ℓ} (Settler : Type ℓ) : Type ℓ where
  pub next_id : ℕ
  pub pending : Dict ℕ Settler

-- `wrapping_add` of 64 bits, which skips zero.
unfoldable pub following : ℕ → ℕ
following observed =
    let next = (observed + 1) % 0x1_0000_0000_0000_0000 in if nat_beq next 0 then 1 else next

-- The counter that the loop issues: each failed exchange observes a new value of the counter.
unfoldable pub next_request_id : ℕ → List ℕ → ℕ
next_request_id observed [] = following observed
next_request_id observed (actual ∷ failures) = next_request_id actual failures

following-bounds : (n : ℕ) → (0 < following n) × (following n < 0x1_0000_0000_0000_0000)
unfolding following
following-bounds n = ground arith

following-small : (n : ℕ) → n + 1 < 0x1_0000_0000_0000_0000 → following n ≡ n + 1
unfolding following
following-small n h = ground arith

-- An identifier that is issued, after any failed exchanges, is not zero and fits 64 bits.
pub next_request_id-bounds :
    (observed : ℕ) (failures : List ℕ)
    → (0 < next_request_id observed failures)
      × (next_request_id observed failures < 0x1_0000_0000_0000_0000)
unfolding next_request_id
next_request_id-bounds observed [] = following-bounds observed
next_request_id-bounds observed (actual ∷ failures) = next_request_id-bounds actual failures

module _ {ℓ} {Settler : Type ℓ} where
  unfoldable pub insert_request : PendingRequests Settler → Settler → PendingRequests Settler × ℕ
  insert_request r settler =
      let id = following r.next_id in
      (record { next_id = id; pending = insert r.pending id settler }, id)

  unfoldable pub take_request :
      PendingRequests Settler → ℕ → PendingRequests Settler × Option Settler
  take_request r id =
      (record { next_id = r.next_id; pending = remove r.pending id }, get r.pending id)

  abbrev settlers : Dict ℕ Settler → List Settler
  settlers [] = []
  settlers ((id, settler) ∷ pending) = settler ∷ settlers pending

  -- The settlers that are rejected, and what is left.
  unfoldable pub reject_all : PendingRequests Settler → PendingRequests Settler × List Settler
  reject_all r = (record { next_id = r.next_id; pending = [] }, settlers r.pending)

  unfoldable pub len : PendingRequests Settler → ℕ
  len r = length r.pending

  -- The identifiers that wait were issued: they are not zero and not above the counter.
  abbrev pub Issued : PendingRequests Settler → Type ℓ
  Issued r =
      (id : ℕ) (settler : Settler) → get r.pending id ≡ some settler → (0 < id) × (id ≤ r.next_id)

  -- In a table whose waiting identifiers are positive and at most the counter, and as long as the
  -- counter does not wrap, a new request replaces none that waits, is taken by its identifier and leaves
  -- the others as they are, what is taken is not there a second time, and the table keeps that form.
  pub take_request-insert_request :
      (r : PendingRequests Settler) (settler : Settler)
      → Issued r
      → r.next_id + 1 < 0x1_0000_0000_0000_0000
      → (get r.pending (insert_request r settler).1 ≡ none)
        × ((id : ℕ)
            → (take_request (insert_request r settler).0 id).1
              ≡ (if (insert_request r settler).1 == id then some settler else get r.pending id))
        × ((id other : ℕ)
            → (take_request (take_request (insert_request r settler).0 id).0 other).1
              ≡ (if id == other then none else (take_request (insert_request r settler).0 other).1))
        × Issued (insert_request r settler).0
  unfolding insert_request take_request
  take_request-insert_request r settler i h =
      let e = following-small r.next_id h in
      (
        not_pending e,
        λ id. get-insert r.pending (following r.next_id) settler id,
        λ id other. get-remove (insert r.pending (following r.next_id) settler) id other,
        λ id other g. issued e id other g,
      )
    where
      not_pending : following r.next_id ≡ r.next_id + 1 → get r.pending (following r.next_id) ≡ none
      not_pending e = elim (Option-cases (get r.pending (following r.next_id))) [
        | inl g ↦ g
        | inr (s, g) ↦ let (a, b) = i _ s g in absurd (omega arith)
      ]

      issued :
          following r.next_id ≡ r.next_id + 1
          → (id : ℕ) (other : Settler)
          → get (insert r.pending (following r.next_id) settler) id ≡ some other
          → (0 < id) × (id ≤ following r.next_id)
      issued e id other g = elim (Bool-cases (following r.next_id == id)) [
        | inl k ↦ let m = (nat_beq_iff _ _).0 k in (omega arith, omega arith)
        | inr k ↦
            let (a, b) =
              i id other (rw (get-insert r.pending (following r.next_id) settler id, k) at g) in
            (omega arith, omega arith)
      ]
