-- ===== src/StreamPlane/Invariant.antt =====
-- How the four maps of the plane in src/worker/stream_plane.rs fit together, and that each operation
-- keeps them so.
pub mod Reads
pub mod Writes
use deno_director.Prelude.{
  ℕ, ◌≡◌, Option, none, some, arith, if◌then◌else◌, nat_eq, list_eq, list_beq_iff, ◌==◌,
}
use deno_director.Prelude.Dict.{get, insert, remove, get-insert, get-remove}
use deno_director.Prelude.Text.{Text}
use deno_director.StreamPlane.State.{NativeIncomingPlane}
use deno_director.StreamPlane.{record_chunk_telemetry}
use deno_director.StreamPlane.Fifo.{inner-record_chunk_telemetry}

-- The key under which a stream was opened.
unfoldable pub key_of : NativeIncomingPlane → ℕ → Option Text
key_of p id = elim (get p.streams id) [ none ↦ none | some s ↦ some s.key ]

-- The streams that are open and `key_to_id` are each other's inverse, the backlog holds open streams
-- only, and an open stream has nothing pending.
pub record IsConsistent (p : NativeIncomingPlane) : Type 0 where
  pub registered : (id : ℕ) (k : Text) → key_of p id ≡ some k → get p.key_to_id k ≡ some id
  pub owned : (id : ℕ) (k : Text) → get p.key_to_id k ≡ some id → key_of p id ≡ some k
  pub announced : (id : ℕ) (k : Text) → get p.backlog k ≡ some id → get p.key_to_id k ≡ some id
  pub settled : (id : ℕ) (k : Text) → key_of p id ≡ some k → get p.pending_by_id id ≡ none

-- What an operation that opens and drops no stream does to the maps.
pub record KeepsKeys (p q : NativeIncomingPlane) : Type 0 where
  pub keys : (id : ℕ) → key_of q id ≡ key_of p id
  pub ids : (k : Text) → get q.key_to_id k ≡ get p.key_to_id k
  pub backlog : (id : ℕ) (k : Text) → get q.backlog k ≡ some id → get p.backlog k ≡ some id
  pub pending :
      (id : ℕ) (k : Text)
      → key_of p id ≡ some k
      → get p.pending_by_id id ≡ none
      → get q.pending_by_id id ≡ none

pub KeepsKeys-IsConsistent :
    {p q : NativeIncomingPlane} → KeepsKeys p q → IsConsistent p → IsConsistent q
KeepsKeys-IsConsistent {p} same v = record {
  registered = λ id k h. cc (same.ids k, v.registered id k (cc (same.keys id)));
  owned = λ id k h. cc (same.keys id, v.owned id k (cc (same.ids k)));
  announced = λ id k h. cc (same.ids k, v.announced id k (same.backlog id k h));
  settled = λ id k h.
      let before : key_of p id ≡ some k = cc (same.keys id) in
      same.pending id k before (v.settled id k before);
}

pub ruleset plane_laws = (arith, get-insert, get-remove, inner-record_chunk_telemetry)

-- A stream goes, with its key in both maps.
pub record Drops (p q : NativeIncomingPlane) (id : ℕ) (key : Text) : Type 0 where
  pub was : key_of p id ≡ some key
  pub keys : (j : ℕ) → key_of q j ≡ (if id == j then none else key_of p j)
  pub ids : (k : Text) → get q.key_to_id k ≡ (if key == k then none else get p.key_to_id k)
  pub backlog : (k : Text) → get q.backlog k ≡ (if key == k then none else get p.backlog k)
  pub pending : (j : ℕ) → get p.pending_by_id j ≡ none → get q.pending_by_id j ≡ none

pub Drops-IsConsistent :
    {p q : NativeIncomingPlane} {id : ℕ} {key : Text}
    → Drops p q id key
    → IsConsistent p
    → IsConsistent q
Drops-IsConsistent {id} {key} d v = record {
  registered = λ j k h.
      ground
        (arith, d.keys j, d.ids k, v.registered j k, v.registered id key d.was, list_beq_iff key k);
  owned = λ j k h.
      ground (arith, d.keys j, d.ids k, v.owned j k, v.registered id key d.was, list_beq_iff key k);
  announced = λ j k h. ground (arith, d.backlog k, d.ids k, v.announced j k);
  settled = λ j k h. ground (arith, d.keys j, d.pending j, v.settled j k);
}

-- A stream comes, with its key in both maps.
pub record Opens (p q : NativeIncomingPlane) (id : ℕ) (key : Text) : Type 0 where
  pub fresh_id : key_of p id ≡ none
  pub fresh_key : get p.key_to_id key ≡ none
  pub keys : (j : ℕ) → key_of q j ≡ (if id == j then some key else key_of p j)
  pub ids : (k : Text) → get q.key_to_id k ≡ (if key == k then some id else get p.key_to_id k)
  pub backlog : (k : Text) → get q.backlog k ≡ (if key == k then some id else get p.backlog k)
  pub pending : (j : ℕ) → get q.pending_by_id j ≡ (if id == j then none else get p.pending_by_id j)

pub Opens-IsConsistent :
    {p q : NativeIncomingPlane} {id : ℕ} {key : Text}
    → Opens p q id key
    → IsConsistent p
    → IsConsistent q
Opens-IsConsistent {id} {key} o v = record {
  registered =
      λ j k h. ground (arith, o.keys j, o.ids k, v.registered j k, o.fresh_key, list_beq_iff key k);
  owned = λ j k h. ground (arith, o.keys j, o.ids k, v.owned j k, o.fresh_id, list_beq_iff key k);
  announced = λ j k h. ground (arith, o.backlog k, o.ids k, v.announced j k);
  settled = λ j k h. ground (arith, o.keys j, o.pending j, v.settled j k);
}
