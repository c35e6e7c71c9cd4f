-- ===== src/Env/Merge.antt =====
-- The configured variables override the snapshot (src/worker/env.rs).
use deno_director.Prelude.{
  ◌≡◌, inl, inr, Option, none, some, [], ◌∷◌, list_eq, list_beq_iff, if◌then◌else◌, Bool-cases,
  arith,
}
use deno_director.Prelude.Dict.{Dict, get, insert, get-insert, Unique}
use deno_director.Prelude.Text.{Text}
use deno_director.Env.{map_of, valid_env_key, merge_entries, merge_env_snapshot}

abbrev pub or_else : Option Text → Option Text → Option Text
or_else none b = b
or_else (some a) b = some a

-- A variable after the merge has its configured value if its key is valid and configured, and
-- otherwise the value of the snapshot; the configuration has one entry for a key.
pub get-merge_env_snapshot :
    (snapshot entries : Dict Text Text) (key : Text)
    → Unique entries
    → get (merge_env_snapshot snapshot (some (map_of entries))) key ≡ (
        if valid_env_key key
        then or_else (get entries key) (get snapshot key)
        else get snapshot key)
unfolding merge_env_snapshot merge_entries get
get-merge_env_snapshot snapshot [] key u = ground arith
get-merge_env_snapshot snapshot ((k, v) ∷ entries) key (fresh, u) =
    elim (Bool-cases (valid_env_key k)) [
      | inl a ↦ rw a (
          ground (
            arith,
            get-merge_env_snapshot (insert snapshot k v) entries key u,
            get-insert snapshot k v key,
            list_beq_iff k key,
          ))
      | inr a ↦
          rw a (ground (arith, get-merge_env_snapshot snapshot entries key u, list_beq_iff k key))
    ]
