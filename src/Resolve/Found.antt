-- ===== src/Resolve/Found.antt =====
-- What a search through the exports of a package finds, and when it panics (src/worker/modules.rs).
use deno_director.Prelude.{
  ◌≡◌, refl, sym, ◌∙◌, ◌⊎◌, inl, inr, ◌+◌, ◌<◌, true, not, ◌||◌, Option, none, some, List, [], ◌∷◌,
  list_eq, ltb, Bool-cases, Option-cases, if_elim, arith,
}
use deno_director.Prelude.Outcome.{Search, found, missing, crashed, from_option}
use deno_director.Prelude.Text.{Text, is_empty, trim, starts_with, split_once, byte_len}
use deno_director.Prelude.Patterns.{ends_with, trim_start_here}
use deno_director.Bridge.Json
use deno_director.Bridge.Json.{Json, Fields}
use deno_director.Paths.{FilePath}
use deno_director.Resolve.Node.{Disk, is_file, joined, resolve_node_candidate}
use deno_director.Resolve.Exports.{
  pick_target, candidate_from_target, search_target, search_patterns, found_or,
}
use deno_director.Resolve.Candidates.{first_file, candidates, resolve_node_candidate-first_file}

module _ {N : Type 0} (disk : Disk N) where
  first_file-IsFile :
      (ps : List FilePath) (p : FilePath) → first_file disk ps ≡ some p → is_file disk p ≡ true
  unfolding first_file
  first_file-IsFile [] p h = absurd cc
  first_file-IsFile (q ∷ ps) p h = elim (Bool-cases (is_file disk q)) [
    | inl e ↦ let g = rw e at h in cc
    | inr e ↦ first_file-IsFile ps p (rw e at h)
  ]

  pub candidate-IsFile :
      (candidate p : FilePath) (exts : List Text)
      → resolve_node_candidate disk candidate exts ≡ some p
      → is_file disk p ≡ true
  candidate-IsFile candidate p exts h =
      first_file-IsFile (candidates disk candidate exts) p
        (sym (resolve_node_candidate-first_file disk candidate exts) ∙ h)

  -- A pattern that fits the request, with a prefix and a suffix that overlap in it.
  abbrev pub Overlaps : Text → Text → Type 0
  Overlaps request pattern =
      (prefix : Text) × (suffix : Text) × (split_once pattern b'*' ≡ some (prefix, suffix))
      × (starts_with request prefix ≡ true)
      × (ends_with request suffix ≡ true)
      × (byte_len request < byte_len prefix + byte_len suffix)

  -- Some key of the object is such a pattern.
  abbrev pub HasOverlap : Text → Fields N → Type 0
  HasOverlap request Json.end = ⊥
  HasOverlap request (Json.field pattern target m) = Overlaps request pattern ⊎ HasOverlap request m

  -- What a search may come to.
  abbrev pub Honest : Text → Fields N → Search FilePath → Type 0
  Honest request m (found p) = is_file disk p ≡ true
  Honest request m missing = Unit
  Honest request m crashed = HasOverlap request m

  pub found_or-Honest :
      (request : Text) (m : Fields N) (o : Option FilePath) (others : Search FilePath)
      → ((p : FilePath) → o ≡ some p → is_file disk p ≡ true)
      → Honest request m others
      → Honest request m (found_or o others)
  found_or-Honest request m none others h k = k
  found_or-Honest request m (some p) others h k = h p refl

  from_option-Honest :
      (request : Text) (m : Fields N) (o : Option FilePath)
      → ((p : FilePath) → o ≡ some p → is_file disk p ≡ true)
      → Honest request m (from_option o)
  from_option-Honest request m none h = tt
  from_option-Honest request m (some p) h = h p refl

  module _ (dir : FilePath) (exts : List Text) where
    pub target-IsFile :
        (t : Text) (p : FilePath)
        → candidate_from_target disk dir exts t ≡ some p
        → is_file disk p ≡ true
    unfolding candidate_from_target
    target-IsFile t p =
        let Sound : Option FilePath → Type 0 = λ o. o ≡ some p → is_file disk p ≡ true in
        if_elim Sound (is_empty (trim t)) (λ _ h. absurd cc)
          (λ _ h. candidate-IsFile (joined disk dir (trim_start_here (trim t))) p exts h)

    target-Honest :
        (request prefix suffix pattern : Text) (target : Json N) (m : Fields N)
        (others : Search FilePath)
        → split_once pattern b'*' ≡ some (prefix, suffix)
        → starts_with request prefix ≡ true
        → ends_with request suffix ≡ true
        → Honest request (Json.field pattern target m) others
        → Honest request
            (Json.field pattern target m)
            (search_target disk dir exts request prefix suffix target others)
    unfolding search_target
    target-Honest request prefix suffix pattern target m others e a b h =
        if_elim (Honest request (Json.field pattern target m))
          (ltb (byte_len request) (byte_len prefix + byte_len suffix))
          (λ t. inl (prefix, suffix, e, a, b, ground arith))
          (λ _. elim (Option-cases (pick_target target)) [
            | inl g ↦ rw g tt
            | inr (t, g) ↦
                rw g (
                  found_or-Honest request (Json.field pattern target m) _ others (target-IsFile _)
                    h)
          ])

    skip-Honest :
        (request pattern : Text) (target : Json N) (m : Fields N) (r : Search FilePath)
        → Honest request m r
        → Honest request (Json.field pattern target m) r
    skip-Honest request pattern target m (found p) h = h
    skip-Honest request pattern target m missing h = tt
    skip-Honest request pattern target m crashed h = inr h

    pub patterns-Honest :
        (request : Text) (m : Fields N) → Honest request m (search_patterns disk dir exts request m)
    unfolding search_patterns
    patterns-Honest request Json.end = tt
    patterns-Honest request (Json.field pattern target m) =
        let here : Search FilePath → Type 0 = Honest request (Json.field pattern target m) in
        let rest : here (search_patterns disk dir exts request m) =
          skip-Honest request pattern target m _ (patterns-Honest request m) in
        elim (Option-cases (split_once pattern b'*')) [
          | inl e ↦ rw (search_patterns, e) rest
          | inr ((prefix, suffix), e) ↦
              rw (search_patterns, e)
                (if_elim here (not (starts_with request prefix) || not (ends_with request suffix))
                  (λ _. rest)
                  (λ f.
                    target-Honest request prefix suffix pattern target m _ e (ground arith)
                      (ground arith) rest))
        ]
