-- ===== src/Facade/Fuel.antt =====
-- The scan for `require` calls in src/worker/modules.rs ends.
use deno_director.Prelude.{
  ℕ, zero, suc, ◌+◌, ◌≡◌, ◌≤◌, ◌<◌, refl, ap, ◌⊎◌, inl, inr, Bool, true, false, not, some, List, [],
  ◌∷◌, length, length-append, nat_beq, arith, Option-cases, if_elim,
}
use deno_director.Prelude.Text.{Text, codes, strip_prefix}
use deno_director.Loader.Paths.{strip_prefix_sound}
use deno_director.Facade.Exports.{behind_text}
use deno_director.Facade.Requires.{
  Scan, scanned, slice_panics, out_of_fuel, skip_whitespace, read_literal, at_boundary, is_quote,
  is_ascii_whitespace, scan_calls,
}

behind_shorter : (s p rest : Text) → behind_text s p ≡ some rest → length rest + length p ≤ length s
unfolding behind_text
behind_shorter [] p rest h =
    let e = ap length (strip_prefix_sound [] p rest h) in omega (arith, length-append p rest)
behind_shorter (c ∷ s) p rest h = elim (Option-cases (strip_prefix (c ∷ s) p)) [
  | inl e ↦ omega (arith, behind_shorter s p rest (rw e at h))
  | inr (r, e) ↦
      let g = rw e at h in
      let k = ap length (strip_prefix_sound (c ∷ s) p r e) in
      let same : r ≡ rest = cc in omega (arith, length-append p r, ap length same)
]

skip_shorter : (bs : List ℕ) → length (skip_whitespace bs) ≤ length bs
unfolding skip_whitespace
skip_shorter [] = omega arith
skip_shorter (b ∷ bs) =
    if_elim (λ (r : List ℕ). length r ≤ length (b ∷ bs)) (is_ascii_whitespace b)
      (λ _. omega (arith, skip_shorter bs)) (λ _. omega arith)

literal_shorter :
    (quote : ℕ) (escaped : Bool) (bs : List ℕ)
    → length (read_literal quote escaped bs).1 ≤ length bs
unfolding read_literal
literal_shorter quote escaped [] = omega arith
literal_shorter quote true (b ∷ bs) = omega (arith, literal_shorter quote false bs)
literal_shorter quote false (b ∷ bs) =
    let Short : Text × List ℕ → Type 0 = λ w. length w.1 ≤ length (b ∷ bs) in
    if_elim Short (nat_beq b b'\\') (λ _. omega (arith, literal_shorter quote true bs))
      (λ _.
        if_elim Short (nat_beq b quote) (λ _. omega arith)
          (λ _. omega (arith, literal_shorter quote false bs)))

list_cases : (xs : List ℕ) → (xs ≡ []) ⊎ ((b : ℕ) × (bs : List ℕ) × (xs ≡ b ∷ bs))
list_cases [] = inl refl
list_cases (b ∷ bs) = inr (b, bs, refl)

-- The fuel did not run out.
abbrev pub Ends : Scan → Type 0
Ends (scanned seen) = Unit
Ends slice_panics = Unit
Ends out_of_fuel = ⊥

-- With more fuel than there are bytes, the scan does not run out of it: it ends with the literals or in a
-- panic.
pub scan_calls-Ends :
    (fuel : ℕ) (seen : List Text) (bytes : List ℕ)
    → length bytes < fuel
    → Ends (scan_calls fuel seen bytes)
unfolding scan_calls
scan_calls-Ends zero seen bytes h = absurd (omega arith)
scan_calls-Ends (suc fuel) seen bytes h =
    elim (Option-cases (behind_text bytes (codes "require("))) [
      | inl e ↦ rw (scan_calls, e) tt
      | inr (start, e) ↦
          let call : length start + 8 ≤ length bytes =
            behind_shorter bytes (codes "require(") start e in
          elim (list_cases (skip_whitespace start)) [
            | inl f ↦ rw (scan_calls, e, f) tt
            | inr (quote, body, f) ↦
                let open_short = skip_shorter start in
                let inner_short = literal_shorter quote false body in
                let close_short = skip_shorter (read_literal quote false body).1 in
                let whole = ap length f in
                elim (list_cases (skip_whitespace (read_literal quote false body).1)) [
                  | inl g ↦
                      rw (scan_calls, e, f)
                        (if_elim Ends (not (is_quote quote))
                          (λ _. scan_calls-Ends fuel seen start (omega arith)) (λ _. rw g tt))
                  | inr (b, next, g) ↦
                      let left = ap length g in
                      rw (scan_calls, e, f)
                        (if_elim Ends (not (is_quote quote))
                          (λ _. scan_calls-Ends fuel seen start (omega arith))
                          (λ _. rw g (
                            if_elim Ends (at_boundary next)
                              (λ _. scan_calls-Ends fuel _ next (omega arith)) (λ _. tt))))
                ]
          ]
    ]
