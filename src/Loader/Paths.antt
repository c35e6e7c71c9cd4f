-- ===== src/Loader/Paths.antt =====
-- Which paths an allowed URL covers (src/worker/modules.rs).
use deno_director.Prelude.{
  ◌≡◌, refl, ◌⊎◌, inl, inr, ◌↔◌, true, some, [], ◌∷◌, ◌++◌, ap, ◌∙◌, beq_refl, ◌==◌, list_eq,
  list_beq_iff, Bool-cases, Option-cases, arith,
}
use deno_director.Prelude.Text.{Text, codes, strip_prefix, starts_with}
use deno_director.Loader.{path_is_prefix_boundary}

strip_prefix-append : (p s : Text) → strip_prefix (p ++ s) p ≡ some s
unfolding strip_prefix
strip_prefix-append [] s = refl
strip_prefix-append (c ∷ p) s = rw (strip_prefix-append p s) (ground arith)

pub strip_prefix_sound : (s p rest : Text) → strip_prefix s p ≡ some rest → s ≡ p ++ rest
unfolding strip_prefix
strip_prefix_sound s [] rest h = cc
strip_prefix_sound [] (c ∷ p) rest h = absurd cc
strip_prefix_sound (d ∷ s) (c ∷ p) rest h = grind (arith, strip_prefix_sound s p rest)

-- The path is empty, the root, the requested path, or a whole number of its first segments.
abbrev pub Covers : Text → Text → Type 0
Covers allow_path req_path =
    (allow_path ≡ [])
    ⊎ (allow_path ≡ codes "/")
    ⊎ (req_path ≡ allow_path)
    ⊎ ((rest : Text) × (req_path ≡ allow_path ++ b'/' ∷ rest))

slash_head : (s : Text) → starts_with s (codes "/") ≡ true → (rest : Text) × (s ≡ b'/' ∷ rest)
unfolding starts_with
slash_head [] h = absurd cc
slash_head (c ∷ s) h = (s, ground arith)

boundary-Covers : (a r : Text) → path_is_prefix_boundary a r ≡ true → Covers a r
unfolding path_is_prefix_boundary
boundary-Covers [] r h = inl refl
boundary-Covers (c ∷ a) r h = elim (Bool-cases ((c ∷ a) == codes "/")) [
  | inl e ↦ inr (inl ((list_beq_iff _ _).0 e))
  | inr e ↦ elim (Bool-cases (r == (c ∷ a))) [
    | inl g ↦ inr (inr (inl ((list_beq_iff _ _).0 g)))
    | inr g ↦ elim (Option-cases (strip_prefix r (c ∷ a))) [
      | inl o ↦ absurd (let k = rw (path_is_prefix_boundary, e, g, o) at h in cc)
      | inr (rest, o) ↦
          let (t, k) = slash_head rest (rw (path_is_prefix_boundary, e, g, o) at h) in
          inr (inr (inr (t, strip_prefix_sound r (c ∷ a) rest o ∙ ap (λ x. (c ∷ a) ++ x) k)))
    ]
  ]
]

starts_with-slash : (rest : Text) → starts_with (b'/' ∷ rest) (codes "/") ≡ true
unfolding starts_with
starts_with-slash rest = refl

Covers-boundary : (a r : Text) → Covers a r → path_is_prefix_boundary a r ≡ true
unfolding path_is_prefix_boundary
Covers-boundary a r (inl e) = rw e (ground arith)
Covers-boundary a r (inr (inl e)) = rw e (ground (arith, beq_refl (codes "/")))
Covers-boundary a r (inr (inr (inl e))) = rw e (ground (arith, beq_refl a))
Covers-boundary a r (inr (inr (inr (rest, e)))) =
    rw (e, strip_prefix-append a (b'/' ∷ rest)) (ground (arith, starts_with-slash rest))

-- An allowed path covers a requested path exactly if it is empty, the root, the path itself, or is
-- followed in it by a slash.
pub boundary_iff : (a r : Text) → (path_is_prefix_boundary a r ≡ true) ↔ Covers a r
boundary_iff a r = (boundary-Covers a r, Covers-boundary a r)
