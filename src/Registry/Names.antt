-- ===== src/Registry/Names.antt =====
-- `named_virtual_specifier` of src/worker/modules.rs: the internal specifier of a module that a user
-- registered under a name.
use deno_director.Prelude.{
  ℕ, ◌+◌, ◌≤◌, Bool, true, false, ◌&&◌, ◌||◌, [], ◌∷◌, ◌++◌, leb, nat_beq, if◌then◌else◌, take, ◌≡◌,
  ◌⊎◌, arith, All, All-reverse, All-take, if_elim, length, length-take,
}
use deno_director.Prelude.Text.{Text, codes}
use mathlib.Core.List.{reverse}

unfoldable pub is_ascii_alphanumeric : ℕ → Bool
is_ascii_alphanumeric c =
    (leb b'0' c && leb c b'9') || (leb b'A' c && leb c b'Z') || (leb b'a' c && leb c b'z')

unfoldable pub to_ascii_lowercase : ℕ → ℕ
to_ascii_lowercase c = if leb b'A' c && leb c b'Z' then c + 32 else c

abbrev is_mark : ℕ → Bool
is_mark c = nat_beq c b'-' || nat_beq c b'_' || nat_beq c b'.'

-- The loop over the characters of the name; the flag is `last_was_dash`.
label_loop : Text → Bool → Text
unfolding is_ascii_alphanumeric to_ascii_lowercase
label_loop [] last_was_dash = []
label_loop (c ∷ s) last_was_dash =
    let plain = label_loop s false in
    let dashed = label_loop s true in
    if is_ascii_alphanumeric c
    then to_ascii_lowercase c ∷ plain
    else if is_mark c
    then c ∷ plain
    else if last_was_dash
    then dashed
    else b'-' ∷ dashed

trim_start_dashes : Text → Text
trim_start_dashes [] = []
trim_start_dashes (c ∷ s) = if nat_beq c b'-' then trim_start_dashes s else c ∷ s

-- `trim_matches('-')`
trim_dashes : Text → Text
unfolding trim_start_dashes
trim_dashes s = reverse (trim_start_dashes (reverse (trim_start_dashes s)))

or_unnamed : Text → Text
or_unnamed [] = codes "unnamed"
or_unnamed (c ∷ s) = c ∷ s

unfoldable pub name_label : Text → Text
unfolding label_loop trim_dashes or_unnamed
name_label module_name = or_unnamed (take 64 (trim_dashes (label_loop module_name false)))

-- `fingerprint` stands for the hash of the standard library, printed as 16 hexadecimal digits: its
-- algorithm is not specified.
unfoldable pub named_virtual_specifier : (Text → Text) → Text → Text
unfolding name_label
named_virtual_specifier fingerprint module_name =
    codes "denojs-worker://virtual/__named_"
    ++ (name_label module_name ++ (codes "_" ++ (fingerprint module_name ++ codes ".js")))

-- What may stand in a label.
abbrev pub IsLabelChar : ℕ → Type 0
IsLabelChar c =
    ((b'0' ≤ c) × (c ≤ b'9')) ⊎ ((b'a' ≤ c) × (c ≤ b'z')) ⊎ (c ≡ b'-') ⊎ (c ≡ b'_') ⊎ (c ≡ b'.')

label_loop-IsLabelChar : (s : Text) (dash : Bool) → All IsLabelChar (label_loop s dash)
unfolding label_loop
label_loop-IsLabelChar [] dash = tt
label_loop-IsLabelChar (c ∷ s) dash =
    ground (arith, label_loop-IsLabelChar s true, label_loop-IsLabelChar s false)

trim_start_dashes-All : (P : ℕ → Type 0) (s : Text) → All P s → All P (trim_start_dashes s)
unfolding trim_start_dashes
trim_start_dashes-All P [] h = h
trim_start_dashes-All P (c ∷ s) h =
    if_elim (All P) (nat_beq c b'-') (λ _. trim_start_dashes-All P s h.1) (λ _. h)

trim_dashes-All : (P : ℕ → Type 0) (s : Text) → All P s → All P (trim_dashes s)
unfolding trim_dashes
trim_dashes-All P s h =
    All-reverse P _ (trim_start_dashes-All P _ (All-reverse P _ (trim_start_dashes-All P s h)))

or_unnamed-IsLabelChar : (s : Text) → All IsLabelChar s → All IsLabelChar (or_unnamed s)
unfolding or_unnamed
or_unnamed-IsLabelChar [] h = ground arith
or_unnamed-IsLabelChar (c ∷ s) h = h

or_unnamed_bounds :
    (s : Text) → length s ≤ 64 → (1 ≤ length (or_unnamed s)) × (length (or_unnamed s) ≤ 64)
unfolding or_unnamed
or_unnamed_bounds [] h = omega arith
or_unnamed_bounds (c ∷ s) h = omega arith

-- Whatever the user's name is, its label has 1 to 64 characters, each a lower-case ASCII letter, a
-- digit, a dash, an underscore or a dot.
pub name_label_safe :
    (name : Text)
    → All IsLabelChar (name_label name)
      × (1 ≤ length (name_label name))
      × (length (name_label name) ≤ 64)
unfolding name_label
name_label_safe name =
    let trimmed = trim_dashes (label_loop name false) in
    let (lo, hi) = or_unnamed_bounds (take 64 trimmed) (omega (arith, length-take 64 trimmed)) in
    (
      or_unnamed-IsLabelChar (take 64 trimmed) (
          All-take IsLabelChar 64 trimmed
            (trim_dashes-All IsLabelChar _ (label_loop-IsLabelChar name false))),
      lo,
      hi,
    )
