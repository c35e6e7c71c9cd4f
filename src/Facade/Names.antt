-- ===== src/Facade/Names.antt =====
-- The names that the facade of a CommonJS source exports (src/worker/modules.rs).
use deno_director.Prelude.{
  ◌≤◌, ◌≡◌, refl, ◌⊎◌, inl, inr, true, false, not, ◌||◌, Option, none, some, List, [], ◌∷◌, ◌==◌,
  list_eq, list_beq_iff, All, All-append, All-reverse, nat_beq, arith, Option-cases, if_elim,
}
use mathlib.Core.List.{reverse, reverse-cons}
use deno_director.Prelude.Outcome.{or_try}
use deno_director.Prelude.Text.{Text, codes, trim, trim_start, is_empty, strip_prefix, split_once}
use deno_director.Registry.Queue.{occurs, occurs-append}
use deno_director.Resolve.{any_is}
use deno_director.Load.World.{Parsed}
use deno_director.Load.Cjs.{lines}
use deno_director.Facade.{
  remember_all, keep_names, one_or_none, line_names, parsed_exports, collect_cjs_named_exports,
}
use deno_director.Facade.Exports.{
  is_js_identifier, is_export_name, assigned_name, quoted_name, checked, statement,
  parse_exports_assignment_name, parse_module_exports_assignment_name,
  parse_define_property_export_name, parse_module_exports_object_literal_names, literal_names,
  object_names, names_behind, unquoted, key_of, split_commas, body_at,
}
use deno_director.Facade.Requires.{remember}

-- An identifier that is not the marker of an ES module.
abbrev pub IsName : Text → Type 0
IsName name = (is_js_identifier name ≡ true) × ((name == codes "__esModule") ≡ false)

-- What a parser finds is such a name.
abbrev IsNameIf : Option Text → Type 0
IsNameIf none = Unit
IsNameIf (some name) = IsName name

export-IsName : (name : Text) → is_export_name name ≡ true → IsName name
unfolding is_export_name
export-IsName name h = (ground arith, ground arith)

checked-IsName : (name : Text) → IsNameIf (checked name)
checked-IsName name = if_elim IsNameIf (is_export_name name) (λ e. export-IsName name e) (λ _. tt)

assigned-IsName : (prefix line : Text) → IsNameIf (assigned_name prefix line)
unfolding assigned_name
assigned-IsName prefix line = elim (Option-cases (strip_prefix (statement line) prefix)) [
  | inl e ↦ rw (assigned_name, e) tt
  | inr (rest, e) ↦ elim (Option-cases (split_once rest b'=')) [
    | inl f ↦ rw (assigned_name, e, f) tt
    | inr (w, f) ↦ rw (assigned_name, e, f) (checked-IsName (trim w.0))
  ]
]

quoted-IsName : (s : Text) → IsNameIf (quoted_name s)
unfolding quoted_name
quoted-IsName [] = tt
quoted-IsName (c ∷ s) =
    if_elim IsNameIf (nat_beq c b'"' || nat_beq c b'\'')
      (λ _. elim (Option-cases (split_once s c)) [
        | inl e ↦ rw e tt
        | inr (w, e) ↦ rw e (
            if_elim IsNameIf (trim w.0 == codes "__esModule" || not (is_js_identifier (trim w.0)))
              (λ _. tt) (λ h. (ground arith, ground arith)))
      ])
      (λ _. tt)

property-IsName : (line : Text) → IsNameIf (parse_define_property_export_name line)
unfolding parse_define_property_export_name
property-IsName line =
    elim (Option-cases (
      or_try (strip_prefix (statement line) (codes "Object.defineProperty(exports, "))
        (strip_prefix (statement line) (codes "Object.defineProperty(module.exports, ")))) [
          | inl e ↦ rw (parse_define_property_export_name, e) tt
          | inr (rest, e) ↦ rw (parse_define_property_export_name, e) (quoted-IsName rest)
        ]

one-IsName : (o : Option Text) → IsNameIf o → All IsName (one_or_none o)
one-IsName none h = tt
one-IsName (some name) h = (h, tt)

lines-IsName : (ls : List Text) → All IsName (line_names ls)
unfolding line_names parse_exports_assignment_name parse_module_exports_assignment_name
lines-IsName [] = tt
lines-IsName (line ∷ rest) =
    All-append IsName _ _ (one-IsName _ (assigned-IsName (codes "exports.") line)) (
      All-append IsName _ _ (one-IsName _ (assigned-IsName (codes "module.exports.") line))
        (All-append IsName _ _ (one-IsName _ (property-IsName line)) (lines-IsName rest)))

kept-IsName : (names : List Text) → All IsName (keep_names names)
unfolding keep_names
kept-IsName [] = tt
kept-IsName (name ∷ names) =
    if_elim (All IsName) (is_export_name name) (λ e. (export-IsName name e, kept-IsName names))
      (λ _. kept-IsName names)

literal-IsName : (raws : List Text) → All IsName (literal_names raws)
unfolding literal_names
literal-IsName [] = tt
literal-IsName (raw ∷ raws) =
    if_elim (All IsName) (is_empty (trim raw)) (λ _. literal-IsName raws)
      (λ _.
        if_elim (All IsName) (is_export_name (unquoted (key_of (trim raw))))
          (λ e. (export-IsName _ e, literal-IsName raws)) (λ _. literal-IsName raws))

remembered-IsName :
    (seen : List Text) (name : Text)
    → All IsName seen
    → IsName name
    → All IsName (remember seen name)
unfolding remember
remembered-IsName seen name h k = if_elim (All IsName) (any_is seen name) (λ _. h) (λ _. (k, h))

remember_all-IsName :
    (seen names : List Text)
    → All IsName seen
    → All IsName names
    → All IsName (remember_all seen names)
unfolding remember_all
remember_all-IsName seen [] h k = h
remember_all-IsName seen (name ∷ names) h k =
    remember_all-IsName (remember seen name) names (remembered-IsName seen name h k.0) k.1

program-IsName : (program : Text ⊎ Parsed) → All IsName (parsed_exports program)
program-IsName (inl e) = tt
program-IsName (inr parsed) = kept-IsName parsed.exports

object-IsName : (s : Text) → All IsName (object_names s)
object-IsName [] = tt
object-IsName (c ∷ s) =
    if_elim (All IsName) (nat_beq c b'{') (λ _. literal-IsName (split_commas (body_at 1 s)))
      (λ _. tt)

behind-IsName : (o : Option Text) → All IsName (names_behind o)
behind-IsName none = tt
behind-IsName (some after_eq) = object-IsName (trim_start after_eq)

source-IsName : (source : Text) → All IsName (parse_module_exports_object_literal_names source)
unfolding parse_module_exports_object_literal_names
source-IsName source = behind-IsName _

-- No name stands twice in the list.
abbrev pub IsDistinct : List Text → Type 0
IsDistinct names = (k : Text) → occurs names k ≤ 1

any_is-occurs : (seen : List Text) (k : Text) → any_is seen k ≡ false → occurs seen k ≡ 0
unfolding any_is occurs
any_is-occurs [] k h = refl
any_is-occurs (x ∷ xs) k h = ground (arith, any_is-occurs xs k)

remembered-IsDistinct :
    (seen : List Text) (name : Text) → IsDistinct seen → IsDistinct (remember seen name)
unfolding remember
remembered-IsDistinct seen name h =
    if_elim IsDistinct (any_is seen name) (λ _. h)
      (λ e k. unfold occurs in ground (arith, h k, any_is-occurs seen name e, list_beq_iff name k))

remember_all-IsDistinct :
    (seen names : List Text) → IsDistinct seen → IsDistinct (remember_all seen names)
unfolding remember_all
remember_all-IsDistinct seen [] h = h
remember_all-IsDistinct seen (name ∷ names) h =
    remember_all-IsDistinct (remember seen name) names (remembered-IsDistinct seen name h)

occurs-reverse : (xs : List Text) (k : Text) → occurs (reverse xs) k ≡ occurs xs k
unfolding occurs
occurs-reverse [] k = refl
occurs-reverse (x ∷ xs) k =
    rw (reverse-cons x xs)
      (ground (arith, occurs-append (reverse xs) (x ∷ []) k, occurs-reverse xs k))

-- Each name that the facade of a source exports stands once in the list, is an identifier, and is not the
-- marker of an ES module.
pub collect_cjs_named_exports-IsDistinct :
    (program : Text ⊎ Parsed) (source : Text)
    → IsDistinct (collect_cjs_named_exports program source)
      × All IsName (collect_cjs_named_exports program source)
unfolding collect_cjs_named_exports
collect_cjs_named_exports-IsDistinct program source =
    let first : List Text = remember_all [] (parsed_exports program) in
    let second : List Text = remember_all first (line_names (lines source)) in
    let third : List Text =
      remember_all second (parse_module_exports_object_literal_names source) in
    (
      λ k.
          let once : occurs third k ≤ 1 =
            remember_all-IsDistinct second _
              (remember_all-IsDistinct first _
                (remember_all-IsDistinct [] _ (unfold occurs in λ j. omega arith)))
              k in
          omega (arith, occurs-reverse third k),
      All-reverse IsName third (
          remember_all-IsName second _
            (remember_all-IsName first _ (remember_all-IsName [] _ tt (program-IsName program))
              (lines-IsName (lines source)))
            (source-IsName source)),
    )
