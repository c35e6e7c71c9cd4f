-- ===== src/Dotenv/Quoted.antt =====
-- An environment file with quoted values (src/worker/state.rs) is read back.
use deno_director.Prelude.{
  ℕ, ◌≡◌, refl, sym, ap, ◌∙◌, false, ◌||◌, some, List, [], ◌∷◌, ◌++◌, append_assoc, nat_beq,
  list_eq, All, arith,
}
use mathlib.Core.Path.{subst}
use mathlib.Core.List.{reverse, reverse_aux, reverse-append, reverse-reverse}
use deno_director.Prelude.Text.{
  Text, codes, trim, trim_start, is_whitespace, is_empty, starts_with, split_once, contains_char,
}
use deno_director.Dotenv.{
  lines_from, lines, split_last, unquote, value_of, parse_line, parse_lines,
  parse_dotenv_text_strict,
}

reverse-end : (s : Text) (q : ℕ) → reverse (s ++ q ∷ []) ≡ q ∷ reverse s
reverse-end s q = reverse-append s (q ∷ [])

-- A text that begins and ends with no white space is trimmed already.
trim-ends :
    (c : ℕ) (s : Text) (q : ℕ)
    → is_whitespace c ≡ false
    → is_whitespace q ≡ false
    → trim (c ∷ s ++ q ∷ []) ≡ c ∷ s ++ q ∷ []
unfolding trim trim_start
trim-ends c s q h k =
    rw (trim, trim_start, h, reverse-end (c ∷ s) q, k)
      (ap reverse (sym (reverse-end (c ∷ s) q)) ∙ reverse-reverse (c ∷ s ++ q ∷ []))

split_last-end : (s : Text) (q : ℕ) → split_last (s ++ q ∷ []) ≡ some (s, q)
unfolding split_last
split_last-end [] q = refl
split_last-end (c ∷ s) q = rw (split_last-end s q) refl

split_once-key :
    (key rest : Text) (c : ℕ)
    → contains_char key c ≡ false
    → split_once (key ++ c ∷ rest) c ≡ some (key, rest)
unfolding split_once contains_char
split_once-key [] rest c h = ground arith
split_once-key (d ∷ key) rest c h = grind (arith, split_once-key key rest c)

-- The line of a variable with a quoted value.
unfoldable pub line_of : Text → Text → Text
line_of key v = key ++ (b'=' ∷ (b'"' ∷ (v ++ (b'"' ∷ []))))

quote_solid : is_whitespace b'"' ≡ false
unfolding is_whitespace
quote_solid = refl

trim-quoted : (v : Text) → trim (b'"' ∷ v ++ b'"' ∷ []) ≡ b'"' ∷ v ++ b'"' ∷ []
trim-quoted v = trim-ends b'"' v b'"' quote_solid quote_solid

unquote-quoted : (v : Text) → unquote (b'"' ∷ v ++ b'"' ∷ []) ≡ v
unfolding unquote
unquote-quoted v = rw (unquote, trim-quoted v, split_last-end v b'"') refl

value_of-quoted : (v : Text) → value_of (b'"' ∷ v ++ b'"' ∷ []) ≡ v
unfolding value_of
value_of-quoted v = rw (value_of, trim-quoted v) (unquote-quoted v)

-- A variable that the file keeps: no text of it has a line feed; the key is trimmed, is not empty, has no
-- equals sign and is no comment, and its line does not begin with the word of the shell.
abbrev pub IsPlain : Text × Text → Type 0
IsPlain ([], v) = ⊥
IsPlain (c ∷ k, v) =
    (is_whitespace c ≡ false)
    × (nat_beq c b'#' ≡ false)
    × (trim (c ∷ k) ≡ c ∷ k)
    × (contains_char (c ∷ k) b'=' ≡ false)
    × (starts_with (line_of (c ∷ k) v) (codes "export ") ≡ false)
    × (contains_char (line_of (c ∷ k) v) 10 ≡ false)

trim-line_of :
    (c : ℕ) (k v : Text) → is_whitespace c ≡ false → trim (line_of (c ∷ k) v) ≡ line_of (c ∷ k) v
unfolding line_of
trim-line_of c k v h =
    subst (λ (s : Text). trim (c ∷ s) ≡ c ∷ s) (append_assoc k (b'=' ∷ b'"' ∷ v) (b'"' ∷ []))
      (trim-ends c (k ++ b'=' ∷ b'"' ∷ v) b'"' h quote_solid)

no_comment :
    (c : ℕ) (k v : Text)
    → nat_beq c b'#' ≡ false
    → is_empty (line_of (c ∷ k) v) || starts_with (line_of (c ∷ k) v) (codes "#") ≡ false
unfolding line_of starts_with
no_comment c k v h = ground arith

split_once-line_of :
    (key v : Text)
    → contains_char key b'=' ≡ false
    → split_once (line_of key v) b'=' ≡ some (key, b'"' ∷ v ++ b'"' ∷ [])
unfolding line_of
split_once-line_of key v h = split_once-key key (b'"' ∷ v ++ b'"' ∷ []) b'=' h

parse_line-line_of :
    (entry : Text × Text) → IsPlain entry → parse_line (line_of entry.0 entry.1) ≡ some entry
unfolding parse_line
parse_line-line_of ([], v) h = absurd h
parse_line-line_of (c ∷ k, v) (solid, mark, trimmed, equals, word, feed) =
    rw
      (
        parse_line,
        trim-line_of c k v solid,
        word,
        no_comment c k v mark,
        split_once-line_of (c ∷ k) v equals,
        trimmed,
        value_of-quoted v,
      )
      refl

-- A file with a line for each variable.
unfoldable pub file_of : List (Text × Text) → Text
file_of [] = []
file_of (entry ∷ entries) = line_of entry.0 entry.1 ++ (10 ∷ file_of entries)

next_char :
    (c : ℕ) (line s : Text)
    → nat_beq c 10 ≡ false
    → lines_from line (c ∷ s) ≡ lines_from (c ∷ line) s
unfolding lines_from
next_char c [] s h = rw h refl
next_char c (d ∷ line) s h = rw h refl

lines_from-line :
    (s line rest : Text)
    → contains_char s 10 ≡ false
    → lines_from line (s ++ (10 ∷ rest)) ≡ lines_from (reverse_aux s line) (10 ∷ rest)
unfolding contains_char
lines_from-line [] line rest h = refl
lines_from-line (c ∷ s) line rest h =
    next_char c line (s ++ (10 ∷ rest)) (ground arith)
    ∙ lines_from-line s (c ∷ line) rest (ground arith)

-- A line that ends with no carriage return.
closed_line :
    (q : ℕ) (line rest : Text)
    → nat_beq q 13 ≡ false
    → lines_from (q ∷ line) (10 ∷ rest) ≡ reverse (q ∷ line) ∷ lines rest
unfolding lines_from
closed_line q line rest h = rw h refl

reverse-line_of :
    (key v : Text) → reverse (line_of key v) ≡ b'"' ∷ reverse (key ++ (b'=' ∷ (b'"' ∷ v)))
unfolding line_of
reverse-line_of key v =
    ap reverse (sym (append_assoc key (b'=' ∷ (b'"' ∷ v)) (b'"' ∷ [])))
    ∙ reverse-end (key ++ (b'=' ∷ (b'"' ∷ v))) b'"'

lines-line_of :
    (key v rest : Text)
    → contains_char (line_of key v) 10 ≡ false
    → lines (line_of key v ++ (10 ∷ rest)) ≡ line_of key v ∷ lines rest
lines-line_of key v rest h =
    let back = reverse-line_of key v in
    lines_from-line (line_of key v) [] rest h
    ∙ ap (λ (l : Text). lines_from l (10 ∷ rest)) back
    ∙ closed_line b'"' (reverse (key ++ (b'=' ∷ (b'"' ∷ v)))) rest refl
    ∙ ap (λ (l : Text). l ∷ lines rest) (ap reverse (sym back) ∙ reverse-reverse (line_of key v))

no_feed : (entry : Text × Text) → IsPlain entry → contains_char (line_of entry.0 entry.1) 10 ≡ false
no_feed ([], v) h = absurd h
no_feed (c ∷ k, v) (solid, mark, trimmed, equals, word, feed) = feed

-- A file with one line for each variable, the value in double quotes, is parsed to these variables in
-- their order, whatever the values hold but line feeds, if no key could be read as something else: it is
-- trimmed and not empty, has no equals sign and no line feed, begins with no number sign, and its line
-- does not begin with `export` and a space.
pub parse_dotenv-file_of :
    (entries : List (Text × Text))
    → All IsPlain entries
    → parse_dotenv_text_strict (file_of entries) ≡ entries
unfolding parse_dotenv_text_strict parse_lines file_of lines_from
parse_dotenv-file_of [] h = refl
parse_dotenv-file_of (entry ∷ entries) h =
    rw
      (
        lines-line_of entry.0 entry.1 (file_of entries) (no_feed entry h.0),
        parse_lines,
        parse_line-line_of entry h.0,
      )
      (ap (◌∷◌ entry) (parse_dotenv-file_of entries h.1))
