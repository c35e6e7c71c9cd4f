-- ===== src/Tests/EnvFile.antt =====
-- Runs of the parser of environment files in src/worker/state.rs, and the theorem at such a file.
use deno_director.Prelude.{◌≡◌, refl, some, List, [], ◌∷◌}
use deno_director.Prelude.Text
use deno_director.Prelude.Text.{Text, codes}
use deno_director.Dotenv
use deno_director.Dotenv.{parse_line, parse_dotenv_text_strict}
use deno_director.Dotenv.Quoted.{IsPlain, line_of, file_of, parse_dotenv-file_of}

with_comment : parse_line (codes "export A = b c # d") ≡ some (codes "A", codes "b c")
unfolding parse_line Text.trim Text.is_whitespace Text.starts_with Text.split_once Text.strip_prefix
    Dotenv.strip_exports Dotenv.value_of Dotenv.unquote Dotenv.split_last Dotenv.before_comment
with_comment = refl

-- Quotes with a comment behind them stay.
quoted_comment : parse_line (codes "A=\"b\" # c") ≡ some (codes "A", codes "\"b\" # c")
unfolding parse_line Text.trim Text.is_whitespace Text.starts_with Text.split_once Text.strip_prefix
    Dotenv.strip_exports Dotenv.value_of Dotenv.unquote Dotenv.split_last Dotenv.before_comment
quoted_comment = refl

abbrev two_variables : List (Text × Text)
two_variables = (codes "A", codes "b # c") ∷ (codes "D", []) ∷ []

first-IsPlain : IsPlain (codes "A", codes "b # c")
unfolding Text.is_whitespace Text.trim Text.contains_char Text.starts_with line_of
first-IsPlain = (refl, refl, refl, refl, refl, refl)

second-IsPlain : IsPlain (codes "D", [])
unfolding Text.is_whitespace Text.trim Text.contains_char Text.starts_with line_of
second-IsPlain = (refl, refl, refl, refl, refl, refl)

parse_dotenv-file_of_example : parse_dotenv_text_strict (file_of two_variables) ≡ two_variables
parse_dotenv-file_of_example =
    parse_dotenv-file_of two_variables (first-IsPlain, (second-IsPlain, tt))
