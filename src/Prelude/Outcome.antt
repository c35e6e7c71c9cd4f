-- ===== src/Prelude/Outcome.antt =====
-- How a call of Rust ends: with what `Option` and `Result` return, or in a panic.
use mathlib.Core.Option.{Option, none, some}
use deno_director.Prelude.Text.{Text}

pub data Search (A : Type 0) : Type 0 where
  found : A → Search A
  missing : Search A
  crashed : Search A

pub data Result (A : Type 0) : Type 0 where
  done : A → Result A
  failed : Text → Result A
  panicked : Result A

abbrev pub from_option : {A : Type 0} → Option A → Search A
from_option none = missing
from_option (some a) = found a

-- `Option::or`
abbrev pub or_try : {A : Type 0} → Option A → Option A → Option A
or_try none other = other
or_try (some a) other = some a
