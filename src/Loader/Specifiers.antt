-- ===== src/Loader/Specifiers.antt =====
-- Kinds of specifiers that the module loader of src/worker/modules.rs tells apart.
use deno_director.Prelude.{Bool, true, false, ◌||◌, Option, none, some, ◌++◌, if◌then◌else◌}
use deno_director.Prelude.Text.{
  Text, codes, trim, is_empty, starts_with, strip_prefix, contains_text, trim_start_char,
}

unfoldable pub is_bare_specifier : Text → Bool
is_bare_specifier s =
    if starts_with s (codes "./") || starts_with s (codes "../") || starts_with s (codes "/")
    then false
    else if contains_text s (codes "://")
    then false
    else if starts_with s (codes "data:")
    then false
    else true

unfoldable pub map_jsr_specifier : Text → Option Text
map_jsr_specifier s = elim (strip_prefix s (codes "jsr:")) [
  | some rest ↦
      (let path = trim_start_char (trim rest) b'/' in
        if is_empty path then none else some (codes "https://jsr.io/" ++ path))
  | none ↦ if starts_with s (codes "@std/") then some (codes "https://jsr.io/" ++ s) else none
]
