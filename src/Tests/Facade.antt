-- ===== src/Tests/Facade.antt =====
-- Runs of the scanners for CommonJS sources in src/worker/modules.rs, and the theorems at these runs.
use deno_director.Prelude.{◌≡◌, refl, inl, some, [], ◌∷◌, list_beq, All, arith}
use deno_director.Prelude.Text.{
  Text, codes, trim, trim_start, is_whitespace, strip_prefix, split_once,
}
use deno_director.Registry.Names.{is_ascii_alphanumeric}
use deno_director.Resolve.{any_is}
use deno_director.Facade.{collect_cjs_named_exports}
use deno_director.Facade.Exports
use deno_director.Facade.Requires.{
  scanned, slice_panics, scan_calls, skip_whitespace, read_literal, remember,
}
use deno_director.Facade.Fuel.{Ends, scan_calls-Ends}
use deno_director.Facade.Names.{IsDistinct, IsName, collect_cjs_named_exports-IsDistinct}

-- A call that is cut off behind its literal, at the end of the source.
abbrev cut_off : Text
cut_off = codes "require('x'"

abbrev complete : Text
complete = codes "require('x')"

cut_off_panics : scan_calls 12 [] cut_off ≡ slice_panics
unfolding scan_calls skip_whitespace read_literal Exports.behind_text strip_prefix
cut_off_panics = refl

complete_scanned : scan_calls 13 [] complete ≡ scanned (codes "x" ∷ [])
unfolding scan_calls skip_whitespace read_literal Exports.behind_text strip_prefix remember any_is
complete_scanned = refl

scan_calls-Ends_example : Ends (scan_calls 13 [] complete)
scan_calls-Ends_example = scan_calls-Ends 13 [] complete (omega arith)

-- A definition of the property `default` adds that name to the exports.
default_exported :
    Exports.parse_define_property_export_name (codes "Object.defineProperty(exports, 'default', {")
    ≡ some (codes "default")
unfolding Exports.parse_define_property_export_name Exports.quoted_name Exports.trim_end_semicolons
    Exports.is_js_identifier Exports.all_identifier is_ascii_alphanumeric trim trim_start
    is_whitespace strip_prefix split_once list_beq
default_exported = refl

collect_cjs_named_exports-IsDistinct_example :
    IsDistinct (collect_cjs_named_exports (inl []) (codes "exports.a = 1;"))
    × All IsName (collect_cjs_named_exports (inl []) (codes "exports.a = 1;"))
collect_cjs_named_exports-IsDistinct_example =
    collect_cjs_named_exports-IsDistinct (inl []) (codes "exports.a = 1;")
