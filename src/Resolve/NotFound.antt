-- ===== src/Resolve/NotFound.antt =====
-- The text of the error for a module that is not found on disk (`module_not_found_error` of
-- src/worker/modules.rs).
use deno_director.Prelude.{
  Bool, true, false, ◌||◌, Option, none, some, [], ◌∷◌, ◌++◌, if◌then◌else◌,
}
use deno_director.Prelude.Text.{Text, codes, starts_with, is_empty}
use deno_director.Paths.{Files}
use deno_director.LoaderConfig.{Urls, DynamicModuleLoader}
use deno_director.Loader.{module_loader_cfg, node_disk_resolve_enabled}
use deno_director.Loader.Specifiers.{is_bare_specifier}
use deno_director.Resolve.Packages.{is_path_specifier}

abbrev newline : Text
newline = 10 ∷ []

abbrev title : Text → Text
title specifier =
    if is_bare_specifier specifier
    then codes "Package import not found on disk"
    else if is_path_specifier specifier || starts_with specifier (codes "file:")
    then codes "File import not found on disk"
    else codes "Module not found on disk"

-- What was searched, for a package or another specifier, with the resolution of Node on or off.
abbrev searched : Bool → Bool → Text
searched true true =
    codes
      "Node-style resolution was enabled, so the worker already searched node_modules and package.json exports before giving up."
searched true false =
    codes
      "No package lookup was attempted because nodeJs.modules is disabled. Enable nodeJs.modules (or nodeJs: true) to search node_modules and package.json exports."
searched false true =
    codes
      "Node-style resolution was enabled, so the worker also tried extension/index fallbacks and package.json-based directory lookups before giving up."
searched false false =
    codes
      "Only the exact file path was searched. Enable nodeJs.modules (or nodeJs: true) to also try extension/index fallbacks and package.json-based directory lookups."

module _ {N : Type 0} (U : Urls) (files : Files) (l : DynamicModuleLoader N) where
  abbrev resolved_line : Option (Urls.Url U) → Text
  resolved_line none = []
  resolved_line (some u) =
      newline
      ++ codes "Resolved path: "
      ++ elim (Urls.to_file_path U u) [ none ↦ Urls.display U u | some p ↦ Files.to_text files p ]

  unfoldable pub module_not_found_error : Text → Text → Option (Urls.Url U) → Text
  module_not_found_error specifier referrer resolved =
      title specifier
      ++ codes ": "
      ++ specifier
      ++ resolved_line resolved
      ++ (if is_empty referrer then [] else newline ++ codes "Referrer: " ++ referrer)
      ++ newline
      ++ searched (is_bare_specifier specifier) (node_disk_resolve_enabled l)
      ++ (if (module_loader_cfg l).jsr_resolve
          then []
          else newline
            ++ codes "If this was a jsr: or @std/* import, enable moduleLoader.jsrResolve.")
