-- ===== src/LoaderConfig.antt =====
-- What a module loader is made of: `DynamicModuleLoader` of src/worker/modules.rs and the options that it
-- reads (src/worker/state.rs). The `url` crate and Deno's own resolver are the parameter `Urls`.
use deno_director.Prelude.{ℕ, Bool, true, false, Option, none, List, [], ◌⊎◌}
use deno_director.Prelude.Int.{ℤ, pos}
use deno_director.Prelude.Text.{Text}
use deno_director.Bridge.Json.{Json}
use deno_director.Paths.{FilePath}

-- What the loader asks of `url::Url` and of `deno_core::resolve_import`, whose failures have a text.
pub record Urls : Type 1 where
  pub Url : Type 0
  pub parse : Text → Option Url
  pub parse_error : Text → Text
  pub display : Url → Text
  pub scheme : Url → Text
  pub host_str : Url → Option Text
  pub port_or_known_default : Url → Option ℕ
  pub path : Url → Text
  pub query_pairs : Url → List (Text × Text)
  -- the URL of a text with these pairs appended to its query
  pub with_query_pairs : Text → List (Text × Text) → Url
  pub to_file_path : Url → Option FilePath
  pub from_file_path : FilePath → Option Url
  pub from_directory_path : FilePath → Option Url
  pub resolve_import : Text → Text → Text ⊎ Url

pub data ImportsPolicy : Type 0 where
  deny_all : ImportsPolicy
  allow_disk : ImportsPolicy
  callback : ImportsPolicy

pub data CjsInteropMode : Type 0 where
  disabled : CjsInteropMode
  node : CjsInteropMode

pub data CjsForcePathRule : Type 0 where
  literal : Text → CjsForcePathRule
  glob : Text → CjsForcePathRule
  regex : Text → Text → CjsForcePathRule

pub record TsCompilerConfig : Type 0 where
  pub jsx : Option Text
  pub jsx_factory : Option Text
  pub jsx_fragment_factory : Option Text
  pub cache_dir : Option Text

pub record ModuleLoaderConfig : Type 0 where
  pub https_resolve : Bool
  pub http_resolve : Bool
  pub node_resolve : Bool
  pub cjs_interop : CjsInteropMode
  pub jsr_resolve : Bool
  pub allow_outside_cwd : Bool
  pub transpile_ts : Bool
  pub ts_compiler : Option TsCompilerConfig
  pub cache_dir : Option Text
  pub reload : Bool
  pub max_payload_bytes : ℤ
  pub cjs_force_paths : List CjsForcePathRule

-- The defaults keep the network and resolution in the style of Node off.
abbrev pub default_config : ModuleLoaderConfig
default_config = record {
  https_resolve = false;
  http_resolve = false;
  node_resolve = false;
  cjs_interop = disabled;
  jsr_resolve = false;
  allow_outside_cwd = false;
  transpile_ts = true;
  ts_compiler = none;
  cache_dir = none;
  reload = false;
  max_payload_bytes = pos 10_485_760;
  cjs_force_paths = [];
}

-- The registry is the state that the loader's methods pass on, and the channel to Node is in what they do.
pub record DynamicModuleLoader (N : Type 0) : Type 0 where
  pub permissions : Option (Json N)
  pub module_loader : Option ModuleLoaderConfig
  pub node_resolve : Bool
  pub node_compat : Bool
  pub imports_policy : ImportsPolicy
  pub wasm : Bool
  pub sandbox_root : FilePath
  -- what `eval_sync_active` holds, if the worker has it
  pub eval_sync_active : Option Bool
