-- ===== src/Tests/Loader.antt =====
-- Runs of the resolution and the loading of modules in src/worker/modules.rs, and the theorems at these
-- runs.
use deno_director.Prelude.{
  ◌⊎◌, ℕ, ◌≡◌, ◌↔◌, refl, inl, inr, list_eq, true, false, none, some, List, [], ◌∷◌, list_beq, All,
  arith,
}
use deno_director.Prelude.Dict.{get, get-empty, Unique}
use deno_director.Prelude.Int.{pos}
use deno_director.Prelude.Outcome.{done, missing, crashed}
use deno_director.Prelude.Text.{Text, codes, starts_with, split_once, byte_len, utf8_width}
use deno_director.Prelude.Patterns.{ends_with}
use deno_director.Bridge.Json
use deno_director.Bridge.Json.{Json}
use deno_director.Resolve.Exports.{search_patterns, search_target}
use deno_director.Prelude.Utf8.{from_utf8, utf8_from}
use deno_director.Paths.{FilePath, Files, normal}
use deno_director.LoaderConfig
use deno_director.LoaderConfig.{Urls, default_config, DynamicModuleLoader}
use deno_director.Loader.{allowed, node_disk_resolve_enabled}
use deno_director.Registry.{get_for_load, resolve_specifier}
use deno_director.Registry.State.{with_persistent_limit}
use deno_director.Resolve
use deno_director.Resolve.Node.{Disk, resolve_node_candidate}
use deno_director.Resolve.Candidates.{first_file, candidates, resolve_node_candidate-first_file}
use deno_director.Resolve.Sandbox.{encode_resolve_url}
use deno_director.Resolve.Wasm.{is_ts_like_ext, ensure_wasm_allowed}
use deno_director.Resolve.Carried.{KeepsQuery, IsForCallback}
use deno_director.Resolve.Real.{IsOfFile, try_node_resolve_disk-IsOfFile}
use deno_director.Resolve.Packages.{try_node_resolve_disk}
use deno_director.Load.{decide, async, load, callback_imports_blocked_during_eval_sync}
use deno_director.Load.World.{World, timed_out, finish, chunk, Response, LoaderState}
use deno_director.Load.Fetch.{limit_of, fetch_remote_text}
use deno_director.Load.Limits.{Delivers, fetch_remote_text_iff}
use deno_director.Load.Decision.{build_source_typed_module, typed_text}
use deno_director.Load.Safe.{Safe}
use deno_director.Load.Guarded.{SafeNext, load-Safe}
use deno_director.Load.Asked.{carrier, callback_asked}
use deno_director.Load.Typed.{next_name, Serves, build_source_typed_module-Serves}

-- A URL is its scheme and the pairs of its query, and every URL stands for one file.
abbrev main_file : FilePath
main_file = record { rooted = true; components = normal (codes "box") ∷ normal (codes "main") ∷ [] }

abbrev root : FilePath
root = record { rooted = true; components = normal (codes "box") ∷ [] }

abbrev urls : Urls
urls = record {
  Url = Text × List (Text × Text);
  parse = λ s. none;
  parse_error = λ s. s;
  display = λ u. u.0;
  scheme = λ u. u.0;
  host_str = λ u. none;
  port_or_known_default = λ u. none;
  path = λ u. [];
  query_pairs = λ u. u.1;
  with_query_pairs = λ s pairs. (codes "denojs-worker", pairs);
  to_file_path = λ u. some main_file;
  from_file_path = λ p. some (codes "file", []);
  from_directory_path = λ p. none;
  resolve_import = λ s r. inl s;
}

abbrev urls_KeepsQuery : KeepsQuery urls
urls_KeepsQuery = record { pairs_back = λ pairs. refl; scheme_back = λ pairs. refl }

-- The only file is `main`.
abbrev files : Files
files = record {
  parse = λ s. record { rooted = false; components = normal s ∷ [] };
  to_text = λ p. [];
  canonicalize = λ p. some p;
  is_file = λ p. true;
  file_url_path = λ s. none;
  from_file_path = λ p. none;
  temp_dir = root;
  current_dir = some root;
}

abbrev disk : Disk ℕ
disk = record {
  files = files;
  is_dir = λ p. false;
  exists = λ p. false;
  read_to_string = λ p. none;
  from_str = λ s. none;
}

abbrev answer : Response
answer = record {
  is_success = true;
  status = codes "200";
  content_length = none;
  body = chunk (1 ∷ 2 ∷ []) (chunk (3 ∷ []) finish);
}

abbrev world : World ℕ urls
world = record {
  disk = disk;
  read_error = λ p. [];
  callback = λ spec ref dynamic. some timed_out;
  client_error = none;
  redirects = λ u. (codes "https", []) ∷ [];
  send = λ u. inr answer;
  utf8_error = λ bytes. [];
  hash = λ parts. codes "0";
  to_json = λ s. some s;
  parse_program = λ media source. inl [];
  transpile = λ options u ext code. inr code;
  glob_matches = λ pattern path. false;
  regex_matches = λ pattern path. false;
  fs_load = λ u referrer dynamic. inl [];
}

abbrev loader : DynamicModuleLoader ℕ
loader = record {
  permissions = none;
  module_loader = none;
  node_resolve = true;
  node_compat = false;
  imports_policy = LoaderConfig.callback;
  wasm = true;
  sandbox_root = root;
  eval_sync_active = none;
}

abbrev start : LoaderState
start = record { reg = with_persistent_limit 8; counter = 0; syntax_cache = []; package_cache = [] }

abbrev page : Urls.Url urls
page = (codes "file", [])

load-Safe_example :
    All (Safe urls world loader) (load urls world loader start page none false).effects
    × SafeNext urls world loader start (load urls world loader start page none false).response
load-Safe_example = load-Safe urls world world loader start start page none false

fetch_remote_text_iff_example :
    (fetch_remote_text urls world page (pos 3) ≡ done (1 ∷ 2 ∷ 3 ∷ [])) ↔ (
      (world.client_error ≡ none)
      × (resp : Response) × (world.send page ≡ inr resp)
      × Delivers world (limit_of (pos 3)) resp (1 ∷ 2 ∷ 3 ∷ []))
fetch_remote_text_iff_example =
    fetch_remote_text_iff urls world page (pos 3) (1 ∷ 2 ∷ 3 ∷ []) (unfold limit_of in omega arith)

for_callback : IsForCallback urls disk loader start.reg (codes "a")
unfolding resolve_specifier get Resolve.known_url Resolve.internal_url Resolve.registered_url
    starts_with Resolve.normalize_cjs_require_specifier Resolve.any_is list_beq
    with_persistent_limit
for_callback = (refl, refl, refl, refl)

carrier_allowed :
    ensure_wasm_allowed urls loader
      (carrier urls urls_KeepsQuery world loader (codes "a") (codes "b"))
    ≡ allowed
unfolding ensure_wasm_allowed
carrier_allowed = refl

not_held :
    (get_for_load start.reg (Urls.display urls (encode_resolve_url urls (codes "a") (codes "b")))).1
    ≡ none
unfolding get_for_load get with_persistent_limit
not_held = refl

not_blocked : callback_imports_blocked_during_eval_sync urls world loader ≡ false
unfolding callback_imports_blocked_during_eval_sync
not_blocked = refl

callback_asked_example :
    (Resolve.resolve urls disk loader start.reg (codes "a") (codes "b")
      ≡ done (encode_resolve_url urls (codes "a") (codes "b")))
    × ((load urls world loader start
          (encode_resolve_url urls (codes "a") (codes "b"))
          none
          false).response
        ≡ async (
            decide
              (encode_resolve_url urls (codes "a") (codes "b"))
              none
              false
              (codes "a")
              (codes "b")))
callback_asked_example =
    callback_asked urls urls_KeepsQuery world loader (codes "a") (codes "b") start start none false
      for_callback carrier_allowed not_held not_blocked

resolve_node_candidate-first_file_example :
    resolve_node_candidate disk main_file (codes "js" ∷ [])
    ≡ first_file disk (candidates disk main_file (codes "js" ∷ []))
resolve_node_candidate-first_file_example =
    resolve_node_candidate-first_file disk main_file (codes "js" ∷ [])

try_node_resolve_disk-IsOfFile_example :
    IsOfFile urls disk loader
      (codes "./main")
      (try_node_resolve_disk urls disk loader (codes "./main") (codes "b"))
    × ((node_disk_resolve_enabled loader ≡ true)
        ⊎ (try_node_resolve_disk urls disk loader (codes "./main") (codes "b") ≡ missing))
try_node_resolve_disk-IsOfFile_example =
    try_node_resolve_disk-IsOfFile urls disk loader (codes "./main") (codes "b")

typed_as_js : (typed_text urls world loader page (codes "js") (codes "x")).result ≡ done (codes "x")
unfolding is_ts_like_ext list_beq
typed_as_js = refl

start-Unique : Unique start.reg.modules
unfolding with_persistent_limit
start-Unique = tt

start_free : get start.reg.aliases (next_name start) ≡ none
unfolding with_persistent_limit
start_free = get-empty (next_name start)

build_source_typed_module-Serves_example :
    Serves urls world loader start page
      (next_name start)
      (codes "x")
      (build_source_typed_module urls world loader start page (codes "js") (codes "x"))
build_source_typed_module-Serves_example =
    build_source_typed_module-Serves urls world loader start page (codes "js") (codes "x")
      (codes "x") (next_name start) refl typed_as_js start-Unique start_free

-- A pattern whose prefix and suffix overlap in the request.
overlap_panics :
    search_patterns disk root []
      (codes "./a")
      (Json.field (codes "./a*a") (Json.string (codes "x")) Json.end)
    ≡ crashed
unfolding search_patterns search_target starts_with ends_with split_once byte_len utf8_width
overlap_panics = refl

-- The euro sign, and a surrogate, which is no character.
euro_read : from_utf8 (0xE2 ∷ 0x82 ∷ 0xAC ∷ []) ≡ some (0x20AC ∷ [])
unfolding from_utf8 utf8_from
euro_read = refl

surrogate_refused : from_utf8 (0xED ∷ 0xA0 ∷ 0x80 ∷ []) ≡ none
unfolding from_utf8 utf8_from
surrogate_refused = refl
