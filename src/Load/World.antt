-- ===== src/Load/World.antt =====
-- What a load of a module in src/worker/modules.rs makes of the world, and what the world answers: the
-- decision of the user's callback (src/worker/messages.rs), the network, the disk, and the libraries that
-- parse and transpile JavaScript.
use deno_director.Prelude.{ℕ, Bool, Option, List, ◌⊎◌}
use deno_director.Prelude.Dict.{Dict}
use deno_director.Prelude.Text.{Text}
use deno_director.Prelude.Outcome.{Result}
use deno_director.Paths.{FilePath}
use deno_director.LoaderConfig.{Urls}
use deno_director.Registry.State.{ModuleRegistryState}
use deno_director.Resolve.Node.{Disk}
use deno_director.Resolve.Wasm.{ModuleType}

pub data ImportDecision : Type 0 where
  block : ImportDecision
  allow_disk : ImportDecision
  source_typed : Text → Text → ImportDecision
  resolve : Text → ImportDecision

pub data CallbackDecisionWait : Type 0 where
  decision : ImportDecision → CallbackDecisionWait
  channel_closed : CallbackDecisionWait
  timed_out : CallbackDecisionWait

pub record ModuleSyntaxClassification : Type 0 where
  pub cjs : Bool
  pub esm : Bool
  pub parse_ok : Bool
  pub parse_error : Option Text
  pub cache_hit : Bool

-- `ModuleSource` of Deno, without its code cache.
pub data ModuleSource (Url : Type 0) : Type 0 where
  new : ModuleType → Text → Url → ModuleSource Url
  new_with_redirect : ModuleType → Text → Url → Url → ModuleSource Url

-- The events for the Node side, without their kind and time.
pub data Event : Type 0 where
  import_requested : Text → Text → Bool → Bool → Event
  import_resolved : Text → Text → Bool → Bool → Option Text → Text → Bool → Event
  import_classified :
      Text
      → Text
      → Bool
      → Text
      → Text
      → Bool
      → Bool
      → Option Text
      → ModuleSyntaxClassification
      → Event

-- What a load does, in order. Questions whether there is a file, and for its canonical path, are left out.
pub data Effect (Url : Type 0) : Type 0 where
  emits : Event → Effect Url
  asks_node : Text → Text → Bool → Effect Url
  fetches : Url → Effect Url
  -- the client follows a redirect to the second URL when it fetches the first one
  follows : Url → Url → Effect Url
  reads_cache : FilePath → Effect Url
  writes_cache : FilePath → Text → Effect Url
  -- the file of a module is read by the loader, or by the loader of Deno
  reads_source : Url → FilePath → Effect Url
  loads_file : Url → Effect Url
  -- a specifier is resolved, for which package.json files of packages are read
  resolves : Text → Text → Effect Url
  -- the package.json that is asked about the file of a module
  reads_package : FilePath → FilePath → Effect Url

-- The chunks of the body of a response.
pub data Body : Type 0 where
  finish : Body
  broken : Text → Body
  chunk : List ℕ → Body → Body

pub record Response : Type 0 where
  pub is_success : Bool
  pub status : Text
  pub content_length : Option ℕ
  pub body : Body

-- How JSX is transpiled.
pub data JsxRuntime : Type 0 where
  automatic : Bool → JsxRuntime
  classic : Option Text → Option Text → JsxRuntime

-- What deno_ast says of a source that it can parse.
pub record Parsed : Type 0 where
  pub is_script : Bool
  pub exports : List Text
  pub reexports : List Text

pub record World (N : Type 0) (U : Urls) : Type 0 where
  pub disk : Disk N
  -- the error of a file that cannot be read
  pub read_error : FilePath → Text
  -- none if the message cannot be sent
  pub callback : Text → Text → Bool → Option CallbackDecisionWait
  -- why the HTTP client could not be built
  pub client_error : Option Text
  -- the response to a request, or why there is none
  pub send : Urls.Url U → Text ⊎ Response
  -- where the responses on the way to that redirect to, one after the other
  pub redirects : Urls.Url U → List (Urls.Url U)
  -- the message for bytes that are not UTF-8
  pub utf8_error : List ℕ → Text
  -- `DefaultHasher` on what is hashed in turn, as 16 hexadecimal digits
  pub hash : List (Option Text) → Text
  -- `serde_json::to_string` of a text
  pub to_json : Text → Option Text
  -- the parser and the transpiler of deno_ast, with the media type by its extension
  pub parse_program : Text → Text → Text ⊎ Parsed
  pub transpile : Option JsxRuntime → Urls.Url U → Text → Text → Text ⊎ Text
  -- whether a glob or a regular expression compiles and matches
  pub glob_matches : Text → Text → Bool
  pub regex_matches : Text → Text → Bool
  -- `FsModuleLoader::load`
  pub fs_load : Urls.Url U → Option (Urls.Url U) → Bool → Text ⊎ ModuleSource (Urls.Url U)

-- The registry, the counter of its virtual names, the cache of classified sources, and that of the
-- directories whose package declares modules.
pub record LoaderState : Type 0 where
  pub reg : ModuleRegistryState ModuleType
  pub counter : ℕ
  pub syntax_cache : Dict Text ModuleSyntaxClassification
  pub package_cache : Dict Text Bool

-- The end of a load.
pub record Outcome (U : Urls) (A : Type 0) : Type 0 where
  pub state : LoaderState
  pub effects : List (Effect (Urls.Url U))
  pub result : Result A

-- What is read or fetched on the way to a text.
pub record Attempt (U : Urls) (A : Type 0) : Type 0 where
  pub effects : List (Effect (Urls.Url U))
  pub result : Result A
