-- ===== src/Lib.antt =====
-- A model of the core of deno-director, which embeds Deno runtimes in a Node process, with the
-- theorems that make its parts correct. Paths are those of the repository.
--
-- Prelude: the names that all modules share. Texts are lists of code points, byte strings are lists of
-- numbers, hash maps are association lists with one entry for a key (Prelude/Dict), and the methods of
-- Rust's `str` that the program calls stand in Prelude/Text, Prelude/Patterns and Prelude/Utf8. A call that
-- may panic returns a value of Prelude/Outcome.
--
-- StreamPlane: src/worker/stream_plane.rs, the queues of the streams from Node to a worker. A method
-- of `NativeIncomingPlane` is a function from the plane to the plane and its result, since it holds the
-- lock of the plane for its whole body; calls of several threads are sequences of such steps
-- (StreamPlane/Reachable). A call that waits is modelled by its rounds (StreamPlane/Read); the three
-- lists of waiters are counters of notifications. `open` is `open_stream`. StreamPlane/Frames is the
-- loop over length-prefixed chunks; its fuel is the number of bytes, of which each round takes four.
--
-- Registry: `ModuleRegistry` of src/worker/modules.rs, the table of modules in memory with its aliases
-- and the eviction of persistent modules. `remove` is `remove_module`. The fuel of the eviction loop is
-- the square of the length of the queue, as each eviction makes the loop look at the whole queue again.
-- The hash in the internal names is a parameter, since the standard library does not specify it.
--
-- Bridge: src/bridge. `JsValueBridge` and its JSON form. A float is its 64 bits; `serde_json::Number` is
-- the parameter `Numbers` with what its documentation promises, and the base64 decoder is a parameter.
-- An object of `serde_json` is the list of its entries. Bridge/Wire encodes (`to_wire_json`),
-- Bridge/Decode decodes (`from_wire_json`); a round of fuel is spent on each value that the decoding
-- enters, and one more than the nesting of the JSON value is enough (Bridge/Total). `usize` has 64 bits.
--
-- Env: src/worker/env.rs and the four operations on the environment in src/worker/ops.rs, as
-- functions from the state of the runtime, which may be missing, to the state and the reply. The three
-- operations on one key share their checks in `guard`. The JSON in which a reply is wrapped is left out.
--
-- Loader: the checks of `DynamicModuleLoader` in src/worker/modules.rs before a load from the network,
-- and its classification of specifiers. The url crate is the parameter `Urls`. The loops over the texts
-- of a permission are `any_text` with the test of one text.
--
-- LoaderConfig: the fields and the options of `DynamicModuleLoader`. The registry is passed on as a state,
-- and the channel to Node is in the list of what a load does.
--
-- Resolve: the resolution of specifiers in src/worker/modules.rs. `Disk` is the file system with
-- serde_json. The loops over extensions, index files and the keys of an object are recursive functions.
-- A search may panic, which is the value `crashed`, and a resolution then is `panicked`.
--
-- Load: the loading of modules in src/worker/modules.rs. `load` answers at once or starts a `Job`, for which
-- `run_job` is what the asynchronous block does, on the state that it finds then. An `Outcome` has the
-- state, what was done in order, and the result. `World` answers for the network, the disk, the callback,
-- deno_ast and the file loader of Deno. A request is an effect, and so is each redirect that the client
-- follows for it, of which there are at most ten, as its policy says. Load/Packages is what is asked
-- about the package of a js file; the loops over the directories above it are recursive functions on
-- their list, and the cache of the answers, which all workers of the process share, is a field of the
-- state of the loader. The resolution of a specifier is one effect, which stands for what it asks the
-- file system and for the package.json files that it reads. The source's caches of compiled globs and
-- regular expressions are left out, which do not change what is loaded.
--
-- Facade: the modules that run CommonJS sources, in src/worker/modules.rs. The scan for `require` calls goes
-- over bytes; each round of its loop takes at least eight of them, and its fuel is one more than their
-- number. Facade/Code has the fixed parts of the code.
--
-- Requests: `PendingRequests` of src/worker/state.rs. `insert` and `take` are `insert_request` and
-- `take_request`; the failed exchanges of the counter are the list of the values they observe.
--
-- Dispatch: src/worker/dispatch/deno_commands.rs with the messages of src/worker/messages.rs. A handler
-- is a function on the `World`, which is what the runtime holds (the plane and the registry) and the
-- list of what was done outside of it. `Engine` has what V8, deno_core and the evaluation of scripts
-- (src/worker/eval.rs) answer, and what scripts do to the runtime; `Host` what the table of workers and
-- the channels answer while one message is handled. A call of a JavaScript function has an `Outcome`:
-- the handlers return at once where the function is missing and fall back where it throws. Each handler
-- answers `false`, but for that of `Close`; `handle_deno_msg` has the answers. Dispatch/Loop is the loop of
-- src/worker/runtime.rs over the two queues of messages, one round at a time; its drain of the data
-- plane stops after 1024 messages in the source as well. Dispatch/Routing is the way of a message into
-- its queue (src/lib.rs).
--
-- StreamOps: the operations on incoming streams in src/worker/ops.rs (`stream_read` is
-- `op_denojs_worker_stream_read`, and so on), as functions on what they find in `OpState`. The plane of
-- the table of workers is the one in `OpState`. The waiting operations run the loops of
-- StreamPlane/Read, with the steps that the rest of the process makes between two rounds.
--
-- Paths: the functions on paths of src/worker/filesystem.rs and src/worker/state.rs. A path is the list
-- of its components and whether it is absolute; the file system, the url crate and the texts of paths
-- are the parameter `Files`.
--
-- Permissions: the permissions of src/worker/state.rs and src/worker/runtime.rs. Keys are sorted by code
-- points, as Rust sorts strings. `permissions_from_limits` has the options that Deno gets, in which an
-- empty list stands for everything, as the code uses it for `true`.
--
-- Dotenv: the environment files of src/worker/state.rs. The file is its text; an error of the file
-- system is left out.
--
-- Tests: runs on concrete inputs, and the theorems at concrete inputs.
--
-- Not modelled: the functions that are exported to Node (src/native_api) and the handlers of messages on
-- the Node thread (src/worker/dispatch/node_*.rs), the creation of V8 isolates, their event loops and the
-- evaluation of scripts (src/worker/eval.rs), the conversion to and from V8 and Neon values, the calls of
-- the file system and the network, and debug output, which are effects of other libraries.
pub mod Bridge
pub mod Dispatch
pub mod Dotenv
pub mod Env
pub mod Facade
pub mod Loader
pub mod LoaderConfig
pub mod Load
pub mod Paths
pub mod Permissions
pub mod Prelude
pub mod Requests
pub mod Resolve
pub mod StreamPlane
pub mod StreamOps
pub mod Registry
pub mod Tests
