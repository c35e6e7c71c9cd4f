-- ===== src/Dispatch.antt =====
-- The messages that Node sends to a worker, and the loop body that handles one of them
-- (src/worker/dispatch/deno_commands.rs, src/worker/messages.rs).
pub mod State
pub mod Payload
pub mod Js
pub mod Streams
pub mod Control
pub mod Commands
pub mod Keeps
pub mod Modules
pub mod Loop
pub mod Routing
