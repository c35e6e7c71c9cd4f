-- ===== src/Tests.antt =====
-- Runs of the models on concrete inputs, and the theorems at concrete inputs.
pub mod Stream
pub mod Modules
pub mod Wire
pub mod Policy
pub mod Pending
pub mod Messages
pub mod Scripts
pub mod Sandbox
pub mod Queues
pub mod EnvFile
pub mod Loader
pub mod Facade
