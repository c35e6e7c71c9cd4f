-- ===== src/Bridge.antt =====
-- The values that cross between Node, the worker thread and Deno, and their JSON form on the wire
-- (src/bridge).
pub mod Json
pub mod Types
pub mod Float64
pub mod Windows
pub mod Wire
pub mod Decode
pub mod Canonical
pub mod RoundTrip
pub mod Total
