-- ===== src/Client.antt =====
-- The client: what it receives and how it makes layers of it (client/, util/receive).
pub mod Receive
pub mod Extract
pub mod Tracer
pub mod Setup
pub mod Mounting
pub mod Snapshotter
pub mod Pull
