-- ===== src/Federation.antt =====
-- src/federation.rs: how a hub follows a remote node.
pub mod Utf8
pub mod Sse
pub mod Node
