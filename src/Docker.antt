-- ===== src/Docker.antt =====
-- src/docker.rs: the Docker engine client.
pub mod Members
pub mod Order
pub mod Counters
pub mod Summary
pub mod Collect
pub mod Stack
