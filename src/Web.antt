-- ===== src/Web.antt =====
-- src/web.rs: the parts of the web layer that decide. Rendering and routing are left out.
pub mod Gate
pub mod History
pub mod Actions
pub mod Ansi
pub mod Login
pub mod Overview
pub mod Stream
pub mod Events
pub mod Api
pub mod Logs
pub mod Links
pub mod StackPoint
mod Tests
