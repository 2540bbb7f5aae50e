-- ===== src/Response.antt =====
-- internal/response: the engines that the server and the policies call on a threat.
pub mod Kill
pub mod Quarantine
pub mod Isolate
mod Tests
