-- ===== src/Synthient.antt =====
-- The package go/internal/synthient: the client of the Synthient API.
pub mod Json
pub mod Sanitize
pub mod Sprint
pub mod Stream
pub mod Response
pub mod Request
pub mod Decode
pub mod Upstream
