-- ===== src/HttpServer.antt =====
-- The package go/internal/httpserver: the middlewares in front of the MCP handler.
pub mod Concurrency
pub mod Rate
pub mod Protect
pub mod Recorder
pub mod Telemetry
pub mod Scopes
pub mod Origin
pub mod Pipeline
pub mod Tokens
pub mod Routes
