-- ===== src/McpServer.antt =====
-- The package go/internal/mcpserver: the tools and the validation of their inputs.
pub mod Domain
pub mod Snapshot
pub mod Streams
pub mod Filters
pub mod Symbols
pub mod Tools
pub mod Registry
pub mod Schema
pub mod Summaries
pub mod Replies
