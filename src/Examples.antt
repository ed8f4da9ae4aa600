-- ===== src/Examples.antt =====
-- The theorems at concrete inputs, and runs of the definitions.
mod Sanitize
mod Limits
mod Forwarding
mod Inputs
mod Sampling
mod Requests
mod Answers
mod Metrics
mod Upstream
mod Loading
mod Pipeline
mod Process
mod Tokens
mod Registry
mod Replies
mod Settings
mod Schema
mod Scopes
mod Origins
