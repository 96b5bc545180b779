-- ===== src/Tests.antt =====
-- The theorems at concrete inputs.
mod Runs
mod Requests
mod Wire
mod Replies
mod Adapters
mod Sessions
mod Codex
