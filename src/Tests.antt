-- ===== src/Tests.antt =====
-- The theorems at concrete inputs.
mod Samples
mod Caches
mod Conversations
mod Answers
mod Runs
mod Searches
mod Ungrounded
mod Retrievals
mod Ingestions
mod Outside
