-- ===== src/Tests.antt =====
-- The theorems at concrete inputs.
mod Fixtures
mod Reconciling
mod Parts
mod Webhooks
mod Polling
mod Workflows
mod Predicting
mod Fetching
mod Relaying
