-- ===== src/Demand.antt =====
-- The GitHub poller: internal/demand/github_poller.go.
pub mod Retry
pub mod Attempts
pub mod Delays
pub mod Counting
pub mod Paging
pub mod Totals
pub mod Poller
pub mod Conditional
