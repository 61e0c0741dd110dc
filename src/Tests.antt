-- ===== src/Tests.antt =====
-- The theorems at concrete inputs, and runs of the definitions.
mod Inputs
mod Limits
mod Identities
mod Replays
mod Submissions
mod Paging
mod Settings
mod Browsers
mod Views
mod Served
mod Lifecycles
mod Worked
mod Failures
mod Analyses
mod Worlds
