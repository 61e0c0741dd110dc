-- ===== src/Web.antt =====
-- The browser client, web/src.
pub mod Profiles
pub mod ReplayId
pub mod Client
pub mod Charts
pub mod App
pub mod Form
pub mod Polling
pub mod Recent
pub mod Analysis
