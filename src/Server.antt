-- ===== src/Server.antt =====
-- minion/server.go: what a minion does when the foreman reads and sets its configuration.
pub mod Config
pub mod Single
pub mod RoundTrip
pub mod Configured
pub mod Reports
