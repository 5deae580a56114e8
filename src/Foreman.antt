-- ===== src/Foreman.antt =====
-- cloud/foreman/: a thread for each machine, which connects to the machine's minion, sends it its
-- configuration, and writes what it learns to the machine table.
pub mod Config
pub mod Threads
pub mod ThreadLaws
pub mod Tracking
pub mod Run
pub mod Status
pub mod Rounds
pub mod Connected
