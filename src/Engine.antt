-- ===== src/Engine.antt =====
-- minion/engine.go: the leader writes what the blueprint asks for into the tables. Each update joins
-- the blueprint's side with the rows by a key, removes the rows that nothing asks for, inserts rows
-- for what is new, and writes the fields of the rest.
pub mod Loops
pub mod Effects
pub mod Pairs
pub mod Sync
pub mod PairSync
pub mod Tables
pub mod Whole
pub mod Kept
pub mod Exact
pub mod Images
pub mod Ports
pub mod Policy
pub mod Services
pub mod Update
