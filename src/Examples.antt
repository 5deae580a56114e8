-- ===== src/Examples.antt =====
-- Concrete inputs at which the theorems apply.
mod Data
mod Joins
mod Tables
mod Policy
mod Rules
mod Addresses
mod Clouds
mod Exact
mod Ports
mod Transactions
mod Foremen
mod Servers
mod Stores
mod Switches
mod Workers
mod Peers
