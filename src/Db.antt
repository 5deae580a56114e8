-- ===== src/Db.antt =====
-- The database of db/: tables of rows by their IDs, one counter for the IDs of all tables, and the
-- operations that a transaction calls. A method on the database returns the new database, or panics.
pub mod TableType
pub mod Locks
pub mod LockLaws
pub mod Progress
pub mod Finish
pub mod Isolation
pub mod Tables
pub mod Rows
pub mod Slots
pub mod Access
pub mod Queries
pub mod Invariant
pub mod Effects
pub mod Txn
pub mod Alerts
pub mod Notified
use k_elda_archive.Base.{ℕ}
use Tables.{Table, new_table}
use Rows.{
  Machine, Container, Minion, Connection, LoadBalancer, Etcd, Placement, Image, Hostname,
  BlueprintRow,
}

pub record Database : Type 0 where
  pub cur_id : ℕ
  pub blueprints : Table BlueprintRow
  pub machines : Table Machine
  pub containers : Table Container
  pub minions : Table Minion
  pub connections : Table Connection
  pub load_balancers : Table LoadBalancer
  pub etcds : Table Etcd
  pub placements : Table Placement
  pub images : Table Image
  pub hostnames : Table Hostname

-- `New`: all tables empty, and no ID given.
abbrev pub new : Database
new = record {
  cur_id = 0;
  blueprints = new_table;
  machines = new_table;
  containers = new_table;
  minions = new_table;
  connections = new_table;
  load_balancers = new_table;
  etcds = new_table;
  placements = new_table;
  images = new_table;
  hostnames = new_table;
}
