-- ===== src/Etcd.antt =====
-- minion/etcd/: the leader writes tables to the etcd store, the other minions read them.
pub mod Store
pub mod Mirror
pub mod Follow
pub mod Containers
pub mod Placed
pub mod Workers
pub mod Minions
pub mod Peers
pub mod Elector
pub mod Election
pub mod Unique
