-- ===== src/Network.antt =====
-- minion/network/: the leader's table of hostnames, the rules of the network address translation, the
-- allocation of IPs, and the ACLs of the logical switch.
pub mod Dns
pub mod Nat
pub mod Ip
pub mod IpUpdate
pub mod IpLaws
pub mod Acl
pub mod AclSync
pub mod AclText
pub mod AclLaws
