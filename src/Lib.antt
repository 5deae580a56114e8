-- ===== src/Lib.antt =====
-- Kelda: a verification of the core of the deployment engine.
--
-- Kelda deploys containers on machines of cloud providers, as a blueprint asks. A daemon joins the
-- machines that each provider lists with the machines of the blueprint; on the machines, the minion
-- that leads writes the blueprint into the tables of its database, and other loops act on the
-- tables. All parts share one scheme: join what is wanted with what is there, and act on the pairs
-- and on the elements of either side that have no partner.
--
-- Which file models which code:
-- * Base and its children are the shared helpers: tests, lists, Go's maps as association lists with
--   distinct keys (Base/Assoc), results of calls that may fail or panic (Base/Results), and the
--   verbs of fmt that make keys (Base/Fmt).
-- * Join models join/join.go: Join/Score the join by score (`Join`), Join/Hash the join by key
--   (`HashJoin`), Join/Partial the join whose score function can panic. Join/Indices, Join/Partition,
--   Join/Settled, Join/Maximal and Join/Matched hold the laws of the first, Join/HashLaws, Join/Contract and
--   Join/Lonely those of the second.
-- * Blueprint models the types of blueprint/blueprint.go.
-- * Db models db/db.go, db/table.go and the row types of db/: Db/Tables one table and what `insert`,
--   `Commit` and `Remove` do to it, Db/Rows the row types, Db/Slots where a table stands in the
--   database, Db/Access the operations on the database, Db/Queries the Insert and SelectFrom
--   functions and the queries. Db/Invariant and Db/Effects are the laws. Db/TableType and Db/Locks
--   model the locks of transactions as a step relation, with their laws in Db/LockLaws,
--   Db/Progress, Db/Finish and Db/Isolation; Db/Txn models `Run` and the triggers, with its laws in Db/Alerts and Db/Notified.
-- * Str models util/str/str.go, but for `MapAsString`, which is in Etcd/Containers.
-- * Engine models minion/engine.go: Engine/Policy the placements and the load balancers,
--   Engine/Services the connections and the containers, Engine/Update the images and `updatePolicy`.
--   Engine/Loops has the loops that the updates share; Engine/Effects, Engine/Pairs, Engine/Sync and
--   Engine/PairSync have the laws of these loops, Engine/Tables, Engine/Exact,
--   Engine/Images, Engine/Kept and Engine/Whole the results for the updates, and Engine/Ports that for `portPlacements`.
-- * Cloud models cloud/join.go and `desiredMachines` of cloud/cloud.go. Cloud/Expected
--   writes out what a run is to make of machines, Cloud/Desired and Cloud/Acls the machines and
--   ACLs that a blueprint asks for. Cloud/Mirror is the result for `syncDBWithCloud`, Cloud/Loops and Cloud/Plan that for
--   `syncDBWithBlueprint`, and Cloud/Whole that for `joinImpl`.
-- * Network models parts of minion/network/: Network/Dns `joinHostnames` of dns.go, Network/Nat the
--   rules of nat.go, Network/Ip and Network/IpUpdate the allocation of IPs in ip.go, and
--   Network/IpLaws the law of `allocateIP`. The net package and the random numbers are parameters.
--   Network/Acl and Network/AclSync are acl.go, Network/AclText the ACLs of a switch
--   written out, Network/AclLaws the law of `syncACLs`.
-- * Foreman models cloud/foreman/foreman.go: Foreman/Config the configurations of minions and the
--   roles of db/constants.go, Foreman/Threads `updateMinions`, Foreman/Run a round of a machine's
--   thread. Foreman/ThreadLaws and Foreman/Tracking, and Foreman/Status, Foreman/Rounds and
--   Foreman/Connected, are the laws of the two.
-- * Server models minion/server.go: Server/Config its calls, Server/Single the laws of a table of one
--   row, Server/RoundTrip, Server/Configured and Server/Reports the results.
-- * Etcd models parts of minion/etcd/: Etcd/Store util.go, hostname.go and connection.go,
--   Etcd/Containers container.go, Etcd/Minions minion.go, Etcd/Elector elector.go. Etcd/Mirror and
--   Etcd/Follow, Etcd/Placed and Etcd/Workers, Etcd/Peers, and Etcd/Election and Etcd/Unique are the
--   laws of the four.
-- * Examples has concrete inputs.
--
-- How state and failure are modelled: a method that writes the database returns the new database. A
-- call that may fail or panic returns an `Outcome`: a result, an error, or a panic. A loop that the
-- source runs over a map takes the order of the map as an argument, a `MapRange`, which may be any
-- rearrangement; the theorems hold for every order. Scores and the roles on the wire are integers;
-- all other numbers are natural numbers, as all IDs, ports and sizes of the program are; no
-- arithmetic of the modelled code comes near the bounds of Go's int. In `allocateIP` the mask of the
-- subnet is written as a remainder by the number of its addresses; for the Kelda subnet the sum
-- under it stays below 2 ^ 32. The one definition on fuel is the decimal notation of a number n,
-- with fuel n + 1, more than its digits. A nil slice and an empty one are the same list.
--
-- The transactions of Db/Locks interleave in any order, one step at a time; the transactions of the
-- other parts are functions on the database, as a transaction has its tables to itself; a round of a machine's
-- thread has no other transaction between its two. What other
-- programs and libraries answer is a parameter: the minions' answers to the foreman, the etcd store,
-- the Open vSwitch client, encoding/json, SHA-256, strings.Split, sort.Strings and
-- reflect.DeepEqual.
--
-- What is not modelled: the loops that wait for triggers and clocks and call what is modelled, the
-- load balancers of the container network, logging and counters, the start of the gRPC
-- servers, the command line, the providers' APIs, Kubernetes, the clients of etcd and Open vSwitch,
-- the supervisor, and the JavaScript bindings. Most of these do input and output.
pub mod Base
pub mod Blueprint
pub mod Str
pub mod Join
pub mod Db
pub mod Engine
pub mod Cloud
pub mod Foreman
pub mod Server
pub mod Etcd
pub mod Network
pub mod Examples
