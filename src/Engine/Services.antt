-- ===== src/Engine/Services.antt =====
-- The connections and the containers of minion/engine.go.
use k_elda_archive.Base.{
  ℕ, String, List, [], ◌∷◌, ◌++◌, Option, none, some, Outcome, MapRange, get, put, values,
  str_discrete, decimal, join_with, sprint_slice,
}
use k_elda_archive.Blueprint
use k_elda_archive.Blueprint.{Blueprint, Image-discrete}
use k_elda_archive.Db.{Database}
use k_elda_archive.Db.Slots
use k_elda_archive.Db.Queries.{every, select_from_connection, select_from_container}
use k_elda_archive.Db.Rows.{Container, Connection}
use k_elda_archive.Engine.Loops.{remove_each, insert_each, commit_each, add_each}
use k_elda_archive.Join.{Pair}
use k_elda_archive.Join.Hash.{hash_join}

-- The map of the blueprint's load balancers by name.
unfoldable pub load_balancers_by_name :
    List Blueprint.LoadBalancer
    → List (String × Blueprint.LoadBalancer)
    → List (String × Blueprint.LoadBalancer)
unfolding put str_discrete
load_balancers_by_name [] m = m
load_balancers_by_name (lb ∷ lbs) m = load_balancers_by_name lbs (put str_discrete lb.name lb m)

-- The connection that a load balancer among the targets adds, if it is one.
abbrev pub balanced :
    Blueprint.Connection → Option Blueprint.LoadBalancer → List Blueprint.Connection
balanced c none = []
balanced c (some lb) = record c { to = lb.hostnames } ∷ []

-- The inner loop, over the targets of a connection.
unfoldable pub balanced_targets :
    List (String × Blueprint.LoadBalancer)
    → Blueprint.Connection
    → List String
    → List Blueprint.Connection
unfolding get str_discrete
balanced_targets lbs c [] = []
balanced_targets lbs c (to ∷ tos) =
    balanced c (get str_discrete to lbs) ++ balanced_targets lbs c tos

-- The loop over the connections. It ranges over the slice as it was before the loop.
unfoldable pub balanced_connections :
    List (String × Blueprint.LoadBalancer) → List Blueprint.Connection → List Blueprint.Connection
unfolding balanced_targets
balanced_connections lbs [] = []
balanced_connections lbs (c ∷ cs) = balanced_targets lbs c c.to ++ balanced_connections lbs cs

-- `fmt.Sprintf("%s %s %d %d", …)` of the two keys.
unfoldable pub connection_key : List String → List String → ℕ → ℕ → String
unfolding join_with sprint_slice decimal
connection_key from to min_port max_port =
    join_with " " (sprint_slice from ∷ sprint_slice to ∷ decimal min_port ∷ decimal max_port ∷ [])

unfoldable pub bp_key : Blueprint.Connection → String
unfolding connection_key
bp_key c = connection_key c.from c.to c.min_port c.max_port

unfoldable pub dbc_key : Connection → String
unfolding connection_key
dbc_key c = connection_key c.from c.to c.min_port c.max_port

-- The row of a connection of the blueprint.
unfoldable pub connection_row : Blueprint.Connection → Connection → Connection
connection_row bpc dbc = record dbc {
  from = bpc.from;
  to = bpc.to;
  min_port = bpc.min_port;
  max_port = bpc.max_port;
}

-- The connections that the blueprint asks for: its own, and those behind its load balancers.
unfoldable pub target_connections : Blueprint → List Blueprint.Connection
unfolding balanced_connections load_balancers_by_name
target_connections bp =
    bp.connections
    ++ balanced_connections (load_balancers_by_name bp.load_balancers []) bp.connections

unfoldable pub update_connections :
    MapRange (String × Blueprint.Connection) → Blueprint → Database → Outcome Database
unfolding target_connections bp_key dbc_key connection_row hash_join add_each remove_each
update_connections order bp db =
    let joined =
      hash_join str_discrete order bp_key dbc_key (target_connections bp)
        (select_from_connection every db) in
    add_each Slots.connections connection_row joined.lonely_lefts
      (remove_each Slots.connections joined.lonely_rights db)

-- The row of a container of the blueprint.
unfoldable pub container_row : Blueprint.Container → Container
container_row c = record {
  id = 0;
  ip = "";
  minion = "";
  blueprint_id = c.id;
  pod_name = "";
  status = "";
  command = c.command;
  env = c.env;
  filepath_to_content = c.filepath_to_content;
  hostname = c.hostname;
  created = 0;
  privileged = c.privileged;
  volume_mounts = c.volume_mounts;
  image = c.image.name;
  dockerfile = c.image.dockerfile;
}

-- The loop of `queryContainers`: a map by hostname.
unfoldable pub containers_by_hostname :
    List Blueprint.Container → List (String × Container) → List (String × Container)
unfolding put str_discrete container_row
containers_by_hostname [] m = m
containers_by_hostname (c ∷ cs) m =
    containers_by_hostname cs (put str_discrete c.hostname (container_row c) m)

unfoldable pub query_containers : MapRange (String × Container) → Blueprint → List Container
unfolding containers_by_hostname
query_containers order bp = values (order.range (containers_by_hostname bp.containers []))

-- The fields that the blueprint decides; the row keeps the others.
unfoldable pub update_container : Pair Container Container → Container
update_container pair = record (pair.r) {
  command = pair.l.command;
  image = pair.l.image;
  dockerfile = pair.l.dockerfile;
  env = pair.l.env;
  filepath_to_content = pair.l.filepath_to_content;
  blueprint_id = pair.l.blueprint_id;
  hostname = pair.l.hostname;
  privileged = pair.l.privileged;
  volume_mounts = pair.l.volume_mounts;
}

unfoldable pub update_containers :
    MapRange (String × Container)
    → MapRange (String × Container)
    → Blueprint
    → Database
    → Outcome Database
unfolding query_containers update_container hash_join remove_each insert_each commit_each
update_containers query_order order bp db =
    let joined =
      hash_join str_discrete order (λ c. c.blueprint_id) (λ c. c.blueprint_id)
        (query_containers query_order bp) (select_from_container every db) in
    let db' = remove_each Slots.containers joined.lonely_rights db in
    let (pairs, db'') = insert_each Slots.containers joined.lonely_lefts joined.pairs db' in
    commit_each Slots.containers update_container pairs db''
