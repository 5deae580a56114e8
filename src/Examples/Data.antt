-- ===== src/Examples/Data.antt =====
-- A small policy, and the database of the leader that is to implement it.
use k_elda_archive.Base.{[], ◌∷◌, true, false, in_order}
use k_elda_archive.Blueprint
use k_elda_archive.Blueprint.{Blueprint, no_blueprint, public_internet_label}
use k_elda_archive.Db.{Database, new}
use k_elda_archive.Db.Rows.{Container, Etcd, BlueprintRow, container}
use k_elda_archive.Db.Tables.{Table, new_table}
use k_elda_archive.Engine.Update.{Orders}

abbrev pub orders : Orders
orders = record {
  images = in_order;
  queried = in_order;
  containers = in_order;
  load_balancers = in_order;
  connections = in_order;
  ports = in_order;
  placements = in_order;
}

abbrev pub built : Blueprint.Image
built = record { name = "web"; dockerfile = "FROM nginx" }

abbrev pub web : Blueprint.Container
web = record {
  id = "c1";
  image = built;
  command = [];
  env = [];
  filepath_to_content = [];
  hostname = "web";
  privileged = false;
  volume_mounts = [];
}

abbrev pub balancer : Blueprint.LoadBalancer
balancer = record { name = "lb"; hostnames = "web" ∷ [] }

abbrev pub inbound : Blueprint.Connection
inbound = record { from = "public" ∷ []; to = "lb" ∷ []; min_port = 80; max_port = 80 }

abbrev pub policy : Blueprint
policy = record no_blueprint {
  containers = web ∷ [];
  load_balancers = balancer ∷ [];
  connections = inbound ∷ [];
}

abbrev pub policy_row : BlueprintRow
policy_row = record { id = 1; blueprint = policy }

abbrev pub leader_row : Etcd
leader_row = record { id = 2; etcd_ips = []; leader = true; leader_ip = "10.0.0.1" }

abbrev pub follower_row : Etcd
follower_row = record leader_row { leader = false }

-- The container is running already; another one is to go.
abbrev pub running : Container
running = record (container.zero_row 3) { blueprint_id = "c1"; ip = "10.0.0.2"; hostname = "web" }

abbrev pub leaving : Container
leaving = record (container.zero_row 4) { blueprint_id = "c2"; ip = "10.0.0.3"; hostname = "old" }

abbrev pub two_containers : Table Container
two_containers = record new_table { rows = (3, running) ∷ (4, leaving) ∷ [] }

abbrev pub leading : Database
leading = record new {
  cur_id = 4;
  blueprints = record new_table { rows = (1, policy_row) ∷ [] };
  etcds = record new_table { rows = (2, leader_row) ∷ [] };
  containers = two_containers;
}

abbrev pub following : Database
following = record leading { etcds = record new_table { rows = (2, follower_row) ∷ [] } }
