-- ===== src/Engine/Policy.antt =====
-- The placements and the load balancers of minion/engine.go. The orders in which a run ranges over
-- Go maps are arguments.
use k_elda_archive.Base.{
  ℕ, ◌==◌, String, true, List, [], ◌∷◌, ◌++◌, map, Option, none, some, if◌then◌else◌, Outcome, ok,
  ◌>>=◌, MapRange, get, put, str_discrete, ℕ_discrete,
}
use k_elda_archive.Blueprint
use k_elda_archive.Blueprint.{Blueprint, public_internet_label, Image-discrete}
use k_elda_archive.Db.{Database}
use k_elda_archive.Db.Slots
use k_elda_archive.Db.Slots.{Slot}
use k_elda_archive.Db.Queries.{
  every, select_from_placement, select_from_load_balancer, select_from_connection,
}
use k_elda_archive.Db.Rows.{Connection, LoadBalancer, Placement, Placement-discrete}
use k_elda_archive.Engine.Loops.{remove_each, insert_each, commit_each, add_each}
use k_elda_archive.Join.{Pair}
use k_elda_archive.Join.Hash.{hash_join}
use k_elda_archive.Join.Score.{enumerate}
use k_elda_archive.Str.Defs.{slice_contains, slice_filter_out}

-- A slice under a key of a map; a missing key reads as the empty slice.
abbrev pub listed : Option (List String) → List String
listed none = []
listed (some cids) = cids

-- The loop of `portPlacements` that maps each public port to the containers that listen on it.
unfoldable pub public_ports : List Connection → List (ℕ × List String) → List (ℕ × List String)
unfolding slice_contains slice_filter_out put get
public_ports [] ports = ports
public_ports (conn ∷ conns) ports = public_ports conns (
    if slice_contains conn.from public_internet_label
    then put ℕ_discrete conn.min_port
        (listed (get ℕ_discrete conn.min_port ports)
          ++ slice_filter_out conn.to public_internet_label)
        ports
    else ports)

-- The rule that keeps `tgt` off the machines of `other`.
abbrev pub exclusive_rule : String → String → Placement
exclusive_rule tgt other = record {
  id = 0;
  target_container = tgt;
  exclusive = true;
  other_container = other;
  provider = "";
  size = "";
  region = "";
  floating_ip = "";
}

-- The inner loop: the rules of one target against all containers at another index.
unfoldable pub rules_against : ℕ → String → List (ℕ × String) → List Placement
rules_against i tgt [] = []
rules_against i tgt ((j, other) ∷ cids) =
    let rest = rules_against i tgt cids in if i == j then rest else exclusive_rule tgt other ∷ rest

-- The loop over the targets on one port.
unfoldable pub port_rules : List (ℕ × String) → List (ℕ × String) → List Placement
unfolding rules_against
port_rules [] all = []
port_rules ((i, tgt) ∷ cids) all = rules_against i tgt all ++ port_rules cids all

-- The loop over the ports.
unfoldable pub all_port_rules : List (ℕ × List String) → List Placement
unfolding port_rules enumerate
all_port_rules [] = []
all_port_rules ((port, cids) ∷ ports) =
    port_rules (enumerate 0 cids) (enumerate 0 cids) ++ all_port_rules ports

unfoldable pub port_placements : MapRange (ℕ × List String) → List Connection → List Placement
unfolding public_ports all_port_rules
port_placements order connections = all_port_rules (order.range (public_ports connections []))

-- The row of a placement of the blueprint.
unfoldable pub placement_row : Blueprint.Placement → Placement
placement_row sp = record {
  id = 0;
  target_container = sp.target_container;
  exclusive = sp.exclusive;
  other_container = "";
  provider = sp.provider;
  size = sp.size;
  region = sp.region;
  floating_ip = sp.floating_ip;
}

unfoldable pub placement_key : Placement → Placement
placement_key p = record p { id = 0 }

-- A new placement under the ID of its new row.
abbrev pub numbered : Placement → Placement → Placement
numbered to_add row = record to_add { id = row.id }

unfoldable pub update_placements :
    MapRange (ℕ × List String)
    → MapRange (Placement × Placement)
    → Blueprint
    → Database
    → Outcome Database
unfolding port_placements placement_row placement_key hash_join add_each remove_each
update_placements ports_order order bp db =
    let placements =
      port_placements ports_order (select_from_connection every db)
      ++ map placement_row bp.placements in
    let joined =
      hash_join Placement-discrete order placement_key placement_key placements
        (select_from_placement every db) in
    do
      db' ← add_each Slots.placements numbered joined.lonely_lefts db
      ok (remove_each Slots.placements joined.lonely_rights db')

-- The row of a load balancer of the blueprint.
unfoldable pub load_balancer_row : Blueprint.LoadBalancer → LoadBalancer
load_balancer_row lb = record { id = 0; name = lb.name; ip = ""; hostnames = lb.hostnames }

-- The fields that the blueprint decides; the row keeps its ID and its IP.
unfoldable pub update_load_balancer : Pair LoadBalancer LoadBalancer → LoadBalancer
update_load_balancer pair = record (pair.r) { name = pair.l.name; hostnames = pair.l.hostnames }

unfoldable pub update_load_balancers :
    MapRange (String × LoadBalancer) → Blueprint → Database → Outcome Database
unfolding load_balancer_row update_load_balancer hash_join remove_each insert_each commit_each
update_load_balancers order bp db =
    let joined =
      hash_join str_discrete order (λ lb. lb.name) (λ lb. lb.name)
        (map load_balancer_row bp.load_balancers) (select_from_load_balancer every db) in
    let db' = remove_each Slots.load_balancers joined.lonely_rights db in
    let (pairs, db'') = insert_each Slots.load_balancers joined.lonely_lefts joined.pairs db' in
    commit_each Slots.load_balancers update_load_balancer pairs db''
