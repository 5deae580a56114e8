-- ===== src/Examples/Tables.antt =====
-- The tables on concrete rows.
use mathlib.Core.List.{mem-cons_self}
use k_elda_archive.Base.{◌≡◌, refl, [], ◌∷◌, ◌++◌, map, true, ok, arith, in_order, ℕ_discrete}
use k_elda_archive.Db.Effects.{Replaces, commit-Replaces}
use k_elda_archive.Db.Queries.{every, select_from_connection}
use k_elda_archive.Db.Rows.{Container, container, Container-discrete}
use k_elda_archive.Db.Slots
use k_elda_archive.Db.Tables.{Table, commit}
use k_elda_archive.Engine.Effects.{Leaves}
use k_elda_archive.Engine.Policy.{
  load_balancer_row, port_placements, placement_row, placement_key, update_placements,
  update_load_balancers,
}
use k_elda_archive.Engine.Services.{
  query_containers, update_containers, target_connections, bp_key, dbc_key, update_connections,
}
use k_elda_archive.Engine.Sync.{IsSynced}
use k_elda_archive.Engine.Tables.{
  update_placements-synced, update_connections-synced, update_load_balancers-synced,
  update_containers-synced,
}
use k_elda_archive.Examples.Data.{policy, leading, running, two_containers}
use k_elda_archive.Examples.Policy.{leading-containers}
use k_elda_archive.Network.Dns.{HasHostnames, join_hostnames, join_hostnames-synced}

abbrev moved : Container
moved = record running { ip = "10.0.0.9" }

abbrev after_move : Table Container
after_move = record two_containers {
  rows =
      (3, moved)
      ∷ (
        4,
        record (container.zero_row 4) { blueprint_id = "c2"; ip = "10.0.0.3"; hostname = "old" },
      )
      ∷ [];
  should_alert = true;
}

commit-moved : commit container moved two_containers ≡ ok after_move
unfolding commit ℕ_discrete Container-discrete
commit-moved = refl

commit-Replaces_example : Replaces container 4 running moved two_containers
commit-Replaces_example =
    commit-Replaces container 4 running moved two_containers leading-containers mem-cons_self refl
      (omega arith)

update_placements-synced_example :
    Leaves Slots.placements leading
      (IsSynced placement_key (
        map placement_key (
          port_placements in_order (select_from_connection every leading)
          ++ map placement_row policy.placements)))
      (update_placements in_order in_order policy leading)
update_placements-synced_example =
    update_placements-synced in_order in_order policy leading (record { owned = tt; distinct = tt })

update_connections-synced_example :
    Leaves Slots.connections leading
      (IsSynced dbc_key (map bp_key (target_connections policy)))
      (update_connections in_order policy leading)
update_connections-synced_example =
    update_connections-synced in_order policy leading (record { owned = tt; distinct = tt })

update_load_balancers-synced_example :
    Leaves Slots.load_balancers leading
      (IsSynced (λ lb. lb.name) (map (λ lb. lb.name) (map load_balancer_row policy.load_balancers)))
      (update_load_balancers in_order policy leading)
update_load_balancers-synced_example =
    update_load_balancers-synced in_order policy leading (record { owned = tt; distinct = tt })

update_containers-synced_example :
    Leaves Slots.containers leading
      (IsSynced
        (λ c. c.blueprint_id)
        (map (λ c. c.blueprint_id) (query_containers in_order policy)))
      (update_containers in_order in_order policy leading)
update_containers-synced_example =
    update_containers-synced in_order in_order policy leading leading-containers

join_hostnames-synced_example :
    Leaves Slots.hostnames leading (HasHostnames leading) (join_hostnames in_order leading)
join_hostnames-synced_example =
    join_hostnames-synced in_order leading (record { owned = tt; distinct = tt })
