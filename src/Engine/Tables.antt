-- ===== src/Engine/Tables.antt =====
-- What each update of minion/engine.go leaves in its table.
use k_elda_archive.Base.{ℕ, String, refl, List, ◌++◌, map, MapRange, str_discrete}
use k_elda_archive.Blueprint
use k_elda_archive.Blueprint.{Blueprint, Image-discrete}
use k_elda_archive.Db.{Database}
use k_elda_archive.Db.Queries.{every, select_from_connection}
use k_elda_archive.Db.Rows.{Container, LoadBalancer, Placement, Placement-discrete}
use k_elda_archive.Db.Slots
use k_elda_archive.Engine.Effects.{Leaves, Sound}
use k_elda_archive.Engine.Policy.{
  load_balancer_row, update_load_balancer, update_load_balancers, port_placements, numbered,
  placement_row, placement_key, update_placements,
}
use k_elda_archive.Engine.Services.{
  query_containers, update_container, update_containers, target_connections, bp_key, dbc_key,
  connection_row, update_connections,
}
use k_elda_archive.Engine.PairSync.{write_pairs-synced}
use k_elda_archive.Engine.Sync.{IsSynced, add_remove-synced, remove_add-synced}
use k_elda_archive.Engine.Update.{query_images, db_image_key, image_row, update_images}
use k_elda_archive.Join.Contract.{hash_join-IsHashJoin}

-- On a sound table `updatePlacements` succeeds, changes no other table, and leaves one row for each
-- distinct placement that the ports and the blueprint ask for, and no other row.
pub update_placements-synced :
    (ports_order : MapRange (ℕ × List String)) (order : MapRange (Placement × Placement))
    (bp : Blueprint) (db : Database)
    → Sound Slots.placements db
    → Leaves Slots.placements db
        (IsSynced placement_key (
          map placement_key (
            port_placements ports_order (select_from_connection every db)
            ++ map placement_row bp.placements)))
        (update_placements ports_order order bp db)
unfolding update_placements
update_placements-synced ports_order order bp db v =
    add_remove-synced Slots.placements placement_key placement_key numbered (λ x r. refl)
      (λ x r. refl) _ db _
      (hash_join-IsHashJoin Placement-discrete order placement_key placement_key _ _) v

-- On a sound table `updateConnections` succeeds, changes no other table, and leaves one row for each
-- distinct key of the connections that the blueprint asks for, and no other row.
pub update_connections-synced :
    (order : MapRange (String × Blueprint.Connection)) (bp : Blueprint) (db : Database)
    → Sound Slots.connections db
    → Leaves Slots.connections db
        (IsSynced dbc_key (map bp_key (target_connections bp)))
        (update_connections order bp db)
unfolding update_connections
update_connections-synced order bp db v =
    remove_add-synced Slots.connections bp_key dbc_key connection_row (λ x r. refl) (λ x r. refl) _
      db _ (hash_join-IsHashJoin str_discrete order bp_key dbc_key _ _) v

-- On a sound table `updateImages` succeeds, changes no other table, and leaves one row for each
-- distinct image that the containers of the blueprint build from a Dockerfile, and no other row.
pub update_images-synced :
    (order : MapRange (Blueprint.Image × Blueprint.Image)) (bp : Blueprint) (db : Database)
    → Sound Slots.images db
    → Leaves Slots.images db
        (IsSynced db_image_key (map (λ i. i) (query_images bp)))
        (update_images order bp db)
unfolding update_images
update_images-synced order bp db v =
    add_remove-synced Slots.images (λ i. i) db_image_key image_row (λ x r. refl) (λ x r. refl) _ db
      _ (hash_join-IsHashJoin Image-discrete order (λ i. i) db_image_key _ _) v

-- On a sound table `updateLoadBalancers` succeeds, changes no other table, and leaves one row for
-- each distinct name of the blueprint's load balancers, and no other row.
pub update_load_balancers-synced :
    (order : MapRange (String × LoadBalancer)) (bp : Blueprint) (db : Database)
    → Sound Slots.load_balancers db
    → Leaves Slots.load_balancers db
        (IsSynced (λ lb. lb.name) (map (λ lb. lb.name) (map load_balancer_row bp.load_balancers)))
        (update_load_balancers order bp db)
unfolding update_load_balancers
update_load_balancers-synced order bp db v =
    write_pairs-synced Slots.load_balancers (λ lb. lb.name) (λ lb. lb.name) update_load_balancer
      (λ p. refl) (map load_balancer_row bp.load_balancers) db _
      (hash_join-IsHashJoin str_discrete order (λ lb. lb.name) (λ lb. lb.name) _ _) (λ p. refl) v

-- On a sound table `updateContainers` succeeds, changes no other table, and leaves one row for each
-- distinct ID of the containers that `queryContainers` gives, and no other row.
pub update_containers-synced :
    (query_order order : MapRange (String × Container)) (bp : Blueprint) (db : Database)
    → Sound Slots.containers db
    → Leaves Slots.containers db
        (IsSynced
          (λ c. c.blueprint_id)
          (map (λ c. c.blueprint_id) (query_containers query_order bp)))
        (update_containers query_order order bp db)
unfolding update_containers
update_containers-synced query_order order bp db v =
    write_pairs-synced Slots.containers (λ c. c.blueprint_id) (λ c. c.blueprint_id) update_container
      (λ p. refl) (query_containers query_order bp) db _
      (hash_join-IsHashJoin str_discrete order (λ c. c.blueprint_id) (λ c. c.blueprint_id) _ _)
      (λ p. refl) v
