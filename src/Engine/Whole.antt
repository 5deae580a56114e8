-- ===== src/Engine/Whole.antt =====
-- `updatePolicy` as a whole.
use native.Mathlib.Nat.{le_trans}
use k_elda_archive.Base.{true, false, ◌≡◌, refl, ◌++◌, map, Outcome, ok}
use k_elda_archive.Blueprint.{Blueprint}
use k_elda_archive.Db.{Database}
use k_elda_archive.Db.Invariant.{IsSound-mono}
use k_elda_archive.Db.Access.{select_from}
use k_elda_archive.Db.Queries.{every, select_from_connection, etcd_leader, get_blueprint}
use k_elda_archive.Db.Rows.{BlueprintRow}
use k_elda_archive.Db.Slots
use k_elda_archive.Engine.Effects.{Sound}
use k_elda_archive.Engine.Policy.{load_balancer_row, port_placements, placement_row, placement_key}
use k_elda_archive.Engine.Services.{query_containers, target_connections, bp_key, dbc_key}
use k_elda_archive.Engine.Sync.{IsSynced}
use k_elda_archive.Engine.Tables.{
  update_images-synced, update_containers-synced, update_load_balancers-synced,
  update_connections-synced, update_placements-synced,
}
use k_elda_archive.Engine.Update.{Orders, query_images, db_image_key, update_all, update_policy}

-- The tables that the leader writes are sound.
pub record IsSoundPolicy (db : Database) : Type 0 where
  pub images : Sound Slots.images db
  pub containers : Sound Slots.containers db
  pub load_balancers : Sound Slots.load_balancers db
  pub connections : Sound Slots.connections db
  pub placements : Sound Slots.placements db

-- The five tables hold what the blueprint asks for: each key once, and no other row.
pub record Implements (o : Orders) (bp : Blueprint) (db : Database) : Type 0 where
  pub images : IsSynced db_image_key (map (λ i. i) (query_images bp)) db.images
  pub containers :
      IsSynced
        (λ c. c.blueprint_id)
        (map (λ c. c.blueprint_id) (query_containers o.queried bp))
        db.containers
  pub load_balancers :
      IsSynced
        (λ lb. lb.name)
        (map (λ lb. lb.name) (map load_balancer_row bp.load_balancers))
        db.load_balancers
  pub connections : IsSynced dbc_key (map bp_key (target_connections bp)) db.connections
  pub placements :
      IsSynced placement_key
        (map placement_key (
          port_placements o.ports (select_from_connection every db)
          ++ map placement_row bp.placements))
        db.placements

-- A run that succeeded.
pub record Succeeds (o : Orders) (bp : Blueprint) (db : Database) (r : Outcome Database)
    : Type 0 where
  pub after : Database
  pub result : r ≡ ok after
  pub sound : IsSoundPolicy after
  pub implements : Implements o bp after
  pub machines : after.machines ≡ db.machines
  pub minions : after.minions ≡ db.minions
  pub etcds : after.etcds ≡ db.etcds
  pub blueprints : after.blueprints ≡ db.blueprints
  pub hostnames : after.hostnames ≡ db.hostnames

update_all-Succeeds :
    (o : Orders) (bp : Blueprint) (db : Database)
    → IsSoundPolicy db
    → Succeeds o bp db (update_all o bp db)
unfolding update_all select_from
update_all-Succeeds o bp db v =
    let a = update_images-synced o.images bp db v.images in
    let db₁ : Database = record db { images = a.table; cur_id = a.last } in
    let b =
      update_containers-synced o.queried o.containers bp db₁
        (IsSound-mono _ db.cur_id a.last db.containers a.grew v.containers) in
    let db₂ : Database = record db₁ { containers = b.table; cur_id = b.last } in
    let ab = le_trans a.grew b.grew in
    let c =
      update_load_balancers-synced o.load_balancers bp db₂
        (IsSound-mono _ db.cur_id b.last db.load_balancers ab v.load_balancers) in
    let db₃ : Database = record db₂ { load_balancers = c.table; cur_id = c.last } in
    let abc = le_trans ab c.grew in
    let d =
      update_connections-synced o.connections bp db₃
        (IsSound-mono _ db.cur_id c.last db.connections abc v.connections) in
    let db₄ : Database = record db₃ { connections = d.table; cur_id = d.last } in
    let abcd = le_trans abc d.grew in
    let e =
      update_placements-synced o.ports o.placements bp db₄
        (IsSound-mono _ db.cur_id d.last db.placements abcd v.placements) in
    record {
      after = record db₄ { placements = e.table; cur_id = e.last };
      result = rw (a.result, b.result, c.result, d.result) e.result;
      sound = record {
        images =
            IsSound-mono _ a.last e.last a.table
              (le_trans b.grew (le_trans c.grew (le_trans d.grew e.grew))) a.sound;
        containers =
            IsSound-mono _ b.last e.last b.table (le_trans c.grew (le_trans d.grew e.grew)) b.sound;
        load_balancers = IsSound-mono _ c.last e.last c.table (le_trans d.grew e.grew) c.sound;
        connections = IsSound-mono _ d.last e.last d.table e.grew d.sound;
        placements = e.sound;
      };
      implements = record {
        images = a.holds;
        containers = b.holds;
        load_balancers = c.holds;
        connections = d.holds;
        placements = e.holds;
      };
      machines = refl;
      minions = refl;
      etcds = refl;
      blueprints = refl;
      hostnames = refl;
    }

-- The leader with one blueprint: if the five tables are sound, `updatePolicy` neither fails nor
-- panics; afterwards the five tables hold what the blueprint asks for, each key once and no other
-- row; they are sound again; and the other tables are as they were.
pub update_policy-Succeeds :
    (o : Orders) (row : BlueprintRow) (db : Database)
    → etcd_leader db ≡ true
    → get_blueprint db ≡ ok row
    → IsSoundPolicy db
    → Succeeds o row.blueprint db (update_policy o db)
unfolding update_policy
update_policy-Succeeds o row db leader found v =
    rw (leader, found) (update_all-Succeeds o row.blueprint db v)

-- A minion that is not the leader changes nothing.
pub update_policy-follower :
    (o : Orders) (db : Database) → etcd_leader db ≡ false → update_policy o db ≡ ok db
unfolding update_policy
update_policy-follower o db follower = rw follower refl
