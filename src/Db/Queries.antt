-- ===== src/Db/Queries.antt =====
-- What the program asks of the whole database: the Insert and SelectFrom functions of each table,
-- and the questions about its single rows.
use k_elda_archive.Base.{
  String, Bool, true, false, List, [], ◌∷◌, Outcome, ok, err, panic, ◌>>=◌, put, str_discrete,
}
use k_elda_archive.Db.{Database}
use k_elda_archive.Db.Access.{insert_row, select_from}
use k_elda_archive.Db.Slots
use k_elda_archive.Db.Rows.{
  Machine, Container, Minion, Connection, LoadBalancer, Etcd, Placement, Image, Hostname,
  BlueprintRow,
}

abbrev pub every : {R : Type 0} → R → Bool
every r = true

abbrev pub insert_machine : Database → Machine × Database
insert_machine = insert_row Slots.machines

abbrev pub select_from_machine : (Machine → Bool) → Database → List Machine
select_from_machine = select_from Slots.machines

abbrev pub insert_container : Database → Container × Database
insert_container = insert_row Slots.containers

abbrev pub select_from_container : (Container → Bool) → Database → List Container
select_from_container = select_from Slots.containers

abbrev pub select_from_minion : (Minion → Bool) → Database → List Minion
select_from_minion = select_from Slots.minions

abbrev pub insert_connection : Database → Connection × Database
insert_connection = insert_row Slots.connections

abbrev pub select_from_connection : (Connection → Bool) → Database → List Connection
select_from_connection = select_from Slots.connections

abbrev pub insert_load_balancer : Database → LoadBalancer × Database
insert_load_balancer = insert_row Slots.load_balancers

abbrev pub select_from_load_balancer : (LoadBalancer → Bool) → Database → List LoadBalancer
select_from_load_balancer = select_from Slots.load_balancers

abbrev pub select_from_etcd : (Etcd → Bool) → Database → List Etcd
select_from_etcd = select_from Slots.etcds

abbrev pub insert_placement : Database → Placement × Database
insert_placement = insert_row Slots.placements

abbrev pub select_from_placement : (Placement → Bool) → Database → List Placement
select_from_placement = select_from Slots.placements

abbrev pub insert_image : Database → Image × Database
insert_image = insert_row Slots.images

abbrev pub select_from_image : (Image → Bool) → Database → List Image
select_from_image = select_from Slots.images

abbrev pub insert_hostname : Database → Hostname × Database
insert_hostname = insert_row Slots.hostnames

abbrev pub select_from_hostname : (Hostname → Bool) → Database → List Hostname
select_from_hostname = select_from Slots.hostnames

abbrev pub select_from_blueprint : (BlueprintRow → Bool) → Database → List BlueprintRow
select_from_blueprint = select_from Slots.blueprints

-- `EtcdLeader`, by the rows of the table.
unfoldable pub is_leader : List Etcd → Bool
is_leader (e ∷ []) = e.leader
is_leader rows = false

unfoldable pub etcd_leader : Database → Bool
unfolding is_leader select_from
etcd_leader db = is_leader (select_from_etcd every db)

-- `GetBlueprint`, by the rows of the table. More than one is a panic.
unfoldable pub single_blueprint : List BlueprintRow → Outcome BlueprintRow
single_blueprint [] = err "no blueprints found"
single_blueprint (b ∷ []) = ok b
single_blueprint (b ∷ c ∷ rest) = panic

unfoldable pub get_blueprint : Database → Outcome BlueprintRow
unfolding single_blueprint select_from
get_blueprint db = single_blueprint (select_from_blueprint every db)

unfoldable pub get_blueprint_namespace : Database → Outcome String
unfolding get_blueprint
get_blueprint_namespace db = do row ← get_blueprint db; ok row.blueprint.namespace

-- `MinionSelf`: a panic unless there is just one.
unfoldable pub single_minion : List Minion → Outcome Minion
single_minion (m ∷ []) = ok m
single_minion ms = panic

unfoldable pub minion_self : Database → Outcome Minion
unfolding single_minion select_from
minion_self db = single_minion (select_from_minion (λ m. m.self) db)

-- `GetEtcd`, by the rows of the table.
unfoldable pub single_etcd : List Etcd → Outcome Etcd
single_etcd [] = err "no etcd row"
single_etcd (e ∷ []) = ok e
single_etcd (e ∷ f ∷ rest) = panic

unfoldable pub get_etcd : Database → Outcome Etcd
unfolding single_etcd select_from
get_etcd db = single_etcd (select_from_etcd every db)

-- `GetHostnameMappings`.
unfoldable pub mappings : List Hostname → List (String × String) → List (String × String)
mappings [] m = m
mappings (h ∷ hs) m = mappings hs (put str_discrete h.hostname h.ip m)

unfoldable pub get_hostname_mappings : Database → List (String × String)
unfolding mappings select_from
get_hostname_mappings db = mappings (select_from_hostname every db) []
