-- ===== src/Cloud/Join.antt =====
-- cloud/join.go: the join of the provider's machines with the table, and of the table with the
-- blueprint. What the provider lists is an argument.
use k_elda_archive.Base.{
  Bool, true, false, ◌&&◌, ◌||◌, not, List, [], ◌∷◌, ◌++◌, if◌then◌else◌, Outcome, ok, err, ◌>>=◌,
  for_each, MapRange, str_discrete,
}
use k_elda_archive.Blueprint.{Blueprint}
use k_elda_archive.Cloud.Machines.{
  Acl, Cloud, same, connection_status, desired_machines, select_machines, is_unassigned,
  machine_score, desired_acls,
}
use k_elda_archive.Db.{Database}
use k_elda_archive.Db.Access.{insert_row, commit_row}
use k_elda_archive.Db.Queries.{get_blueprint}
use k_elda_archive.Db.Rows.{Machine, unassigned, BlueprintRow}
use k_elda_archive.Db.Slots
use k_elda_archive.Engine.Loops.{remove_each}
use k_elda_archive.Join.{Pair}
use k_elda_archive.Join.Partial.{join_or_panic}

pub record JoinResult : Type 0 where
  pub acls : List Acl
  pub boot : List Machine
  pub terminate : List Machine
  pub update_ips : List Machine
  pub is_active : Bool

abbrev pub no_result : JoinResult
no_result = record { acls = []; boot = []; terminate = []; update_ips = []; is_active = false }

-- The loop that adds a new row for each machine that the table misses.
unfoldable pub insert_missing :
    List Machine → List (Pair Machine Machine) → Database → List (Pair Machine Machine) × Database
unfolding insert_row
insert_missing [] pairs db = (pairs, db)
insert_missing (cm ∷ cms) pairs db =
    let (dbm, db') = insert_row Slots.machines db in
    insert_missing cms (pairs ++ record { l = dbm; r = cm } ∷ []) db'

-- The provider's machine with the fields that the provider does not know.
unfoldable pub merged : Pair Machine Machine → Machine
merged pair = record (pair.r) {
  id = pair.l.id;
  status = pair.l.status;
  ssh_keys = pair.l.ssh_keys;
  role = pair.l.role;
  connected = pair.l.connected;
}

unfoldable pub commit_merged : List (Pair Machine Machine) → Database → Outcome Database
unfolding for_each commit_row merged
commit_merged = for_each (λ pair. commit_row Slots.machines (merged pair))

unfoldable pub sync_db_with_cloud : Cloud → List Machine → Database → Outcome Database
unfolding join_or_panic machine_score select_machines insert_missing remove_each commit_merged
sync_db_with_cloud cld cloud_machines db = do
  joined ← join_or_panic machine_score (select_machines cld db) cloud_machines
  let inserted = insert_missing joined.lonely_rights joined.pairs db
  commit_merged inserted.0 (remove_each Slots.machines joined.lonely_lefts inserted.1)

-- The body of the loop over the pairs: the row with the blueprint's keys and the status of its
-- connection.
unfoldable pub refreshed : Pair Machine Machine → Machine
unfolding connection_status str_discrete
refreshed pair =
    let dbm : Machine = record (pair.r) { ssh_keys = pair.l.ssh_keys } in
    if same (connection_status dbm) "" then dbm else record dbm { status = connection_status dbm }

-- Whether the pair's machine is to get another floating IP.
unfoldable pub needs_ip : Pair Machine Machine → Bool
unfolding refreshed str_discrete
needs_ip pair =
    not (is_unassigned (refreshed pair).role)
    && not (same pair.l.floating_ip (refreshed pair).floating_ip)

abbrev pub with_ip : Pair Machine Machine → Machine
with_ip pair = record (refreshed pair) { floating_ip = pair.l.floating_ip }

unfoldable pub refresh_pair :
    Pair Machine Machine → JoinResult × Database → Outcome (JoinResult × Database)
unfolding commit_row refreshed needs_ip
refresh_pair pair (res, db) = do
  db' ← commit_row Slots.machines (refreshed pair) db
  ok (
    if needs_ip pair then record res { update_ips = res.update_ips ++ with_ip pair ∷ [] } else res,
    db',
  )

abbrev pub stopping : Machine → Machine
stopping dbm = record dbm { status = "stopping" }

-- The body of the loop over the machines that the blueprint does not ask for.
unfoldable pub stop_extra : Machine → JoinResult × Database → Outcome (JoinResult × Database)
unfolding commit_row
stop_extra dbm (res, db) = do
  db' ← commit_row Slots.machines (stopping dbm) db
  ok (record res { terminate = res.terminate ++ stopping dbm ∷ [] }, db')

-- The body of the loop over the machines that have to be booted.
unfoldable pub boot_missing : Machine → JoinResult × Database → Outcome (JoinResult × Database)
unfolding insert_row commit_row
boot_missing bpm (res, db) = do
  let (dbm, db') = insert_row Slots.machines db
  let booting : Machine = record bpm { id = dbm.id; status = "booting" }
  db'' ← commit_row Slots.machines (record booting { role = unassigned }) db'
  ok (record res { boot = res.boot ++ booting ∷ [] }, db'')

abbrev pub is_nil : List Machine → Bool
is_nil [] = true
is_nil (m ∷ ms) = false

-- `syncDBWithBlueprint`, with the blueprint that it reads.
unfoldable pub sync_db_with_blueprint :
    Cloud → Blueprint → Database → Outcome (JoinResult × Database)
unfolding join_or_panic machine_score select_machines desired_machines for_each refresh_pair
    stop_extra boot_missing
sync_db_with_blueprint cld bp db = do
  let dbms = select_machines cld db
  let bpms = desired_machines cld bp.machines
  let res = record no_result { is_active = not (is_nil bpms) || not (is_nil dbms) }
  joined ← join_or_panic machine_score bpms dbms
  refreshed_state ← for_each refresh_pair joined.pairs (res, db)
  stopped_state ← for_each stop_extra joined.lonely_rights refreshed_state
  for_each boot_missing joined.lonely_lefts stopped_state

-- The transaction of `joinImpl`, once the blueprint is read.
unfoldable pub join_in_txn :
    MapRange Acl → Cloud → List Machine → BlueprintRow → Database → Outcome (JoinResult × Database)
unfolding sync_db_with_cloud sync_db_with_blueprint desired_acls str_discrete
join_in_txn order cld machines row db =
    if not (same cld.namespace row.blueprint.namespace)
    then err "namespace change during a cloud run"
    else (do
      db' ← sync_db_with_cloud cld machines db
      (res, db'') ← sync_db_with_blueprint cld row.blueprint db'
      ok (
        if is_nil machines
            then res
            else record res { acls = res.acls ++ order.range (desired_acls row.blueprint) },
        db'',
      ))

-- `joinImpl`: an error of the provider's list or of the blueprint, or a changed namespace, ends it
-- before the database is written.
unfoldable pub join_impl :
    MapRange Acl → Cloud → Outcome (List Machine) → Database → Outcome (JoinResult × Database)
unfolding get_blueprint join_in_txn
join_impl order cld listed db = do
  machines ← listed
  row ← get_blueprint db
  join_in_txn order cld machines row db
