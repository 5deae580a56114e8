-- ===== src/Db/Txn.antt =====
-- db/db.go and db/table.go: `Run` of a transaction, once it has its locks, with the alerts of the
-- triggers. A trigger's channel holds at most one notification.
use k_elda_archive.Base.{
  ℕ, Bool, true, false, List, [], ◌∷◌, Option, none, some, if◌then◌else◌, ite, insert_key,
  ℕ_discrete, String, Outcome, ok, ◌>>=◌,
}
use k_elda_archive.Db.{Database}
use k_elda_archive.Db.Tables.{Table}
use k_elda_archive.Db.TableType.{
  TableType, blueprint_table, machine_table, container_table, minion_table, connection_table,
  load_balancer_table, etcd_table, placement_table, image_table, hostname_table,
}

-- The channels `C` and `stop` of a trigger.
pub record Trigger : Type 0 where
  pub pending : Bool
  pub stopped : Bool

-- A handle, with the triggers by their numbers.
pub record Conn : Type 0 where
  pub db : Database
  pub triggers : ℕ → Trigger

-- `accessTable`, to change the table or to read it.
unfoldable pub on_table : ((R : Type 0) → Table R → Table R) → TableType → Database → Database
on_table f blueprint_table db = record db { blueprints = f _ db.blueprints }
on_table f machine_table db = record db { machines = f _ db.machines }
on_table f container_table db = record db { containers = f _ db.containers }
on_table f minion_table db = record db { minions = f _ db.minions }
on_table f connection_table db = record db { connections = f _ db.connections }
on_table f load_balancer_table db = record db { load_balancers = f _ db.load_balancers }
on_table f etcd_table db = record db { etcds = f _ db.etcds }
on_table f placement_table db = record db { placements = f _ db.placements }
on_table f image_table db = record db { images = f _ db.images }
on_table f hostname_table db = record db { hostnames = f _ db.hostnames }

unfoldable pub of_table : {A : Type 0} → ((R : Type 0) → Table R → A) → TableType → Database → A
of_table f blueprint_table db = f _ db.blueprints
of_table f machine_table db = f _ db.machines
of_table f container_table db = f _ db.containers
of_table f minion_table db = f _ db.minions
of_table f connection_table db = f _ db.connections
of_table f load_balancer_table db = f _ db.load_balancers
of_table f etcd_table db = f _ db.etcds
of_table f placement_table db = f _ db.placements
of_table f image_table db = f _ db.images
of_table f hostname_table db = f _ db.hostnames

abbrev pub should_alert : TableType → Database → Bool
unfolding of_table
should_alert = of_table (λ R t. t.should_alert)

abbrev pub watchers : TableType → Database → List ℕ
unfolding of_table
watchers = of_table (λ R t. t.triggers)

-- The loop of `Run` over its tables: those that changed, and the database with their flags cleared.
unfoldable pub take_alerts : List TableType → Database → List TableType × Database
unfolding on_table of_table
take_alerts [] db = ([], db)
take_alerts (t ∷ ts) db =
    let rest = take_alerts ts (
      if should_alert t db then on_table (λ R u. record u { should_alert = false }) t db else db) in
    (if should_alert t db then t ∷ rest.0 else rest.0, rest.1)

-- A notification, unless one waits already.
abbrev pub notify : ℕ → (ℕ → Trigger) → ℕ → Trigger
notify i triggers j = ite (ℕ_discrete i j) (record (triggers j) { pending = true }) (triggers j)

-- The loop of `alert`: the triggers that stay, and their channels.
unfoldable pub alert : List ℕ → (ℕ → Trigger) → List ℕ × (ℕ → Trigger)
unfolding ℕ_discrete
alert [] triggers = ([], triggers)
alert (i ∷ is) triggers =
    let rest = alert is (if (triggers i).stopped then triggers else notify i triggers) in
    (if (triggers i).stopped then rest.0 else i ∷ rest.0, rest.1)

-- The loop over the tables to alert.
unfoldable pub alert_tables : List TableType → Conn → Conn
unfolding alert on_table of_table
alert_tables [] cn = cn
alert_tables (t ∷ ts) cn =
    let told = alert (watchers t cn.db) cn.triggers in
    alert_tables ts
      (record { db = on_table (λ R u. record u { triggers = told.0 }) t cn.db; triggers = told.1 })

-- `Run`: what `do` leaves of the database counts whether or not it returns an error.
unfoldable pub run_txn :
    List TableType
    → (Database → Outcome (Database × Option String))
    → Conn
    → Outcome (Conn × Option String)
unfolding take_alerts alert_tables
run_txn tables do_txn cn = do
  (db, error) ← do_txn cn.db
  let (alerts, cleared) = take_alerts tables db
  ok (alert_tables alerts (record cn { db = cleared }), error)

-- The loop of `Trigger` over its tables.
unfoldable pub watch : ℕ → List TableType → Database → Database
unfolding on_table insert_key ℕ_discrete
watch i [] db = db
watch i (t ∷ ts) db =
    watch i ts (on_table (λ R u. record u { triggers = insert_key ℕ_discrete i u.triggers }) t db)

abbrev pub fresh : ℕ → (ℕ → Trigger) → ℕ → Trigger
fresh i triggers j = ite (ℕ_discrete i j) (record { pending = false; stopped = false }) (triggers j)

-- A send that waits for room in the channel, which holds one notification: none where it blocks.
abbrev pub send : ℕ → Conn → Option Conn
send i cn =
    if (cn.triggers i).pending then none else some (record cn { triggers = notify i cn.triggers })

-- `Trigger`, with the number of the new one: after `Run` it sends a notification. The other
-- transactions that run in between are those of the function given.
unfoldable pub trigger : ℕ → List TableType → (Conn → Conn) → Conn → Outcome (Option Conn)
unfolding run_txn watch
trigger i tables between cn = do
  (cn', error) ←
      run_txn tables (λ db. ok (watch i tables db, none))
        (record cn { triggers = fresh i cn.triggers })
  ok (send i (between cn'))

-- `Stop`.
abbrev pub stop : ℕ → Conn → Conn
stop i cn = record cn {
  triggers = λ j. ite (ℕ_discrete i j) (record (cn.triggers j) { stopped = true }) (cn.triggers j);
}
