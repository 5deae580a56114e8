-- ===== src/Foreman/Run.antt =====
-- cloud/foreman/foreman.go: `runOnce` and `setMinionStatus`, one round of a machine's thread. The
-- minions' answers are parameters, a round calls each of them at most once; so are the comparison
-- `reflect.DeepEqual`, which also tells a nil slice from an empty one, and a blueprint's JSON.
use k_elda_archive.Base.{
  String, Bool, true, false, not, ◌&&◌, List, [], ◌∷◌, Option, none, some, if◌then◌else◌,
  str_discrete, Outcome, ok, err, panic, ◌>>=◌, pos,
}
use k_elda_archive.Blueprint.{Blueprint, no_blueprint}
use k_elda_archive.Cloud.Machines.{same, connection_status}
use k_elda_archive.Db.{Database}
use k_elda_archive.Db.Access.{commit_row}
use k_elda_archive.Db.Queries.{select_from_machine, get_blueprint}
use k_elda_archive.Db.Rows.{Machine, Role, BlueprintRow}
use k_elda_archive.Db.Slots
use k_elda_archive.Foreman.Config.{WireRole, MinionConfig, pb_to_role, cluster_ready, make_config}

-- The minions as a round finds them, by public IP: whether a connection is made, and the answer of
-- `getMinion`. Whether `setMinion` fails is only logged.
pub record Minions : Type 0 where
  pub connects : String → Bool
  pub config : String → Option MinionConfig

-- What a round tells its caller, and the configurations that it sent, by public IP.
pub record Round : Type 0 where
  pub role : WireRole
  pub connected : Bool
  pub sent : List (String × MinionConfig)

abbrev pub not_connected : Round
not_connected = record { role = pos 0; connected = false; sent = [] }

-- The machines that have all their addresses.
unfoldable pub is_up : Machine → Bool
unfolding str_discrete
is_up m =
    not (same m.cloud_id "")
    && not (same m.public_ip "")
    && not (same m.private_ip "")
    && not (same m.status "stopping")

-- The last machine with the cloud ID.
unfoldable pub find_machine : String → List Machine → Option Machine → Option Machine
unfolding str_discrete
find_machine id [] found = found
find_machine id (m ∷ ms) found = find_machine id ms (if same m.cloud_id id then some m else found)

-- The blueprint that is read, the zero one if there is none.
abbrev pub blueprint_of : Outcome BlueprintRow → Outcome Blueprint
blueprint_of (ok row) = ok row.blueprint
blueprint_of (err e) = ok no_blueprint
blueprint_of panic = panic

module _ (print : Blueprint → String) (deep_equal : MinionConfig → MinionConfig → Bool)
    (minions : Minions) where
  -- The rest of `runOnce`, once the minion has answered with its configuration.
  unfoldable pub configure : Bool → List Machine → Machine → String → MinionConfig → Round
  unfolding cluster_ready make_config
  configure before_cutoff machines minion blueprint current =
      if not (cluster_ready machines) && before_cutoff
      then record { role = current.role; connected = true; sent = [] }
      else (let config = make_config machines minion blueprint in
          record {
            role = current.role;
            connected = true;
            sent = if deep_equal current config then [] else (minion.public_ip, config) ∷ [];
          })

  -- The answers of the minion.
  abbrev pub on_config : Bool → List Machine → Machine → String → Option MinionConfig → Round
  on_config before_cutoff machines minion blueprint none = not_connected
  on_config before_cutoff machines minion blueprint (some current) =
      configure before_cutoff machines minion blueprint current

  abbrev pub on_found : Bool → List Machine → String → Option Machine → Round
  on_found before_cutoff machines blueprint none = not_connected
  on_found before_cutoff machines blueprint (some m) =
      if minions.connects m.public_ip
      then on_config before_cutoff machines m blueprint (minions.config m.public_ip)
      else not_connected

  -- `runOnce`, by whether the time is before the cutoff.
  unfoldable pub run_once : Bool → Database → String → Outcome Round
  unfolding get_blueprint is_up find_machine configure
  run_once before_cutoff db cloud_id = do
    bp ← blueprint_of (get_blueprint db)
    let machines = select_from_machine is_up db
    ok (on_found before_cutoff machines (print bp) (find_machine cloud_id machines none))

-- The machine with what the round learned.
unfoldable pub learned : Role → Bool → Machine → Machine
unfolding connection_status str_discrete
learned role is_connected dbm =
    let m = record dbm { role = role; connected = is_connected } in
    if same (connection_status m) "" then m else record m { status = connection_status m }

-- `setMinionStatus`, by the rows with the cloud ID.
unfoldable pub set_status_of : List Machine → WireRole → Bool → Database → Outcome Database
unfolding pb_to_role learned commit_row str_discrete
set_status_of (dbm ∷ []) role is_connected db =
    if same dbm.status "stopping"
    then ok db
    else (do r ← pb_to_role role; commit_row Slots.machines (learned r is_connected dbm) db)
set_status_of rows role is_connected db = ok db

unfoldable pub set_minion_status : Database → String → WireRole → Bool → Outcome Database
unfolding set_status_of str_discrete
set_minion_status db cloud_id role is_connected =
    set_status_of (select_from_machine (λ m. same m.cloud_id cloud_id) db) role is_connected db

-- A round of `newMinionImpl`, where no other transaction runs between its two.
unfoldable pub round :
    (Blueprint → String)
    → (MinionConfig → MinionConfig → Bool)
    → Minions
    → Bool
    → Database
    → String
    → Outcome Database
unfolding run_once set_minion_status
round print deep_equal minions before_cutoff db cloud_id = do
  r ← run_once print deep_equal minions before_cutoff db cloud_id
  set_minion_status db cloud_id r.role r.connected
