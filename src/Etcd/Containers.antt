-- ===== src/Etcd/Containers.antt =====
-- minion/etcd/container.go: one pass of the loop that brings the container table and its node in the
-- etcd store together, with `MapAsString` of util/str/str.go. The verbs of fmt for values and volume
-- mounts, sort.Sort, and encoding/json are parameters.
use Prim.Native.String.{◌++◌}
use k_elda_archive.Base.{
  String, Bool, not, ◌&&◌, ◌||◌, List, map, keep, Option, if◌then◌else◌, str_discrete, Outcome, ok,
  ◌>>=◌, MapRange, sprint_slice,
}
use k_elda_archive.Blueprint.{ContainerValue, VolumeMount}
use k_elda_archive.Cloud.Machines.{same, Bool-discrete}
use k_elda_archive.Db.{Database}
use k_elda_archive.Db.Queries.{every, etcd_leader, minion_self, select_from_container}
use k_elda_archive.Db.Rows.{Container, Minion, Role-discrete}
use k_elda_archive.Db.Slots
use k_elda_archive.Engine.Loops.{insert_each, commit_each, remove_each}
use k_elda_archive.Etcd.Store.{
  Fetched, read_etcd_node, Written, nothing_written, Codec, write_etcd_slice,
}
use k_elda_archive.Foreman.Config.{is_master}
use k_elda_archive.Join.{Pair, Joined}
use k_elda_archive.Join.Hash.{hash_join}

-- The text of keys.
pub record Formats : Type 0 where
  pub order : MapRange (String × String)
  pub sort : List String → List String
  pub show_value : ContainerValue → String
  pub show_mounts : List VolumeMount → String

-- The fields that require a restart of the container.
pub record ContainerKey : Type 0 where
  pub hostname : String
  pub ip : String
  pub blueprint_id : String
  pub image : String
  pub command : String
  pub env : String
  pub filepath_to_content : String
  pub privileged : Bool
  pub volume_mounts : String

unfoldable pub ContainerKey-discrete : Discrete ContainerKey
unfolding str_discrete Bool-discrete
ContainerKey-discrete = hlevel (str_discrete, Bool-discrete)

module _ (formats : Formats) where
  open formats use {order, sort, show_value, show_mounts}

  unfoldable pub map_as_string : List (String × String) → String
  unfolding sprint_slice
  map_as_string m = sprint_slice (sort (map (λ e. e.0 ++ "=" ++ e.1) (order.range m)))

  unfoldable pub container_value_map_key : List (String × ContainerValue) → String
  unfolding map_as_string
  container_value_map_key x = map_as_string (map (λ e. (e.0, show_value e.1)) x)

  unfoldable pub container_key : Container → ContainerKey
  unfolding container_value_map_key sprint_slice
  container_key dbc = record {
    hostname = dbc.hostname;
    ip = dbc.ip;
    blueprint_id = dbc.blueprint_id;
    image = dbc.image;
    command = sprint_slice dbc.command;
    env = container_value_map_key dbc.env;
    filepath_to_content = container_value_map_key dbc.filepath_to_content;
    privileged = dbc.privileged;
    volume_mounts = show_mounts dbc.volume_mounts;
  }

-- The last loop of `joinContainers`: a row with the fields of the store's container.
unfoldable pub mirrored_container : Pair Container Container → Container
mirrored_container pair = record (pair.r) {
  ip = pair.l.ip;
  minion = pair.l.minion;
  blueprint_id = pair.l.blueprint_id;
  image = pair.l.image;
  command = pair.l.command;
  env = pair.l.env;
  filepath_to_content = pair.l.filepath_to_content;
  hostname = pair.l.hostname;
  privileged = pair.l.privileged;
  volume_mounts = pair.l.volume_mounts;
}

-- The join seen from the other side: its pairs have the store's container first.
abbrev pub flip_pair : {L R : Type 0} → Pair L R → Pair R L
flip_pair p = record { l = p.r; r = p.l }

abbrev pub flipped : {L R : Type 0} → Joined L R → Joined R L
flipped j = record {
  pairs = map flip_pair j.pairs;
  lonely_lefts = j.lonely_rights;
  lonely_rights = j.lonely_lefts;
}

-- `joinContainers`
unfoldable pub join_containers :
    Formats → MapRange (ContainerKey × Container) → List Container → Database → Outcome Database
unfolding container_key hash_join remove_each insert_each commit_each mirrored_container
    ContainerKey-discrete
join_containers formats order etcd_dbcs db =
    let key = container_key formats in
    let joined =
      flipped (
        hash_join ContainerKey-discrete order key key (select_from_container every db) etcd_dbcs) in
    let (pairs, db') =
      insert_each Slots.containers joined.lonely_lefts joined.pairs
        (remove_each Slots.containers joined.lonely_rights db) in
    commit_each Slots.containers mirrored_container pairs db'

-- The containers of the store that a minion takes: a master all, a worker its own.
abbrev pub is_taken_by : Minion → Container → Bool
is_taken_by self dbc = is_master self.role || same dbc.minion self.private_ip

unfoldable pub taken_by : Minion → List Container → List Container
unfolding keep str_discrete Role-discrete
taken_by self = keep (is_taken_by self)

-- The containers that the leader writes: those with a minion and an IP.
unfoldable pub is_placed : Container → Bool
unfolding str_discrete
is_placed dbc = not (same dbc.minion "") && not (same dbc.ip "")

-- `updateLeader` and `updateNonLeader`
unfoldable pub update_leader : Codec Container → Option String → String → Database → Written
unfolding write_etcd_slice is_placed
update_leader codec set_error etcd_str db =
    write_etcd_slice codec set_error etcd_str (select_from_container is_placed db)

unfoldable pub update_non_leader :
    Formats
    → MapRange (ContainerKey × Container)
    → Codec Container
    → String
    → Database
    → Outcome Database
unfolding minion_self taken_by join_containers
update_non_leader formats order codec etcd_str db = do
  self ← minion_self db
  join_containers formats order (taken_by self (codec.decode etcd_str)) db

-- `runContainerOnce`
unfoldable pub run_container_once :
    Formats
    → MapRange (ContainerKey × Container)
    → Codec Container
    → Option String
    → Fetched
    → Database
    → Outcome (Written × Database)
unfolding read_etcd_node etcd_leader update_leader update_non_leader
run_container_once formats order codec set_error fetched db = do
  etcd_str ← read_etcd_node fetched
  if etcd_leader db
      then ok (update_leader codec set_error etcd_str db, db)
      else (update_non_leader formats order codec etcd_str db >>= λ db'. ok (nothing_written, db'))
