-- ===== src/Etcd/Minions.antt =====
-- minion/etcd/minion.go: each minion writes its own row to the etcd store and reads the others'. The
-- store's answers, encoding/json and path.Join are parameters.
use k_elda_archive.Base.{
  String, List, [], ◌∷◌, ◌++◌, Option, none, some, if◌then◌else◌, str_discrete, Outcome, ok, panic,
  ◌>>=◌, MapRange, join_with,
}
use k_elda_archive.Cloud.Machines.{same}
use k_elda_archive.Db.{Database}
use k_elda_archive.Db.Queries.{every, minion_self, select_from_minion}
use k_elda_archive.Db.Rows.{Minion, Role, Role-discrete}
use k_elda_archive.Db.Slots
use k_elda_archive.Engine.Loops.{add_each, remove_each}
use k_elda_archive.Join.Hash.{hash_join}

-- The key of `diffMinion`.
pub record MinionKey : Type 0 where
  pub role : Role
  pub private_ip : String
  pub host_subnets : String
  pub provider : String
  pub size : String
  pub region : String
  pub floating_ip : String

unfoldable pub MinionKey-discrete : Discrete MinionKey
unfolding str_discrete Role-discrete
MinionKey-discrete = hlevel (str_discrete, Role-discrete)

unfoldable pub minion_key : Minion → MinionKey
unfolding join_with
minion_key m = record {
  role = m.role;
  private_ip = m.private_ip;
  host_subnets = join_with " " m.host_subnets;
  provider = m.provider;
  size = m.size;
  region = m.region;
  floating_ip = m.floating_ip;
}

-- The first loop of `filterSelf`: the address of the last row for the minion itself, and the other
-- rows.
unfoldable pub split_self : List Minion → String → List Minion → String × List Minion
split_self [] self_ip dbms = (self_ip, dbms)
split_self (m ∷ ms) self_ip dbms =
    if m.self then split_self ms m.private_ip dbms else split_self ms self_ip (dbms ++ m ∷ [])

-- The second one.
unfoldable pub others_of : String → List Minion → List Minion
unfolding str_discrete
others_of self_ip [] = []
others_of self_ip (m ∷ ms) =
    let rest = others_of self_ip ms in if same self_ip m.private_ip then rest else m ∷ rest

unfoldable pub filter_self : List Minion → List Minion → List Minion × List Minion
unfolding split_self others_of
filter_self db_minions store_minions =
    let s = split_self db_minions "" [] in (s.1, others_of s.0 store_minions)

-- `diffMinion`: what to delete and what to add.
unfoldable pub diff_minion :
    MapRange (MinionKey × Minion) → List Minion → List Minion → List Minion × List Minion
unfolding hash_join minion_key MinionKey-discrete
diff_minion order db_minions store_minions =
    let joined =
      hash_join MinionKey-discrete order minion_key minion_key db_minions store_minions in
    (joined.lonely_lefts, joined.lonely_rights)

-- A minion of the store, under the ID of a new row.
abbrev pub with_id : Minion → Minion → Minion
with_id m row = record m { id = row.id }

-- What parses of the nodes of the tree.
abbrev pub cons_parsed : Option Minion → List Minion → List Minion
cons_parsed none rest = rest
cons_parsed (some m) rest = m ∷ rest

unfoldable pub store_minions_of : (String → Option Minion) → List String → List Minion
store_minions_of parse [] = []
store_minions_of parse (t ∷ ts) = cons_parsed (parse t) (store_minions_of parse ts)

-- `readMinion`, by the values of the tree; without a tree nothing is done.
unfoldable pub read_minion :
    MapRange (MinionKey × Minion)
    → (String → Option Minion)
    → Option (List String)
    → Database
    → Outcome Database
unfolding filter_self diff_minion store_minions_of add_each remove_each
read_minion order parse none db = ok db
read_minion order parse (some tree) db =
    let f = filter_self (select_from_minion every db) (store_minions_of parse tree) in
    let d = diff_minion order f.0 f.1 in
    add_each Slots.minions with_id d.1 (remove_each Slots.minions d.0 db)

-- `writeMinion`, by the JSON of the minion's row: the key and the value that are set, if any.
abbrev pub set_under : String → Option String → Outcome (Option (String × String))
set_under key none = panic
set_under key (some js) = ok (some (key, js))

unfoldable pub write_minion :
    (String → String → String)
    → (Minion → Option String)
    → Database
    → Outcome (Option (String × String))
unfolding minion_self str_discrete
write_minion path_join print db = do
  m ← minion_self db
  if same m.private_ip "" then ok none else set_under (path_join "/minions" m.private_ip) (print m)
