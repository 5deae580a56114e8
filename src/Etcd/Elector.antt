-- ===== src/Etcd/Elector.antt =====
-- minion/etcd/elector.go: one pass of `campaign`, and the leader's IP that `watchLeader` writes. What
-- the store answers is a parameter.
use k_elda_archive.Base.{
  String, Bool, true, false, ◌&&◌, not, List, [], ◌∷◌, Option, none, some, if◌then◌else◌,
  str_discrete, Outcome, ok, ◌>>=◌,
}
use k_elda_archive.Cloud.Machines.{same}
use k_elda_archive.Db.{Database}
use k_elda_archive.Db.Access.{commit_row}
use k_elda_archive.Db.Queries.{every, minion_self, select_from_etcd}
use k_elda_archive.Db.Rows.{Etcd, Minion, Role-discrete}
use k_elda_archive.Db.Slots
use k_elda_archive.Foreman.Config.{is_master}

-- The calls on the leader's key, with the IP to write, and their results: nil, the error that the
-- node exists, or another error.
pub data Request : Type 0 where
  refresh create : String → Request

pub data Answer : Type 0 where
  accepted exists failed : Answer

-- `commitLeader`, by the rows of the etcd table.
abbrev pub led : Bool → Option String → Etcd → Etcd
led leader none e = record e { leader = leader }
led leader (some ip) e = record e { leader = leader; leader_ip = ip }

unfoldable pub commit_leader_of : List Etcd → Bool → Option String → Database → Outcome Database
unfolding commit_row
commit_leader_of (e ∷ []) leader ip db = commit_row Slots.etcds (led leader ip e) db
commit_leader_of rows leader ip db = ok db

unfoldable pub commit_leader : Bool → Option String → Database → Outcome Database
unfolding commit_leader_of
commit_leader leader ip db = commit_leader_of (select_from_etcd every db) leader ip db

-- The end of a pass, by the answer.
abbrev pub on_answer : String → Answer → Database → Outcome Database
on_answer ip accepted db = commit_leader true (some ip) db
on_answer ip exists db = commit_leader false none db
on_answer ip failed db = commit_leader false (some "") db

abbrev pub request : Bool → String → Request
request leader ip = if leader then refresh ip else create ip

-- A pass of `campaign`, by the rows of the etcd table: the call it makes, if any, and the database.
unfoldable pub campaign_of :
    (Request → Answer) → List Etcd → Minion → Database → Outcome (Option Request × Database)
unfolding commit_leader str_discrete Role-discrete
campaign_of answer (e ∷ []) m db =
    if is_master m.role && not (same m.private_ip "")
    then (on_answer m.private_ip (answer (request e.leader m.private_ip)) db >>= λ db'.
        ok (some (request e.leader m.private_ip), db'))
    else ok (none, db)
campaign_of answer rows m db = ok (none, db)

unfoldable pub campaign : (Request → Answer) → Database → Outcome (Option Request × Database)
unfolding campaign_of minion_self
campaign answer db = do m ← minion_self db; campaign_of answer (select_from_etcd every db) m db

-- The transaction of `watchLeader`, with the value of the leader's key.
unfoldable pub watch_leader_of : String → List Etcd → Database → Outcome Database
unfolding commit_row
watch_leader_of leader (e ∷ []) db = commit_row Slots.etcds (record e { leader_ip = leader }) db
watch_leader_of leader rows db = ok db

unfoldable pub watch_leader : String → Database → Outcome Database
unfolding watch_leader_of
watch_leader leader db = watch_leader_of leader (select_from_etcd every db) db
