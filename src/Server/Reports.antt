-- ===== src/Server/Reports.antt =====
-- The foreman and the minions of a server that reads and sets its configuration.
use k_elda_archive.Base.{
  ◌≡◌, ◌≢◌, refl, sym, ap, ◌∙◌, String, List, Outcome, ok, err, panic, ◌>>=◌, ok-injective, pos,
}
use k_elda_archive.Db.{Database}
use k_elda_archive.Db.Queries.{get_blueprint, minion_self, get_etcd}
use k_elda_archive.Db.Rows.{Machine, Minion, Role, unassigned, worker, master}
use k_elda_archive.Foreman.Config.{MinionConfig, role_to_pb, make_config}
use k_elda_archive.Server.Config.{Texts, get_config, members_of, text_of}

role_of_zero : (r : Role) → role_to_pb r ≡ pos 0 → r ≡ unassigned
unfolding role_to_pb
role_of_zero unassigned h = refl
role_of_zero worker h = cc
role_of_zero master h = cc

get_config-role :
    (texts : Texts) (first db : Database) (m : Minion) (current : MinionConfig)
    → minion_self first ≡ ok m
    → get_config texts first db ≡ ok current
    → current.role ≡ role_to_pb m.role
unfolding get_config
get_config-role texts first db m current e h =
    by_reads (members_of (get_etcd db)) (text_of texts.print (get_blueprint db)) (rw e at h)
  where
    by_reads :
        (members : Outcome (List String)) (text : Outcome String)
        → (do
          ips ← members
          blueprint ← text
          ok (record {
            id = "";
            role = role_to_pb m.role;
            private_ip = m.private_ip;
            blueprint = blueprint;
            provider = m.provider;
            size = m.size;
            region = m.region;
            floating_ip = "";
            etcd_members = ips;
            authorized_keys = texts.split m.authorized_keys;
          }))
          ≡ ok current
        → current.role ≡ role_to_pb m.role
    by_reads (ok ips) (ok t) p = ap (λ c. c.role) (sym (ok-injective p))
    by_reads (ok ips) (err x) p = cc
    by_reads (ok ips) panic p = cc
    by_reads (err x) t p = cc
    by_reads panic t p = cc

-- What GetMinionConfig returns on a minion that has a role is never a configuration that makeConfig
-- of the foreman makes.
pub resent :
    (texts : Texts) (first db : Database) (machines : List Machine) (dbm : Machine) (text : String)
    (m : Minion) (current : MinionConfig)
    → minion_self first ≡ ok m
    → m.role ≢ unassigned
    → get_config texts first db ≡ ok current
    → current ≢ make_config machines dbm text
unfolding make_config
resent texts first db machines dbm text m current e n h same = n (
    role_of_zero m.role
      (sym (get_config-role texts first db m current e h) ∙ ap (λ c. c.role) same))
