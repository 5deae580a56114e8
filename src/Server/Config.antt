-- ===== src/Server/Config.antt =====
-- minion/server.go: `GetMinionConfig` and `SetMinionConfig`. The JSON of a blueprint both ways,
-- strings.Split at newlines and sort.Strings are parameters.
use k_elda_archive.Base.{
  String, true, List, [], Option, none, some, Outcome, ok, err, panic, ◌>>=◌, join_with,
}
use k_elda_archive.Blueprint.{Blueprint}
use k_elda_archive.Db.{Database}
use k_elda_archive.Db.Access.{insert_row, commit_row}
use k_elda_archive.Db.Queries.{get_blueprint, minion_self, get_etcd}
use k_elda_archive.Db.Rows.{Minion, Etcd, BlueprintRow}
use k_elda_archive.Db.Slots
use k_elda_archive.Db.Slots.{Slot}
use k_elda_archive.Engine.Update.{Orders, update_policy}
use k_elda_archive.Foreman.Config.{MinionConfig, role_to_pb}

pub record Texts : Type 0 where
  pub print : Blueprint → String
  pub parse : String → Option Blueprint
  pub split : String → List String
  pub sort : List String → List String

-- What is read of the etcd row and of the blueprint row, if there is one.
abbrev pub members_of : Outcome Etcd → Outcome (List String)
members_of (ok e) = ok e.etcd_ips
members_of (err e) = ok []
members_of panic = panic

abbrev pub text_of : (Blueprint → String) → Outcome BlueprintRow → Outcome String
text_of print (ok row) = ok (print row.blueprint)
text_of print (err e) = ok ""
text_of print panic = panic

-- The changes to the three rows.
abbrev pub set_blueprint : Blueprint → BlueprintRow → BlueprintRow
set_blueprint bp row = record row { blueprint = bp }

unfoldable pub set_minion : MinionConfig → Minion → Minion
unfolding join_with
set_minion msg m = record m {
  private_ip = msg.private_ip;
  provider = msg.provider;
  size = msg.size;
  region = msg.region;
  floating_ip = msg.floating_ip;
  authorized_keys = join_with "\n" msg.authorized_keys;
  self = true;
}

-- A row that is read is changed and committed; if there is none, one is inserted first.
unfoldable pub save : {R : Type 0} → Slot R → (R → R) → Outcome R → Database → Outcome Database
unfolding commit_row insert_row
save s change (ok r) db = commit_row s (change r) db
save s change (err e) db = let made = insert_row s db in commit_row s (change made.0) made.1
save s change panic db = panic

module _ (texts : Texts) where
  open texts use {print, parse, split, sort}

  -- `GetMinionConfig`, by the database of its first transaction and that of its second.
  unfoldable pub get_config : Database → Database → Outcome MinionConfig
  unfolding minion_self get_etcd get_blueprint role_to_pb
  get_config first db = do
    m ← minion_self first
    members ← members_of (get_etcd db)
    blueprint ← text_of print (get_blueprint db)
    ok (record {
      id = "";
      role = role_to_pb m.role;
      private_ip = m.private_ip;
      blueprint = blueprint;
      provider = m.provider;
      size = m.size;
      region = m.region;
      floating_ip = "";
      etcd_members = members;
      authorized_keys = split m.authorized_keys;
    })

  abbrev pub set_members : MinionConfig → Etcd → Etcd
  set_members msg e = record e { etcd_ips = sort msg.etcd_members }

  -- The transaction of `SetMinionConfig`.
  unfoldable pub set_rows : Orders → Blueprint → MinionConfig → Database → Outcome Database
  unfolding save commit_row minion_self get_etcd get_blueprint set_minion update_policy
  set_rows o bp msg db = do
    db₁ ← save Slots.blueprints (set_blueprint bp) (get_blueprint db) db
    m ← minion_self db₁
    db₂ ← commit_row Slots.minions (set_minion msg m) db₁
    db₃ ← save Slots.etcds (set_members msg) (get_etcd db₂) db₂
    update_policy o db₃

  -- `SetMinionConfig`, by the blueprint that is parsed. The caller does not wait for the transaction.
  abbrev pub set_parsed : Orders → Option Blueprint → MinionConfig → Database → Outcome Database
  unfolding set_rows
  set_parsed o none msg db = err "failed to parse blueprint"
  set_parsed o (some bp) msg db = set_rows o bp msg db

  unfoldable pub set_config : Orders → MinionConfig → Database → Outcome Database
  unfolding set_rows
  set_config o msg db = set_parsed o (parse msg.blueprint) msg db
