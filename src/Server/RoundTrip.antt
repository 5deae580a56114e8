-- ===== src/Server/RoundTrip.antt =====
-- A configuration that is set, and then read.
use mathlib.Core.List.{mem-cons_self, mem-append_right, head-eq_of_cons-eq}
use mathlib.Core.List.Perm
use k_elda_archive.Base.{
  ◌≤◌, ◌≡◌, refl, sym, ap, subst, Bool, true, List, [], ◌∷◌, Perm, Mem, values, keep, length,
  Bool-cases, inl, inr, Outcome, ok, join_with,
}
use k_elda_archive.Blueprint.{Blueprint}
use k_elda_archive.Cloud.Mirror.{keep-split}
use k_elda_archive.Db.{Database}
use k_elda_archive.Db.Access.{select_from}
use k_elda_archive.Db.Effects.{select-every}
use k_elda_archive.Db.Queries.{
  get_blueprint, minion_self, get_etcd, single_blueprint, single_minion, single_etcd,
}
use k_elda_archive.Db.Rows.{Minion, Etcd, BlueprintRow}
use k_elda_archive.Db.Slots
use k_elda_archive.Db.Tables.{select}
use k_elda_archive.Engine.Effects.{Sound}
use k_elda_archive.Engine.Whole.{IsSoundPolicy}
use k_elda_archive.Foreman.Config.{MinionConfig, role_to_pb}
use k_elda_archive.Server.Config.{Texts, get_config, set_minion, set_blueprint, set_members}
use k_elda_archive.Server.Single.{keep-perm, single_perm}

abbrev pub is_self : Minion → Bool
is_self m = m.self

pub get_blueprint-values :
    (db : Database) → get_blueprint db ≡ single_blueprint (values db.blueprints.rows)
unfolding get_blueprint select_from
get_blueprint-values db = ap single_blueprint (select-every Slots.blueprints.row db.blueprints)

pub get_etcd-values : (db : Database) → get_etcd db ≡ single_etcd (values db.etcds.rows)
unfolding get_etcd select_from
get_etcd-values db = ap single_etcd (select-every Slots.etcds.row db.etcds)

pub minion_self-keep :
    (db : Database) → minion_self db ≡ single_minion (keep is_self (values db.minions.rows))
unfolding minion_self select_from select
minion_self-keep db = refl

-- A minion's database: sound, with at most one blueprint and one etcd row, and one row `m` for
-- itself.
pub record IsMinion (m : Minion) (db : Database) : Type 0 where
  pub blueprints : Sound Slots.blueprints db
  pub minions : Sound Slots.minions db
  pub etcds : Sound Slots.etcds db
  pub policy : IsSoundPolicy db
  pub one_blueprint : length (values db.blueprints.rows) ≤ 1
  pub one_etcd : length (values db.etcds.rows) ≤ 1
  pub one_self : keep is_self (values db.minions.rows) ≡ m ∷ []

pub set_minion-id : (msg : MinionConfig) (m : Minion) → (set_minion msg m).id ≡ m.id
unfolding set_minion
set_minion-id msg m = refl

set_minion-self : (msg : MinionConfig) (m : Minion) → (set_minion msg m).self ≡ true
unfolding set_minion
set_minion-self msg m = refl

-- The self row after the commit of the changed one.
pub self-changed :
    (msg : MinionConfig) (m : Minion) (old new : List Minion)
    → keep is_self old ≡ m ∷ []
    → m.self ≡ true
    → Perm (m ∷ new) (set_minion msg m ∷ old)
    → keep is_self new ≡ set_minion msg m ∷ []
unfolding keep
self-changed msg m old new e t p =
    single_perm Slots.minions.row.dec (set_minion msg m) (keep is_self new) (
      Perm.cons_inv (
        Perm.trans
          (subst (λ xs. Perm (m ∷ keep is_self new) xs) (rw (set_minion-self msg m, e) refl)
            (subst (λ xs. Perm xs (keep is_self (set_minion msg m ∷ old))) (rw t refl)
              (keep-perm is_self p)))
          (Perm.swap m (set_minion msg m) [])))

pub self-of_keep : (ms : List Minion) (m : Minion) → keep is_self ms ≡ m ∷ [] → m.self ≡ true
unfolding keep
self-of_keep [] m e = cc
self-of_keep (x ∷ ms) m e = elim (Bool-cases x.self) [
  | inl h ↦ ap (λ n. n.self) (sym (head-eq_of_cons-eq (rw h at e)))
  | inr h ↦ self-of_keep ms m (rw h at e)
]

pub mem-of_keep : (ms : List Minion) (m : Minion) → keep is_self ms ≡ m ∷ [] → Mem m ms
mem-of_keep ms m e =
    (Perm.mem_iff (keep-split is_self ms)).1
      (mem-append_right _ (subst (Mem m) (sym e) mem-cons_self))

-- What the rows hold, once the configuration is set.
pub record HoldsConfig (texts : Texts) (msg : MinionConfig) (bp : Blueprint) (m : Minion)
    (db : Database) : Type 0 where
  pub blueprint : (row : BlueprintRow) × (values db.blueprints.rows ≡ set_blueprint bp row ∷ [])
  pub minion : keep is_self (values db.minions.rows) ≡ set_minion msg m ∷ []
  pub etcd : (row : Etcd) × (values db.etcds.rows ≡ set_members texts msg row ∷ [])

-- What the minion then says.
abbrev pub reported : Texts → MinionConfig → Blueprint → Minion → MinionConfig
reported texts msg bp m = record {
  id = "";
  role = role_to_pb m.role;
  private_ip = msg.private_ip;
  blueprint = texts.print bp;
  provider = msg.provider;
  size = msg.size;
  region = msg.region;
  floating_ip = "";
  etcd_members = texts.sort msg.etcd_members;
  authorized_keys = texts.split (join_with "\n" msg.authorized_keys);
}

pub get-of_set :
    (texts : Texts) (msg : MinionConfig) (bp : Blueprint) (m : Minion) (db : Database)
    → HoldsConfig texts msg bp m db
    → get_config texts db db ≡ ok (reported texts msg bp m)
unfolding get_config set_minion single_minion single_etcd single_blueprint
get-of_set texts msg bp m db s =
    rw
      (
        minion_self-keep db,
        get_blueprint-values db,
        get_etcd-values db,
        s.minion,
        s.blueprint.1,
        s.etcd.1,
      )
      refl

-- The call succeeds, and the minion then says what it was told, its own role, and no floating IP.
pub record IsConfigured (texts : Texts) (msg : MinionConfig) (bp : Blueprint) (m : Minion)
    (o : Outcome Database) : Type 0 where
  pub after : Database
  pub result : o ≡ ok after
  pub read : get_config texts after after ≡ ok (reported texts msg bp m)
