-- ===== src/Cloud/Whole.antt =====
-- `joinImpl` as a whole.
use k_elda_archive.Base.{
  has, ◌&&◌, ◌∙◌, ◌≡◌, refl, ap, subst, List, [], ◌∷◌, ◌++◌, All, MapRange, Outcome, ok,
  if◌then◌else◌, ℕ,
}
use k_elda_archive.Blueprint.{Blueprint}
use k_elda_archive.Cloud.Acls.{admits, desired_acls-admits}
use k_elda_archive.Cloud.Expected.{any}
use k_elda_archive.Engine.Sync.{has-same}
use mathlib.Core.List.Perm
use k_elda_archive.Cloud.Join.{JoinResult, is_nil, join_in_txn, join_impl}
use k_elda_archive.Cloud.Desired.{machines_asked}
use k_elda_archive.Cloud.Machines.{Acl-discrete, Acl, Cloud, desired_acls}
use k_elda_archive.Cloud.Mirror.{InPlace, Mirrors, eq→same, sync_db_with_cloud-Mirrors}
use k_elda_archive.Cloud.Plan.{IsPlan, sync_db_with_blueprint-IsPlan}
use k_elda_archive.Db.{Database}
use k_elda_archive.Db.Queries.{get_blueprint}
use k_elda_archive.Db.Rows.{BlueprintRow, Machine}
use k_elda_archive.Db.Slots
use k_elda_archive.Db.Tables.{Table}
use k_elda_archive.Engine.Effects.{Sound}

-- A run that succeeded: the table mirrored the provider, and then the blueprint was planned on it.
-- The ACLs are those of the blueprint, if the provider lists any machine.
pub record Joins (cld : Cloud) (ms : List Machine) (bp : Blueprint) (db : Database)
    (o : Outcome (JoinResult × Database)) : Type 0 where
  pub table : Table Machine
  pub last : ℕ
  pub mirrors : Mirrors cld ms db table
  pub res : JoinResult
  pub after : Database
  pub acls : List Acl
  pub plan :
      IsPlan cld
        (machines_asked cld bp.machines)
        (record db { machines = table; cur_id = last })
        (ok (res, after))
  pub result : o ≡ ok (record res { acls = acls }, after)
  pub admitted : (a : Acl) → has Acl-discrete a acls ≡ (any ms && admits bp a)

acls_of : MapRange Acl → List Machine → Blueprint → List Acl
acls_of order ms bp = if is_nil ms then [] else order.range (desired_acls bp)

acls_of-admits :
    (order : MapRange Acl) (ms : List Machine) (bp : Blueprint) (a : Acl)
    → has Acl-discrete a (acls_of order ms bp) ≡ (any ms && admits bp a)
unfolding acls_of has
acls_of-admits order [] bp a = refl
acls_of-admits order (m ∷ ms) bp a =
    has-same Acl-discrete a (order.range (desired_acls bp)) (desired_acls bp)
      (Perm.mem_iff (order.range-perm (desired_acls bp))).0
      (Perm.mem_iff (order.range-perm (desired_acls bp))).1
    ∙ desired_acls-admits bp a

with_acls :
    (order : MapRange Acl) (ms : List Machine) (bp : Blueprint) (res : JoinResult)
    → res.acls ≡ []
    → (if is_nil ms then res else record res { acls = res.acls ++ order.range (desired_acls bp) })
      ≡ record res { acls = acls_of order ms bp }
unfolding acls_of
with_acls order [] bp res e = ap (λ l. record res { acls = l }) e
with_acls order (m ∷ ms) bp res e =
    ap (λ l. record res { acls = l ++ order.range (desired_acls bp) }) e

-- With one blueprint of the controller's namespace, a sound machine table, and machines of the region
-- listed by the provider, `joinImpl` neither fails nor panics: the machine table first mirrors the
-- provider's list, and is then brought in step with the blueprint. If the provider lists any machine,
-- the result asks for just the ACLs that let in the administrators' addresses and the local one at
-- the ports from 1 to 65535, and all addresses at the ports of the connections from the public
-- internet; and for none otherwise.
pub join_impl-Joins :
    (order : MapRange Acl) (cld : Cloud) (ms : List Machine) (row : BlueprintRow) (db : Database)
    → get_blueprint db ≡ ok row
    → cld.namespace ≡ row.blueprint.namespace
    → Sound Slots.machines db
    → All (InPlace cld) ms
    → Joins cld ms row.blueprint db (join_impl order cld (ok ms) db)
unfolding join_impl join_in_txn
join_impl-Joins order cld ms row db found same_ns v h =
    let m = sync_db_with_cloud-Mirrors cld ms db v h in
    let db₁ : Database = record db { machines = m.table; cur_id = m.last } in
    let p = sync_db_with_blueprint-IsPlan cld row.blueprint db₁ m.sound in
    let after : Database = record db₁ { machines = p.table; cur_id = p.last } in
    record {
      table = m.table;
      last = m.last;
      mirrors = m.holds;
      res = _;
      after = after;
      acls = acls_of order ms row.blueprint;
      admitted = acls_of-admits order ms row.blueprint;
      plan = subst (IsPlan cld (machines_asked cld row.blueprint.machines) db₁) p.result p;
      result =
          rw (found, eq→same cld.namespace row.blueprint.namespace same_ns, m.result, p.result)
            (ap (λ r. ok (r, after)) (with_acls order ms row.blueprint _ refl));
    }
