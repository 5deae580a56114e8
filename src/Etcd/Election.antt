-- ===== src/Etcd/Election.antt =====
-- Several minions that campaign against one store.
use mathlib.Core.Option.{none-ne-some, some-injective}
use k_elda_archive.Base.{
  ◌≡◌, refl, sym, ap, subst, ◌∙◌, String, Bool, true, false, ◌&&◌, not, List, [], ◌∷◌, Option, none,
  some, Outcome, ok, ◌>>=◌, values, keep, Bool-cases, inl, inr, ◌⊎◌,
}
use k_elda_archive.Cloud.Machines.{same}
use k_elda_archive.Db.{Database}
use k_elda_archive.Db.Access.{select_from}
use k_elda_archive.Db.Effects.{select-every}
use k_elda_archive.Db.Queries.{
  every, etcd_leader, is_leader, minion_self, single_minion, select_from_etcd,
}
use k_elda_archive.Db.Rows.{Etcd, Minion, etcd}
use k_elda_archive.Db.Slots
use k_elda_archive.Db.Tables.{select}
use k_elda_archive.Engine.Effects.{Sound}
use k_elda_archive.Etcd.Elector.{
  Request, refresh, create, Answer, accepted, exists, failed, led, commit_leader_of, commit_leader,
  on_answer, request, campaign_of, campaign,
}
use k_elda_archive.Foreman.Config.{is_master}
use k_elda_archive.Server.RoundTrip.{is_self}
use k_elda_archive.Server.Single.{commit-one}

-- A minion's database: a sound etcd table, and one row for itself with this IP.
pub record IsNode (ip : String) (db : Database) : Type 0 where
  pub etcds : Sound Slots.etcds db
  pub self : Minion
  pub one_self : keep is_self (values db.minions.rows) ≡ self ∷ []
  pub address : self.private_ip ≡ ip

etcd-rows : (db : Database) → select_from_etcd every db ≡ values db.etcds.rows
unfolding select_from
etcd-rows db = select-every etcd db.etcds

leader-rows : (db : Database) → etcd_leader db ≡ is_leader (values db.etcds.rows)
unfolding etcd_leader
leader-rows db = ap is_leader (etcd-rows db)

self-row : (ip : String) (db : Database) (v : IsNode ip db) → minion_self db ≡ ok v.self
unfolding minion_self select_from select single_minion
self-row ip db v = ap single_minion v.one_self

led-id : (leader : Bool) (ip : Option String) (e : Etcd) → (led leader ip e).id ≡ e.id
led-id leader none e = refl
led-id leader (some ip) e = refl

led-leader : (leader : Bool) (ip : Option String) (e : Etcd) → (led leader ip e).leader ≡ leader
led-leader leader none e = refl
led-leader leader (some ip) e = refl

-- The database of a node after `commitLeader`.
record Committed (ip : String) (leader : Bool) (o : Outcome Database) : Type 0 where
  after : Database
  result : o ≡ ok after
  node : IsNode ip after
  leads : etcd_leader after ≡ leader

commit_leader-Committed :
    (ip : String) (leader : Bool) (told : Option String) (e : Etcd) (db : Database)
    → values db.etcds.rows ≡ e ∷ []
    → IsNode ip db
    → Committed ip leader (commit_leader leader told db)
unfolding commit_leader commit_leader_of is_leader
commit_leader-Committed ip leader told e db h v =
    let a = commit-one Slots.etcds (led leader told) (led-id leader told) e db v.etcds h in
    let db' : Database = record db { etcds = a.table; cur_id = a.last } in
    record {
      after = db';
      result = ap (λ rows. commit_leader_of rows leader told db) (etcd-rows db ∙ h) ∙ a.result;
      node = record { etcds = a.sound; self = v.self; one_self = v.one_self; address = v.address };
      leads = leader-rows db' ∙ ap is_leader a.holds.1 ∙ led-leader leader told a.holds.0;
    }

abbrev pub ip_of : Request → String
ip_of (refresh ip) = ip
ip_of (create ip) = ip

abbrev is_accepted : Answer → Bool
is_accepted accepted = true
is_accepted exists = false
is_accepted failed = false

answer-Committed :
    (ip : String) (a : Answer) (e : Etcd) (db : Database)
    → values db.etcds.rows ≡ e ∷ []
    → IsNode ip db
    → Committed ip (is_accepted a) (on_answer ip a db)
answer-Committed ip accepted e db h v = commit_leader-Committed ip true (some ip) e db h v
answer-Committed ip exists e db h v = commit_leader-Committed ip false none e db h v
answer-Committed ip failed e db h v = commit_leader-Committed ip false (some "") e db h v

-- A pass of a node: it succeeds, and the node leads afterwards only if its call for its own IP was
-- accepted, or it made none and led before.
pub record IsPass (ip : String) (answer : Request → Answer) (db : Database)
    (o : Outcome (Option Request × Database)) : Type 0 where
  pub call : Option Request
  pub after : Database
  pub result : o ≡ ok (call, after)
  pub node : IsNode ip after
  pub own : (r : Request) → call ≡ some r → ip_of r ≡ ip
  pub leads :
      etcd_leader after ≡ true
      → ((call ≡ none) × (etcd_leader db ≡ true))
        ⊎ ((r : Request) × (call ≡ some r) × (answer r ≡ accepted))

accepted_of : (a : Answer) → is_accepted a ≡ true → a ≡ accepted
accepted_of accepted h = refl
accepted_of exists h = cc
accepted_of failed h = cc

ip_of-request : (b : Bool) (ip : String) → ip_of (request b ip) ≡ ip
ip_of-request true ip = refl
ip_of-request false ip = refl

no_call :
    (ip : String) (answer : Request → Answer) (db : Database)
    → IsNode ip db
    → IsPass ip answer db (ok (none, db))
no_call ip answer db v = record {
  call = none;
  after = db;
  result = refl;
  node = v;
  own = λ r h. absurd (none-ne-some _ h);
  leads = λ h. inl (refl, h);
}

made_call :
    (ip : String) (answer : Request → Answer) (r : Request) (db : Database) (o : Outcome Database)
    → ip_of r ≡ ip
    → Committed ip (is_accepted (answer r)) o
    → IsPass ip answer db (o >>= λ db'. ok (some r, db'))
made_call ip answer r db o e c = record {
  call = some r;
  after = c.after;
  result = rw c.result refl;
  node = c.node;
  own = λ q h. ap ip_of (sym (some-injective _ _ h)) ∙ e;
  leads = λ h. inr (r, refl, accepted_of (answer r) (sym c.leads ∙ h));
}

campaign-by_rows :
    (ip : String) (answer : Request → Answer) (rows : List Etcd) (m : Minion) (db : Database)
    → values db.etcds.rows ≡ rows
    → m.private_ip ≡ ip
    → IsNode ip db
    → IsPass ip answer db (campaign_of answer rows m db)
unfolding campaign_of
campaign-by_rows ip answer [] m db h a v = no_call ip answer db v
campaign-by_rows ip answer (e ∷ []) m db h a v =
    elim (Bool-cases (is_master m.role && not (same m.private_ip ""))) [
      | inl k ↦ rw k (
          made_call ip answer (request e.leader m.private_ip) db _
            (ip_of-request e.leader m.private_ip ∙ a)
            (subst
              (λ i.
                Committed ip (is_accepted (answer (request e.leader m.private_ip)))
                  (on_answer i (answer (request e.leader m.private_ip)) db))
              (sym a) (answer-Committed ip (answer (request e.leader m.private_ip)) e db h v)))
      | inr k ↦ rw k (no_call ip answer db v)
    ]
campaign-by_rows ip answer (e ∷ f ∷ rest) m db h a v = no_call ip answer db v

pub campaign-IsPass :
    (ip : String) (answer : Request → Answer) (db : Database)
    → IsNode ip db
    → IsPass ip answer db (campaign answer db)
unfolding campaign
campaign-IsPass ip answer db v = rw (self-row ip db v) (
    subst (λ rows. IsPass ip answer db (campaign_of answer rows v.self db)) (sym (etcd-rows db))
      (campaign-by_rows ip answer (values db.etcds.rows) v.self db refl v.address v))
