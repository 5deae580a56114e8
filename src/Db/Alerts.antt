-- ===== src/Db/Alerts.antt =====
-- What the alerts of a transaction leave.
use k_elda_archive.Base.{
  ℕ, ◌≡◌, ◌≢◌, refl, sym, subst, ◌∙◌, Bool, true, false, not, ◌&&◌, ◌||◌, List, [], ◌∷◌,
  if◌then◌else◌, ite, has, arith, ℕ_discrete, Bool-cases, inl, inr,
}
use k_elda_archive.Db.{Database}
use k_elda_archive.Db.Tables.{Table}
use k_elda_archive.Db.TableType.{
  TableType, TableType-discrete, blueprint_table, machine_table, container_table, minion_table,
  connection_table, load_balancer_table, etcd_table, placement_table, image_table, hostname_table,
}
use k_elda_archive.Db.Txn.{
  Trigger, on_table, of_table, should_alert, watchers, take_alerts, notify, alert,
}

-- A change of a table is seen there, and nowhere else.
pub of-on :
    {A : Type 0} (g : (R : Type 0) → Table R → A) (f : (R : Type 0) → Table R → Table R)
    (t : TableType) (db : Database)
    → of_table g t (on_table f t db) ≡ of_table (λ R u. g R (f R u)) t db
unfolding of_table on_table
of-on g f blueprint_table db = refl
of-on g f machine_table db = refl
of-on g f _ db = refl

pub of-on_ne :
    {A : Type 0} (g : (R : Type 0) → Table R → A) (f : (R : Type 0) → Table R → Table R)
    (t u : TableType) (db : Database)
    → t ≢ u
    → of_table g u (on_table f t db) ≡ of_table g u db
unfolding of_table on_table
of-on_ne g f blueprint_table blueprint_table db n = absurd (n refl)
of-on_ne g f blueprint_table _ db n = refl
of-on_ne g f machine_table machine_table db n = absurd (n refl)
of-on_ne g f machine_table _ db n = refl
of-on_ne g f container_table container_table db n = absurd (n refl)
of-on_ne g f container_table _ db n = refl
of-on_ne g f minion_table minion_table db n = absurd (n refl)
of-on_ne g f minion_table _ db n = refl
of-on_ne g f connection_table connection_table db n = absurd (n refl)
of-on_ne g f connection_table _ db n = refl
of-on_ne g f load_balancer_table load_balancer_table db n = absurd (n refl)
of-on_ne g f load_balancer_table _ db n = refl
of-on_ne g f etcd_table etcd_table db n = absurd (n refl)
of-on_ne g f etcd_table _ db n = refl
of-on_ne g f placement_table placement_table db n = absurd (n refl)
of-on_ne g f placement_table _ db n = refl
of-on_ne g f image_table image_table db n = absurd (n refl)
of-on_ne g f image_table _ db n = refl
of-on_ne g f hostname_table hostname_table db n = absurd (n refl)
of-on_ne g f hostname_table _ db n = refl

-- A channel after the loop over triggers: notified if the loop came by and it is not stopped.
pub alert-pending :
    (is : List ℕ) (triggers : ℕ → Trigger) (j : ℕ)
    → ((alert is triggers).1 j).pending
      ≡ ((triggers j).pending || (has ℕ_discrete j is && not (triggers j).stopped))
unfolding alert has
alert-pending [] triggers j = ground arith
alert-pending (i ∷ is) triggers j =
    ground (arith, alert-pending is triggers j, alert-pending is (notify i triggers) j)

pub alert-stopped :
    (is : List ℕ) (triggers : ℕ → Trigger) (j : ℕ)
    → ((alert is triggers).1 j).stopped ≡ (triggers j).stopped
unfolding alert
alert-stopped [] triggers j = refl
alert-stopped (i ∷ is) triggers j =
    ground (arith, alert-stopped is triggers j, alert-stopped is (notify i triggers) j)

alert-kept :
    (is : List ℕ) (triggers : ℕ → Trigger) (j : ℕ)
    → has ℕ_discrete j (alert is triggers).0 ≡ (has ℕ_discrete j is && not (triggers j).stopped)
unfolding alert has
alert-kept [] triggers j = refl
alert-kept (i ∷ is) triggers j =
    ground (arith, alert-kept is triggers j, alert-kept is (notify i triggers) j)

abbrev clear : (R : Type 0) → Table R → Table R
clear R t = record t { should_alert = false }

clear-flag : (t : TableType) (db : Database) → should_alert t (on_table clear t db) ≡ false
unfolding of_table on_table
clear-flag blueprint_table db = refl
clear-flag machine_table db = refl
clear-flag _ db = refl

clear-watchers : (t : TableType) (db : Database) → watchers t (on_table clear t db) ≡ watchers t db
unfolding of_table on_table
clear-watchers blueprint_table db = refl
clear-watchers machine_table db = refl
clear-watchers _ db = refl

-- The body of the loop that takes the alerts.
abbrev cleared : TableType → Database → Database
cleared u db = if should_alert u db then on_table clear u db else db

and_true : (b : Bool) → (b && true) ≡ b
and_true b = ground arith

cleared-flag :
    (t u : TableType) (db : Database)
    → should_alert t (cleared u db)
      ≡ (should_alert t db && not (ite (TableType-discrete t u) true false))
unfolding of_table
cleared-flag t u db =
    elim (TableType-discrete t u)
      as (λ d. should_alert t (cleared u db) ≡ (should_alert t db && not (ite d true false))) [
        | yes p ↦
            subst (λ v. should_alert t (cleared v db) ≡ (should_alert t db && false)) p
              (elim (Bool-cases (should_alert t db)) [
                | inl e ↦ rw e (clear-flag t db)
                | inr e ↦ rw e e
              ])
        | no n ↦ elim (Bool-cases (should_alert u db)) [
          | inl e ↦
              rw e
                (of-on_ne (λ R v. v.should_alert) clear u t db (λ q. n (sym q)) ∙ sym (and_true _))
          | inr e ↦ rw e (sym (and_true _))
        ]
      ]

cleared-watchers : (t u : TableType) (db : Database) → watchers t (cleared u db) ≡ watchers t db
unfolding of_table
cleared-watchers t u db = elim (Bool-cases (should_alert u db)) [
  | inl e ↦ rw e (elim (TableType-discrete t u) [
    | yes p ↦ subst (λ v. watchers t (on_table clear v db) ≡ watchers t db) p (clear-watchers t db)
    | no n ↦ of-on_ne (λ R v. v.triggers) clear u t db (λ q. n (sym q))
  ])
  | inr e ↦ rw e refl
]

pub take-has :
    (t : TableType) (ts : List TableType) (db : Database)
    → has TableType-discrete t (take_alerts ts db).0
      ≡ (has TableType-discrete t ts && should_alert t db)
unfolding take_alerts has
take-has t [] db = refl
take-has t (u ∷ ts) db = elim (TableType-discrete t u) [
  | yes p ↦
      subst
        (λ v.
          has TableType-discrete t (take_alerts (v ∷ ts) db).0
          ≡ (has TableType-discrete t (v ∷ ts) && should_alert t db))
        p (ground (arith, take-has t ts (cleared t db), cleared-flag t t db))
  | no n ↦ ground (arith, take-has t ts (cleared u db), cleared-flag t u db)
]

pub take-flag :
    (t : TableType) (ts : List TableType) (db : Database)
    → should_alert t (take_alerts ts db).1
      ≡ (should_alert t db && not (has TableType-discrete t ts))
unfolding take_alerts has
take-flag t [] db = sym (and_true _)
take-flag t (u ∷ ts) db = ground (arith, take-flag t ts (cleared u db), cleared-flag t u db)

pub take-watchers :
    (t : TableType) (ts : List TableType) (db : Database)
    → watchers t (take_alerts ts db).1 ≡ watchers t db
unfolding take_alerts
take-watchers t [] db = refl
take-watchers t (u ∷ ts) db = take-watchers t ts (cleared u db) ∙ cleared-watchers t u db
