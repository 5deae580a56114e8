-- ===== src/Db/Notified.antt =====
-- What a transaction leaves of the triggers.
use k_elda_archive.Base.{
  ℕ, ◌≡◌, refl, sym, ap, subst, ◌∙◌, true, false, List, [], ◌∷◌, Option, has, arith, ℕ_discrete,
  String, Outcome, ok,
}
use k_elda_archive.Db.{Database}
use k_elda_archive.Db.Tables.{Table}
use k_elda_archive.Db.TableType.{TableType, TableType-discrete}
use k_elda_archive.Db.Txn.{
  Conn, on_table, of_table, should_alert, watchers, take_alerts, alert, alert_tables, run_txn,
}
use k_elda_archive.Db.Alerts.{
  of-on, of-on_ne, alert-pending, alert-stopped, take-has, take-flag, take-watchers,
}

abbrev retold : List ℕ → (R : Type 0) → Table R → Table R
retold is R t = record t { triggers = is }

retold-flag :
    (is : List ℕ) (t u : TableType) (db : Database)
    → should_alert t (on_table (retold is) u db) ≡ should_alert t db
unfolding of_table
retold-flag is t u db = elim (TableType-discrete u t) [
  | yes p ↦
      subst (λ v. should_alert v (on_table (retold is) u db) ≡ should_alert v db) p
        (of-on (λ R v. v.should_alert) (retold is) u db)
  | no n ↦ of-on_ne (λ R v. v.should_alert) (retold is) u t db n
]

-- One step of the loop over the tables to alert.
abbrev told : TableType → Conn → Conn
told t cn =
    let kept = alert (watchers t cn.db) cn.triggers in
    record { db = on_table (retold kept.0) t cn.db; triggers = kept.1 }

alert_tables-stopped :
    (ts : List TableType) (cn : Conn) (j : ℕ)
    → ((alert_tables ts cn).triggers j).stopped ≡ (cn.triggers j).stopped
unfolding alert_tables
alert_tables-stopped [] cn j = refl
alert_tables-stopped (t ∷ ts) cn j =
    alert_tables-stopped ts (told t cn) j ∙ alert-stopped (watchers t cn.db) cn.triggers j

alert_tables-flag :
    (ts : List TableType) (cn : Conn) (t : TableType)
    → should_alert t (alert_tables ts cn).db ≡ should_alert t cn.db
unfolding alert_tables
alert_tables-flag [] cn t = refl
alert_tables-flag (u ∷ ts) cn t =
    alert_tables-flag ts (told u cn) t
    ∙ retold-flag (alert (watchers u cn.db) cn.triggers).0 t u cn.db

alert_tables-pending :
    (ts : List TableType) (cn : Conn) (j : ℕ)
    → (cn.triggers j).pending ≡ true
    → ((alert_tables ts cn).triggers j).pending ≡ true
unfolding alert_tables
alert_tables-pending [] cn j p = p
alert_tables-pending (t ∷ ts) cn j p =
    alert_tables-pending ts (told t cn) j
      (ground (arith, alert-pending (watchers t cn.db) cn.triggers j))

-- The watchers of every table of the loop are told.
alert_tables-told :
    (ts : List TableType) (cn : Conn) (t : TableType) (j : ℕ)
    → has TableType-discrete t ts ≡ true
    → has ℕ_discrete j (watchers t cn.db) ≡ true
    → (cn.triggers j).stopped ≡ false
    → ((alert_tables ts cn).triggers j).pending ≡ true
unfolding alert_tables has of_table
alert_tables-told [] cn t j h w s = cc
alert_tables-told (u ∷ ts) cn t j h w s = elim (TableType-discrete t u) [
  | yes p ↦ alert_tables-pending ts (told u cn) j (
      ground (
        arith,
        alert-pending (watchers u cn.db) cn.triggers j,
        ap (λ v. has ℕ_discrete j (watchers v cn.db)) p,
      ))
  | no n ↦
      alert_tables-told ts (told u cn) t j (ground arith)
        (ap (has ℕ_discrete j) (
            of-on_ne (λ R v. v.triggers) (retold (alert (watchers u cn.db) cn.triggers).0) u t cn.db
              (λ q. n (sym q)))
          ∙ w)
        (alert-stopped (watchers u cn.db) cn.triggers j ∙ s)
]

-- What a transaction owes a trigger: where `do` leaves the database `db`, the flag of each of its
-- tables is cleared, a trigger that is not stopped and watches one of them that was flagged has a
-- notification waiting, one that has a notification waiting keeps it, and none is stopped.
pub record IsAlerted (tables : List TableType) (db : Database) (before after : Conn) : Type 0 where
  pub cleared :
      (t : TableType) → has TableType-discrete t tables ≡ true → should_alert t after.db ≡ false
  pub others :
      (t : TableType)
      → has TableType-discrete t tables ≡ false
      → should_alert t after.db ≡ should_alert t db
  pub notified :
      (t : TableType) (j : ℕ)
      → has TableType-discrete t tables ≡ true
      → should_alert t db ≡ true
      → has ℕ_discrete j (watchers t db) ≡ true
      → (before.triggers j).stopped ≡ false
      → (after.triggers j).pending ≡ true
  pub kept : (j : ℕ) → (before.triggers j).pending ≡ true → (after.triggers j).pending ≡ true
  pub stopped : (j : ℕ) → (after.triggers j).stopped ≡ (before.triggers j).stopped

-- What `Run` returns.
abbrev pub after_run : List TableType → Conn → Database → Conn
after_run tables cn db =
    let taken = take_alerts tables db in alert_tables taken.0 (record cn { db = taken.1 })

pub after_run-IsAlerted :
    (tables : List TableType) (cn : Conn) (db : Database)
    → IsAlerted tables db cn (after_run tables cn db)
unfolding of_table
after_run-IsAlerted tables cn db =
    let taken = take_alerts tables db in
    let cn' = record cn { db = taken.1 } in
    record {
      cleared = λ t h. alert_tables-flag taken.0 cn' t ∙ ground (arith, take-flag t tables db);
      others = λ t h. alert_tables-flag taken.0 cn' t ∙ ground (arith, take-flag t tables db);
      notified = λ t j h a w s.
          alert_tables-told taken.0 cn' t j (ground (arith, take-has t tables db))
            (ap (has ℕ_discrete j) (take-watchers t tables db) ∙ w) s;
      kept = alert_tables-pending taken.0 cn';
      stopped = alert_tables-stopped taken.0 cn';
    }

-- If the body of a transaction leaves a database and an error or none, then Run returns that error;
-- the flag of each of its tables is cleared and that of no other table is changed; each trigger
-- that watches a flagged one of them and is not stopped has a notification waiting; no waiting
-- notification is lost; and no trigger is stopped.
pub run_txn-IsAlerted :
    (tables : List TableType) (do_txn : Database → Outcome (Database × Option String)) (cn : Conn)
    (db : Database) (error : Option String)
    → do_txn cn.db ≡ ok (db, error)
    → (after : Conn) × (run_txn tables do_txn cn ≡ ok (after, error)) × IsAlerted tables db cn after
unfolding run_txn
run_txn-IsAlerted tables do_txn cn db error h =
    (after_run tables cn db, rw h refl, after_run-IsAlerted tables cn db)
