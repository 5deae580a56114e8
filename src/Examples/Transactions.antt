-- ===== src/Examples/Transactions.antt =====
-- Two transactions that share a table, and a transaction of which a trigger is told.
use k_elda_archive.Base.{
  ◌≤◌, ◌≡◌, refl, [], ◌∷◌, List, map, false, none, ok, All, ◌⊎◌, Option, String, Outcome,
  insert_key, has,
}
use k_elda_archive.Db.{Database, new}
use k_elda_archive.Db.Notified.{IsAlerted, run_txn-IsAlerted}
use k_elda_archive.Db.Locks.{
  Thread, locking, to_run, txn_tables, insert_table, sort_tables, Step, at, lock, start, later,
  IsDone,
}
use k_elda_archive.Db.Finish.{one_more, rest, longest, Finish, Run-Finish}
use k_elda_archive.Db.Isolation.{runners, isolation}
use k_elda_archive.Db.Progress.{no_deadlock}
use k_elda_archive.Db.Queries.{insert_machine}
use k_elda_archive.Db.TableType.{
  TableType, TableType-discrete, less, blueprint_table, machine_table,
}
use k_elda_archive.Db.Txn.{Conn, run_txn, watch}

abbrev txns : List (List TableType)
txns = (machine_table ∷ blueprint_table ∷ []) ∷ (blueprint_table ∷ []) ∷ []

abbrev before_run : List Thread
before_run = map to_run txns

no_deadlock_example : ((s' : List Thread) × Step before_run s') ⊎ All IsDone before_run
no_deadlock_example = no_deadlock txns before_run start

-- The first transaction locks the table that the second one waits for.
abbrev holds_first : Thread
holds_first = record { phase = locking (machine_table ∷ []); held = blueprint_table ∷ [] }

abbrev waits : Thread
waits = to_run (blueprint_table ∷ [])

first-Step : Step before_run (holds_first ∷ waits ∷ [])
unfolding sort_tables insert_table txn_tables less insert_key has TableType-discrete
first-Step =
    at [] (waits ∷ []) (to_run (machine_table ∷ blueprint_table ∷ [])) holds_first refl refl
      (lock blueprint_table (machine_table ∷ []) refl refl refl)

isolation_example : runners blueprint_table txns (holds_first ∷ waits ∷ []) ≤ 1
isolation_example =
    isolation txns (holds_first ∷ waits ∷ []) blueprint_table (later start first-Step)

Run-Finish_example : (1 ≤ longest txns) × Finish (holds_first ∷ waits ∷ [])
Run-Finish_example = Run-Finish txns 1 (holds_first ∷ waits ∷ []) (one_more first-Step rest)

abbrev watched : Conn
watched = record {
  db = watch 0 (machine_table ∷ []) new;
  triggers = λ i. record { pending = false; stopped = false };
}

abbrev add_machine : Database → Outcome (Database × Option String)
add_machine db = ok ((insert_machine db).1, none)

run_txn-IsAlerted_example :
    (after : Conn) × (run_txn (machine_table ∷ []) add_machine watched ≡ ok (after, none))
    × IsAlerted (machine_table ∷ []) (insert_machine watched.db).1 watched after
run_txn-IsAlerted_example =
    run_txn-IsAlerted (machine_table ∷ []) add_machine watched (insert_machine watched.db).1 none
      refl
