-- ===== src/Db/Tables.antt =====
-- One table of db/table.go, and what db/db.go does to it. The rows are an association list in the
-- order in which this run ranges over the map.
use k_elda_archive.Base.{
  ℕ, Bool, true, false, ◌||◌, ite, List, [], Option, none, some, if◌then◌else◌, ◌≡◌, get, put,
  delete, ℕ_discrete, keep, values, Outcome, ok, panic,
}

-- What the database asks of a row's type: its ID, the row of an ID with all else zero, and the
-- comparison of rows.
pub record Row (R : Type 0) : Type 0 where
  pub get_id : R → ℕ
  pub zero_row : ℕ → R
  pub dec : Discrete R
  pub id-zero : (id : ℕ) → get_id (zero_row id) ≡ id

pub record Table (R : Type 0) : Type 0 where
  pub rows : List (ℕ × R)
  -- the triggers that watch the table, by their numbers
  pub triggers : List ℕ
  pub should_alert : Bool

module _ {R : Type 0} where
  abbrev pub new_table : Table R
  new_table = record { rows = []; triggers = []; should_alert = false }

  -- `selectRows` and the loop of each SelectFrom function.
  unfoldable pub select : (R → Bool) → Table R → List R
  unfolding keep
  select check t = keep check (values t.rows)

module _ {R : Type 0} (row : Row R) where
  unfoldable pub insert : R → Table R → Table R
  unfolding put
  insert r t = record t { should_alert = true; rows = put ℕ_discrete (row.get_id r) r t.rows }

  -- `Commit`, by the row that the table holds under the ID. Without one it panics ("Type Error").
  -- A nil slice and an empty one are one list here; reflect.DeepEqual tells them apart, and commits.
  unfoldable pub commit_over : R → Option R → Table R → Outcome (Table R)
  unfolding put
  commit_over r none t = panic
  commit_over r (some old) t =
      if t.should_alert || ite (row.dec r old) false true
      then ok (record t { rows = put ℕ_discrete (row.get_id r) r t.rows; should_alert = true })
      else ok t

  unfoldable pub commit : R → Table R → Outcome (Table R)
  unfolding commit_over get
  commit r t = commit_over r (get ℕ_discrete (row.get_id r) t.rows) t

  unfoldable pub remove : R → Table R → Table R
  unfolding delete
  remove r t = record t { rows = delete ℕ_discrete (row.get_id r) t.rows; should_alert = true }
