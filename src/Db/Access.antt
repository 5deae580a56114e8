-- ===== src/Db/Access.antt =====
-- The operations of db/db.go on the whole database, over the slot of a table.
use k_elda_archive.Base.{suc, Bool, List, Outcome, ok, ◌>>=◌}
use k_elda_archive.Db.{Database}
use k_elda_archive.Db.Slots.{Slot}
use k_elda_archive.Db.Tables.{insert, commit, remove, select}

module _ {R : Type 0} (s : Slot R) where
  open s use {row, read, write, count}

  -- `nextID` and `insert`, as each Insert function calls them: a row with a new ID and all else
  -- zero.
  unfoldable pub insert_row : Database → R × Database
  unfolding insert
  insert_row db =
      let id = suc db.cur_id in
      let r = row.zero_row id in (r, write (insert row r (read db)) (count id db))

  unfoldable pub commit_row : R → Database → Outcome Database
  unfolding commit
  commit_row r db = do t ← commit row r (read db); ok (write t db)

  unfoldable pub remove_row : R → Database → Database
  unfolding remove
  remove_row r db = write (remove row r (read db)) db

  unfoldable pub select_from : (R → Bool) → Database → List R
  unfolding select
  select_from check db = select check (read db)
