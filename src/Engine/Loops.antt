-- ===== src/Engine/Loops.antt =====
-- The loops over the results of a join that the updates of minion/engine.go share.
use k_elda_archive.Base.{List, [], ◌∷◌, ◌++◌, Outcome, for_each}
use k_elda_archive.Db.{Database}
use k_elda_archive.Db.Access.{insert_row, commit_row, remove_row}
use k_elda_archive.Db.Slots.{Slot}
use k_elda_archive.Join.{Pair}

module _ {L R : Type 0} (s : Slot R) where
  -- Insert a row for each element, and commit it with the element's fields.
  unfoldable pub add_one : (L → R → R) → L → Database → Outcome Database
  unfolding insert_row commit_row
  add_one make x db = let (row, db') = insert_row s db in commit_row s (make x row) db'

  unfoldable pub add_each : (L → R → R) → List L → Database → Outcome Database
  unfolding for_each add_one
  add_each make = for_each (add_one make)

  -- Insert a row for each element, and add the pair of the two to the pairs.
  unfoldable pub insert_each : List L → List (Pair L R) → Database → List (Pair L R) × Database
  unfolding insert_row
  insert_each [] pairs db = (pairs, db)
  insert_each (x ∷ xs) pairs db =
      let (row, db') = insert_row s db in
      insert_each xs (pairs ++ record { l = x; r = row } ∷ []) db'

  -- Commit the row of each pair, with the fields that the left element gives it.
  unfoldable pub commit_each : (Pair L R → R) → List (Pair L R) → Database → Outcome Database
  unfolding for_each commit_row
  commit_each update = for_each (λ pair. commit_row s (update pair))

module _ {R : Type 0} (s : Slot R) where
  unfoldable pub remove_each : List R → Database → Database
  unfolding remove_row
  remove_each [] db = db
  remove_each (r ∷ rs) db = remove_each rs (remove_row s r db)
