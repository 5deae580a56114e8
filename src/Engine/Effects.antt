-- ===== src/Engine/Effects.antt =====
-- What the loops of the updates do to the table of their slot.
use mathlib.Core.List.{map-append, append_assoc, append-nil}
use native.Mathlib.Nat.{le_trans}
use k_elda_archive.Base.{
  ℕ, ◌≤◌, suc, ◌≡◌, refl, sym, ap, subst, ◌∙◌, List, [], ◌∷◌, ◌++◌, Perm, arith, values, Outcome,
  ok, ◌>>=◌,
}
use k_elda_archive.Db.{Database}
use k_elda_archive.Db.Access.{insert_row, commit_row, remove_row}
use k_elda_archive.Db.Effects.{
  with_row, commit-insert, remove_all, remove_all-IsSound, remove_all-perm, with_row-IsSound,
}
use k_elda_archive.Db.Invariant.{IsSound}
use k_elda_archive.Db.Slots.{Slot}
use k_elda_archive.Db.Tables.{Table, remove}
use k_elda_archive.Engine.Loops.{add_one, add_each, remove_each}

-- The call neither fails nor panics; of the database it changes only this table and the last ID; and
-- it leaves a sound table of which `P` holds.
pub record Leaves {R : Type 0} (s : Slot R) (db : Database) (P : Table R → Type 0)
    (o : Outcome Database) : Type 0 where
  pub table : Table R
  pub last : ℕ
  pub result : o ≡ ok (s.write table (s.count last db))
  pub grew : db.cur_id ≤ last
  pub sound : IsSound s.row last table
  pub holds : P table

module _ {R : Type 0} (s : Slot R) where
  open s use {row, read, write, count}

  -- The table of the slot is sound.
  abbrev pub Sound : Database → Type 0
  Sound db = IsSound row db.cur_id (read db)

  -- Of two changes of one table and of the last ID, the later one counts.
  pub write_again :
      (t u : Table R) (n m : ℕ) (db : Database)
      → write t (count n (write u (count m db))) ≡ write t (count n db)
  write_again t u n m db = rw (s.count-write, s.write-write, s.count-count)

  -- What a call leaves after an earlier change of the same table.
  pub Leaves-after :
      (P : Table R → Type 0) (t : Table R) (n : ℕ) (db : Database) (o : Outcome Database)
      → db.cur_id ≤ n
      → Leaves s (write t (count n db)) P o
      → Leaves s db P o
  Leaves-after P t n db o h a = record {
    table = a.table;
    last = a.last;
    result = a.result ∙ ap ok (write_again a.table t a.last n db);
    grew =
        le_trans h
          (subst (λ k. k ≤ a.last) (s.cur_id-write t (count n db) ∙ s.cur_id-count n db) a.grew);
    sound = a.sound;
    holds = a.holds;
  }

  pub Leaves-map :
      (P Q : Table R → Type 0) (db : Database) (o : Outcome Database)
      → ((t : Table R) → P t → Q t)
      → Leaves s db P o
      → Leaves s db Q o
  Leaves-map P Q db o f a = record {
    table = a.table;
    last = a.last;
    result = a.result;
    grew = a.grew;
    sound = a.sound;
    holds = f a.table a.holds;
  }

  pub Leaves-bind :
      (P Q : Table R → Type 0) (db : Database) (o : Outcome Database)
      (f : Database → Outcome Database)
      → Leaves s db P o
      → ((t : Table R) (n : ℕ)
          → IsSound row n t
          → P t
          → Leaves s (write t (count n db)) Q (f (write t (count n db))))
      → Leaves s db Q (o >>= f)
  Leaves-bind P Q db o f a g =
      rw a.result (Leaves-after Q a.table a.last db _ a.grew (g a.table a.last a.sound a.holds))

  -- One more row, of an element.
  pub add_one-eq :
      {L : Type 0} (make : L → R → R) (x : L) (db : Database)
      → ((x : L) (r : R) → row.get_id (make x r) ≡ row.get_id r)
      → Sound db
      → add_one s make x db
        ≡ ok (
            write
              (with_row row (make x (row.zero_row (suc db.cur_id))) (read db))
              (count (suc db.cur_id) db))
  unfolding add_one insert_row commit_row
  add_one-eq make x db law v =
      let z : R = row.zero_row (suc db.cur_id) in
      rw
        (
          s.read-write,
          commit-insert row db.cur_id z (make x z) (read db) v (row.id-zero (suc db.cur_id))
              (law x z ∙ row.id-zero (suc db.cur_id)),
        )
        (ap ok (s.write-write _ _ _))

  remove_each-eq :
      (rs : List R) (db : Database) → remove_each s rs db ≡ write (remove_all row rs (read db)) db
  unfolding remove_each remove_row
  remove_each-eq [] db = sym (s.write-read db)
  remove_each-eq (r ∷ rs) db =
      rw (remove_each-eq rs (write (remove row r (read db)) db), s.read-write) (s.write-write _ _ _)

  -- The rows that a loop of insertions makes of a list, by the last ID before it.
  abbrev pub made : {L : Type 0} → (L → R → R) → ℕ → List L → List R
  made make n [] = []
  made make n (x ∷ xs) = make x (row.zero_row (suc n)) ∷ made make (suc n) xs

  pub Sound-write :
      (n : ℕ) (t : Table R) (db : Database) → IsSound row n t → Sound (write t (count n db))
  Sound-write n t db v = rw (s.read-write, s.cur_id-write, s.cur_id-count) v

  pub add_each-Leaves :
      {L : Type 0} (make : L → R → R) (xs : List L) (db : Database)
      → ((x : L) (r : R) → row.get_id (make x r) ≡ row.get_id r)
      → Sound db
      → Leaves s db
          (λ t. values t.rows ≡ values (read db).rows ++ made make db.cur_id xs)
          (add_each s make xs db)
  unfolding add_each
  add_each-Leaves make [] db law v = record {
    table = read db;
    last = db.cur_id;
    result = ap ok (sym (rw (s.count-id, s.write-read)));
    grew = omega arith;
    sound = v;
    holds = sym (append-nil _);
  }
  add_each-Leaves make (x ∷ xs) db law v =
      let z : R = row.zero_row (suc db.cur_id) in
      let t : Table R = with_row row (make x z) (read db) in
      let n : ℕ = suc db.cur_id in
      let e : row.get_id (make x z) ≡ n = law x z ∙ row.id-zero n in
      let later =
        add_each-Leaves make xs (write t (count n db)) law
          (Sound-write n t db (with_row-IsSound row db.cur_id (make x z) (read db) e v)) in
      rw (add_one-eq make x db law v) (
        Leaves-after _ t n db _ (omega arith)
          (Leaves-map _ _ _ _ (λ u h. h ∙ rows_after (make x z) t n refl refl) later))
    where
      rows_after :
          (r : R) (t : Table R) (n : ℕ)
          → t ≡ with_row row r (read db)
          → n ≡ suc db.cur_id
          → values (read (write t (count n db))).rows ++ made make (write t (count n db)).cur_id xs
            ≡ values (read db).rows ++ r ∷ made make n xs
      rows_after r t n e f =
          rw
            (
              s.read-write,
              s.cur_id-write,
              s.cur_id-count,
              e,
              map-append (λ x. x.1) (read db).rows ((row.get_id r, r) ∷ []),
            )
            (append_assoc (values (read db).rows) (r ∷ []) (made make n xs))

  pub remove_each-Leaves :
      (rs rest : List R) (db : Database)
      → Sound db
      → Perm (values (read db).rows) (rs ++ rest)
      → Leaves s db (λ t. Perm (values t.rows) rest) (ok (remove_each s rs db))
  remove_each-Leaves rs rest db v p = record {
    table = remove_all row rs (read db);
    last = db.cur_id;
    result = ap ok (remove_each-eq rs db ∙ sym (rw s.count-id));
    grew = omega arith;
    sound = remove_all-IsSound row db.cur_id rs (read db) v;
    holds = remove_all-perm row db.cur_id rs rest (read db) v p;
  }
