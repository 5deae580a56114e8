-- ===== src/Engine/Pairs.antt =====
-- The updates that write the fields of every pair: what the insertions and the commits leave.
use mathlib.Core.List.{map-append, append_assoc, append-nil, perm_middle, mem-cons_self}
use mathlib.Core.List.Perm
use native.Mathlib.Nat.{le_trans}
use k_elda_archive.Base.{
  ℕ, suc, ◌≤◌, ◌≡◌, sym, ap, subst, ◌∙◌, List, [], ◌∷◌, ◌++◌, map, Perm, Mem, arith, values,
  Outcome, ok, ◌>>=◌,
}
use k_elda_archive.Db.{Database}
use k_elda_archive.Db.Access.{insert_row, commit_row}
use k_elda_archive.Db.Effects.{
  with_row, with_row-IsSound, insert-with_row, commit-Replaces, Replaces, id-le_of_mem,
}
use k_elda_archive.Db.Invariant.{IsSound}
use k_elda_archive.Db.Slots.{Slot}
use k_elda_archive.Db.Tables.{Table}
use k_elda_archive.Engine.Effects.{
  Leaves, Leaves-after, Leaves-map, Sound, Sound-write, write_again,
}
use k_elda_archive.Engine.Loops.{insert_each, commit_each}
use k_elda_archive.Join.{Pair, rights_of}

move_done :
    {A : Type 0} (xs ys done rest : List A) (old new : A)
    → Perm xs (done ++ old ∷ rest)
    → Perm (old ∷ ys) (new ∷ xs)
    → Perm ys ((done ++ new ∷ []) ++ rest)
move_done xs ys done rest old new p q = subst (Perm ys) (sym (append_assoc done (new ∷ []) rest)) (
    Perm.trans
      (Perm.cons_inv (
        Perm.trans q (
          Perm.trans (Perm.cons new (Perm.trans p (perm_middle done rest)))
            (Perm.swap old new (done ++ rest)))))
      (Perm.symm (perm_middle done rest)))

both : {A B : Type 0} {a a' : A} {b b' : B} → a ≡ a' → b ≡ b' → ◌≡◌ {A = A × B} (a, b) (a', b')
both p q = λ i. (p i, q i)

-- A commit over a row, and what comes after it.
commit_rest :
    {L R : Type 0} (s : Slot R) (q : Pair L R) (r : R) (db : Database)
    (c : Replaces s.row db.cur_id q.r r (s.read db)) (f : Database → Outcome Database)
    (P : Table R → Type 0)
    → Leaves s
        (s.write c.table (s.count db.cur_id db))
        P
        (f (s.write c.table (s.count db.cur_id db)))
    → Leaves s db P (commit_row s r db >>= f)
unfolding commit_row
commit_rest s q r db c f P a =
    rw (c.result, sym (ap (s.write c.table) (s.count-id db)))
      (Leaves-after s P c.table db.cur_id db _ (omega arith) a)

module _ {L R : Type 0} (s : Slot R) where
  open s use {row, read, write, count}

  -- The pairs that the insertions add: each element with the zero row of its new ID.
  abbrev pub new_pairs : ℕ → List L → List (Pair L R)
  new_pairs n [] = []
  new_pairs n (x ∷ xs) = record { l = x; r = row.zero_row (suc n) } ∷ new_pairs (suc n) xs

  -- The result of the insertions.
  pub record Inserted (xs : List L) (pairs : List (Pair L R)) (db : Database) : Type 0 where
    pub table : Table R
    pub last : ℕ
    pub result :
        insert_each s xs pairs db ≡ (pairs ++ new_pairs db.cur_id xs, write table (count last db))
    pub grew : db.cur_id ≤ last
    pub sound : IsSound row last table
    pub rows : values table.rows ≡ values (read db).rows ++ rights_of (new_pairs db.cur_id xs)

  rest_pairs :
      (x : L) (xs : List L) (pairs : List (Pair L R)) (db : Database) (t : Table R)
      → let n = suc db.cur_id in
        (pairs ++ record { l = x; r = row.zero_row n } ∷ [])
          ++ new_pairs (write t (count n db)).cur_id xs
        ≡ pairs ++ new_pairs db.cur_id (x ∷ xs)
  rest_pairs x xs pairs db t = rw (s.cur_id-write, s.cur_id-count, append_assoc)

  rest_rows :
      (x : L) (xs : List L) (db : Database)
      → let n = suc db.cur_id in
        let db' = write (with_row row (row.zero_row n) (read db)) (count n db) in
        values (read db').rows ++ rights_of (new_pairs db'.cur_id xs)
        ≡ values (read db).rows ++ rights_of (new_pairs db.cur_id (x ∷ xs))
  rest_rows x xs db =
      rw (s.read-write, s.cur_id-write, s.cur_id-count, map-append (λ e. e.1) (read db).rows _)
        (append_assoc (values (read db).rows) (row.zero_row (suc db.cur_id) ∷ []) _)

  pub insert_each-Inserted :
      (xs : List L) (pairs : List (Pair L R)) (db : Database) → Sound s db → Inserted xs pairs db
  unfolding insert_each insert_row
  insert_each-Inserted [] pairs db v = record {
    table = read db;
    last = db.cur_id;
    result = rw (append-nil, s.count-id, s.write-read);
    grew = omega arith;
    sound = v;
    rows = sym (append-nil _);
  }
  insert_each-Inserted (x ∷ xs) pairs db v =
      let n : ℕ = suc db.cur_id in
      let z : R = row.zero_row n in
      let t : Table R = with_row row z (read db) in
      let db' : Database = write t (count n db) in
      let pairs' : List (Pair L R) = pairs ++ record { l = x; r = z } ∷ [] in
      let a =
        insert_each-Inserted xs pairs' db'
          (Sound-write s n t db (with_row-IsSound row db.cur_id z (read db) (row.id-zero n) v)) in
      record {
        table = a.table;
        last = a.last;
        result =
            rw (insert-with_row row db.cur_id z (read db) (row.id-zero n) v)
              (a.result ∙ both (rest_pairs x xs pairs db t) (write_again s a.table t a.last n db));
        grew =
            le_trans (omega arith) (
              subst (λ k. k ≤ a.last) (s.cur_id-write t (count n db) ∙ s.cur_id-count n db) a.grew);
        sound = a.sound;
        rows = a.rows ∙ rest_rows x xs db;
      }

  pub commit_each-Leaves :
      (update : Pair L R → R) (ps : List (Pair L R)) (done : List R) (db : Database)
      → ((p : Pair L R) → row.get_id (update p) ≡ row.get_id p.r)
      → Sound s db
      → Perm (values (read db).rows) (done ++ rights_of ps)
      → Leaves s db (λ t. Perm (values t.rows) (done ++ map update ps)) (commit_each s update ps db)
  unfolding commit_each
  commit_each-Leaves update [] done db law v p = record {
    table = read db;
    last = db.cur_id;
    result = ap ok (sym (rw (s.count-id, s.write-read)));
    grew = omega arith;
    sound = v;
    holds = p;
  }
  commit_each-Leaves update (q ∷ ps) done db law v p =
      let m : Mem q.r (values (read db).rows) =
        (Perm.mem_iff (Perm.trans p (perm_middle done (rights_of ps)))).1 mem-cons_self in
      let le : row.get_id (update q) ≤ db.cur_id =
        subst (λ k. k ≤ db.cur_id) (sym (law q))
          (id-le_of_mem row db.cur_id q.r (read db).rows v.owned m) in
      let c = commit-Replaces row db.cur_id q.r (update q) (read db) v m (law q) le in
      commit_rest s q (update q) db c _ _ (
        Leaves-map s _ _ _ _
          (λ t h.
            subst (Perm (values t.rows)) (append_assoc done (update q ∷ []) (map update ps)) h)
          (commit_each-Leaves update ps (done ++ update q ∷ []) (write c.table (count db.cur_id db))
            law (Sound-write s db.cur_id c.table db c.sound)
            (rw s.read-write (move_done _ _ done (rights_of ps) q.r (update q) p c.swapped))))
