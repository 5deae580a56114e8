-- ===== src/Engine/PairSync.antt =====
-- The update that writes the fields of every pair: what it leaves in the table, and which fields of
-- the old rows live on.
use mathlib.Core.List.{map-append, perm_append_comm}
use mathlib.Core.List.Perm
use k_elda_archive.Base.{
  ℕ, suc, true, ◌≡◌, refl, sym, ap, subst, ◌∙◌, List, [], ◌∷◌, ◌++◌, map, Perm, arith, values,
  Outcome, ok,
}
use k_elda_archive.Db.{Database}
use k_elda_archive.Db.Access.{select_from}
use k_elda_archive.Db.Slots.{Slot}
use k_elda_archive.Db.Tables.{Table}
use k_elda_archive.Engine.Effects.{
  Leaves, Leaves-bind, Leaves-after, Leaves-map, Sound, Sound-write, remove_each-Leaves,
}
use k_elda_archive.Engine.Loops.{insert_each, commit_each, remove_each}
use k_elda_archive.Engine.Pairs.{new_pairs, insert_each-Inserted, commit_each-Leaves}
use k_elda_archive.Engine.Sync.{IsSynced, rows_of_join}
use k_elda_archive.Join.{Pair, Joined, lefts_of, rights_of}
use k_elda_archive.Join.Contract.{IsHashJoin}

module _ {L R : Type 0} (s : Slot R) (update : Pair L R → R) where
  -- The three loops of such an update, after the join.
  abbrev pub write_pairs : Joined L R → Database → Outcome Database
  write_pairs j db =
      let (pairs, db') = insert_each s j.lonely_lefts j.pairs (remove_each s j.lonely_rights db) in
      commit_each s update pairs db'

  -- The table holds the updates of the join's pairs and of pairs with new rows.
  pub record HoldsPairs (j : Joined L R) (t : Table R) : Type 0 where
    pub last : ℕ
    pub rows : Perm (values t.rows) (map update (j.pairs ++ new_pairs s last j.lonely_lefts))

  after_insert :
      (j : Joined L R) (db : Database)
      → ((p : Pair L R) → s.row.get_id (update p) ≡ s.row.get_id p.r)
      → Sound s db
      → Perm (values (s.read db).rows) (rights_of j.pairs)
      → Leaves s db (HoldsPairs j) (
          let (pairs, db') = insert_each s j.lonely_lefts j.pairs db in
          commit_each s update pairs db')
  after_insert j db law v p =
      let a = insert_each-Inserted s j.lonely_lefts j.pairs db v in
      let db' : Database = s.write a.table (s.count a.last db) in
      let news : List (Pair L R) = new_pairs s db.cur_id j.lonely_lefts in
      rw a.result (
        Leaves-after s (HoldsPairs j) a.table a.last db _ a.grew (
          Leaves-map s _ (HoldsPairs j) db' _ (λ t h. record { last = db.cur_id; rows = h })
            (commit_each-Leaves s update (j.pairs ++ news) [] db' law
              (Sound-write s a.last a.table db a.sound)
              (rw s.read-write (
                subst (Perm (values a.table.rows)) (sym (map-append (λ q. q.r) j.pairs news)) (
                  subst (λ m. Perm m (rights_of j.pairs ++ rights_of news)) (sym a.rows)
                    (Perm.append_right {l₁ = values (s.read db).rows} {l₂ = rights_of j.pairs}
                      (rights_of news) p)))))))

  pub write_pairs-HoldsPairs :
      (j : Joined L R) (db : Database)
      → ((p : Pair L R) → s.row.get_id (update p) ≡ s.row.get_id p.r)
      → Sound s db
      → Perm (values (s.read db).rows) (rights_of j.pairs ++ j.lonely_rights)
      → Leaves s db (HoldsPairs j) (write_pairs j db)
  write_pairs-HoldsPairs j db law v p =
      Leaves-bind s (λ t. Perm (values t.rows) (rights_of j.pairs)) (HoldsPairs j) db
        (ok (remove_each s j.lonely_rights db))
        (λ db₁.
          let (pairs, db') = insert_each s j.lonely_lefts j.pairs db₁ in
          commit_each s update pairs db')
        (remove_each-Leaves s j.lonely_rights (rights_of j.pairs) db v
          (Perm.trans p (perm_append_comm (rights_of j.pairs) j.lonely_rights)))
        (λ t n sound rest.
          after_insert j (s.write t (s.count n db)) law (Sound-write s n t db sound)
            (rw s.read-write rest))

module _ {K L R : Type 0} (s : Slot R) (l_key : L → K) (r_key : R → K) (update : Pair L R → R)
    (update-key : (p : Pair L R) → r_key (update p) ≡ l_key p.l) (lefts : List L) (db : Database)
    (j : Joined L R) (joined : IsHashJoin l_key r_key lefts (select_from s (λ r. true) db) j) where
  updated-keys : (ps : List (Pair L R)) → map r_key (map update ps) ≡ map l_key (lefts_of ps)
  updated-keys [] = refl
  updated-keys (p ∷ ps) = ground (arith, update-key p, updated-keys ps)

  new-lefts : (n : ℕ) (xs : List L) → lefts_of (new_pairs s n xs) ≡ xs
  new-lefts n [] = refl
  new-lefts n (x ∷ xs) = ap (◌∷◌ x) (new-lefts (suc n) xs)

  -- Such a table is in step with the targets.
  HoldsPairs-IsSynced : (t : Table R) → HoldsPairs s update j t → IsSynced r_key (map l_key lefts) t
  HoldsPairs-IsSynced t h =
      let same : map r_key (map update (j.pairs ++ new_pairs s h.last j.lonely_lefts))
          ≡ map l_key (lefts_of j.pairs ++ j.lonely_lefts) =
        updated-keys _
        ∙ ap (map l_key) (
            map-append (λ q. q.l) j.pairs _
            ∙ ap (◌++◌ (lefts_of j.pairs)) (new-lefts h.last j.lonely_lefts)) in
      let q : Perm (map r_key (values t.rows)) (map l_key (lefts_of j.pairs ++ j.lonely_lefts)) =
        subst (Perm (map r_key (values t.rows))) same (Perm.map r_key h.rows) in
      record {
        keys_once = Perm.nodup (Perm.symm q) joined.keys_once;
        keys_exact = λ k. (
          (λ m. (joined.keys_all k).0 ((Perm.mem_iff q).0 m)),
          (λ m. (Perm.mem_iff q).1 ((joined.keys_all k).1 m)),
        );
      }

  pub write_pairs-synced :
      ((p : Pair L R) → s.row.get_id (update p) ≡ s.row.get_id p.r)
      → (v : Sound s db)
      → Leaves s db (IsSynced r_key (map l_key lefts)) (write_pairs s update j db)
  write_pairs-synced law v =
      Leaves-map s _ _ db _ HoldsPairs-IsSynced
        (write_pairs-HoldsPairs s update j db law v (rows_of_join s l_key r_key lefts db j joined))
