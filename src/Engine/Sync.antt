-- ===== src/Engine/Sync.antt =====
-- The two shapes of an update of minion/engine.go that joins targets with the rows of a table, adds
-- what is new and removes what nothing asks for.
use mathlib.Core.List.{map-append, append_assoc, perm_append_comm}
use mathlib.Core.List.Perm
use k_elda_archive.Base.{
  Bool, Bool-cases, inl, inr, ◌∙◌, has, mem_of_has, has_of_mem, ℕ, suc, true, ◌≡◌, refl, sym, subst,
  ◌↔◌, List, [], ◌∷◌, ◌++◌, map, Perm, Mem, Nodup, All, arith, values, ok, ◌>>=◌,
}
use k_elda_archive.Db.{Database}
use k_elda_archive.Db.Access.{select_from}
use k_elda_archive.Db.Effects.{select-every}
use k_elda_archive.Db.Slots.{Slot}
use k_elda_archive.Db.Tables.{Table}
use k_elda_archive.Engine.Effects.{
  Leaves, Leaves-bind, Leaves-map, Sound, Sound-write, made, add_each-Leaves, remove_each-Leaves,
}
use k_elda_archive.Engine.Loops.{add_each, remove_each}
use k_elda_archive.Join.{Pair, Joined, lefts_of, rights_of}
use k_elda_archive.Join.Contract.{IsHashJoin}

rotate :
    {A : Type 0} (xs ps qs ms : List A) → Perm xs (ps ++ qs) → Perm (xs ++ ms) (qs ++ (ps ++ ms))
rotate xs ps qs ms h =
    subst (Perm (xs ++ ms)) (append_assoc qs ps ms)
      (Perm.append_right ms (Perm.trans h (perm_append_comm ps qs)))

-- The keys of the rows are those of the targets, each once.
pub record IsSynced {R K : Type 0} (key : R → K) (targets : List K) (t : Table R) : Type 0 where
  pub keys_once : Nodup (map key (values t.rows))
  pub keys_exact : (k : K) → Mem k (map key (values t.rows)) ↔ Mem k targets

-- The rows' keys, each once, are those of a test.
pub record IsJust {R K : Type 0} (dec : Discrete K) (key : R → K) (asks : K → Bool) (t : Table R)
    : Type 0 where
  pub once : Nodup (map key (values t.rows))
  pub exact : (k : K) → has dec k (map key (values t.rows)) ≡ asks k

pub has-same :
    {K : Type 0} (dec : Discrete K) (k : K) (xs ys : List K)
    → (Mem k xs → Mem k ys)
    → (Mem k ys → Mem k xs)
    → has dec k xs ≡ has dec k ys
has-same dec k xs ys f g = elim (Bool-cases (has dec k xs)) [
  | inl h ↦ h ∙ sym (has_of_mem dec k ys (f (mem_of_has dec k xs h)))
  | inr h ↦ elim (Bool-cases (has dec k ys)) [
    | inl j ↦ has_of_mem dec k xs (g (mem_of_has dec k ys j)) ∙ sym j
    | inr j ↦ h ∙ sym j
  ]
]

pub IsSynced-IsJust :
    {R K : Type 0} (dec : Discrete K) (key : R → K) (targets : List K) (asks : K → Bool)
    (t : Table R)
    → ((k : K) → has dec k targets ≡ asks k)
    → IsSynced key targets t
    → IsJust dec key asks t
IsSynced-IsJust dec key targets asks t e v = record {
  once = v.keys_once;
  exact = λ k. has-same dec k _ targets (v.keys_exact k).0 (v.keys_exact k).1 ∙ e k;
}

module _ {K L R : Type 0} (l_key : L → K) (r_key : R → K) (lefts : List L) where
  pairs-keys :
      (ps : List (Pair L R))
      → All (λ p. l_key p.l ≡ r_key p.r) ps
      → map r_key (rights_of ps) ≡ map l_key (lefts_of ps)
  pairs-keys [] a = refl
  pairs-keys (p ∷ ps) a = ground (arith, pairs-keys ps a.1)

  -- The rows of the pairs and new rows for the lonely targets are what was asked for.
  pub synced :
      (rights : List R) (j : Joined L R) (news : List R) (t : Table R)
      → IsHashJoin l_key r_key lefts rights j
      → map r_key news ≡ map l_key j.lonely_lefts
      → Perm (values t.rows) (rights_of j.pairs ++ news)
      → IsSynced r_key (map l_key lefts) t
  synced rights j news t h e p =
      let same : map r_key (rights_of j.pairs ++ news)
          ≡ map l_key (lefts_of j.pairs ++ j.lonely_lefts) =
        rw
          (
            map-append r_key (rights_of j.pairs) news,
            map-append l_key (lefts_of j.pairs) j.lonely_lefts,
            pairs-keys j.pairs h.pairs_agree,
            e,
          )
          refl in
      let q : Perm (map r_key (values t.rows)) (map l_key (lefts_of j.pairs ++ j.lonely_lefts)) =
        subst (Perm (map r_key (values t.rows))) same (Perm.map r_key p) in
      record {
        keys_once = Perm.nodup (Perm.symm q) h.keys_once;
        keys_exact = λ k. (
          (λ m. (h.keys_all k).0 ((Perm.mem_iff q).0 m)),
          (λ m. (Perm.mem_iff q).1 ((h.keys_all k).1 m)),
        );
      }

-- The join of a table's rows splits the table.
pub rows_of_join :
    {K L R : Type 0} (s : Slot R) (l_key : L → K) (r_key : R → K) (lefts : List L) (db : Database)
    (j : Joined L R)
    → IsHashJoin l_key r_key lefts (select_from s (λ r. true) db) j
    → Perm (values (s.read db).rows) (rights_of j.pairs ++ j.lonely_rights)
unfolding select_from
rows_of_join s l_key r_key lefts db j joined = Perm.symm (
    subst (Perm (rights_of j.pairs ++ j.lonely_rights)) (select-every s.row (s.read db))
      joined.rights_perm)

module _ {K L R : Type 0} (s : Slot R) (l_key : L → K) (r_key : R → K) (make : L → R → R)
    (make-id : (x : L) (r : R) → s.row.get_id (make x r) ≡ s.row.get_id r)
    (make-key : (x : L) (r : R) → r_key (make x r) ≡ l_key x) where
  made-keys : (n : ℕ) (xs : List L) → map r_key (made s make n xs) ≡ map l_key xs
  made-keys n [] = refl
  made-keys n (x ∷ xs) = ground (arith, make-key x (s.row.zero_row (suc n)), made-keys (suc n) xs)

  module _ (lefts : List L) (db : Database) (j : Joined L R)
      (joined : IsHashJoin l_key r_key lefts (select_from s (λ r. true) db) j)
      (v : Sound s db) where
    pub remove_add-synced :
        Leaves s db
          (IsSynced r_key (map l_key lefts))
          (add_each s make j.lonely_lefts (remove_each s j.lonely_rights db))
    remove_add-synced =
        Leaves-bind s (λ t. Perm (values t.rows) (rights_of j.pairs))
          (IsSynced r_key (map l_key lefts)) db (ok (remove_each s j.lonely_rights db))
          (add_each s make j.lonely_lefts)
          (remove_each-Leaves s j.lonely_rights (rights_of j.pairs) db v (
            Perm.trans (rows_of_join s l_key r_key lefts db j joined)
              (perm_append_comm (rights_of j.pairs) j.lonely_rights)))
          (λ t n sound rest.
            let db' : Database = s.write t (s.count n db) in
            Leaves-map s _ _ _ _
              (λ u e.
                synced l_key r_key lefts _ j (made s make db'.cur_id j.lonely_lefts) u joined
                  (made-keys db'.cur_id j.lonely_lefts)
                  (subst (λ m. Perm m (rights_of j.pairs ++ made s make db'.cur_id j.lonely_lefts))
                    (sym e)
                    (Perm.append_right {l₁ = values (s.read db').rows} {l₂ = rights_of j.pairs} _
                      (rw s.read-write rest))))
              (add_each-Leaves s make j.lonely_lefts db' make-id (Sound-write s n t db sound)))

    pub add_remove-synced :
        Leaves s db
          (IsSynced r_key (map l_key lefts))
          (add_each s make j.lonely_lefts db >>= λ db'. ok (remove_each s j.lonely_rights db'))
    add_remove-synced =
        Leaves-bind s _ (IsSynced r_key (map l_key lefts)) db _ _
          (add_each-Leaves s make j.lonely_lefts db make-id v)
          (λ t n sound rows.
            Leaves-map s _ _ _ _
              (λ u p.
                synced l_key r_key lefts _ j (made s make db.cur_id j.lonely_lefts) u joined
                  (made-keys db.cur_id j.lonely_lefts) p)
              (remove_each-Leaves s j.lonely_rights _ (s.write t (s.count n db))
                (Sound-write s n t db sound)
                (rw (s.read-write, rows)
                  (rotate _ _ _ _ (rows_of_join s l_key r_key lefts db j joined)))))
