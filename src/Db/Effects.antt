-- ===== src/Db/Effects.antt =====
-- What loops of insertions, commits and removals do to one table.
use mathlib.Core.List.{mem-cons_self, mem-cons, not-mem-nil}
use mathlib.Core.List.Perm
use mathlib.Core.Logic.Or
use mathlib.Core.HLevel.{hedberg}
use native.Mathlib.Bridge.{le_prop}
use k_elda_archive.Base.{
  ℕ, suc, ◌≤◌, ◌≡◌, refl, ap, subst, Bool, true, false, ◌||◌, List, [], ◌∷◌, ◌++◌, Perm, Mem, arith,
  All, has, get, put, keys, values, Distinct, ℕ_discrete, ite, keep, ok, Option, some, get-put,
  put-new, put-put, delete-perm, has-of_get, put-perm,
}
use k_elda_archive.Db.Tables.{Row, Table, insert, commit, remove, select}
use k_elda_archive.Db.Invariant.{
  Owned, IsSound, Owned-fresh, insert-IsSound, remove-IsSound, commit-IsSound,
}

module _ {R : Type 0} (row : Row R) where
  pub select-every : (t : Table R) → select (λ r. true) t ≡ values t.rows
  unfolding select keep
  select-every t = all t.rows
    where
      all : (m : List (ℕ × R)) → keep (λ r. true) (values m) ≡ values m
      all [] = refl
      all (e ∷ m) = ap (◌∷◌ e.1) (all m)

  -- The table with one more row, as an insertion and a commit of the same ID leave it.
  abbrev pub with_row : R → Table R → Table R
  with_row r t = record t { rows = t.rows ++ (row.get_id r, r) ∷ []; should_alert = true }

  -- A row just inserted can be committed, and its table then holds what was committed.
  pub commit-insert :
      (n : ℕ) (z r : R) (t : Table R)
      → IsSound row n t
      → row.get_id z ≡ suc n
      → row.get_id r ≡ suc n
      → commit row r (insert row z t) ≡ ok (with_row r t)
  unfolding commit insert
  commit-insert n z r t v ez er = ground (
    arith,
    get-put ℕ_discrete (row.get_id r) (row.get_id z) z t.rows,
    put-put ℕ_discrete (row.get_id r) r z t.rows,
    put-new ℕ_discrete (row.get_id r) r t.rows,
    Owned-fresh row n t.rows v.owned,
  )

  Option-set : IsSet (Option R)
  Option-set = hlevel (hedberg row.dec)

  -- A row of a sound table is found under its ID.
  pub get-of_mem :
      (n : ℕ) (r : R) (rows : List (ℕ × R))
      → All (Owned row n) rows
      → Distinct ℕ_discrete (keys rows)
      → Mem r (values rows)
      → get ℕ_discrete (row.get_id r) rows ≡ some r
  unfolding get has
  get-of_mem n r [] a d m = absurd (not-mem-nil m)
  get-of_mem n r (e ∷ rows) a d m =
      Or.elim (Option-set _ _) (mem-cons.0 m) (λ here. ground arith)
        (λ later.
          ground
            (arith, get-of_mem n r rows a.1 d.1 later, has-of_get ℕ_discrete (row.get_id r) rows r))

  -- The removal of several rows.
  abbrev pub remove_all : List R → Table R → Table R
  remove_all [] t = t
  remove_all (r ∷ rs) t = remove_all rs (remove row r t)

  pub remove_all-IsSound :
      (n : ℕ) (rs : List R) (t : Table R) → IsSound row n t → IsSound row n (remove_all rs t)
  remove_all-IsSound n [] t v = v
  remove_all-IsSound n (r ∷ rs) t v =
      remove_all-IsSound n rs (remove row r t) (remove-IsSound row n r t v)

  -- To remove rows of a sound table leaves the others.
  pub remove_all-perm :
      (n : ℕ) (rs rest : List R) (t : Table R)
      → IsSound row n t
      → Perm (values t.rows) (rs ++ rest)
      → Perm (values (remove_all rs t).rows) rest
  unfolding remove
  remove_all-perm n [] rest t v p = p
  remove_all-perm n (r ∷ rs) rest t v p =
      remove_all-perm n rs rest (remove row r t) (remove-IsSound row n r t v) (
        Perm.cons_inv (
          Perm.trans
            (Perm.symm (
              Perm.map (λ e. e.1)
                (delete-perm ℕ_discrete (row.get_id r) t.rows r
                  (get-of_mem n r t.rows v.owned v.distinct ((Perm.mem_iff p).1 mem-cons_self)))))
            p))

  -- An insertion of a new ID adds its row at the end.
  pub insert-with_row :
      (n : ℕ) (r : R) (t : Table R)
      → row.get_id r ≡ suc n
      → IsSound row n t
      → insert row r t ≡ with_row r t
  unfolding insert
  insert-with_row n r t e v =
      ap (λ m. record t { rows = m; should_alert = true })
        (put-new ℕ_discrete (row.get_id r) r t.rows (rw e (Owned-fresh row n t.rows v.owned)))

  pub with_row-IsSound :
      (n : ℕ) (r : R) (t : Table R)
      → row.get_id r ≡ suc n
      → IsSound row n t
      → IsSound row (suc n) (with_row r t)
  with_row-IsSound n r t e v =
      subst (IsSound row (suc n)) (insert-with_row n r t e v) (insert-IsSound row n r t e v)

  -- The IDs of the rows are not above the last one.
  pub id-le_of_mem :
      (n : ℕ) (r : R) (rows : List (ℕ × R))
      → All (Owned row n) rows
      → Mem r (values rows)
      → row.get_id r ≤ n
  id-le_of_mem n r [] a m = absurd (not-mem-nil m)
  id-le_of_mem n r (e ∷ rows) a m =
      Or.elim le_prop (mem-cons.0 m) (λ here. ground arith) (id-le_of_mem n r rows a.1)

  -- The table after a commit over the row `old`: it holds the new row in its place.
  pub record Replaces (n : ℕ) (old r : R) (t : Table R) : Type 0 where
    pub table : Table R
    pub result : commit row r t ≡ ok table
    pub sound : IsSound row n table
    pub swapped : Perm (old ∷ values table.rows) (r ∷ values t.rows)

  by_change :
      (n : ℕ) (old r : R) (t : Table R)
      → IsSound row n t
      → row.get_id r ≤ n
      → get ℕ_discrete (row.get_id r) t.rows ≡ some old
      → (b : Bool) → (t.should_alert || ite (row.dec r old) false true) ≡ b
      → Replaces n old r t
  unfolding commit
  by_change n old r t v h found true e = record {
    table = record t { rows = put ℕ_discrete (row.get_id r) r t.rows; should_alert = true };
    result = rw (found, e);
    sound = commit-IsSound row n r t _ h (rw (found, e)) v;
    swapped = put-perm ℕ_discrete (row.get_id r) r old t.rows found;
  }
  by_change n old r t v h found false e = record {
    table = t;
    result = rw (found, e);
    sound = v;
    swapped = Perm.cons' (ground arith) Perm.rfl;
  }

  -- A commit over a row of a sound table succeeds.
  pub commit-Replaces :
      (n : ℕ) (old r : R) (t : Table R)
      → IsSound row n t
      → Mem old (values t.rows)
      → row.get_id r ≡ row.get_id old
      → row.get_id r ≤ n
      → Replaces n old r t
  commit-Replaces n old r t v m e h =
      by_change n old r t v h (rw e (get-of_mem n old t.rows v.owned v.distinct m)) _ refl
