-- ===== src/Db/Invariant.antt =====
-- The invariant of a table: each row stands under its own ID, once, and no ID is above the last one
-- given.
use k_elda_archive.Base.{
  ℕ, suc, ◌≤◌, ◌≡◌, refl, subst, true, false, List, [], ◌∷◌, arith, All, has, get, put, delete,
  keys, Distinct, ℕ_discrete, ite, ok, ok-injective, Bool-cases, ◌||◌, inl, inr, Option, none, some,
  put-Distinct, delete-Distinct,
}
use k_elda_archive.Db.Tables.{Row, Table, insert, commit, commit_over, remove}

module _ {R : Type 0} (row : Row R) where
  abbrev pub Owned : ℕ → ℕ × R → Type 0
  Owned n e = (e.0 ≡ row.get_id e.1) × (e.0 ≤ n)

  pub record IsSound (n : ℕ) (t : Table R) : Type 0 where
    pub owned : All (Owned n) t.rows
    pub distinct : Distinct ℕ_discrete (keys t.rows)

  pub Owned-fresh :
      (n : ℕ) (rows : List (ℕ × R))
      → All (Owned n) rows
      → has ℕ_discrete (suc n) (keys rows) ≡ false
  unfolding has
  Owned-fresh n [] a = refl
  Owned-fresh n (e ∷ rows) a = ground (arith, Owned-fresh n rows a.1)

  pub Owned-mono : (n m : ℕ) (rows : List (ℕ × R)) → n ≤ m → All (Owned n) rows → All (Owned m) rows
  Owned-mono n m [] h a = tt
  Owned-mono n m (e ∷ rows) h a = ((a.0.0, omega arith), Owned-mono n m rows h a.1)

  Owned-put :
      (n : ℕ) (r : R) (rows : List (ℕ × R))
      → row.get_id r ≤ n
      → All (Owned n) rows
      → All (Owned n) (put ℕ_discrete (row.get_id r) r rows)
  unfolding put
  Owned-put n r [] h a = ((refl, h), tt)
  Owned-put n r (e ∷ rows) h a = ground (arith, Owned-put n r rows h a.1)

  Owned-delete :
      (n k : ℕ) (rows : List (ℕ × R))
      → All (Owned n) rows
      → All (Owned n) (delete ℕ_discrete k rows)
  unfolding delete
  Owned-delete n k [] a = tt
  Owned-delete n k (e ∷ rows) a = ground (arith, Owned-delete n k rows a.1)

  -- The row of a new ID keeps the invariant, for the new last ID.
  pub insert-IsSound :
      (n : ℕ) (r : R) (t : Table R)
      → row.get_id r ≡ suc n
      → IsSound n t
      → IsSound (suc n) (insert row r t)
  unfolding insert
  insert-IsSound n r t e v = record {
    owned =
        Owned-put (suc n) r t.rows (omega arith)
          (Owned-mono n (suc n) t.rows (omega arith) v.owned);
    distinct = put-Distinct ℕ_discrete (row.get_id r) r t.rows v.distinct;
  }

  -- Removing a row from a sound table leaves a sound table.
  pub remove-IsSound : (n : ℕ) (r : R) (t : Table R) → IsSound n t → IsSound n (remove row r t)
  unfolding remove
  remove-IsSound n r t v = record {
    owned = Owned-delete n (row.get_id r) t.rows v.owned;
    distinct = delete-Distinct ℕ_discrete (row.get_id r) t.rows v.distinct;
  }

  -- A commit keeps the invariant wherever it does not panic.
  pub commit-IsSound :
      (n : ℕ) (r : R) (t t' : Table R)
      → row.get_id r ≤ n
      → commit row r t ≡ ok t'
      → IsSound n t
      → IsSound n t'
  unfolding commit
  commit-IsSound n r t t' h e v = by_old (get ℕ_discrete (row.get_id r) t.rows) e
    where
      by_old : (o : Option R) → commit_over row r o t ≡ ok t' → IsSound n t'
      by_old none p = cc
      by_old (some old) p = elim (Bool-cases (t.should_alert || ite (row.dec r old) false true)) [
        | inl changed ↦ subst (IsSound n) (ok-injective (rw changed at p)) (record {
          owned = Owned-put n r t.rows h v.owned;
          distinct = put-Distinct ℕ_discrete (row.get_id r) r t.rows v.distinct;
        })
        | inr same ↦ subst (IsSound n) (ok-injective (rw same at p)) v
      ]

  -- Soundness is kept when other tables are given IDs.
  pub IsSound-mono : (n m : ℕ) (t : Table R) → n ≤ m → IsSound n t → IsSound m t
  IsSound-mono n m t h v = record { owned = Owned-mono n m t.rows h v.owned; distinct = v.distinct }
