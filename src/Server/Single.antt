-- ===== src/Server/Single.antt =====
-- A table of one row, which is inserted or changed.
use mathlib.Core.HLevel.{hedberg}
use mathlib.Core.List.{mem-cons_self, mem-cons, not-mem-nil, map-append}
use mathlib.Core.List.Perm
use mathlib.Core.List.{Permᴰ, Perm-prop}
use mathlib.Core.Logic.Or
use mathlib.Core.Logic.{∥∥₁_elim}
use k_elda_archive.Base.{
  suc, ◌≤◌, ◌≡◌, refl, sym, ap, subst, ◌∙◌, Bool, List, [], ◌∷◌, ◌++◌, Perm, Mem, arith, values,
  keep, length, length-perm, Bool-cases, inl, inr, Outcome, ok, err, String,
}
use k_elda_archive.Db.{Database}
use k_elda_archive.Db.Access.{insert_row, commit_row}
use k_elda_archive.Db.Effects.{with_row, with_row-IsSound, commit-Replaces, id-le_of_mem}
use k_elda_archive.Db.Slots.{Slot}
use k_elda_archive.Db.Tables.{Table}
use k_elda_archive.Engine.Effects.{Leaves, Leaves-map, Sound, add_one-eq}
use k_elda_archive.Engine.Loops.{add_one}
use k_elda_archive.Server.Config.{save}

module _ {A : Type 0} (p : A → Bool) where
  keep-cons :
      (a b : A) (xs ys : List A)
      → a ≡ b
      → Perm (keep p xs) (keep p ys)
      → Perm (keep p (a ∷ xs)) (keep p (b ∷ ys))
  unfolding keep
  keep-cons a b xs ys e h = elim (Bool-cases (p a)) [
    | inl t ↦ rw (t, ap p (sym e) ∙ t) (Perm.cons' e h)
    | inr t ↦ rw (t, ap p (sym e) ∙ t) h
  ]

  keep-swap : (a b : A) (xs : List A) → Perm (keep p (a ∷ b ∷ xs)) (keep p (b ∷ a ∷ xs))
  unfolding keep
  keep-swap a b xs = elim (Bool-cases (p a)) [
    | inl h ↦ elim (Bool-cases (p b)) [
      | inl k ↦ rw (h, k) (Perm.swap b a (keep p xs))
      | inr k ↦ rw (h, k) Perm.rfl
    ]
    | inr h ↦ elim (Bool-cases (p b)) [ inl k ↦ rw (h, k) Perm.rfl | inr k ↦ rw (h, k) Perm.rfl ]
  ]

  keep-permᴰ : {xs ys : List A} → Permᴰ xs ys → Perm (keep p xs) (keep p ys)
  unfolding keep
  keep-permᴰ Permᴰ.nil = Perm.nil
  keep-permᴰ (Permᴰ.cons {a} {b} {l₁} {l₂} e q) = keep-cons a b l₁ l₂ e (keep-permᴰ q)
  keep-permᴰ (Permᴰ.swap {a} {b} {a'} {b'} {l} e f) =
      subst (λ x. Perm (keep p (a ∷ b ∷ l)) (keep p (x ∷ b' ∷ l))) f
        (subst (λ x. Perm (keep p (a ∷ b ∷ l)) (keep p (b ∷ x ∷ l))) e (keep-swap a b l))
  keep-permᴰ (Permᴰ.trans q r) = Perm.trans (keep-permᴰ q) (keep-permᴰ r)

  pub keep-perm : {xs ys : List A} → Perm xs ys → Perm (keep p xs) (keep p ys)
  keep-perm h = ∥∥₁_elim h Perm-prop keep-permᴰ

-- A list with the same element as a list of one.
pub single_perm :
    {A : Type 0} (dec : Discrete A) (x : A) (xs : List A) → Perm xs (x ∷ []) → xs ≡ x ∷ []
single_perm dec x [] p = absurd (ground (arith, length-perm p))
single_perm dec x (y ∷ []) p =
    ap (λ z. z ∷ [])
      (Or.elim (hedberg dec _ _) (mem-cons.0 ((Perm.mem_iff p).0 mem-cons_self)) (λ e. e)
        (λ m. absurd (not-mem-nil m)))
single_perm dec x (y ∷ z ∷ zs) p = absurd (ground (arith, length-perm p))

module _ {R : Type 0} (s : Slot R) (change : R → R)
    (law : (r : R) → s.row.get_id (change r) ≡ s.row.get_id r) where
  open s use {row, read, write, count}

  -- A commit over a row of a sound table puts the changed row in its place.
  pub commit-changed :
      (old : R) (db : Database)
      → Sound s db
      → Mem old (values (read db).rows)
      → Leaves s db
          (λ t. Perm (old ∷ values t.rows) (change old ∷ values (read db).rows))
          (commit_row s (change old) db)
  unfolding commit_row
  commit-changed old db v m =
      let c =
        commit-Replaces row db.cur_id old (change old) (read db) v m (law old)
          (rw (law old) (id-le_of_mem row db.cur_id old (read db).rows v.owned m)) in
      record {
        table = c.table;
        last = db.cur_id;
        result = rw (c.result, s.count-id) refl;
        grew = omega arith;
        sound = c.sound;
        holds = c.swapped;
      }

  -- The table holds just one row, a changed one.
  abbrev pub HoldsOne : Table R → Type 0
  HoldsOne t = (r : R) × (values t.rows ≡ change r ∷ [])

  pub commit-one :
      (old : R) (db : Database)
      → Sound s db
      → values (read db).rows ≡ old ∷ []
      → Leaves s db HoldsOne (commit_row s (change old) db)
  commit-one old db v e =
      Leaves-map s _ HoldsOne db _
        (λ t q. (
          old,
          single_perm row.dec (change old) (values t.rows) (
              Perm.cons_inv (
                Perm.trans (subst (λ rows. Perm (old ∷ values t.rows) (change old ∷ rows)) e q)
                  (Perm.swap old (change old) []))),
        ))
        (commit-changed old db v (rw e mem-cons_self))

  pub insert-one :
      (db : Database)
      → Sound s db
      → values (read db).rows ≡ []
      → let made = insert_row s db in Leaves s db HoldsOne (commit_row s (change made.0) made.1)
  unfolding add_one
  insert-one db v e =
      let z : R = row.zero_row (suc db.cur_id) in
      record {
        table = with_row row (change z) (read db);
        last = suc db.cur_id;
        result = add_one-eq s (λ (u : Unit) r. change r) tt db (λ u r. law r) v;
        grew = omega arith;
        sound =
            with_row-IsSound row db.cur_id (change z) (read db)
              (law z ∙ row.id-zero (suc db.cur_id)) v;
        holds = (z, map-append (λ e. e.1) (read db).rows _ ∙ ap (λ rows. rows ++ change z ∷ []) e);
      }

  -- The row is there or not.
  pub save-one :
      (single : List R → Outcome R) (missing : String)
      → single [] ≡ err missing
      → ((r : R) → single (r ∷ []) ≡ ok r)
      → (db : Database) → length (values (read db).rows) ≤ 1
      → Sound s db
      → Leaves s db HoldsOne (save s change (single (values (read db).rows)) db)
  unfolding save
  save-one single missing e f db h v = by_rows (values (read db).rows) refl h
    where
      by_rows :
          (rows : List R)
          → values (read db).rows ≡ rows
          → length rows ≤ 1
          → Leaves s db HoldsOne (save s change (single rows) db)
      by_rows [] q k = rw e (insert-one db v q)
      by_rows (r ∷ []) q k = rw (f r) (commit-one r db v q)
      by_rows (r ∷ t ∷ rest) q k = absurd (omega arith)
