-- ===== src/Join/HashLaws.antt =====
-- What `HashJoin` promises of its result, for any order in which the table is ranged over.
use mathlib.Core.List.{map-append, append_assoc, append-nil, perm_middle}
use mathlib.Core.List.Perm
use k_elda_archive.Base.{
  ◌≡◌, refl, sym, true, false, List, [], ◌∷◌, ◌++◌, map, Perm, arith, has, Option, none, some, All,
  All-append, ◌||◌, move_out, get, put, delete, keys, values, Distinct, has-keys-put, put-Distinct,
  put-new, delete-perm, delete-Distinct, has-keys-delete_self, has-keys-delete, has-of_get-none,
}
use k_elda_archive.Join.{lefts_of, rights_of}
use k_elda_archive.Join.Hash.{Matching, fill, query, match_rights}

module _ {K L : Type 0} (dec : Discrete K) (l_key : L → K) where
  -- The table holds each element under its own key.
  abbrev pub Keyed : List (K × L) → Type 0
  Keyed = All (λ e. e.0 ≡ l_key e.1)

  put-Keyed : (l : L) (table : List (K × L)) → Keyed table → Keyed (put dec (l_key l) l table)
  unfolding put
  put-Keyed l [] h = (refl, tt)
  put-Keyed l (e ∷ table) h = ground (arith, put-Keyed l table h.1)

  pub fill-Keyed :
      (ls : List L) (table : List (K × L)) → Keyed table → Keyed (fill dec l_key ls table)
  unfolding fill
  fill-Keyed [] table h = h
  fill-Keyed (l ∷ ls) table h = fill-Keyed ls _ (put-Keyed l table h)

  pub fill-Distinct :
      (ls : List L) (table : List (K × L))
      → Distinct dec (keys table)
      → Distinct dec (keys (fill dec l_key ls table))
  unfolding fill
  fill-Distinct [] table h = h
  fill-Distinct (l ∷ ls) table h = fill-Distinct ls _ (put-Distinct dec (l_key l) l table h)

  -- The keys of the table are the keys of the left elements.
  pub has-keys-fill :
      (j : K) (ls : List L) (table : List (K × L))
      → has dec j (keys (fill dec l_key ls table))
        ≡ (has dec j (keys table) || has dec j (map l_key ls))
  unfolding fill has
  has-keys-fill j [] table = ground arith
  has-keys-fill j (l ∷ ls) table =
      ground (
        arith,
        has-keys-fill j ls (put dec (l_key l) l table),
        has-keys-put dec j (l_key l) l table,
      )

  get-Keyed :
      (k : K) (l : L) (table : List (K × L)) → Keyed table → get dec k table ≡ some l → k ≡ l_key l
  unfolding get
  get-Keyed k l [] h e = cc
  get-Keyed k l (x ∷ table) h e = ground (arith, get-Keyed k l table h.1)

  delete-Keyed : (k : K) (table : List (K × L)) → Keyed table → Keyed (delete dec k table)
  unfolding delete
  delete-Keyed k [] h = tt
  delete-Keyed k (x ∷ table) h = ground (arith, delete-Keyed k table h.1)

  pub Keyed-keys : (table : List (K × L)) → Keyed table → keys table ≡ map l_key (values table)
  Keyed-keys [] h = refl
  Keyed-keys (x ∷ table) h = ground (arith, Keyed-keys table h.1)

  not_yet :
      (k : K) (v : L) (table : List (K × L)) (ls : List L)
      → has dec k (map l_key ls) ≡ false
      → All (λ l. has dec (l_key l) (keys table) ≡ false) ls
      → All (λ l. has dec (l_key l) (keys (put dec k v table)) ≡ false) ls
  unfolding has
  not_yet k v table [] h a = tt
  not_yet k v table (l ∷ ls) h a = (
    ground (arith, has-keys-put dec (l_key l) k v table),
    not_yet k v table ls (ground arith) a.1,
  )

  -- With distinct keys nothing is overwritten.
  pub fill_new :
      (ls : List L) (table : List (K × L))
      → Distinct dec (map l_key ls)
      → All (λ l. has dec (l_key l) (keys table) ≡ false) ls
      → values (fill dec l_key ls table) ≡ values table ++ ls
  unfolding fill has
  fill_new [] table d h = sym (append-nil (values table))
  fill_new (l ∷ ls) table d h =
      rw
        (
          fill_new ls (put dec (l_key l) l table) d.1 (not_yet (l_key l) l table ls d.0 h.1),
          put-new dec (l_key l) l table h.0,
          map-append (λ e. e.1) table ((l_key l, l) ∷ []),
        )
        (append_assoc (values table) (l ∷ []) ls)

module _ {K L R : Type 0} (dec : Discrete K) (l_key : L → K) (r_key : R → K) where
  -- How the loop over the right slice moves the elements of the two sides.
  pub match_rights-lefts :
      (rs : List R) (st : Matching K L R)
      → Perm
          (lefts_of (match_rights dec r_key rs st).pairs
            ++ values (match_rights dec r_key rs st).join_table)
          (lefts_of st.pairs ++ values st.join_table)
  unfolding match_rights query
  match_rights-lefts [] st = Perm.refl _
  match_rights-lefts (r ∷ rs) st =
      Perm.trans (match_rights-lefts rs _) (one (get dec (r_key r) st.join_table) refl)
    where
      one :
          (o : Option L)
          → get dec (r_key r) st.join_table ≡ o
          → Perm
              (lefts_of (query dec (r_key r) r o st).pairs
                ++ values (query dec (r_key r) r o st).join_table)
              (lefts_of st.pairs ++ values st.join_table)
      one none e = Perm.refl _
      one (some l) e =
          move_out (λ p. p.l) st.pairs (record { l = l; r = r }) (values st.join_table) _ _
            (Perm.refl _) (Perm.map (λ x. x.1) (delete-perm dec (r_key r) st.join_table l e))

  pub match_rights-rights :
      (rs : List R) (st : Matching K L R)
      → Perm
          (rights_of (match_rights dec r_key rs st).pairs
            ++ (match_rights dec r_key rs st).lonely_rights)
          ((rights_of st.pairs ++ st.lonely_rights) ++ rs)
  unfolding match_rights query
  match_rights-rights [] st = rw append-nil (Perm.refl _)
  match_rights-rights (r ∷ rs) st =
      Perm.trans (match_rights-rights rs _) (one (get dec (r_key r) st.join_table))
    where
      one :
          (o : Option L)
          → Perm
              ((rights_of (query dec (r_key r) r o st).pairs
                  ++ (query dec (r_key r) r o st).lonely_rights)
                ++ rs)
              ((rights_of st.pairs ++ st.lonely_rights) ++ r ∷ rs)
      one none = simp append_assoc (Perm.refl _)
      one (some l) = rw (map-append (λ p. p.r) st.pairs (record { l = l; r = r } ∷ [])) (
          simp append_assoc
            (Perm.append_left (rights_of st.pairs) (Perm.symm (perm_middle st.lonely_rights rs))))

  -- One round of the loop over the right slice.
  module _ (r : R) (st : Matching K L R) where
    abbrev round : Option L → Matching K L R
    round o = query dec (r_key r) r o st

    round-pairs :
        (o : Option L)
        → get dec (r_key r) st.join_table ≡ o
        → Keyed dec l_key st.join_table
        → All (λ p. l_key p.l ≡ r_key p.r) st.pairs
        → All (λ p. l_key p.l ≡ r_key p.r) (round o).pairs × Keyed dec l_key (round o).join_table
    unfolding query
    round-pairs none e h a = (a, h)
    round-pairs (some l) e h a = (
      All-append _ st.pairs _ a (sym (get-Keyed dec l_key (r_key r) l st.join_table h e), tt),
      delete-Keyed dec l_key (r_key r) st.join_table h,
    )

    round-absent :
        (j : K) (o : Option L)
        → has dec j (keys st.join_table) ≡ false
        → has dec j (keys (round o).join_table) ≡ false
    unfolding query
    round-absent j none h = h
    round-absent j (some l) h = has-keys-delete dec j (r_key r) st.join_table h

    round-Distinct :
        (o : Option L)
        → Distinct dec (keys st.join_table)
        → Distinct dec (keys (round o).join_table)
    unfolding query
    round-Distinct none d = d
    round-Distinct (some l) d = delete-Distinct dec (r_key r) st.join_table d

    round_takes_key :
        (o : Option L)
        → get dec (r_key r) st.join_table ≡ o
        → Distinct dec (keys st.join_table)
        → has dec (r_key r) (keys (round o).join_table) ≡ false
    unfolding query
    round_takes_key none e d = has-of_get-none dec (r_key r) st.join_table e
    round_takes_key (some l) e d = has-keys-delete_self dec (r_key r) st.join_table d

  -- The pairs agree in their keys.
  pub match_rights-pairs :
      (rs : List R) (st : Matching K L R)
      → Keyed dec l_key st.join_table
      → All (λ p. l_key p.l ≡ r_key p.r) st.pairs
      → All (λ p. l_key p.l ≡ r_key p.r) (match_rights dec r_key rs st).pairs
        × Keyed dec l_key (match_rights dec r_key rs st).join_table
  unfolding match_rights
  match_rights-pairs [] st h a = (a, h)
  match_rights-pairs (r ∷ rs) st h a =
      let kept = round-pairs r st (get dec (r_key r) st.join_table) refl h a in
      match_rights-pairs rs _ kept.1 kept.0

  -- A key that is not in the table stays out of it.
  match_rights-absent :
      (j : K) (rs : List R) (st : Matching K L R)
      → has dec j (keys st.join_table) ≡ false
      → has dec j (keys (match_rights dec r_key rs st).join_table) ≡ false
  unfolding match_rights
  match_rights-absent j [] st h = h
  match_rights-absent j (r ∷ rs) st h =
      match_rights-absent j rs _ (round-absent r st j (get dec (r_key r) st.join_table) h)

  -- What is left in the table has a key that no right element has.
  pub match_rights-left :
      (j : K) (rs : List R) (st : Matching K L R)
      → Distinct dec (keys st.join_table)
      → has dec j (map r_key rs) ≡ true
      → has dec j (keys (match_rights dec r_key rs st).join_table) ≡ false
  unfolding match_rights has
  match_rights-left j [] st d h = cc
  match_rights-left j (r ∷ rs) st d h =
      let o : Option L = get dec (r_key r) st.join_table in
      elim (dec j (r_key r)) [
        | yes e ↦
            match_rights-absent j rs _
              (rw e (round_takes_key r st (get dec (r_key r) st.join_table) refl d))
        | no n ↦
            match_rights-left j rs _ (round-Distinct r st (get dec (r_key r) st.join_table) d)
              (ground arith)
      ]
