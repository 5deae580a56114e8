-- ===== src/Join/Contract.antt =====
-- The contract of `HashJoin` that its callers build on.
use mathlib.Core.List.Perm
use k_elda_archive.Base.{
  ◌≡◌, refl, sym, subst, ◌∙◌, ◌↔◌, List, [], ◌++◌, map, Perm, Mem, Nodup, has, All, All-every,
  MapRange, keys, values, Nodup-of_Distinct, Distinct-of_Nodup, mem_of_has, not_mem_of_has,
  has_of_mem,
}
use k_elda_archive.Join.{Joined, lefts_of, rights_of}
use k_elda_archive.Join.Hash.{Matching, fill, matched, hash_join}
use k_elda_archive.Join.HashLaws.{
  Keyed, fill-Keyed, fill-Distinct, has-keys-fill, Keyed-keys, fill_new, match_rights-lefts,
  match_rights-rights, match_rights-pairs, match_rights-left,
}

module _ {K L R : Type 0} (l_key : L → K) (r_key : R → K) (lefts : List L) (rights : List R) where
  -- The left elements that a join accounts for: paired, or lonely.
  abbrev pub accounted : Joined L R → List L
  accounted j = lefts_of j.pairs ++ j.lonely_lefts

  pub record IsHashJoin (j : Joined L R) : Type 0 where
    -- The two elements of a pair have one key.
    pub pairs_agree : All (λ p. l_key p.l ≡ r_key p.r) j.pairs
    -- Every right element is paired or lonely, once.
    pub rights_perm : Perm (rights_of j.pairs ++ j.lonely_rights) rights
    -- Every key of a left element is accounted for, once, and no other key is.
    pub keys_once : Nodup (map l_key (lefts_of j.pairs ++ j.lonely_lefts))
    pub keys_all :
        (k : K) → Mem k (map l_key (lefts_of j.pairs ++ j.lonely_lefts)) ↔ Mem k (map l_key lefts)
    -- No right element has the key of a lonely left one.
    pub lonely_unmatched : (k : K) → Mem k (map l_key j.lonely_lefts) → ¬ Mem k (map r_key rights)

module _ {K L R : Type 0} (dec : Discrete K) (order : MapRange (K × L)) (l_key : L → K)
    (r_key : R → K) (lefts : List L) (rights : List R) where
  table : List (K × L)
  table = fill dec l_key lefts []

  done : Matching K L R
  done = matched dec l_key r_key lefts rights

  done-pairs : All (λ p. l_key p.l ≡ r_key p.r) done.pairs × Keyed dec l_key done.join_table
  unfolding done matched
  done-pairs = match_rights-pairs dec l_key r_key rights _ (fill-Keyed dec l_key lefts [] tt) tt

  lefts-perm : Perm (lefts_of done.pairs ++ values (order.range done.join_table)) (values table)
  unfolding done matched table
  lefts-perm =
      Perm.trans (Perm.append_left _ (Perm.map (λ e. e.1) (order.range-perm _)))
        (match_rights-lefts dec l_key r_key rights _)

  keys-perm :
      Perm (map l_key (lefts_of done.pairs ++ values (order.range done.join_table))) (keys table)
  unfolding table
  keys-perm =
      rw (Keyed-keys dec l_key (fill dec l_key lefts []) (fill-Keyed dec l_key lefts [] tt))
        (Perm.map l_key lefts-perm)

  table-keys : (k : K) → Mem k (keys table) ↔ Mem k (map l_key lefts)
  unfolding table has
  table-keys k = (
    (λ m. mem_of_has dec k _ (sym (has-keys-fill dec l_key k lefts []) ∙ has_of_mem dec k _ m)),
    (λ m. mem_of_has dec k _ (has-keys-fill dec l_key k lefts [] ∙ has_of_mem dec k _ m)),
  )

  lonely-keys :
      (k : K)
      → Mem k (map l_key (values (order.range done.join_table)))
      → Mem k (keys done.join_table)
  lonely-keys k m =
      subst (Mem k) (sym (Keyed-keys dec l_key done.join_table done-pairs.1)) (
        (Perm.mem_iff (Perm.map l_key (Perm.map (λ e. e.1) (order.range-perm done.join_table)))).0
          m)

  left-absent : (k : K) → Mem k (map r_key rights) → ¬ Mem k (keys done.join_table)
  unfolding done matched
  left-absent k m = not_mem_of_has dec k _ (
      match_rights-left dec l_key r_key k rights _ (fill-Distinct dec l_key lefts [] tt)
        (has_of_mem dec k _ m))

  -- `HashJoin` keeps its contract, whatever the keys and the order.
  pub hash_join-IsHashJoin :
      IsHashJoin l_key r_key lefts rights (hash_join dec order l_key r_key lefts rights)
  unfolding hash_join done table
  hash_join-IsHashJoin = record {
    pairs_agree = done-pairs.0;
    rights_perm = match_rights-rights dec l_key r_key rights _;
    keys_once =
        Perm.nodup (Perm.symm keys-perm)
          (Nodup-of_Distinct dec _ (fill-Distinct dec l_key lefts [] tt));
    keys_all = λ k. (
      (λ m. (table-keys k).0 ((Perm.mem_iff keys-perm).0 m)),
      (λ m. (Perm.mem_iff keys-perm).1 ((table-keys k).1 m)),
    );
    lonely_unmatched = λ k m r. left-absent k r (lonely-keys k m);
  }

  -- With distinct left keys every left element is paired or lonely, once.
  pub hash_join-lefts_perm :
      Nodup (map l_key lefts)
      → Perm
          (accounted l_key r_key lefts rights (hash_join dec order l_key r_key lefts rights))
          lefts
  unfolding hash_join done table has
  hash_join-lefts_perm d =
      subst (Perm _)
        (fill_new dec l_key lefts [] (Distinct-of_Nodup dec _ d) (All-every _ (λ l. refl) lefts))
        lefts-perm
