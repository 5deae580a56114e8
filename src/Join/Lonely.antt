-- ===== src/Join/Lonely.antt =====
-- join/join.go: the right elements that `HashJoin` leaves without a partner.
use k_elda_archive.Base.{
  ◌≡◌, refl, sym, subst, ◌∙◌, ◌≢◌, true, false, List, [], ◌∷◌, map, arith, has, Option, none, some,
  All, All-append, get, keys, Distinct, has-of_get-none, has-keys-delete_ne, MapRange, Mem, Nodup,
  Distinct-of_Nodup, not_mem_of_has, All-map,
}
use k_elda_archive.Join.Hash.{Matching, fill, query, match_rights, matched, hash_join}
use k_elda_archive.Join.HashLaws.{has-keys-fill}

tail-ne :
    {K : Type 0} (dec : Discrete K) (k j : K) (ks : List K)
    → has dec k ks ≡ false
    → has dec j ks ≡ true
    → j ≢ k
tail-ne dec k j ks h e p = cc (h, subst (λ x. has dec x ks ≡ true) p e)

module _ {K L R : Type 0} (dec : Discrete K) (r_key : R → K) where
  -- The keys of the right elements still to come are in the table as they were at the start.
  abbrev Untouched : List (K × L) → List R → List (K × L) → Type 0
  Untouched start rs table =
      (j : K) → has dec j (map r_key rs) ≡ true → has dec j (keys table) ≡ has dec j (keys start)

  abbrev Unmatched : List (K × L) → R → Type 0
  Unmatched start r = has dec (r_key r) (keys start) ≡ false

  query-Untouched :
      (start : List (K × L)) (r : R) (rs : List R) (o : Option L) (st : Matching K L R)
      → has dec (r_key r) (map r_key rs) ≡ false
      → Untouched start (r ∷ rs) st.join_table
      → Untouched start rs (query dec (r_key r) r o st).join_table
  unfolding query has
  query-Untouched start r rs none st d u j h = u j (ground arith)
  query-Untouched start r rs (some l) st d u j h =
      has-keys-delete_ne dec j (r_key r) st.join_table (tail-ne dec (r_key r) j (map r_key rs) d h)
      ∙ u j (ground arith)

  query-Unmatched :
      (start : List (K × L)) (r : R) (rs : List R) (o : Option L) (st : Matching K L R)
      → get dec (r_key r) st.join_table ≡ o
      → Untouched start (r ∷ rs) st.join_table
      → All (Unmatched start) st.lonely_rights
      → All (Unmatched start) (query dec (r_key r) r o st).lonely_rights
  unfolding query has
  query-Unmatched start r rs none st e u a =
      All-append (Unmatched start) st.lonely_rights _ a
        (sym (u (r_key r) (ground arith)) ∙ has-of_get-none dec (r_key r) st.join_table e, tt)
  query-Unmatched start r rs (some l) st e u a = a

  match_rights-Unmatched :
      (start : List (K × L)) (rs : List R) (st : Matching K L R)
      → Distinct dec (map r_key rs)
      → Untouched start rs st.join_table
      → All (Unmatched start) st.lonely_rights
      → All (Unmatched start) (match_rights dec r_key rs st).lonely_rights
  unfolding match_rights
  match_rights-Unmatched start [] st d u a = a
  match_rights-Unmatched start (r ∷ rs) st d u a =
      match_rights-Unmatched start rs _ d.1
        (query-Untouched start r rs (get dec (r_key r) st.join_table) st d.0 u)
        (query-Unmatched start r rs (get dec (r_key r) st.join_table) st refl u a)

module _ {K L R : Type 0} (dec : Discrete K) (order : MapRange (K × L)) (l_key : L → K)
    (r_key : R → K) (lefts : List L) (rights : List R) where
  -- The key of a lonely right element is no left element's.
  pub hash_join-lonely_rights :
      Nodup (map r_key rights)
      → All
          (λ r. ¬ Mem (r_key r) (map l_key lefts))
          (hash_join dec order l_key r_key lefts rights).lonely_rights
  unfolding hash_join matched has
  hash_join-lonely_rights d =
      All-map _ _ _
        (λ r h. not_mem_of_has dec _ _ (sym (has-keys-fill dec l_key (r_key r) lefts []) ∙ h))
        (match_rights-Unmatched dec r_key (fill dec l_key lefts []) rights _
          (Distinct-of_Nodup dec _ d) (λ j h. refl) tt)
