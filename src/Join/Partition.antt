-- ===== src/Join/Partition.antt =====
-- join/join.go: how the state of `Join` splits each slice into paired and lonely elements.
use mathlib.Core.List.Perm
use k_elda_archive.Base.{
  ℕ, zero, suc, ◌<◌, ◌≡◌, refl, sym, subst, inl, inr, Bool, true, false, ◌==◌, ◌||◌, List, [], ◌∷◌,
  ◌++◌, map, arith, has, insert_key, length, length-append, length-insert_key, move_out, All,
  All-append, ℤ, pos, negsuc, ℕ_discrete, Perm, Bool-cases, if◌then◌else◌,
}
use k_elda_archive.Join.Indices.{
  From, Entry, enumerate-From, unpaired-insert_perm, unpaired_none, has_above,
}
use k_elda_archive.Join.Score.{
  ScoredPair, State, enumerate, start, pair_up, by_score, try_pair, scan, generate, insert_by_score,
  sort_by_score, take_pair, collect, unpaired, run, join,
}
use k_elda_archive.Join.{lefts_of, rights_of}

module _ {L R : Type 0} (lefts : List L) (rights : List R) where
  abbrev pub lefts_from : List (ℕ × L)
  lefts_from = enumerate 0 lefts

  abbrev pub rights_from : List (ℕ × R)
  rights_from = enumerate 0 rights

  -- The pairs made so far and the elements left over make up the two slices, and the pairs that
  -- wait are pairs of their elements.
  pub record Inv (st : State L R) : Type 0 where
    pub split_lefts : Perm (map (λ p. p.l) st.pairs ++ unpaired st.paired_lefts lefts_from) lefts
    pub split_rights :
        Perm (map (λ p. p.r) st.pairs ++ unpaired st.paired_rights rights_from) rights
    pub count_lefts : length st.paired_lefts ≡ length st.pairs
    pub count_rights : length st.paired_rights ≡ length st.pairs

  abbrev pub Known : ScoredPair L R → Type 0
  Known p = Entry p.left lefts_from × Entry p.right rights_from

  pub start-Inv : Inv start
  start-Inv = record {
    split_lefts = rw (unpaired_none 0 lefts) (Perm.refl lefts);
    split_rights = rw (unpaired_none 0 rights) (Perm.refl rights);
    count_lefts = refl;
    count_rights = refl;
  }

  pub pair_up-Inv :
      (il : ℕ × L) (jr : ℕ × R) (st : State L R)
      → Entry il lefts_from
      → Entry jr rights_from
      → has ℕ_discrete il.0 st.paired_lefts ≡ false
      → has ℕ_discrete jr.0 st.paired_rights ≡ false
      → Inv st
      → Inv (pair_up il jr st)
  unfolding pair_up
  pair_up-Inv il jr st el er hl hr v = record {
    split_lefts =
        move_out (λ p. p.l) st.pairs (record { l = il.1; r = jr.1 }) _ _ lefts v.split_lefts
          (unpaired-insert_perm 0 st.paired_lefts il lefts_from (enumerate-From 0 lefts) el hl);
    split_rights =
        move_out (λ p. p.r) st.pairs (record { l = il.1; r = jr.1 }) _ _ rights v.split_rights
          (unpaired-insert_perm 0 st.paired_rights jr rights_from (enumerate-From 0 rights) er hr);
    count_lefts = omega (
      arith,
      length-insert_key ℕ_discrete il.0 st.paired_lefts hl,
      length-append st.pairs (record { l = il.1; r = jr.1 } ∷ []),
      v.count_lefts,
    );
    count_rights = omega (
      arith,
      length-insert_key ℕ_discrete jr.0 st.paired_rights hr,
      length-append st.pairs (record { l = il.1; r = jr.1 } ∷ []),
      v.count_rights,
    );
  }

  -- What the loops of the first phase keep, with no left index at `k` or above paired yet.
  record Filled (k : ℕ) (st : State L R) : Type 0 where
    parts : Inv st
    known : All Known st.scored_pairs
    below : All (λ i. i < k) st.paired_lefts

  Filled-suc : (k : ℕ) (s : List ℕ) → All (λ i. i < k) s → All (λ i. i < suc k) s
  Filled-suc k [] a = tt
  Filled-suc k (i ∷ s) a = (omega arith, Filled-suc k s a.1)

  insert-below :
      (k i : ℕ) (s : List ℕ)
      → i ≡ k
      → All (λ i. i < k) s
      → All (λ i. i < suc k) (insert_key ℕ_discrete i s)
  unfolding insert_key
  insert-below k i s e a = ground (arith, Filled-suc k s a)

  abbrev Result : ℕ → State L R × Bool → Type 0
  Result k (st, true) = Filled (suc k) st
  Result k (st, false) = Filled k st

  by_score-Filled :
      (z : ℤ) (il : ℕ × L) (jr : ℕ × R) (st : State L R)
      → Entry il lefts_from
      → Entry jr rights_from
      → has ℕ_discrete jr.0 st.paired_rights ≡ false
      → Filled il.0 st
      → Result il.0 (by_score z il jr st)
  unfolding by_score pair_up
  by_score-Filled (pos zero) il jr st el er h v = record {
    parts = pair_up-Inv il jr st el er (has_above il.0 st.paired_lefts v.below) h v.parts;
    known = v.known;
    below = insert-below il.0 il.0 st.paired_lefts refl v.below;
  }
  by_score-Filled (pos (suc n)) il jr st el er h v = record {
    parts = record {
      split_lefts = v.parts.split_lefts;
      split_rights = v.parts.split_rights;
      count_lefts = v.parts.count_lefts;
      count_rights = v.parts.count_rights;
    };
    known = All-append Known st.scored_pairs _ v.known ((el, er), tt);
    below = v.below;
  }
  by_score-Filled (negsuc n) il jr st el er h v = v

  try_pair-Filled :
      (score : L → R → ℤ) (il : ℕ × L) (jr : ℕ × R) (st : State L R)
      → Entry il lefts_from
      → Entry jr rights_from
      → Filled il.0 st
      → Result il.0 (try_pair score il jr st)
  unfolding try_pair
  try_pair-Filled score il jr st el er v =
      elim (Bool-cases (has ℕ_discrete jr.0 st.paired_rights)) [
        | inl taken ↦ rw taken v
        | inr free ↦ rw free (by_score-Filled (score il.1 jr.1) il jr st el er free v)
      ]

  weaken : (k : ℕ) (st : State L R) → Filled k st → Filled (suc k) st
  weaken k st v = record {
    parts = v.parts;
    known = v.known;
    below = Filled-suc k st.paired_lefts v.below;
  }

  scan-Filled :
      (score : L → R → ℤ) (il : ℕ × L) (js : List (ℕ × R)) (st : State L R)
      → Entry il lefts_from
      → All (λ jr. Entry jr rights_from) js
      → Filled il.0 st
      → Filled (suc il.0) (scan score il js st)
  unfolding scan
  scan-Filled score il [] st el er v = weaken il.0 st v
  scan-Filled score il (jr ∷ js) st el er v =
      after (try_pair score il jr st) (try_pair-Filled score il jr st el er.0 v)
        (scan-Filled score il js (try_pair score il jr st).0 el er.1)
    where
      after :
          (o : State L R × Bool)
          → Result il.0 o
          → (Filled il.0 o.0 → Filled (suc il.0) (scan score il js o.0))
          → Filled (suc il.0) (if o.1 then o.0 else scan score il js o.0)
      after (st', true) w rest = w
      after (st', false) w rest = rest w

  generate-Filled :
      (score : L → R → ℤ) (k : ℕ) (is : List (ℕ × L)) (js : List (ℕ × R)) (st : State L R)
      → From k is
      → All (λ il. Entry il lefts_from) is
      → All (λ jr. Entry jr rights_from) js
      → Filled k st
      → Inv (generate score is js st) × All Known (generate score is js st).scored_pairs
  unfolding generate
  generate-Filled score k [] js st f el er v = (v.parts, v.known)
  generate-Filled score k (il ∷ is) js st f el er v =
      generate-Filled score (suc k) is js (scan score il js st) f.1 el.1 er (
        subst (λ n. Filled (suc n) (scan score il js st)) f.0
          (scan-Filled score il js st el.0 er (subst (λ n. Filled n st) (sym f.0) v)))

  insert-All :
      (P : ScoredPair L R → Type 0) (p : ScoredPair L R) (qs : List (ScoredPair L R))
      → P p
      → All P qs
      → All P (insert_by_score p qs)
  unfolding insert_by_score
  insert-All P p [] h a = (h, tt)
  insert-All P p (q ∷ qs) h a = ground (arith, insert-All P p qs h a.1)

  pub sort-All :
      (P : ScoredPair L R → Type 0) (ps : List (ScoredPair L R))
      → All P ps
      → All P (sort_by_score ps)
  unfolding sort_by_score
  sort-All P [] a = tt
  sort-All P (p ∷ ps) a = insert-All P p (sort_by_score ps) a.0 (sort-All P ps a.1)

  take_pair-Inv : (p : ScoredPair L R) (st : State L R) → Known p → Inv st → Inv (take_pair p st)
  unfolding take_pair
  take_pair-Inv p st known v = elim (Bool-cases (has ℕ_discrete p.left.0 st.paired_lefts)) [
    | inl taken ↦ rw taken v
    | inr free ↦ elim (Bool-cases (has ℕ_discrete p.right.0 st.paired_rights)) [
      | inl taken ↦ rw (free, taken) v
      | inr open' ↦ rw (free, open') (pair_up-Inv p.left p.right st known.0 known.1 free open' v)
    ]
  ]

  collect-Inv :
      (n m : ℕ) (ps : List (ScoredPair L R)) (st : State L R)
      → All Known ps
      → Inv st
      → Inv (collect n m ps st)
  unfolding collect
  collect-Inv n m [] st a v = v
  collect-Inv n m (p ∷ ps) st a v =
      elim (Bool-cases (length st.paired_lefts == n || length st.paired_rights == m)) [
        | inl stop ↦ rw stop v
        | inr more ↦ rw more (collect-Inv n m ps (take_pair p st) a.1 (take_pair-Inv p st a.0 v))
      ]

entries_self :
    {A : Type 0} (es fs : List (ℕ × A))
    → ((p : ℕ × A) → Entry p es → Entry p fs)
    → All (λ p. Entry p fs) es
entries_self [] fs h = tt
entries_self (e ∷ es) fs h = (h e (inl (refl, refl)), entries_self es fs (λ p k. h p (inr k)))

module _ {L R : Type 0} (score : L → R → ℤ) (lefts : List L) (rights : List R) where
  pub run-Inv : Inv lefts rights (run score lefts rights)
  unfolding run
  run-Inv =
      let first =
        generate-Filled lefts rights score 0 (enumerate 0 lefts) (enumerate 0 rights) start
          (enumerate-From 0 lefts) (entries_self (enumerate 0 lefts) (enumerate 0 lefts) (λ p k. k))
          (entries_self (enumerate 0 rights) (enumerate 0 rights) (λ p k. k))
          (record { parts = start-Inv lefts rights; known = tt; below = tt }) in
      collect-Inv lefts rights (length lefts) (length rights) _ _
        (sort-All lefts rights (Known lefts rights) _ first.1) first.0

  -- The elements of the pairs and the lonely elements of a side are a rearrangement of its slice.
  pub join-perm :
      Perm
        (lefts_of (join score lefts rights).pairs ++ (join score lefts rights).lonely_lefts)
        lefts
      × Perm
          (rights_of (join score lefts rights).pairs ++ (join score lefts rights).lonely_rights)
          rights
  unfolding join
  join-perm = (run-Inv.split_lefts, run-Inv.split_rights)
