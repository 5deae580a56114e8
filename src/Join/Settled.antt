-- ===== src/Join/Settled.antt =====
-- join/join.go: which elements the two phases of `Join` have dealt with.
use k_elda_archive.Base.{
  ℕ, suc, zero, ◌≡◌, refl, ap, subst, ◌∙◌, Bool, true, false, ◌||◌, ◌&&◌, ◌==◌, List, [], ◌∷◌, ◌++◌,
  All, arith, ℤ, pos, negsuc, has, insert_key, All-map, All-every, length, ℕ_discrete, ite,
  if◌then◌else◌, Bool-cases, inl, inr, ltb_ℤ,
}
use k_elda_archive.Join.Score.{
  ScoredPair, State, pair_up, by_score, try_pair, scan, generate, insert_by_score, sort_by_score,
  take_pair, collect,
}

abbrev pub is_negative : ℤ → Bool
is_negative (pos n) = false
is_negative (negsuc n) = true

has-insert_key :
    (i k : ℕ) (s : List ℕ)
    → has ℕ_discrete i (insert_key ℕ_discrete k s)
      ≡ (ite (ℕ_discrete i k) true false || has ℕ_discrete i s)
unfolding has insert_key
has-insert_key i k s = ground arith

or_left : (a b : Bool) → a ≡ true → (a || b) ≡ true
or_left a b h = ground arith

or_right : (a b : Bool) → b ≡ true → (a || b) ≡ true
or_right a b h = ground arith

pub or_mono : (a a' b : Bool) → (a ≡ true → a' ≡ true) → (a || b) ≡ true → (a' || b) ≡ true
or_mono true a' b f h = or_left a' b (f refl)
or_mono false a' b f h = or_right a' b h

module _ {L R : Type 0} where
  -- The pair of the two indices waits.
  abbrev pub waits : ℕ → ℕ → List (ScoredPair L R) → Bool
  waits i j [] = false
  waits i j (p ∷ ps) = ((p.left.0 == i) && (p.right.0 == j)) || waits i j ps

  waits-append :
      (i j : ℕ) (ps qs : List (ScoredPair L R))
      → waits i j (ps ++ qs) ≡ (waits i j ps || waits i j qs)
  waits-append i j [] qs = refl
  waits-append i j (p ∷ ps) qs = ground (arith, waits-append i j ps qs)

  waits-insert :
      (i j : ℕ) (p : ScoredPair L R) (qs : List (ScoredPair L R))
      → waits i j (insert_by_score p qs) ≡ waits i j (p ∷ qs)
  unfolding insert_by_score
  waits-insert i j p [] = refl
  waits-insert i j p (q ∷ qs) = elim (Bool-cases (ltb_ℤ q.score p.score)) [
    | inl e ↦ rw (e, waits-insert i j p qs) (ground arith)
    | inr e ↦ rw e refl
  ]

  pub waits-sort :
      (i j : ℕ) (ps : List (ScoredPair L R)) → waits i j (sort_by_score ps) ≡ waits i j ps
  unfolding sort_by_score
  waits-sort i j [] = refl
  waits-sort i j (p ∷ ps) =
      waits-insert i j p (sort_by_score ps)
      ∙ ap (λ b. ((p.left.0 == i) && (p.right.0 == j)) || b) (waits-sort i j ps)

  -- One of the two is paired already.
  abbrev pub taken : ℕ → ℕ → State L R → Bool
  taken i j st = has ℕ_discrete i st.paired_lefts || has ℕ_discrete j st.paired_rights

  abbrev pub settled : ℕ → ℕ → State L R → Bool
  settled i j st = taken i j st || waits i j st.scored_pairs

  pair_up-taken :
      (i j : ℕ) (il : ℕ × L) (jr : ℕ × R) (st : State L R)
      → taken i j st ≡ true
      → taken i j (pair_up il jr st) ≡ true
  unfolding pair_up
  pair_up-taken i j il jr st h =
      ground (arith, has-insert_key i il.0 st.paired_lefts, has-insert_key j jr.0 st.paired_rights)

  pair_up_self :
      (il : ℕ × L) (jr : ℕ × R) (j : ℕ) (st : State L R) → taken il.0 j (pair_up il jr st) ≡ true
  unfolding pair_up
  pair_up_self il jr j st = ground (arith, has-insert_key il.0 il.0 st.paired_lefts)

  take_pair-taken :
      (i j : ℕ) (p : ScoredPair L R) (st : State L R)
      → taken i j st ≡ true
      → taken i j (take_pair p st) ≡ true
  unfolding take_pair
  take_pair-taken i j p st h = elim (Bool-cases (taken p.left.0 p.right.0 st)) [
    | inl e ↦ rw e h
    | inr e ↦ rw e (pair_up-taken i j p.left p.right st h)
  ]

  take_pair_self :
      (p : ScoredPair L R) (st : State L R) → taken p.left.0 p.right.0 (take_pair p st) ≡ true
  unfolding take_pair
  take_pair_self p st = elim (Bool-cases (taken p.left.0 p.right.0 st)) [
    | inl e ↦ rw e e
    | inr e ↦ rw e (pair_up_self p.left p.right p.right.0 st)
  ]

  take_pair-rest :
      (i j : ℕ) (p : ScoredPair L R) (ps : List (ScoredPair L R)) (st : State L R)
      → (taken i j st || waits i j (p ∷ ps)) ≡ true
      → (taken i j (take_pair p st) || waits i j ps) ≡ true
  take_pair-rest i j p ps st h = elim (Bool-cases (taken i j st)) [
    | inl t ↦ or_left _ _ (take_pair-taken i j p st t)
    | inr f ↦ elim (Bool-cases ((p.left.0 == i) && (p.right.0 == j))) [
      | inl e ↦ or_left _ _ (
          subst (λ k. taken k j (take_pair p st) ≡ true) (ground arith)
            (subst (λ k. taken p.left.0 k (take_pair p st) ≡ true) (ground arith)
              (take_pair_self p st)))
      | inr n ↦ or_right (taken i j (take_pair p st)) _ (rest_waits f n h)
    ]
  ]
    where
      rest_waits :
          taken i j st ≡ false
          → ((p.left.0 == i) && (p.right.0 == j)) ≡ false
          → (taken i j st || waits i j (p ∷ ps)) ≡ true
          → waits i j ps ≡ true
      rest_waits f n k = rw (f, n) at k

  -- All elements of a side are paired.
  abbrev pub is_full : ℕ → ℕ → State L R → Bool
  is_full n m st = length st.paired_lefts == n || length st.paired_rights == m

  -- The second phase takes every waiting pair, unless a side is full.
  pub collect-taken :
      (n m i j : ℕ) (ps : List (ScoredPair L R)) (st : State L R)
      → (taken i j st || waits i j ps) ≡ true
      → (is_full n m (collect n m ps st) || taken i j (collect n m ps st)) ≡ true
  unfolding collect
  collect-taken n m i j [] st h = ground arith
  collect-taken n m i j (p ∷ ps) st h = elim (Bool-cases (is_full n m st)) [
    | inl e ↦ rw e (rw e refl)
    | inr e ↦ rw e (collect-taken n m i j ps (take_pair p st) (take_pair-rest i j p ps st h))
  ]

  -- First phase: what is settled stays settled, and each score that is not negative settles its two.
  by_score-settled :
      (i j : ℕ) (z : ℤ) (il : ℕ × L) (jr : ℕ × R) (st : State L R)
      → settled i j st ≡ true
      → settled i j (by_score z il jr st).0 ≡ true
  unfolding by_score pair_up
  by_score-settled i j (pos zero) il jr st h =
      ground (arith, has-insert_key i il.0 st.paired_lefts, has-insert_key j jr.0 st.paired_rights)
  by_score-settled i j (pos (suc n)) il jr st h = ground (
    arith,
    waits-append i j st.scored_pairs (record { left = il; right = jr; score = pos (suc n) } ∷ []),
  )
  by_score-settled i j (negsuc n) il jr st h = h

  by_score_self :
      (z : ℤ) (il : ℕ × L) (jr : ℕ × R) (st : State L R)
      → (settled il.0 jr.0 (by_score z il jr st).0 || is_negative z) ≡ true
  unfolding by_score pair_up
  by_score_self (pos zero) il jr st = ground (arith, has-insert_key il.0 il.0 st.paired_lefts)
  by_score_self (pos (suc n)) il jr st = ground (
    arith,
    waits-append il.0 jr.0 st.scored_pairs
        (record { left = il; right = jr; score = pos (suc n) } ∷ []),
  )
  by_score_self (negsuc n) il jr st = ground arith

  by_score-done :
      (z : ℤ) (il : ℕ × L) (jr : ℕ × R) (st : State L R)
      → (by_score z il jr st).1 ≡ true
      → has ℕ_discrete il.0 (by_score z il jr st).0.paired_lefts ≡ true
  unfolding by_score pair_up
  by_score-done (pos zero) il jr st h = ground (arith, has-insert_key il.0 il.0 st.paired_lefts)
  by_score-done (pos (suc n)) il jr st h = cc
  by_score-done (negsuc n) il jr st h = cc

module _ {L R : Type 0} (score : L → R → ℤ) where
  -- The two are settled, or do not match.
  abbrev pub Covered : ℕ × L → ℕ × R → State L R → Type 0
  Covered il jr st = (settled il.0 jr.0 st || is_negative (score il.1 jr.1)) ≡ true

  try_pair-settled :
      (i j : ℕ) (il : ℕ × L) (jr : ℕ × R) (st : State L R)
      → settled i j st ≡ true
      → settled i j (try_pair score il jr st).0 ≡ true
  unfolding try_pair
  try_pair-settled i j il jr st h = elim (Bool-cases (has ℕ_discrete jr.0 st.paired_rights)) [
    | inl e ↦ rw e h
    | inr e ↦ rw e (by_score-settled i j (score il.1 jr.1) il jr st h)
  ]

  try_pair-Covered :
      (il : ℕ × L) (jr : ℕ × R) (st : State L R) → Covered il jr (try_pair score il jr st).0
  unfolding try_pair
  try_pair-Covered il jr st = elim (Bool-cases (has ℕ_discrete jr.0 st.paired_rights)) [
    | inl e ↦ rw e (rw e (ground arith))
    | inr e ↦ rw e (by_score_self (score il.1 jr.1) il jr st)
  ]

  try_pair-done :
      (il : ℕ × L) (jr : ℕ × R) (st : State L R)
      → (try_pair score il jr st).1 ≡ true
      → has ℕ_discrete il.0 (try_pair score il jr st).0.paired_lefts ≡ true
  unfolding try_pair
  try_pair-done il jr st h = elim (Bool-cases (has ℕ_discrete jr.0 st.paired_rights)) [
    | inl e ↦ cc (rw e at h)
    | inr e ↦ rw e (by_score-done (score il.1 jr.1) il jr st (rw e at h))
  ]

  scan-settled :
      (i j : ℕ) (il : ℕ × L) (js : List (ℕ × R)) (st : State L R)
      → settled i j st ≡ true
      → settled i j (scan score il js st) ≡ true
  unfolding scan
  scan-settled i j il [] st h = h
  scan-settled i j il (jr ∷ js) st h = elim (Bool-cases (try_pair score il jr st).1) [
    | inl e ↦ rw e (try_pair-settled i j il jr st h)
    | inr e ↦
        rw e (scan-settled i j il js (try_pair score il jr st).0 (try_pair-settled i j il jr st h))
  ]

  scan-Covered :
      (il : ℕ × L) (js : List (ℕ × R)) (st : State L R)
      → All (λ jr. Covered il jr (scan score il js st)) js
  unfolding scan
  scan-Covered il [] st = tt
  scan-Covered il (jr ∷ js) st =
      after (try_pair score il jr st) (try_pair-done il jr st) (try_pair-Covered il jr st)
        (scan-Covered il js (try_pair score il jr st).0)
    where
      paired-Covered :
          (st' : State L R)
          → has ℕ_discrete il.0 st'.paired_lefts ≡ true
          → (k : ℕ × R) → Covered il k st'
      paired-Covered st' h k = ground arith

      after :
          (o : State L R × Bool)
          → (o.1 ≡ true → has ℕ_discrete il.0 o.0.paired_lefts ≡ true)
          → Covered il jr o.0
          → All (λ k. Covered il k (scan score il js o.0)) js
          → All (λ k. Covered il k (if o.1 then o.0 else scan score il js o.0)) (jr ∷ js)
      after (st', true) done first rest = (
        paired-Covered st' (done refl) jr,
        All-every (λ k. Covered il k st') (paired-Covered st' (done refl)) js,
      )
      after (st', false) done first rest =
          (or_mono _ _ _ (scan-settled il.0 jr.0 il js st') first, rest)

  generate-settled :
      (i j : ℕ) (is : List (ℕ × L)) (js : List (ℕ × R)) (st : State L R)
      → settled i j st ≡ true
      → settled i j (generate score is js st) ≡ true
  unfolding generate
  generate-settled i j [] js st h = h
  generate-settled i j (il ∷ is) js st h =
      generate-settled i j is js (scan score il js st) (scan-settled i j il js st h)

  pub generate-Covered :
      (is : List (ℕ × L)) (js : List (ℕ × R)) (st : State L R)
      → All (λ il. All (λ jr. Covered il jr (generate score is js st)) js) is
  unfolding generate
  generate-Covered [] js st = tt
  generate-Covered (il ∷ is) js st = (
    All-map _ _ js
        (λ jr h. or_mono _ _ _ (generate-settled il.0 jr.0 is js (scan score il js st)) h)
        (scan-Covered il js st),
    generate-Covered is js (scan score il js st),
  )
