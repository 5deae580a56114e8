-- ===== src/Join/Score.antt =====
-- `Join` of join/join.go: the greedy join by a score. A slice is a list whose elements carry their
-- indices, so that the two maps of paired indices are the source's; an entry of `scored_pairs`
-- carries the elements with their indices, since neither slice changes while the join runs.
use k_elda_archive.Base.{
  ℕ, zero, suc, ◌==◌, Bool, true, false, ◌||◌, List, [], ◌∷◌, ◌++◌, if◌then◌else◌, length, has,
  insert_key, ℤ, pos, negsuc, ltb_ℤ, ℕ_discrete,
}
use k_elda_archive.Join.{Pair, Joined}

pub record ScoredPair (L R : Type 0) : Type 0 where
  pub left : ℕ × L
  pub right : ℕ × R
  pub score : ℤ

-- The variables of a run of `Join`.
pub record State (L R : Type 0) : Type 0 where
  pub paired_lefts : List ℕ
  pub paired_rights : List ℕ
  pub scored_pairs : List (ScoredPair L R)
  pub pairs : List (Pair L R)

-- The elements of a slice with their indices, from the index `i` on.
unfoldable pub enumerate : {A : Type 0} → ℕ → List A → List (ℕ × A)
enumerate i [] = []
enumerate i (x ∷ xs) = (i, x) ∷ enumerate (suc i) xs

module _ {L R : Type 0} where
  abbrev pub start : State L R
  start = record { paired_lefts = []; paired_rights = []; scored_pairs = []; pairs = [] }

  -- The two are paired: both loops do these three steps.
  unfoldable pub pair_up : ℕ × L → ℕ × R → State L R → State L R
  unfolding insert_key
  pair_up (i, l) (j, r) st = record st {
    pairs = st.pairs ++ record { l = l; r = r } ∷ [];
    paired_lefts = insert_key ℕ_discrete i st.paired_lefts;
    paired_rights = insert_key ℕ_discrete j st.paired_rights;
  }

  -- The part of the inner loop's body below the score: by its sign. The Boolean says that the left
  -- element was paired at once, `continue OuterPairing`.
  unfoldable pub by_score : ℤ → ℕ × L → ℕ × R → State L R → State L R × Bool
  by_score (pos zero) il jr st = (pair_up il jr st, true)
  by_score (pos (suc n)) il jr st = (
    record st {
      scored_pairs = st.scored_pairs ++ record { left = il; right = jr; score = pos (suc n) } ∷ [];
    },
    false,
  )
  by_score (negsuc n) il jr st = (st, false)

  -- The body of the inner loop, for one right element.
  unfoldable pub try_pair : (L → R → ℤ) → ℕ × L → ℕ × R → State L R → State L R × Bool
  unfolding by_score
  try_pair score il jr st =
      if has ℕ_discrete jr.0 st.paired_rights
      then (st, false)
      else by_score (score il.1 jr.1) il jr st

  -- The inner loop.
  unfoldable pub scan : (L → R → ℤ) → ℕ × L → List (ℕ × R) → State L R → State L R
  scan score il [] st = st
  scan score il (jr ∷ js) st =
      let (st', done) = try_pair score il jr st in
      let rest = scan score il js st' in if done then st' else rest

  -- The outer loop.
  unfoldable pub generate : (L → R → ℤ) → List (ℕ × L) → List (ℕ × R) → State L R → State L R
  unfolding scan
  generate score [] js st = st
  generate score (il ∷ is) js st = generate score is js (scan score il js st)

  -- `sort.SliceStable` by the score.
  unfoldable pub insert_by_score : ScoredPair L R → List (ScoredPair L R) → List (ScoredPair L R)
  insert_by_score p [] = p ∷ []
  insert_by_score p (q ∷ qs) =
      let rest = insert_by_score p qs in if ltb_ℤ q.score p.score then q ∷ rest else p ∷ q ∷ qs

  unfoldable pub sort_by_score : List (ScoredPair L R) → List (ScoredPair L R)
  unfolding insert_by_score
  sort_by_score [] = []
  sort_by_score (p ∷ ps) = insert_by_score p (sort_by_score ps)

  -- The body of the loop over the sorted pairs.
  unfoldable pub take_pair : ScoredPair L R → State L R → State L R
  take_pair p st =
      if has ℕ_discrete p.left.0 st.paired_lefts || has ℕ_discrete p.right.0 st.paired_rights
      then st
      else pair_up p.left p.right st

  -- The loop over the sorted pairs, which stops when all elements of one of the sides are paired.
  unfoldable pub collect : ℕ → ℕ → List (ScoredPair L R) → State L R → State L R
  unfolding take_pair
  collect n m [] st = st
  collect n m (p ∷ ps) st =
      let rest = collect n m ps (take_pair p st) in
      if length st.paired_lefts == n || length st.paired_rights == m then st else rest

-- The elements whose index is not among the paired ones, in their order.
unfoldable pub unpaired : {A : Type 0} → List ℕ → List (ℕ × A) → List A
unpaired paired [] = []
unpaired paired ((i, x) ∷ xs) =
    let rest = unpaired paired xs in if has ℕ_discrete i paired then rest else x ∷ rest

module _ {L R : Type 0} where
  -- The second phase of `Join`: the sorted pairs, and the elements that are left.
  unfoldable pub finish : List L → List R → State L R → State L R
  unfolding sort_by_score collect
  finish lefts rights st = collect (length lefts) (length rights) (sort_by_score st.scored_pairs) st

  unfoldable pub leftovers : List L → List R → State L R → Joined L R
  unfolding unpaired enumerate
  leftovers lefts rights st = record {
    pairs = st.pairs;
    lonely_lefts = unpaired st.paired_lefts (enumerate 0 lefts);
    lonely_rights = unpaired st.paired_rights (enumerate 0 rights);
  }

  -- The state when all pairs are made.
  unfoldable pub run : (L → R → ℤ) → List L → List R → State L R
  unfolding generate finish enumerate
  run score lefts rights =
      finish lefts rights (generate score (enumerate 0 lefts) (enumerate 0 rights) start)

  unfoldable pub join : (L → R → ℤ) → List L → List R → Joined L R
  unfolding run leftovers
  join score lefts rights = leftovers lefts rights (run score lefts rights)
