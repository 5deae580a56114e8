-- ===== src/Join/Matched.antt =====
-- join/join.go: the elements that `Join` pairs.
use k_elda_archive.Base.{
  ℕ, zero, suc, ◌==◌, ◌≡◌, refl, ap, false, ◌||◌, List, [], ◌∷◌, All, All-append, ℤ, pos, negsuc,
  has, length, ℕ_discrete, Bool-cases, inl, inr,
}
use k_elda_archive.Join.Partition.{sort-All}
use k_elda_archive.Join.Score.{
  ScoredPair, State, enumerate, start, pair_up, by_score, try_pair, scan, generate, take_pair,
  collect, finish, leftovers, run, join,
}
use k_elda_archive.Join.Settled.{is_negative}

module _ {L R : Type 0} (score : L → R → ℤ) where
  -- All pairs, and all that wait, have a score that is not negative.
  abbrev Matched : State L R → Type 0
  Matched st =
      All (λ p. is_negative (score p.l p.r) ≡ false) st.pairs
      × All (λ p. is_negative (score p.left.1 p.right.1) ≡ false) st.scored_pairs

  pair_up-Matched :
      (il : ℕ × L) (jr : ℕ × R) (st : State L R)
      → is_negative (score il.1 jr.1) ≡ false
      → Matched st
      → Matched (pair_up il jr st)
  unfolding pair_up
  pair_up-Matched il jr st h v = (All-append _ st.pairs _ v.0 (h, tt), v.1)

  by_score-Matched :
      (z : ℤ) (il : ℕ × L) (jr : ℕ × R) (st : State L R)
      → score il.1 jr.1 ≡ z
      → Matched st
      → Matched (by_score z il jr st).0
  unfolding by_score
  by_score-Matched (pos zero) il jr st e v = pair_up-Matched il jr st (ap is_negative e) v
  by_score-Matched (pos (suc n)) il jr st e v =
      (v.0, All-append _ st.scored_pairs _ v.1 (ap is_negative e, tt))
  by_score-Matched (negsuc n) il jr st e v = v

  try_pair-Matched :
      (il : ℕ × L) (jr : ℕ × R) (st : State L R) → Matched st → Matched (try_pair score il jr st).0
  unfolding try_pair
  try_pair-Matched il jr st v = elim (Bool-cases (has ℕ_discrete jr.0 st.paired_rights)) [
    | inl h ↦ rw h v
    | inr h ↦ rw h (by_score-Matched (score il.1 jr.1) il jr st refl v)
  ]

  scan-Matched :
      (il : ℕ × L) (js : List (ℕ × R)) (st : State L R) → Matched st → Matched (scan score il js st)
  unfolding scan
  scan-Matched il [] st v = v
  scan-Matched il (jr ∷ js) st v =
      let step = try_pair-Matched il jr st v in
      elim (Bool-cases (try_pair score il jr st).1) [
        | inl h ↦ rw h step
        | inr h ↦ rw h (scan-Matched il js (try_pair score il jr st).0 step)
      ]

  generate-Matched :
      (is : List (ℕ × L)) (js : List (ℕ × R)) (st : State L R)
      → Matched st
      → Matched (generate score is js st)
  unfolding generate
  generate-Matched [] js st v = v
  generate-Matched (il ∷ is) js st v =
      generate-Matched is js (scan score il js st) (scan-Matched il js st v)

  take_pair-Matched :
      (p : ScoredPair L R) (st : State L R)
      → is_negative (score p.left.1 p.right.1) ≡ false
      → Matched st
      → Matched (take_pair p st)
  unfolding take_pair
  take_pair-Matched p st h v =
      elim (Bool-cases
        (has ℕ_discrete p.left.0 st.paired_lefts || has ℕ_discrete p.right.0 st.paired_rights)) [
          | inl e ↦ rw e v
          | inr e ↦ rw e (pair_up-Matched p.left p.right st h v)
        ]

  collect-Matched :
      (n m : ℕ) (ps : List (ScoredPair L R)) (st : State L R)
      → All (λ p. is_negative (score p.left.1 p.right.1) ≡ false) ps
      → Matched st
      → Matched (collect n m ps st)
  unfolding collect
  collect-Matched n m [] st a v = v
  collect-Matched n m (p ∷ ps) st a v =
      let rest = collect-Matched n m ps (take_pair p st) a.1 (take_pair-Matched p st a.0 v) in
      elim (Bool-cases (length st.paired_lefts == n || length st.paired_rights == m)) [
        | inl e ↦ rw e v
        | inr e ↦ rw e rest
      ]

  -- No two elements are paired whose score is negative.
  pub join-matched :
      (lefts : List L) (rights : List R)
      → All (λ p. is_negative (score p.l p.r) ≡ false) (join score lefts rights).pairs
  unfolding join leftovers run finish
  join-matched lefts rights =
      let first = generate-Matched (enumerate 0 lefts) (enumerate 0 rights) start (tt, tt) in
      (collect-Matched (length lefts) (length rights) _ _ (sort-All lefts rights _ _ first.1)
        first).0
