-- ===== src/Join/Partial.antt =====
-- `Join` of join/join.go with a score function that may panic: the panic ends the join.
use k_elda_archive.Base.{
  ℕ, ◌≡◌, refl, Bool, true, false, List, [], ◌∷◌, if◌then◌else◌, has, ℤ, ℕ_discrete, All, Outcome,
  ok, ◌>>=◌, Bool-cases, inl, inr,
}
use k_elda_archive.Join.{Joined}
use k_elda_archive.Join.Score.{
  State, enumerate, start, by_score, try_pair, scan, generate, finish, leftovers, run, join,
}

module _ {L R : Type 0} where
  unfoldable pub try_pair_or_panic :
      (L → R → Outcome ℤ) → ℕ × L → ℕ × R → State L R → Outcome (State L R × Bool)
  unfolding by_score
  try_pair_or_panic score il jr st =
      if has ℕ_discrete jr.0 st.paired_rights
      then ok (st, false)
      else (score il.1 jr.1 >>= λ z. ok (by_score z il jr st))

  unfoldable pub scan_or_panic :
      (L → R → Outcome ℤ) → ℕ × L → List (ℕ × R) → State L R → Outcome (State L R)
  unfolding try_pair_or_panic
  scan_or_panic score il [] st = ok st
  scan_or_panic score il (jr ∷ js) st = do
    (st', done) ← try_pair_or_panic score il jr st
    let rest = scan_or_panic score il js st'
    if done then ok st' else rest

  unfoldable pub generate_or_panic :
      (L → R → Outcome ℤ) → List (ℕ × L) → List (ℕ × R) → State L R → Outcome (State L R)
  unfolding scan_or_panic
  generate_or_panic score [] js st = ok st
  generate_or_panic score (il ∷ is) js st = do
    st' ← scan_or_panic score il js st
    generate_or_panic score is js st'

  unfoldable pub join_or_panic : (L → R → Outcome ℤ) → List L → List R → Outcome (Joined L R)
  unfolding generate_or_panic finish leftovers enumerate
  join_or_panic score lefts rights = do
    st ← generate_or_panic score (enumerate 0 lefts) (enumerate 0 rights) start
    ok (leftovers lefts rights (finish lefts rights st))

module _ {L R : Type 0} (P : L → Type 0) (Q : R → Type 0) (score : L → R → Outcome ℤ)
    (f : L → R → ℤ) (total : (l : L) (r : R) → P l → Q r → score l r ≡ ok (f l r)) where
  try_pair-total :
      (il : ℕ × L) (jr : ℕ × R) (st : State L R)
      → P il.1
      → Q jr.1
      → try_pair_or_panic score il jr st ≡ ok (try_pair f il jr st)
  unfolding try_pair_or_panic try_pair
  try_pair-total il jr st p q = elim (Bool-cases (has ℕ_discrete jr.0 st.paired_rights)) [
    | inl taken ↦ rw taken refl
    | inr free ↦ rw (free, total il.1 jr.1 p q) refl
  ]

  scan-total :
      (il : ℕ × L) (js : List (ℕ × R)) (st : State L R)
      → P il.1
      → All (λ jr. Q jr.1) js
      → scan_or_panic score il js st ≡ ok (scan f il js st)
  unfolding scan_or_panic scan
  scan-total il [] st p q = refl
  scan-total il (jr ∷ js) st p q =
      rw (try_pair-total il jr st p q.0)
        (stop (try_pair f il jr st) (scan-total il js (try_pair f il jr st).0 p q.1))
    where
      stop :
          (o : State L R × Bool)
          → scan_or_panic score il js o.0 ≡ ok (scan f il js o.0)
          → (if o.1 then ok o.0 else scan_or_panic score il js o.0)
            ≡ ok (if o.1 then o.0 else scan f il js o.0)
      stop (st', true) e = refl
      stop (st', false) e = e

  generate-total :
      (is : List (ℕ × L)) (js : List (ℕ × R)) (st : State L R)
      → All (λ il. P il.1) is
      → All (λ jr. Q jr.1) js
      → generate_or_panic score is js st ≡ ok (generate f is js st)
  unfolding generate_or_panic generate
  generate-total [] js st p q = refl
  generate-total (il ∷ is) js st p q =
      rw (scan-total il js st p.0 q) (generate-total is js (scan f il js st) p.1 q)

  enumerate-All :
      {A : Type 0} (S : A → Type 0) (k : ℕ) (xs : List A)
      → All S xs
      → All (λ e. S e.1) (enumerate k xs)
  unfolding enumerate
  enumerate-All S k [] a = tt
  enumerate-All S k (x ∷ xs) a = (a.0, enumerate-All S _ xs a.1)

  -- Where the score does not panic on the elements of the slices, neither does the join.
  pub join-total :
      (lefts : List L) (rights : List R)
      → All P lefts
      → All Q rights
      → join_or_panic score lefts rights ≡ ok (join f lefts rights)
  unfolding join_or_panic join run
  join-total lefts rights p q =
      rw
        (generate-total (enumerate 0 lefts) (enumerate 0 rights) start (enumerate-All P 0 lefts p)
          (enumerate-All Q 0 rights q))
        refl
