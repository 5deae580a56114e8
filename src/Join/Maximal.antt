-- ===== src/Join/Maximal.antt =====
-- join/join.go: the elements that `Join` leaves without a partner.
use k_elda_archive.Base.{
  ℕ, ◌≡◌, sym, ◌∙◌, Bool, true, false, ◌||◌, ◌==◌, List, [], ◌∷◌, ◌++◌, Perm, All, arith, ℤ, has,
  map, ==→eq, length-nil, length-perm, length-append, length-map, All-map, All-every, length,
  ℕ_discrete, Bool-cases, inl, inr,
}
use k_elda_archive.Join.Partition.{run-Inv}
use k_elda_archive.Join.Score.{
  State, enumerate, start, generate, sort_by_score, unpaired, finish, leftovers, run, join,
}
use k_elda_archive.Join.Settled.{
  is_negative, taken, waits-sort, or_mono, is_full, collect-taken, generate-Covered,
}

unpaired-All :
    {A : Type 0} (P : A → Type 0) (paired : List ℕ) (es : List (ℕ × A))
    → All (λ e. has ℕ_discrete e.0 paired ≡ false → P e.1) es
    → All P (unpaired paired es)
unfolding unpaired
unpaired-All P paired [] a = tt
unpaired-All P paired (e ∷ es) a = elim (Bool-cases (has ℕ_discrete e.0 paired)) [
  | inl h ↦ rw h (unpaired-All P paired es a.1)
  | inr h ↦ rw h (a.0 h, unpaired-All P paired es a.1)
]

-- All elements are paired when there are as many pairs.
none_left :
    {A P : Type 0} (f : P → A) (ps : List P) (rest whole : List A)
    → Perm (map f ps ++ rest) whole
    → length ps ≡ length whole
    → rest ≡ []
none_left f ps rest whole p h =
    length-nil rest
      (omega (arith, length-perm p, length-append (map f ps) rest, length-map f ps, h))

module _ {L R : Type 0} (score : L → R → ℤ) (lefts : List L) (rights : List R) where
  -- What holds of every two elements when all pairs are made.
  abbrev Decided : ℕ × L → ℕ × R → State L R → Type 0
  Decided il jr st =
      ((is_full (length lefts) (length rights) st || taken il.0 jr.0 st)
        || is_negative (score il.1 jr.1))
      ≡ true

  run-Decided :
      All
        (λ il. All (λ jr. Decided il jr (run score lefts rights)) (enumerate 0 rights))
        (enumerate 0 lefts)
  unfolding run finish
  run-Decided =
      let first = generate score (enumerate 0 lefts) (enumerate 0 rights) start in
      All-map _ _ _
        (λ il a.
          All-map _ _ _
            (λ jr h.
              or_mono _ _ _
                (λ s.
                  collect-taken (length lefts) (length rights) il.0 jr.0
                    (sort_by_score first.scored_pairs) first
                    (rw (waits-sort il.0 jr.0 first.scored_pairs) s))
                h)
            a)
        (generate-Covered score (enumerate 0 lefts) (enumerate 0 rights) start)

  -- The score of a lonely left and a lonely right element is negative: `Join` leaves no match behind.
  pub join-maximal :
      All
        (λ l. All (λ r. is_negative (score l r) ≡ true) (join score lefts rights).lonely_rights)
        (join score lefts rights).lonely_lefts
  unfolding join leftovers
  join-maximal =
      let v = run-Inv score lefts rights in
      let st = run score lefts rights in
      elim (Bool-cases (length st.paired_lefts == length lefts)) [
        | inl full ↦
            rw
              (none_left (λ p. p.l) st.pairs _ lefts v.split_lefts
                (sym v.count_lefts ∙ ==→eq _ _ full))
              tt
        | inr some_left ↦ elim (Bool-cases (length st.paired_rights == length rights)) [
          | inl full ↦
              rw
                (none_left (λ p. p.r) st.pairs _ rights v.split_rights
                  (sym v.count_rights ∙ ==→eq _ _ full))
                (All-every _ (λ l. tt) _)
          | inr some_right ↦ unpaired-All _ st.paired_lefts (enumerate 0 lefts) (
              All-map _ _ _
                (λ il a free.
                  unpaired-All _ st.paired_rights (enumerate 0 rights)
                    (All-map _ _ _ (λ jr h open'. decided some_left some_right free open' h) a))
                run-Decided)
        ]
      ]
    where
      decided :
          {a b c d e : Bool}
          → a ≡ false
          → b ≡ false
          → c ≡ false
          → d ≡ false
          → (((a || b) || (c || d)) || e) ≡ true
          → e ≡ true
      decided p q r s h = cc (p, q, r, s, h)
