-- ===== src/Examples/Joins.antt =====
-- The joins on numbers.
use k_elda_archive.Base.{
  true, ℕ, ◌+◌, false, ◌≡◌, refl, List, [], ◌∷◌, ◌++◌, Perm, Mem, Nodup, All, ℤ, pos, negsuc,
  Outcome, ok, panic, in_order, ℕ_discrete, Nodup-of_Distinct, has, ltb, if◌then◌else◌, ◌==◌,
}
use k_elda_archive.Join.{lefts_of, rights_of}
use k_elda_archive.Join.Contract.{IsHashJoin, accounted, hash_join-IsHashJoin, hash_join-lefts_perm}
use k_elda_archive.Join.Hash.{hash_join}
use k_elda_archive.Join.Lonely.{hash_join-lonely_rights}
use k_elda_archive.Join.Maximal.{join-maximal}
use k_elda_archive.Join.Settled.{is_negative}
use k_elda_archive.Join.Partition.{join-perm}
use k_elda_archive.Join.Score.{join}

-- Equal numbers pair at once, others by their sum; none above ten pairs.
abbrev by_sum : ℕ → ℕ → ℤ
by_sum l r = if l == r then pos 0 else (if ltb 10 (l + r) then negsuc 0 else pos (l + r))

abbrev sum_or_panic : ℕ → ℕ → Outcome ℤ
sum_or_panic l r = if l == 0 then panic else ok (by_sum l r)

abbrev lefts : List ℕ
lefts = 3 ∷ 1 ∷ 2 ∷ []

abbrev rights : List ℕ
rights = 2 ∷ 9 ∷ 4 ∷ []

join-perm_example :
    Perm
      (lefts_of (join by_sum lefts rights).pairs ++ (join by_sum lefts rights).lonely_lefts)
      lefts
    × Perm
        (rights_of (join by_sum lefts rights).pairs ++ (join by_sum lefts rights).lonely_rights)
        rights
join-perm_example = join-perm by_sum lefts rights

hash_join-IsHashJoin_example :
    IsHashJoin
      (λ x. x)
      (λ x. x)
      lefts
      rights
      (hash_join ℕ_discrete in_order (λ x. x) (λ x. x) lefts rights)
hash_join-IsHashJoin_example =
    hash_join-IsHashJoin ℕ_discrete in_order (λ x. x) (λ x. x) lefts rights

lefts-Nodup : Nodup lefts
unfolding has ℕ_discrete
lefts-Nodup = Nodup-of_Distinct ℕ_discrete lefts (refl, (refl, (refl, tt)))

rights-Nodup : Nodup rights
unfolding has ℕ_discrete
rights-Nodup = Nodup-of_Distinct ℕ_discrete rights (refl, (refl, (refl, tt)))

hash_join-lefts_perm_example :
    Perm
      (accounted
        (λ x. x)
        (λ x. x)
        lefts
        rights
        (hash_join ℕ_discrete in_order (λ x. x) (λ x. x) lefts rights))
      lefts
hash_join-lefts_perm_example =
    hash_join-lefts_perm ℕ_discrete in_order (λ x. x) (λ x. x) lefts rights lefts-Nodup

hash_join-lonely_rights_example :
    All
      (λ r. ¬ Mem r lefts)
      (hash_join ℕ_discrete in_order (λ x. x) (λ x. x) lefts rights).lonely_rights
hash_join-lonely_rights_example =
    hash_join-lonely_rights ℕ_discrete in_order (λ x. x) (λ x. x) lefts rights rights-Nodup

sum-total : (l r : ℕ) → (l == 0) ≡ false → Unit {0} → sum_or_panic l r ≡ ok (by_sum l r)
sum-total l r h u = rw h refl

join-maximal_example :
    All
      (λ l. All (λ r. is_negative (by_sum l r) ≡ true) (join by_sum lefts rights).lonely_rights)
      (join by_sum lefts rights).lonely_lefts
join-maximal_example = join-maximal by_sum lefts rights
