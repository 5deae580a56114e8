-- ===== src/Join.antt =====
-- join/join.go: the two joins of slices. The counters that the package keeps have no effect on the
-- results, and are left out here.
pub mod Score
pub mod Indices
pub mod Partition
pub mod Hash
pub mod HashLaws
pub mod Contract
pub mod Lonely
pub mod Settled
pub mod Maximal
pub mod Matched
pub mod Partial
use k_elda_archive.Base.{List, map}

-- An element of the left slice with the element of the right slice that it was matched with.
pub record Pair (L R : Type 0) : Type 0 where
  pub l : L
  pub r : R

-- What a join returns: the pairs, and the elements of either side that were not matched.
pub record Joined (L R : Type 0) : Type 0 where
  pub pairs : List (Pair L R)
  pub lonely_lefts : List L
  pub lonely_rights : List R

abbrev pub lefts_of : {L R : Type 0} → List (Pair L R) → List L
lefts_of = map (λ p. p.l)

abbrev pub rights_of : {L R : Type 0} → List (Pair L R) → List R
rights_of = map (λ p. p.r)
