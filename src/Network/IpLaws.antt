-- ===== src/Network/IpLaws.antt =====
-- What `allocateIP` gives.
use native.Mathlib.Nat.{mod-lt, mod-eq_of_lt, add-mod_right}
use k_elda_archive.Base.{
  ℕ, suc, zero, ◌+◌, ◌-◌, ◌%◌, ◌<◌, ◌≤◌, ◌≡◌, refl, ap, subst, ◌∙◌, String, true, false, List, ◌∷◌,
  Option, none, some, Outcome, ok, err, panic, has, str_discrete, arith, Bool-cases, inl, inr, leb,
}
use k_elda_archive.Network.Ip.{IpPool, try_offsets, take_ip, allocate_ip}

module _ (show : ℕ → String) (base size : ℕ) (rand32 : ℕ → ℕ) where
  -- The address was free, is of the subnet, and is reserved now; or, with an error, every address
  -- of the subnet is reserved.
  abbrev pub IsAllocation : IpPool → Outcome (String × IpPool) → Type 0
  IsAllocation pool (ok (ip, after)) =
      (has str_discrete ip pool.reserved ≡ false)
      × ((i : ℕ) × (i < size) × (ip ≡ show (base + i)))
      × (after.reserved ≡ ip ∷ pool.reserved)
  IsAllocation pool (err e) =
      (i : ℕ) → i < size → has str_discrete (show (base + i)) pool.reserved ≡ true
  IsAllocation pool panic = ⊥

  abbrev Found : ℕ → ℕ → ℕ → List String → Option String → Type 0
  Found left start offset reserved (some ip) =
      (has str_discrete ip reserved ≡ false) × ((i : ℕ) × (i < size) × (ip ≡ show (base + i)))
  Found left start offset reserved none =
      (k : ℕ)
      → offset ≤ k
      → k < offset + left
      → has str_discrete (show (base + (start + k) % size)) reserved ≡ true

  try_offsets-Found :
      (left start offset : ℕ) (reserved : List String)
      → 0 < size
      → Found left start offset reserved
          (try_offsets show base size rand32 left start offset reserved)
  unfolding try_offsets
  try_offsets-Found zero start offset reserved p = λ k h l. absurd (omega arith)
  try_offsets-Found (suc left) start offset reserved p =
      let x : ℕ = (start + offset) % size in
      elim (Bool-cases (has str_discrete (show (base + x)) reserved)) [
        | inl taken ↦
            rw taken (widen _ taken (try_offsets-Found left start (suc offset) reserved p))
        | inr free ↦ rw free (free, (x, mod-lt (start + offset) p, refl))
      ]
    where
      widen :
          (o : Option String)
          → has str_discrete (show (base + (start + offset) % size)) reserved ≡ true
          → Found left start (suc offset) reserved o
          → Found (suc left) start offset reserved o
      widen (some ip) taken f = f
      widen none taken f = λ k h l. elim (Bool-cases (leb (suc offset) k)) [
        | inl later ↦ f k (ground arith) (omega arith)
        | inr now ↦
            subst (λ j. has str_discrete (show (base + (start + j) % size)) reserved ≡ true)
              (ground arith) taken
      ]

  -- Every address of the subnet comes up at some offset.
  wraps : (start i : ℕ) → start < size → i < size → (k : ℕ) × (k < size) × ((start + k) % size ≡ i)
  wraps start i s h = elim (Bool-cases (leb start i)) [
    | inl above ↦
        let le : start ≤ i = ground arith in
        (i - start, omega arith, ap (λ n. n % size) (omega arith) ∙ mod-eq_of_lt h)
    | inr below ↦
        let lt : i < start = ground arith in
        (
          (i + size) - start,
          omega arith,
          ap (λ n. n % size) (omega arith) ∙ add-mod_right i size ∙ mod-eq_of_lt h,
        )
  ]

  -- If the subnet has an address, `allocateIP` does not panic; it gives an address of the subnet
  -- that was not reserved and reserves just that one; and it fails only if every address of the
  -- subnet is reserved.
  pub allocate_ip-IsAllocation :
      (pool : IpPool) → 0 < size → IsAllocation pool (allocate_ip show base size rand32 pool)
  unfolding allocate_ip take_ip
  allocate_ip-IsAllocation pool p = taken _ (try_offsets-Found size start 0 pool.reserved p)
    where
      start : ℕ
      start = rand32 pool.drawn % size

      taken :
          (o : Option String)
          → Found size start 0 pool.reserved o
          → IsAllocation pool (take_ip show base size rand32 pool o)
      taken (some ip) f = (f.0, f.1, refl)
      taken none f = λ i h.
          let w = wraps start i (mod-lt (rand32 pool.drawn) p) h in
          subst (λ j. has str_discrete (show (base + j)) pool.reserved ≡ true) w.2
            (f w.0 (omega arith) (omega arith))
