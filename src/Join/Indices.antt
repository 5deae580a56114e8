-- ===== src/Join/Indices.antt =====
-- Lists with ascending indices, and what pairing one index does to the elements left over.
use mathlib.Core.List.Perm
use k_elda_archive.Base.{
  ℕ, suc, ◌<◌, ◌≤◌, ◌≡◌, refl, ap, ◌⊎◌, inl, inr, true, false, List, [], ◌∷◌, arith, has,
  insert_key, All, ℕ_discrete, ite, Perm,
}
use k_elda_archive.Join.Score.{enumerate, unpaired}

-- The indices are `k`, `k + 1` and so on.
abbrev pub From : {A : Type 0} → ℕ → List (ℕ × A) → Type 0
From k [] = Unit
From k (e ∷ es) = (e.0 ≡ k) × From (suc k) es

-- The list holds this element under this index.
abbrev pub Entry : {A : Type 0} → ℕ × A → List (ℕ × A) → Type 0
Entry p [] = ⊥
Entry p (e ∷ es) = ((p.0 ≡ e.0) × (p.1 ≡ e.1)) ⊎ Entry p es

pub has-insert_key :
    (k i : ℕ) (s : List ℕ)
    → has ℕ_discrete k (insert_key ℕ_discrete i s) ≡ ite (ℕ_discrete k i) true (has ℕ_discrete k s)
unfolding insert_key has
has-insert_key k i s = ground arith

module _ {A : Type 0} where
  pub enumerate-From : (k : ℕ) (xs : List A) → From k (enumerate k xs)
  unfolding enumerate
  enumerate-From k [] = tt
  enumerate-From k (x ∷ xs) = (refl, enumerate-From (suc k) xs)

  Entry-ge : (k : ℕ) (p : ℕ × A) (es : List (ℕ × A)) → From k es → Entry p es → k ≤ p.0
  Entry-ge k p [] f e = absurd e
  Entry-ge k p (x ∷ es) f (inl e) = omega arith
  Entry-ge k p (x ∷ es) f (inr e) = omega (arith, Entry-ge (suc k) p es f.1 e)

  unpaired-insert_above :
      (k i : ℕ) (s : List ℕ) (es : List (ℕ × A))
      → From k es
      → i < k
      → unpaired (insert_key ℕ_discrete i s) es ≡ unpaired s es
  unfolding unpaired
  unpaired-insert_above k i s [] f h = refl
  unpaired-insert_above k i s (e ∷ es) f h =
      ground (arith, has-insert_key e.0 i s, unpaired-insert_above (suc k) i s es f.1)

  -- To pair one more index takes its element out of those left over.
  pub unpaired-insert_perm :
      (k : ℕ) (s : List ℕ) (p : ℕ × A) (es : List (ℕ × A))
      → From k es
      → Entry p es
      → has ℕ_discrete p.0 s ≡ false
      → Perm (unpaired s es) (p.1 ∷ unpaired (insert_key ℕ_discrete p.0 s) es)
  unfolding unpaired
  unpaired-insert_perm k s p [] f e h = absurd e
  unpaired-insert_perm k s p (x ∷ es) f (inl e) h = ground (
    arith,
    has-insert_key x.0 p.0 s,
    unpaired-insert_above (suc k) p.0 s es f.1,
    Perm.refl (x.1 ∷ unpaired s es),
  )
  unpaired-insert_perm k s p (x ∷ es) f (inr e) h =
      let later : Perm (unpaired s es) (p.1 ∷ unpaired (insert_key ℕ_discrete p.0 s) es) =
        unpaired-insert_perm (suc k) s p es f.1 e h in
      ground (
        arith,
        Entry-ge (suc k) p es f.1 e,
        has-insert_key x.0 p.0 s,
        later,
        Perm.trans (Perm.cons x.1 later)
            (Perm.swap p.1 x.1 (unpaired (insert_key ℕ_discrete p.0 s) es)),
      )

-- Nothing is left over exactly when every element is paired.
pub unpaired_none : {A : Type 0} (k : ℕ) (xs : List A) → unpaired [] (enumerate k xs) ≡ xs
unfolding unpaired enumerate has
unpaired_none k [] = refl
unpaired_none k (x ∷ xs) = ap (◌∷◌ x) (unpaired_none (suc k) xs)

pub has_above : (k : ℕ) (s : List ℕ) → All (λ i. i < k) s → has ℕ_discrete k s ≡ false
unfolding has
has_above k [] a = refl
has_above k (i ∷ s) a = ground (arith, has_above k s a.1)
