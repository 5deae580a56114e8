-- ===== src/Base/Lists.antt =====
-- Lists measured by native numbers, and membership as a Boolean test.
use Prim.Native.Nat.{ℕ, suc, ◌+◌}
use mathlib.Core.Bool.{Bool, true, false}
use mathlib.Core.List.{
  List, [], ◌∷◌, ◌++◌, map, Perm, Permᴰ, Mem, mem-cons_self, mem-cons_of_mem, not-mem-nil, mem-cons,
}
use mathlib.Core.Logic.{inl, inr, ite, ∥∥₁_elim}
use mathlib.Core.Logic.Or
use mathlib.Core.List.{map-append, append_assoc}
use mathlib.Core.List.Perm
use mathlib.Core.Path.{◌≡◌, refl, ap, ◌∙◌}
use native.Mathlib.Omega.{arith}
use native.Mathlib.Nat.{ℕ_set}
use k_elda_archive.Base.Tests.{if◌then◌else◌, Bool-cases}

module _ {ℓ} {A : Type ℓ} where
  abbrev pub length : List A → ℕ
  length [] = 0
  length (x ∷ xs) = suc (length xs)

  pub length-append : (xs ys : List A) → length (xs ++ ys) ≡ length xs + length ys
  length-append [] ys = omega arith
  length-append (x ∷ xs) ys = omega (arith, length-append xs ys)

  pub length-nil : (xs : List A) → length xs ≡ 0 → xs ≡ []
  length-nil [] h = refl
  length-nil (x ∷ xs) h = absurd (omega arith)

  length-permᴰ : {xs ys : List A} → Permᴰ xs ys → length xs ≡ length ys
  length-permᴰ Permᴰ.nil = refl
  length-permᴰ (Permᴰ.cons e p) = ap suc (length-permᴰ p)
  length-permᴰ (Permᴰ.swap e f) = refl
  length-permᴰ (Permᴰ.trans p q) = length-permᴰ p ∙ length-permᴰ q

  pub length-perm : {xs ys : List A} → Perm xs ys → length xs ≡ length ys
  length-perm p = ∥∥₁_elim p (ℕ_set _ _) length-permᴰ

  -- `filter` by a Boolean test.
  unfoldable pub keep : (A → Bool) → List A → List A
  keep p [] = []
  keep p (x ∷ xs) = let rest = keep p xs in if p x then x ∷ rest else rest

  -- What holds of every element.
  abbrev pub All {κ} : (A → Type κ) → List A → Type κ
  All P [] = Unit
  All P (x ∷ xs) = P x × All P xs

pub All-append {ℓ κ} :
    {A : Type ℓ} (P : A → Type κ) (xs ys : List A) → All P xs → All P ys → All P (xs ++ ys)
All-append P [] ys h k = k
All-append P (x ∷ xs) ys h k = (h.0, All-append P xs ys h.1 k)

pub All-every {ℓ κ} : {A : Type ℓ} (P : A → Type κ) → ((x : A) → P x) → (xs : List A) → All P xs
All-every P h [] = tt
All-every P h (x ∷ xs) = (h x, All-every P h xs)

pub All-map {ℓ κ μ} :
    {A : Type ℓ} (P : A → Type κ) (Q : A → Type μ) (xs : List A)
    → ((x : A) → P x → Q x)
    → All P xs
    → All Q xs
All-map P Q [] f a = tt
All-map P Q (x ∷ xs) f a = (f x a.0, All-map P Q xs f a.1)

pub length-map {ℓ κ} :
    {A : Type ℓ} {B : Type κ} (f : A → B) (xs : List A) → length (map f xs) ≡ length xs
length-map f [] = refl
length-map f (x ∷ xs) = ap suc (length-map f xs)

-- A new pair at the end, and its element out of the rest.
pub move_out :
    {A B : Type 0} (f : B → A) (ps : List B) (p : B) (rest rest' whole : List A)
    → Perm (map f ps ++ rest) whole
    → Perm rest (f p ∷ rest')
    → Perm (map f (ps ++ p ∷ []) ++ rest') whole
move_out f ps p rest rest' whole h e =
    rw (map-append f ps (p ∷ []), append_assoc (map f ps) (f p ∷ []) rest')
      (Perm.trans (Perm.append_left (map f ps) (Perm.symm e)) h)

module _ {ℓ} {A : Type ℓ} (dec : Discrete A) where
  unfoldable pub has : A → List A → Bool
  has x [] = false
  has x (y ∷ ys) = ite (dec x y) true (has x ys)

  -- Insertion into a set of keys: a map to the empty struct.
  unfoldable pub insert_key : A → List A → List A
  insert_key x s = if has x s then s else x ∷ s

  pub has_self : (x : A) (ys : List A) → has x (x ∷ ys) ≡ true
  unfolding has
  has_self x ys = ground arith

  pub has-append : (x : A) (ys zs : List A) → has x ys ≡ true → has x (ys ++ zs) ≡ true
  unfolding has
  has-append x [] zs h = cc
  has-append x (y ∷ ys) zs h = ground (arith, has-append x ys zs)

  pub has-append_right : (x : A) (ys zs : List A) → has x zs ≡ true → has x (ys ++ zs) ≡ true
  unfolding has
  has-append_right x [] zs h = h
  has-append_right x (y ∷ ys) zs h = ground (arith, has-append_right x ys zs)

  pub mem_of_has : (x : A) (ys : List A) → has x ys ≡ true → Mem x ys
  unfolding has
  mem_of_has x [] h = cc
  mem_of_has x (y ∷ ys) h = elim (dec x y) [
    | yes e ↦ rw e mem-cons_self
    | no n ↦ mem-cons_of_mem y (mem_of_has x ys (ground arith))
  ]

  pub not_mem_of_has : (x : A) (ys : List A) → has x ys ≡ false → ¬ Mem x ys
  unfolding has
  not_mem_of_has x [] h m = not-mem-nil m
  not_mem_of_has x (y ∷ ys) h m =
      Or.elim (λ a b. absurd a) (mem-cons.0 m) (λ e. ground arith)
        (not_mem_of_has x ys (ground arith))

  pub length-insert_key :
      (x : A) (s : List A) → has x s ≡ false → length (insert_key x s) ≡ suc (length s)
  unfolding insert_key
  length-insert_key x s h = ground arith

  pub has_of_mem : (x : A) (ys : List A) → Mem x ys → has x ys ≡ true
  has_of_mem x ys m = elim (Bool-cases (has x ys)) [
    | inl h ↦ h
    | inr h ↦ absurd (not_mem_of_has x ys h m)
  ]
