-- ===== src/Base/Assoc.antt =====
-- Go's maps as association lists with distinct keys. A map is ranged over in an order of its own
-- each time: `MapRange` is that order.
use mathlib.Core.Bool.{true, false}
use mathlib.Core.List.{List, [], ◌∷◌, ◌++◌, map, Perm, Nodup, Nodup-nil, Nodup-cons}
use mathlib.Core.List.Perm
use mathlib.Core.Logic.{◌≢◌, inl, inr, ite, if_pos, if_neg}
use mathlib.Core.Option.{Option, none, some}
use mathlib.Core.Path.{◌≡◌, refl, subst}
use native.Mathlib.Omega.{arith}
use k_elda_archive.Base.Lists.{has, mem_of_has, not_mem_of_has}
use k_elda_archive.Base.Tests.{Bool-cases}

-- The order in which a run ranges over a map: any rearrangement of the entries.
pub record MapRange (A : Type 0) : Type 0 where
  pub range : List A → List A
  pub range-perm : (xs : List A) → Perm (range xs) xs

-- The order of insertion, for tests.
abbrev pub in_order : {A : Type 0} → MapRange A
in_order = record { range = λ xs. xs; range-perm = Perm.refl }

module _ {K V : Type 0} (dec : Discrete K) where
  -- `m[k]`
  unfoldable pub get : K → List (K × V) → Option V
  get k [] = none
  get k (e ∷ m) = ite (dec k e.0) (some e.1) (get k m)

  -- `m[k] = v`
  unfoldable pub put : K → V → List (K × V) → List (K × V)
  put k v [] = (k, v) ∷ []
  put k v (e ∷ m) = ite (dec k e.0) ((k, v) ∷ m) (e ∷ put k v m)

  -- `delete(m, k)`
  unfoldable pub delete : K → List (K × V) → List (K × V)
  delete k [] = []
  delete k (e ∷ m) = ite (dec k e.0) m (e ∷ delete k m)

abbrev pub keys : {K V : Type 0} → List (K × V) → List K
keys = map (λ e. e.0)

abbrev pub values : {K V : Type 0} → List (K × V) → List V
values = map (λ e. e.1)

-- No key stands twice.
module _ {K : Type 0} (dec : Discrete K) where
  abbrev pub Distinct : List K → Type 0
  Distinct [] = Unit
  Distinct (k ∷ ks) = (has dec k ks ≡ false) × Distinct ks

  pub Nodup-of_Distinct : (ks : List K) → Distinct ks → Nodup ks
  Nodup-of_Distinct [] d = Nodup-nil
  Nodup-of_Distinct (k ∷ ks) d =
      Nodup-cons.1 (not_mem_of_has dec k ks d.0, Nodup-of_Distinct ks d.1)

  pub Distinct-of_Nodup : (ks : List K) → Nodup ks → Distinct ks
  Distinct-of_Nodup [] d = tt
  Distinct-of_Nodup (k ∷ ks) d = (
    elim (Bool-cases (has dec k ks)) [
      | inl h ↦ absurd ((Nodup-cons.0 d).0 (mem_of_has dec k ks h))
      | inr h ↦ h
    ],
    Distinct-of_Nodup ks (Nodup-cons.0 d).1,
  )

module _ {K V : Type 0} (dec : Discrete K) where
  pub get-put :
      (j k : K) (v : V) (m : List (K × V))
      → get dec j (put dec k v m) ≡ ite (dec j k) (some v) (get dec j m)
  unfolding get put
  get-put j k v [] = refl
  get-put j k v (e ∷ m) = ground (arith, get-put j k v m)

  pub has-keys-put :
      (j k : K) (v : V) (m : List (K × V))
      → has dec j (keys (put dec k v m)) ≡ ite (dec j k) true (has dec j (keys m))
  unfolding put has
  has-keys-put j k v [] = refl
  has-keys-put j k v (e ∷ m) = ground (arith, has-keys-put j k v m)

  pub put-Distinct :
      (k : K) (v : V) (m : List (K × V))
      → Distinct dec (keys m)
      → Distinct dec (keys (put dec k v m))
  unfolding put has
  put-Distinct k v [] d = (refl, tt)
  put-Distinct k v (e ∷ m) d = ground (arith, has-keys-put e.0 k v m, put-Distinct k v m d.1)

  pub put-new :
      (k : K) (v : V) (m : List (K × V))
      → has dec k (keys m) ≡ false
      → put dec k v m ≡ m ++ (k, v) ∷ []
  unfolding put has
  put-new k v [] h = refl
  put-new k v (e ∷ m) h = ground (arith, put-new k v m)

  pub has-of_get :
      (k : K) (m : List (K × V)) (v : V) → get dec k m ≡ some v → has dec k (keys m) ≡ true
  unfolding get has
  has-of_get k [] v h = cc
  has-of_get k (e ∷ m) v h = ground (arith, has-of_get k m v)

  pub has-of_get-none : (k : K) (m : List (K × V)) → get dec k m ≡ none → has dec k (keys m) ≡ false
  unfolding get has
  has-of_get-none k [] h = refl
  has-of_get-none k (e ∷ m) h = ground (arith, has-of_get-none k m)

  pub has-keys-delete :
      (j k : K) (m : List (K × V))
      → has dec j (keys m) ≡ false
      → has dec j (keys (delete dec k m)) ≡ false
  unfolding delete has
  has-keys-delete j k [] h = refl
  has-keys-delete j k (e ∷ m) h = ground (arith, has-keys-delete j k m)

  pub has-keys-delete_self :
      (k : K) (m : List (K × V)) → Distinct dec (keys m) → has dec k (keys (delete dec k m)) ≡ false
  unfolding delete has
  has-keys-delete_self k [] d = refl
  has-keys-delete_self k (e ∷ m) d = ground (arith, has-keys-delete_self k m d.1)

  pub delete-Distinct :
      (k : K) (m : List (K × V)) → Distinct dec (keys m) → Distinct dec (keys (delete dec k m))
  unfolding delete
  delete-Distinct k [] d = tt
  delete-Distinct k (e ∷ m) d = ground (arith, delete-Distinct k m d.1, has-keys-delete e.0 k m)

  -- Deleting a key takes its entry out.
  pub delete-perm :
      (k : K) (m : List (K × V)) (v : V) → get dec k m ≡ some v → Perm m ((k, v) ∷ delete dec k m)
  unfolding get delete
  delete-perm k [] v h = cc
  delete-perm k (e ∷ m) v h = elim (dec k e.0) [
    | yes p ↦ rw (if_pos _ p) (Perm.cons' (ground arith) Perm.rfl)
    | no n ↦
        rw (if_neg _ n)
          (Perm.trans (Perm.cons e (delete-perm k m v (ground arith))) (Perm.swap (k, v) e _))
  ]

  pub put-put : (k : K) (v w : V) (m : List (K × V)) → put dec k v (put dec k w m) ≡ put dec k v m
  unfolding put
  put-put k v w [] = ground arith
  put-put k v w (e ∷ m) = ground (arith, put-put k v w m)

  -- A write over an entry changes just its value.
  pub put-perm :
      (k : K) (v w : V) (m : List (K × V))
      → get dec k m ≡ some w
      → Perm (w ∷ values (put dec k v m)) (v ∷ values m)
  unfolding get put
  put-perm k v w [] h = cc
  put-perm k v w (e ∷ m) h = elim (dec k e.0) [
    | yes p ↦ rw (if_pos _ p) (
        subst (λ u. Perm (w ∷ v ∷ values m) (v ∷ u ∷ values m)) (ground arith)
          (Perm.swap v w (values m)))
    | no n ↦ rw (if_neg _ n) (
        Perm.trans (Perm.swap e.1 w _)
          (Perm.trans (Perm.cons e.1 (put-perm k v w m (ground arith))) (Perm.swap v e.1 _)))
  ]

  pub has-keys-delete_ne :
      (j k : K) (m : List (K × V)) → j ≢ k → has dec j (keys (delete dec k m)) ≡ has dec j (keys m)
  unfolding delete has
  has-keys-delete_ne j k [] n = refl
  has-keys-delete_ne j k (e ∷ m) n = ground (arith, has-keys-delete_ne j k m)
