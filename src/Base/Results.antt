-- ===== src/Base/Results.antt =====
-- What a call of the program comes to: a result, an error that is returned, or a panic.
use Prim.Native.String.{String}
use mathlib.Core.List.{List, [], ◌∷◌, ◌++◌}
use mathlib.Core.Path.{◌≡◌, refl}

pub data Outcome {ℓ} (A : Type ℓ) : Type ℓ where
  ok : A → Outcome A
  err : String → Outcome A
  panic : Outcome A

infixl 5 ◌>>=◌
abbrev pub ◌>>=◌ {ℓ κ} : {A : Type ℓ} {B : Type κ} → Outcome A → (A → Outcome B) → Outcome B
ok a >>= f = f a
err e >>= f = err e
panic >>= f = panic

-- A loop over a slice that passes the state on, and leaves at the first error or panic.
unfoldable pub for_each : {A S : Type 0} → (A → S → Outcome S) → List A → S → Outcome S
for_each body [] s = ok s
for_each body (x ∷ xs) s = do s' ← body x s; for_each body xs s'

pub for_each-append :
    {A S : Type 0} (body : A → S → Outcome S) (xs ys : List A) (s : S)
    → for_each body (xs ++ ys) s ≡ (for_each body xs s >>= for_each body ys)
unfolding for_each
for_each-append {A} {S} body [] ys s = refl
for_each-append {A} {S} body (x ∷ xs) ys s = step (body x s) (for_each-append body xs ys)
  where
    step :
        (o : Outcome S)
        → ((t : S) → for_each body (xs ++ ys) t ≡ (for_each body xs t >>= for_each body ys))
        → (o >>= for_each body (xs ++ ys)) ≡ ((o >>= for_each body xs) >>= for_each body ys)
    step (ok t) rest = rest t
    step (err e) rest = refl
    step panic rest = refl

pub ok-injective {ℓ} : {A : Type ℓ} {a b : A} → ok a ≡ ok b → a ≡ b
ok-injective e = cc
