-- ===== src/Prelude/Results.antt =====
-- Go's pair of a value and an error, as a sum, and loops that stop at the first error.
use mathlib.Core.Path.{◌≡◌, refl}
use mathlib.Core.List.{List, [], ◌∷◌, ◌++◌}
use mathlib.Core.Option.{Option, none, some}

pub data Result {ℓ κ} (Failure : Type ℓ) (Value : Type κ) : Type (ℓ ⊔ κ) where
  err : Failure → Result Failure Value
  ok : Value → Result Failure Value

-- A fallible lookup whose absence is an error.
abbrev pub or_err {ℓ κ} : {F : Type ℓ} {V : Type κ} → Option V → F → Result F V
or_err (some v) failure = ok v
or_err none failure = err failure

-- `if err != nil { return err }` between two steps.
infixl 5 ◌>>=◌
abbrev pub ◌>>=◌ {ℓ κ ι} :
    {F : Type ℓ} {V : Type κ} {W : Type ι} → Result F V → (V → Result F W) → Result F W
err failure >>= next = err failure
ok v >>= next = next v

-- When two steps succeed, the first does.
pub >>=-eq-ok {ℓ κ ι} :
    {F : Type ℓ} {V : Type κ} {W : Type ι} (first : Result F V) (next : V → Result F W) {w : W}
    → (first >>= next) ≡ ok w
    → (v : V) × (first ≡ ok v) × (next v ≡ ok w)
>>=-eq-ok (err failure) next h = cc
>>=-eq-ok (ok v) next h = (v, refl, h)

pub >>=-cong {ℓ κ ι} :
    {E : Type ℓ} {A : Type κ} {B : Type ι} (m : Result E A) (f g : A → Result E B)
    → ((a : A) → f a ≡ g a)
    → (m >>= f) ≡ (m >>= g)
>>=-cong (ok a) f g h = h a
>>=-cong (err e) f g h = refl

-- `for _, x := range xs { s, err = step(s, x); if err != nil { return err } }`.
abbrev pub each {ℓ κ ι} :
    {E : Type ℓ} {S : Type κ} {A : Type ι} → (S → A → Result E S) → S → List A → Result E S
each step s [] = ok s
each step s (x ∷ xs) = do s' ← step s x; each step s' xs

pub each-append {ℓ κ ι} :
    {E : Type ℓ} {S : Type κ} {A : Type ι} (step : S → A → Result E S) (s : S) (xs ys : List A)
    → each step s (xs ++ ys) ≡ (each step s xs >>= λ s'. each step s' ys)
each-append step s [] ys = refl
each-append {E} {S} step s (x ∷ xs) ys = go (step s x) (λ m. each-append step m xs ys)
  where
    go :
        (r : Result E S)
        → ((m : S) → each step m (xs ++ ys) ≡ (each step m xs >>= λ s'. each step s' ys))
        → (r >>= λ m. each step m (xs ++ ys))
          ≡ ((r >>= λ m. each step m xs) >>= λ s'. each step s' ys)
    go (ok m) h = h m
    go (err e) h = refl
