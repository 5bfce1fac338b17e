-- ===== src/Base/Results.antt =====
-- Calls that may raise: a value, or the exception that was raised.
use mathlib.Core.Path.{◌≡◌, refl}
use mathlib.Core.Bool.{Bool, true, false}
use mathlib.Core.Option.{Option, none, some}
use mathlib.Core.List.{List, [], ◌∷◌, ◌++◌, append_assoc, append-nil}
use native.Mathlib.Omega.{arith}
use mathlib.Core.Logic.{◌⊎◌, inl, inr}

pub data Result {ℓ} (E A : Type ℓ) : Type ℓ where
  ok : A → Result E A
  err : E → Result E A

infixl 5 ◌>>=◌ ◌>>◌
abbrev pub ◌>>=◌ {ℓ} : {E A B : Type ℓ} → Result E A → (A → Result E B) → Result E B
ok a >>= f = f a
err e >>= f = err e

abbrev pub ◌>>◌ {ℓ} : {E B : Type ℓ} → Result E (Unit {ℓ}) → Result E B → Result E B
m >> k = m >>= λ _. k

-- `if not test: raise error`
abbrev pub guard {ℓ} : {E : Type ℓ} → Bool → E → Result E (Unit {ℓ})
guard true e = ok tt
guard false e = err e

-- `except E as error: raise f(error)`
abbrev pub map_err {ℓ} : {E F A : Type ℓ} → (E → F) → Result E A → Result F A
map_err f (ok a) = ok a
map_err f (err e) = err (f e)

abbrev pub or_raise {ℓ} : {E A : Type ℓ} → Option A → E → Result E A
or_raise none e = err e
or_raise (some a) e = ok a

module _ {ℓ} {E A : Type ℓ} where
  pub Result-cases : (r : Result E A) → ((a : A) × (r ≡ ok a)) ⊎ ((e : E) × (r ≡ err e))
  Result-cases (ok a) = inl (a, refl)
  Result-cases (err e) = inr (e, refl)

  -- Inversion of a successful bind.
  pub bind-eq-ok :
      {B : Type ℓ} (r : Result E A) (next : A → Result E B) {y : B}
      → (r >>= next) ≡ ok y
      → (x : A) × (r ≡ ok x) × (next x ≡ ok y)
  bind-eq-ok (ok x) next returned = (x, refl, returned)
  bind-eq-ok (err raised) next returned = cc

pub guard-eq-ok {ℓ} : {E : Type ℓ} (b : Bool) (e : E) {u : Unit {ℓ}} → guard b e ≡ ok u → b ≡ true
guard-eq-ok true e h = refl
guard-eq-ok false e h = cc

-- A `for` loop whose body may raise, over a state.
module _ {ℓ} {E S X : Type ℓ} where
  unfoldable pub fold_result : (S → X → Result E S) → S → List X → Result E S
  fold_result f s [] = ok s
  fold_result f s (x ∷ xs) = f s x >>= λ s'. fold_result f s' xs

  pub fold_result-append :
      (f : S → X → Result E S) (s t : S) (xs ys : List X)
      → fold_result f s xs ≡ ok t
      → fold_result f s (xs ++ ys) ≡ fold_result f t ys
  unfolding fold_result
  fold_result-append f s t [] ys h = let same : s ≡ t = ground arith in rw same refl
  fold_result-append f s t (x ∷ xs) ys h = elim (Result-cases (f s x)) [
    | inr (e, raised) ↦ absurd (ground arith)
    | inl (s', turn) ↦ rw turn (fold_result-append f s' t xs ys (ground arith))
  ]

  -- What every turn of a loop keeps, of the elements seen so far and the state, holds at its end.
  pub fold_result-induct {κ} :
      (P : List X → S → Type κ) (f : S → X → Result E S)
      → ((seen : List X) (s s' : S) (x : X) → P seen s → f s x ≡ ok s' → P (seen ++ x ∷ []) s')
      → (seen xs : List X) (s s' : S) → P seen s
      → fold_result f s xs ≡ ok s'
      → P (seen ++ xs) s'
  unfolding fold_result
  fold_result-induct P f keeps seen [] s s' p h =
      let same : s ≡ s' = ground arith in rw (← same, append-nil) p
  fold_result-induct P f keeps seen (x ∷ xs) s s' p h = elim (Result-cases (f s x)) [
    | inr (e, raised) ↦ absurd (ground arith)
    | inl (t, turn) ↦ rw (← append_assoc seen (x ∷ []) xs) (
        fold_result-induct P f keeps (seen ++ x ∷ []) xs t s' (keeps seen s t x p turn)
          (ground arith))
  ]

abbrev pub map_ok {ℓ} : {E A B : Type ℓ} → (A → B) → Result E A → Result E B
map_ok f (ok a) = ok (f a)
map_ok f (err e) = err e
