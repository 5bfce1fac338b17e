-- ===== src/Base/Dicts.antt =====
-- Python's `dict`, in insertion order: an assignment to a key that is there keeps its position.
use mathlib.Core.Path.{◌≡◌, refl}
use mathlib.Core.Bool.{Bool}
use mathlib.Core.Option.{Option, none, some}
use mathlib.Core.List.{List, [], ◌∷◌, ◌++◌, map}
use native.Mathlib.Omega.{arith}
use mathlib.Core.Logic.{inl, inr}
use petrus.Base.Tests.{if◌then◌else◌, Bool-cases}
use petrus.Base.Equality.{Eq, ◌==◌}

abbrev pub Dict {ℓ κ} : Type ℓ → Type κ → Type (ℓ ⊔ κ)
Dict K V = List (K × V)

module _ {ℓ κ} {K : Type ℓ} {V : Type κ} where
  abbrev pub keys : Dict K V → List K
  keys d = map (λ p. p.0) d

  abbrev pub values : Dict K V → List V
  values d = map (λ p. p.1) d

module _ {ℓ κ} {K : Type ℓ} {V : Type κ} ⦃e : Eq K⦄ where
  -- `d.get(k)`
  unfoldable pub get : Dict K V → K → Option V
  get [] k = none
  get ((j, v) ∷ d) k = if j == k then some v else get d k

  -- `d[k] = v`
  unfoldable pub put : Dict K V → K → V → Dict K V
  put [] k v = (k, v) ∷ []
  put ((j, w) ∷ d) k v = if j == k then (j, v) ∷ d else (j, w) ∷ put d k v

  -- `d.pop(k, None)`
  unfoldable pub pop : Dict K V → K → Dict K V
  pop [] k = []
  pop ((j, w) ∷ d) k = let rest = pop d k in if j == k then rest else (j, w) ∷ rest

  pub get-put :
      (d : Dict K V) (k j : K) (v : V) → get (put d k v) j ≡ (if k == j then some v else get d j)
  unfolding get put
  get-put [] k j v = refl
  get-put ((i, w) ∷ d) k j v =
      ground (arith, e.beq_iff k j, e.beq_iff i k, e.beq_iff i j, get-put d k j v)

  pub get-pop : (d : Dict K V) (k j : K) → get (pop d k) j ≡ (if k == j then none else get d j)
  unfolding get pop
  get-pop [] k j = ground arith
  get-pop ((i, w) ∷ d) k j =
      ground (arith, e.beq_iff k j, e.beq_iff i k, e.beq_iff i j, get-pop d k j)

abbrev pub only_if {ℓ} : {A : Type ℓ} → (A → Bool) → Option A → Option A
only_if p none = none
only_if p (some v) = if p v then some v else none

-- `d.get(k, v)`
abbrev pub or_else {ℓ} : {A : Type ℓ} → Option A → A → A
or_else none a = a
or_else (some b) a = b

module _ {ℓ κ} {K : Type ℓ} {V : Type κ} ⦃e : Eq K⦄ where
  -- `{k: v for k, v in d.items() if p(v)}`. A key stands once in a dict; popping it from the rest
  -- makes the laws below hold of any list.
  unfoldable pub keep : (V → Bool) → Dict K V → Dict K V
  keep p [] = []
  keep p ((k, v) ∷ d) = let rest = keep p d in if p v then (k, v) ∷ rest else pop rest k

  pub get-keep : (p : V → Bool) (d : Dict K V) (j : K) → get (keep p d) j ≡ only_if p (get d j)
  unfolding get keep
  get-keep p [] j = refl
  get-keep p ((k, v) ∷ d) j = ground (arith, get-keep p d j, get-pop (keep p d) k j, e.beq_iff k j)

  pub get-put_self : (d : Dict K V) (k : K) (v : V) → get (put d k v) k ≡ some v
  get-put_self d k v = ground (arith, get-put d k k v, e.beq_iff k k)

module _ {ℓ κ} {K : Type ℓ} {V : Type κ} ⦃e : Eq K⦄ where
  -- Each key stands once.
  abbrev pub UniqueKeys : Dict K V → Type κ
  UniqueKeys [] = Unit
  UniqueKeys ((k, v) ∷ d) = (get d k ≡ none) × UniqueKeys d

  pub put-UniqueKeys : (d : Dict K V) (k : K) (v : V) → UniqueKeys d → UniqueKeys (put d k v)
  unfolding put get
  put-UniqueKeys [] k v u = (refl, tt)
  put-UniqueKeys ((j, w) ∷ d) k v u = elim (Bool-cases (j == k)) [
    | inl same ↦ rw same u
    | inr other ↦ rw other (
      ground (arith, get-put d k j v, u.0, e.beq_iff k j, e.beq_iff j k),
      put-UniqueKeys d k v u.1,
    )
  ]

  -- A key that is not there is put at the end, and is replaced there.
  pub put_new : (d : Dict K V) (k : K) (v : V) → get d k ≡ none → put d k v ≡ d ++ (k, v) ∷ []
  unfolding put get
  put_new [] k v h = refl
  put_new ((j, w) ∷ d) k v h = ground (arith, put_new d k v)

  pub put_last :
      (d : Dict K V) (k : K) (v w : V)
      → get d k ≡ none
      → put (d ++ (k, v) ∷ []) k w ≡ d ++ (k, w) ∷ []
  unfolding put get
  put_last [] k v w h = ground (arith, e.beq_iff k k)
  put_last ((j, x) ∷ d) k v w h = ground (arith, put_last d k v w)

  pub get_last : (d : Dict K V) (k : K) (v : V) → get d k ≡ none → get (d ++ (k, v) ∷ []) k ≡ some v
  unfolding get
  get_last [] k v h = ground (arith, e.beq_iff k k)
  get_last ((j, x) ∷ d) k v h = ground (arith, get_last d k v)
