-- ===== src/Petrinet/Enabledness/Selecting.antt =====
-- Combinations of positions, and the tokens that stand at them.
use petrus.Base.{
  ℕ, zero, suc, ◌+◌, ◌≤◌, ◌≡◌, refl, ap, inl, inr, some, List, [], ◌∷◌, ◌++◌, map, arith, Eq, ◌==◌,
  if◌then◌else◌, length, get_elem?, take, flat_map, count, Option-cases, In, In-append, head?,
}
use petrus.Petrinet.Queue.Scan.{Increasing}
use petrus.Petrinet.Enabledness.{combinations, pick}

module _ {A B : Type 0} where
  pub In-map : (f : A → B) (b : B) (xs : List A) → In b (map f xs) → (a : A) × In a xs × (b ≡ f a)
  In-map f b [] m = absurd m
  In-map f b (x ∷ xs) (inl e) = (x, inl refl, e)
  In-map f b (x ∷ xs) (inr m) = let (a, n, e) = In-map f b xs m in (a, inr n, e)

  pub In-flat_map :
      (f : A → List B) (b : B) (xs : List A) → In b (flat_map f xs) → (a : A) × In a xs × In b (f a)
  unfolding flat_map
  In-flat_map f b [] m = absurd m
  In-flat_map f b (x ∷ xs) m = elim (In-append b (f x) (flat_map f xs) m) [
    | inl here ↦ (x, inl refl, here)
    | inr there ↦ let (a, n, k) = In-flat_map f b xs there in (a, inr n, k)
  ]

Increasing-weaken : (m n : ℕ) (is : List ℕ) → m ≤ n → Increasing n is → Increasing m is
Increasing-weaken m n [] h s = tt
Increasing-weaken m n (i ∷ is) h s = (omega arith, s.1)

-- A combination has as many members as was asked for, in increasing order if the positions are.
pub combinations-Increasing :
    (w n : ℕ) (ps c : List ℕ)
    → Increasing n ps
    → In c (combinations w ps)
    → Increasing n c × (length c ≡ w)
unfolding combinations
combinations-Increasing zero n ps c s (inl e) = rw e (tt, refl)
combinations-Increasing zero n ps c s (inr m) = absurd m
combinations-Increasing (suc w) n [] c s m = absurd m
combinations-Increasing (suc w) n (p ∷ ps) c s m =
    elim (In-append c (map (λ d. p ∷ d) (combinations w ps)) (combinations (suc w) ps) m) [
      | inl here ↦
          let (d, k, e) = In-map (λ d. p ∷ d) c (combinations w ps) here in
          let (up, size) = combinations-Increasing w (suc p) ps d s.1 k in
          rw e ((s.0, up), ap suc size)
      | inr there ↦
          let (up, size) = combinations-Increasing (suc w) (suc p) ps c s.1 there in
          (Increasing-weaken n (suc p) c (omega arith) up, size)
    ]

-- The first combination is the first positions.
pub head-combinations :
    (w : ℕ) (ps : List ℕ) → w ≤ length ps → head? (combinations w ps) ≡ some (take w ps)
unfolding combinations
head-combinations zero ps h = refl
head-combinations (suc w) [] h = absurd (omega arith)
head-combinations (suc w) (p ∷ ps) h =
    first (combinations w ps) (head-combinations w ps (omega arith))
  where
    first :
        (cs : List (List ℕ))
        → head? cs ≡ some (take w ps)
        → head? (map (λ d. p ∷ d) cs ++ combinations (suc w) ps) ≡ some (p ∷ take w ps)
    first [] e = cc
    first (c ∷ cs) e = ground arith

module _ {A : Type 0} ⦃e : Eq A⦄ where
  drop : ℕ → List A → List A
  drop zero xs = xs
  drop (suc n) [] = []
  drop (suc n) (x ∷ xs) = drop n xs

  count-drop-le_all : (u : A) (n : ℕ) (xs : List A) → count u (drop n xs) ≤ count u xs
  unfolding drop count
  count-drop-le_all u zero xs = omega arith
  count-drop-le_all u (suc n) [] = omega arith
  count-drop-le_all u (suc n) (x ∷ xs) = ground (arith, count-drop-le_all u n xs)

  count-drop-le :
      (u : A) (n m : ℕ) (xs : List A) → n ≤ m → count u (drop m xs) ≤ count u (drop n xs)
  unfolding drop
  count-drop-le u zero m xs h = count-drop-le_all u m xs
  count-drop-le u (suc n) zero xs h = absurd (omega arith)
  count-drop-le u (suc n) (suc m) [] h = omega arith
  count-drop-le u (suc n) (suc m) (x ∷ xs) h = count-drop-le u n m xs (omega arith)

  -- What stands at a position, and behind it, stands from that position on.
  count-drop-get :
      (u x : A) (i : ℕ) (xs : List A)
      → get_elem? xs i ≡ some x
      → count u (drop i xs) ≡ (if x == u then 1 else 0) + count u (drop (suc i) xs)
  unfolding drop count
  count-drop-get u x i [] h = cc
  count-drop-get u x zero (y ∷ ys) h = ground arith
  count-drop-get u x (suc i) (y ∷ ys) h = count-drop-get u x i ys h

  count-pick-drop :
      (u : A) (xs : List A) (n : ℕ) (is : List ℕ)
      → Increasing n is
      → count u (pick xs is) ≤ count u (drop n xs)
  unfolding pick count
  count-pick-drop u xs n [] s = omega arith
  count-pick-drop u xs n (i ∷ is) s = elim (Option-cases (get_elem? xs i)) [
    | inl out ↦
        rw (out, pick)
          (omega (
            arith,
            count-pick-drop u xs (suc i) is s.1,
            count-drop-le u n (suc i) xs (omega arith),
          ))
    | inr (x, at) ↦
        rw (at, pick)
          (ground (
            arith,
            count-pick-drop u xs (suc i) is s.1,
            count-drop-get u x i xs at,
            count-drop-le u n i xs s.0,
          ))
  ]

  -- Tokens picked at increasing positions stand in the queue at least as often.
  pub count-pick-le :
      (u : A) (xs : List A) (is : List ℕ) → Increasing 0 is → count u (pick xs is) ≤ count u xs
  unfolding drop
  count-pick-le u xs is s = count-pick-drop u xs 0 is s
