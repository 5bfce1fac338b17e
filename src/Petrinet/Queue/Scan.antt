-- ===== src/Petrinet/Queue/Scan.antt =====
-- The positions that `TokenQueue.admitted_by` of src/petrus/impetus/petrinet/marking.py returns.
use petrus.Base.{
  ℕ, zero, suc, ◌+◌, ◌≤◌, ◌≡◌, ◌↔◌, refl, ap, inl, inr, true, Bool, none, some, List, [], ◌∷◌,
  arith, ok, take, get_elem?, In, Bool-cases,
}
use petrus.Petrinet.Token.{Token}
use petrus.Petrinet.Queue.{TokenQueue, tokens, positions_from, positions_upto, admitted_by}

-- Strictly increasing, from a lower bound on.
abbrev pub Increasing : ℕ → List ℕ → Type 0
Increasing n [] = Unit
Increasing n (i ∷ is) = (n ≤ i) × Increasing (suc i) is

module _ {D I : Type 0} (admits : Token D → Bool) where
  positions_from-Increasing :
      (m n : ℕ) (q : TokenQueue D I) → m ≤ n → Increasing m (positions_from admits n q)
  unfolding positions_from
  positions_from-Increasing m n [] h = tt
  positions_from-Increasing m n (x ∷ q) h = elim (Bool-cases (admits x.token)) [
    | inl p ↦ rw p (h, positions_from-Increasing (suc n) (suc n) q (omega arith))
    | inr p ↦ rw p (positions_from-Increasing m (suc n) q (omega arith))
  ]

  positions_upto-take :
      (limit n : ℕ) (q : TokenQueue D I)
      → positions_upto admits limit n q ≡ take limit (positions_from admits n q)
  unfolding positions_upto positions_from
  positions_upto-take zero n [] = refl
  positions_upto-take (suc limit) n [] = refl
  positions_upto-take zero n (x ∷ q) = refl
  positions_upto-take (suc limit) n (x ∷ q) =
      ground (arith, positions_upto-take limit (suc n) q, positions_upto-take (suc limit) (suc n) q)

  -- A position, counted from `n`, of an admitted token.
  abbrev pub AdmittedAt : ℕ → TokenQueue D I → ℕ → Type 0
  AdmittedAt n q i =
      (k : ℕ) × (t : Token D) × (i ≡ n + k) × (get_elem? (tokens q) k ≡ some t) × (admits t ≡ true)

  positions_from-AdmittedAt :
      (n i : ℕ) (q : TokenQueue D I) → In i (positions_from admits n q) → AdmittedAt n q i
  unfolding positions_from
  positions_from-AdmittedAt n i [] m = absurd m
  positions_from-AdmittedAt n i (x ∷ q) m = elim (Bool-cases (admits x.token)) [
    | inl p ↦ elim (rw p at m) [
      | inl e ↦ (0, x.token, omega arith, refl, p)
      | inr l ↦ later (positions_from-AdmittedAt (suc n) i q l)
    ]
    | inr p ↦ later (positions_from-AdmittedAt (suc n) i q (rw p at m))
  ]
    where
      later : AdmittedAt (suc n) q i → AdmittedAt n (x ∷ q) i
      later (k, t, e, f, a) = (suc k, t, omega arith, f, a)

  AdmittedAt-positions_from :
      (n i k : ℕ) (t : Token D) (q : TokenQueue D I)
      → i ≡ n + k
      → get_elem? (tokens q) k ≡ some t
      → admits t ≡ true
      → In i (positions_from admits n q)
  unfolding positions_from
  AdmittedAt-positions_from n i k t [] e f a = cc
  AdmittedAt-positions_from n i zero t (x ∷ q) e f a =
      let p : admits x.token ≡ true = ground arith in rw p (inl (omega arith))
  AdmittedAt-positions_from n i (suc k) t (x ∷ q) e f a =
      let later : In i (positions_from admits (suc n) q) =
        AdmittedAt-positions_from (suc n) i k t q (omega arith) f a in
      elim (Bool-cases (admits x.token)) [ inl p ↦ rw p (inr later) | inr p ↦ rw p later ]

-- Without a limit `admitted_by` returns, in increasing order, exactly the positions of the tokens
-- that are admitted; a positive limit cuts that list off.
pub admitted_by_lem :
    {D I : Type 0} (q : TokenQueue D I) (admits : Token D → Bool)
    → (ps : List ℕ) × (admitted_by q admits none ≡ ok ps)
      × Increasing 0 ps
      × ((i : ℕ)
          → In i ps ↔ ((t : Token D) × (get_elem? (tokens q) i ≡ some t) × (admits t ≡ true)))
      × ((n : ℕ) → admitted_by q admits (some (suc n)) ≡ ok (take (suc n) ps))
unfolding admitted_by
admitted_by_lem {D} q admits = (
  positions_from admits 0 q,
  refl,
  positions_from-Increasing admits 0 0 q (omega arith),
  λ i. (listed i, λ (t, f, a). AdmittedAt-positions_from admits 0 i i t q (omega arith) f a),
  λ n. ap ok (positions_upto-take admits (suc n) 0 q),
)
  where
    listed :
        (i : ℕ)
        → In i (positions_from admits 0 q)
        → (t : Token D) × (get_elem? (tokens q) i ≡ some t) × (admits t ≡ true)
    listed i m =
        let (k, t, e, f, a) = positions_from-AdmittedAt admits 0 i q m in
        let same : i ≡ k = omega arith in (t, rw same f, a)
