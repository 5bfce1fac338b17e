-- ===== src/Petrinet/Marking/Laws.antt =====
-- What `consume` and `deposit` of src/petrus/impetus/petrinet/marking.py do to each place.
use petrus.Base.{
  ◌+◌, ◌≤◌, ◌<◌, ◌≡◌, ◌≢◌, ◌⊎◌, beq_dec, refl, ap, ◌∙◌, inl, inr, some, List, [], ◌∷◌, ◌++◌, arith,
  Eq, ◌==◌, list_eq, string_eq, ok, err, get, or_else, get-keep, get-put, get-pop, not, is_empty,
  if◌then◌else◌, count, Result-cases, list_beq_iff,
}
use petrus.Petrinet.Token.{Token, NetPath, token_eq}
use petrus.Petrinet.Queue.{TokenQueue, time_blind, tokens, remove}
use petrus.Petrinet.Queue.Removal.{remove_enough, remove_short, remove-count}
use petrus.Petrinet.Marking.{
  Marking, MarkingError, Queues, cannot_consume, marking, place, deposit, consume, store,
}

module _ {D : Type 0} where
  -- No place is stored with an empty queue.
  pub record IsSparse (m : Marking D) : Type 0 where
    pub at : (p : NetPath) → get m.queues p ≢ some []

  -- The constructor keeps each place's queue.
  pub place-marking :
      (queues : Queues D) (p : NetPath) → place (marking queues) p ≡ or_else (get queues p) []
  unfolding marking place
  place-marking queues p = rw get-keep (ground arith)

  pub marking-IsSparse : (queues : Queues D) → IsSparse (marking queues)
  unfolding marking
  marking-IsSparse queues = record {
    at = λ p h. ground (arith, get-keep (λ (q : List (Token D)). not (is_empty q)) queues p);
  }

  get-store :
      (queues : Queues D) (p j : NetPath) (ts : List (Token D))
      → or_else (get (store queues p ts) j) [] ≡ (if p == j then ts else or_else (get queues j) [])
  get-store queues p j [] = rw get-pop (ground arith)
  get-store queues p j (t ∷ ts) = rw get-put (ground arith)

  pub place-deposit :
      (m : Marking D) (p j : NetPath) (t : Token D)
      → place (deposit m p t) j ≡ (if p == j then place m p ++ t ∷ [] else place m j)
  unfolding deposit place
  place-deposit m p j t = rw (get-keep, get-put) (ground arith)

module _ {D : Type 0} ⦃e : Eq D⦄ where
  pub tokens-time_blind : (ts : List (Token D)) → tokens (time_blind ts) ≡ ts
  tokens-time_blind [] = refl
  tokens-time_blind (t ∷ ts) = ap (◌∷◌ t) (tokens-time_blind ts)

  -- A consume by a removal that is known to succeed.
  pub consume-eq-ok :
      (m : Marking D) (p : NetPath) (ts : List (Token D)) (r : TokenQueue D (Unit {0}))
      → remove (time_blind (place m p)) ts [] ≡ ok r
      → consume m p ts ≡ ok (marking (store m.queues p (tokens r)))
  unfolding consume
  consume-eq-ok m p ts r h = rw h

  pub place-store :
      (m : Marking D) (p j : NetPath) (ts : List (Token D))
      → place (marking (store m.queues p ts)) j ≡ (if p == j then ts else place m j)
  unfolding place
  place-store m p j ts = place-marking (store m.queues p ts) j ∙ get-store m.queues p j ts

  -- The tokens that a consume leaves at its place.
  pub consume_cases :
      (m n : Marking D) (p : NetPath) (ts : List (Token D))
      → consume m p ts ≡ ok n
      → (r : TokenQueue D (Unit {0})) × (remove (time_blind (place m p)) ts [] ≡ ok r)
        × (n ≡ marking (store m.queues p (tokens r)))
  unfolding consume
  consume_cases m n p ts h = elim (Result-cases (remove (time_blind (place m p)) ts [])) [
    | inl (r, removed) ↦ (r, removed, ground arith)
    | inr (x, raised) ↦ absurd (ground arith)
  ]

  place_or :
      (m : Marking D) (p : NetPath) (r : TokenQueue D (Unit {0})) (j : NetPath)
      → (p ≡ j) ⊎ (place (marking (store m.queues p (tokens r))) j ≡ place m j)
  place_or m p r j = elim (beq_dec p j) [
    | yes same ↦ inl same
    | no ne ↦ inr (ground (arith, place-store m p j (tokens r), list_beq_iff p j))
  ]

  -- A consume succeeds when its place holds each requested value often enough. It then takes exactly
  -- the requested tokens from that place, and leaves every other place as it was.
  pub consume_enough :
      (m : Marking D) (p : NetPath) (ts : List (Token D))
      → ((u : Token D) → count u ts ≤ count u (place m p))
      → (n : Marking D) × (consume m p ts ≡ ok n)
        × ((u : Token D) → count u (place m p) ≡ count u ts + count u (place n p))
        × ((j : NetPath) → (p ≡ j) ⊎ (place n j ≡ place m j))
  consume_enough m p ts enough =
      let same : tokens (time_blind (place m p)) ≡ place m p = tokens-time_blind (place m p) in
      let (r, removed, counted) =
        remove_enough (time_blind (place m p)) ts (λ u. rw same (enough u)) in
      (
        marking (store m.queues p (tokens r)),
        consume-eq-ok m p ts r removed,
        λ u. ground (arith, counted u, place-store m p p (tokens r), same, list_beq_iff p p),
        λ j. place_or m p r j,
      )

  -- A consume that raises names a token that its place holds less often than is requested.
  pub consume_short :
      (m : Marking D) (p : NetPath) (ts : List (Token D)) (x : MarkingError D)
      → consume m p ts ≡ err x
      → (t : Token D) × (x ≡ cannot_consume t p) × (count t (place m p) < count t ts)
  unfolding consume
  consume_short m p ts x h = elim (Result-cases (remove (time_blind (place m p)) ts [])) [
    | inl (r, removed) ↦ absurd (ground arith)
    | inr (y, raised) ↦
        let (t, named, short) = remove_short (time_blind (place m p)) ts y raised in
        (t, ground arith, rw (← tokens-time_blind (place m p)) short)
  ]

  -- A consume leaves a marking without empty places.
  pub consume-IsSparse :
      (m n : Marking D) (p : NetPath) (ts : List (Token D)) → consume m p ts ≡ ok n → IsSparse n
  consume-IsSparse m n p ts h =
      let (r, _, same) = consume_cases m n p ts h in
      rw same (marking-IsSparse (store m.queues p (tokens r)))

  pub deposit-IsSparse : (m : Marking D) (p : NetPath) (t : Token D) → IsSparse (deposit m p t)
  unfolding deposit
  deposit-IsSparse m p t = marking-IsSparse _

  pub place-consume :
      (m n : Marking D) (p : NetPath) (ts : List (Token D)) (r : TokenQueue D (Unit {0}))
      → remove (time_blind (place m p)) ts [] ≡ ok r
      → consume m p ts ≡ ok n
      → (j : NetPath) → place n j ≡ (if p == j then tokens r else place m j)
  unfolding consume
  place-consume m n p ts r removed h j =
      let same : n ≡ marking (store m.queues p (tokens r)) = ground arith in
      rw same (place-store m p j (tokens r))

  -- Each place loses what is consumed from it, and nothing else.
  pub consume-count :
      (m n : Marking D) (p : NetPath) (ts : List (Token D))
      → consume m p ts ≡ ok n
      → (u : Token D) (j : NetPath)
      → count u (place m j) ≡ (if p == j then count u ts else 0) + count u (place n j)
  consume-count m n p ts h u j =
      let (r, removed, _) = consume_cases m n p ts h in
      let same : tokens (time_blind (place m p)) ≡ place m p = tokens-time_blind (place m p) in
      ground (
        arith,
        place-consume m n p ts r removed h j,
        remove-count (time_blind (place m p)) ts r removed u,
        same,
        list_beq_iff p j,
      )
