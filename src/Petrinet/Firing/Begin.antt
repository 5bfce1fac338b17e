-- ===== src/Petrinet/Firing/Begin.antt =====
-- What `begin_firing` of src/petrus/impetus/petrinet/firing.py does to the marking.
use petrus.Base.{
  ℕ, ◌+◌, ◌≤◌, ◌≡◌, ◌≢◌, refl, sym, ◌∙◌, inl, inr, List, [], ◌∷◌, ◌++◌, arith, Eq, ◌==◌, list_eq,
  string_eq, ok, if◌then◌else◌, count, Result-cases, All,
}
use petrus.Petrinet.Token.{Token, NetPath, token_eq}
use petrus.Petrinet.Queue.{time_blind}
use petrus.Petrinet.Queue.Removal.{remove_enough}
use petrus.Petrinet.Marking.{Marking, place, consume}
use petrus.Petrinet.Marking.Laws.{consume_enough, tokens-time_blind, consume-count}
use petrus.Petrinet.Enabledness.{Selection, Binding}
use petrus.Petrinet.Firing.{
  consume_all, check_reads, begin_firing, BeginEffect, consumed_effects, read_effects,
}

module _ {D : Type 0} ⦃e : Eq D⦄ where
  -- How often the selections take a value from a place.
  pub taken : Token D → NetPath → List (Selection D) → ℕ
  taken u p [] = 0
  taken u p ((q, ts) ∷ rest) = (if q == p then count u ts else 0) + taken u p rest

  -- What a selection takes is at its place.
  abbrev pub Covered : Marking D → Selection D → Type 0
  Covered m (p, ts) = (u : Token D) → count u ts ≤ count u (place m p)

  -- The place of a selection is not among those of others.
  abbrev pub Apart : NetPath → List (Selection D) → Type 0
  Apart p rest = All (λ (s : Selection D). p ≢ s.0) rest

  abbrev pub PairwiseApart : List (Selection D) → Type 0
  PairwiseApart [] = Unit
  PairwiseApart ((p, ts) ∷ rest) = Apart p rest × PairwiseApart rest

  -- Every place loses exactly what the consumed selections take from it.
  consume_all-count :
      (m n : Marking D) (ss : List (Selection D))
      → consume_all m ss ≡ ok n
      → (u : Token D) (j : NetPath) → count u (place m j) ≡ taken u j ss + count u (place n j)
  unfolding consume_all taken
  consume_all-count m n [] h u j = ground arith
  consume_all-count m n ((p, ts) ∷ rest) h u j = elim (Result-cases (consume m p ts)) [
    | inl (m', step) ↦
        ground
          (arith, consume-count m m' p ts step u j, consume_all-count m' n rest (ground arith) u j)
    | inr (x, raised) ↦ absurd (ground arith)
  ]

  -- Selections that are covered, at pairwise different places, can all be consumed, and no other
  -- place is touched.
  consume_all_enough :
      (m : Marking D) (ss : List (Selection D))
      → All (Covered m) ss
      → PairwiseApart ss
      → (n : Marking D) × (consume_all m ss ≡ ok n)
        × ((j : NetPath) → Apart j ss → place n j ≡ place m j)
  unfolding consume_all
  consume_all_enough m [] covered apart = (m, refl, λ j _. refl)
  consume_all_enough m ((p, ts) ∷ rest) covered apart =
      let (m', step, _, elsewhere) = consume_enough m p ts covered.0 in
      let others : (j : NetPath) → p ≢ j → place m' j ≡ place m j =
        λ j ne. elim (elsewhere j) [ inl same ↦ absurd (ne same) | inr same ↦ same ] in
      let (n, steps, kept) =
        consume_all_enough m' rest (still m' others rest apart.0 covered.1) apart.1 in
      (n, rw step steps, λ j away. kept j away.1 ∙ others j (λ same. away.0 (sym same)))
    where
      still :
          (m' : Marking D)
          → ((j : NetPath) → p ≢ j → place m' j ≡ place m j)
          → (l : List (Selection D)) → Apart p l
          → All (Covered m) l
          → All (Covered m') l
      still m' others [] away cov = tt
      still m' others ((q, us) ∷ l) away cov =
          (λ u. rw (others q away.0) (cov.0 u), still m' others l away.1 cov.1)

  check_reads_enough :
      (n : Marking D) (ss : List (Selection D)) → All (Covered n) ss → check_reads n ss ≡ ok tt
  unfolding check_reads
  check_reads_enough n [] covered = refl
  check_reads_enough n ((p, ts) ∷ rest) covered =
      let (r, removed, _) =
        remove_enough (time_blind (place n p)) ts
          (λ u. rw (tokens-time_blind (place n p)) (covered.0 u)) in
      rw removed (check_reads_enough n rest covered.1)

  -- A binding whose selections are at hand, with pairwise different consumed places none of which is
  -- read, begins; every place loses exactly what is consumed from it, and the effects are the
  -- consumed selections followed by the read ones.
  pub begin_firing_enough :
      (m : Marking D) (b : Binding D)
      → All (Covered m) b.consumed
      → All (Covered m) b.read
      → PairwiseApart b.consumed
      → All (λ (s : Selection D). Apart s.0 b.consumed) b.read
      → (n : Marking D) × (begin_firing m b
          ≡ ok (consumed_effects b.consumed ++ read_effects b.read, n))
        × ((u : Token D) (j : NetPath)
            → count u (place m j) ≡ taken u j b.consumed + count u (place n j))
  unfolding begin_firing
  begin_firing_enough m b consumed reads apart disjoint =
      let (n, steps, kept) = consume_all_enough m b.consumed consumed apart in
      (
        n,
        rw (steps, check_reads_enough n b.read (moved n kept b.read reads disjoint)) refl,
        consume_all-count m n b.consumed steps,
      )
    where
      moved :
          (n : Marking D)
          → ((j : NetPath) → Apart j b.consumed → place n j ≡ place m j)
          → (l : List (Selection D)) → All (Covered m) l
          → All (λ (s : Selection D). Apart s.0 b.consumed) l
          → All (Covered n) l
      moved n kept [] cov away = tt
      moved n kept ((q, us) ∷ l) cov away =
          (λ u. rw (kept q away.0) (cov.0 u), moved n kept l cov.1 away.1)

  -- A firing that begins takes from each place exactly its consumed selections: what it reads stays.
  pub begin_firing-count :
      (m n : Marking D) (b : Binding D) (effects : List (BeginEffect D))
      → begin_firing m b ≡ ok (effects, n)
      → (u : Token D) (j : NetPath)
      → count u (place m j) ≡ taken u j b.consumed + count u (place n j)
  unfolding begin_firing
  begin_firing-count m n b effects h u j = elim (Result-cases (consume_all m b.consumed)) [
    | inl (n', steps) ↦ elim (Result-cases (check_reads n' b.read)) [
      | inl (_, reads) ↦ consume_all-count m n b.consumed (ground arith) u j
      | inr (x, raised) ↦ absurd (ground arith)
    ]
    | inr (x, raised) ↦ absurd (ground arith)
  ]
