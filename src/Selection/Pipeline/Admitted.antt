-- ===== src/Selection/Pipeline/Admitted.antt =====
-- What `SelectionPipeline.propose` of src/petrus/impetus/selection/__init__.py lets through.
use petrus.Base.{
  ℕ, ◌≡◌, refl, ap, sym, ◌∙◌, inl, inr, Bool, true, Option, none, some, List, [], ◌∷◌, arith, Eq,
  ◌==◌, list_eq, string_eq, Result, ok, ◌>>=◌, contains, filter, In, ◌&&◌, ◌||◌, Bool-cases,
  contains→In, bind-eq-ok, and-eq-true,
}
use petrus.Petrinet.Enabledness.{Binding}
use petrus.Selection.{SelectionError, SelectionProposal}
use petrus.Selection.Pipeline.{
  binding_eq, insert_by, sort_by, SelectionPipeline, admits_all, rank, admitted_by_pipeline,
  check_proposal, propose,
}

module _ {A : Type 0} ⦃e : Eq A⦄ where
  contains-insert_by :
      (key : A → ℕ) (a b : A) (xs : List A)
      → contains b (insert_by key a xs) ≡ (a == b || contains b xs)
  unfolding contains insert_by
  contains-insert_by key a b [] = refl
  contains-insert_by key a b (x ∷ xs) = ground (arith, contains-insert_by key a b xs)

  contains-sort_by :
      (key : A → ℕ) (b : A) (xs : List A) → contains b (sort_by key xs) ≡ contains b xs
  unfolding contains sort_by
  contains-sort_by key b [] = refl
  contains-sort_by key b (x ∷ xs) =
      contains-insert_by key x b (sort_by key xs)
      ∙ ap (λ r. x == b || r) (contains-sort_by key b xs)

  contains-filter :
      (p : A → Bool) (b : A) (xs : List A) → contains b (filter p xs) ≡ (contains b xs && p b)
  unfolding contains filter
  contains-filter p b [] = refl
  contains-filter p b (x ∷ xs) = elim (Bool-cases (x == b)) [
    | inl same ↦
        let at : x ≡ b = (e.beq_iff x b).0 same in
        let px : p x ≡ p b = ap p at in ground (arith, contains-filter p b xs)
    | inr other ↦ ground (arith, contains-filter p b xs)
  ]

module _ {D : Type 0} ⦃e : Eq D⦄ where
  contains-rank :
      (rs : List (Binding D → ℕ)) (b : Binding D) (bs : List (Binding D))
      → contains b (rank rs bs) ≡ contains b bs
  unfolding rank
  contains-rank [] b bs = refl
  contains-rank (r ∷ rs) b bs = contains-sort_by r b (rank rs bs) ∙ contains-rank rs b bs

module _ {D S : Type 0} ⦃e : Eq D⦄ ⦃f : Eq S⦄ where
  check_proposal_cases :
      (bs : List (Binding D)) (s : S) (o : Option (SelectionProposal D S))
      (p : SelectionProposal D S)
      → check_proposal bs s o ≡ ok (some p)
      → (contains p.binding bs ≡ true) × (p.prior_state ≡ s) × (o ≡ some p)
  unfolding check_proposal
  check_proposal_cases bs s none p h = absurd (ground arith)
  check_proposal_cases bs s (some q) p h = elim (Bool-cases (contains q.binding bs)) [
    | inr outside ↦ absurd (ground arith)
    | inl inside ↦ elim (Bool-cases (q.prior_state == s)) [
      | inr other ↦ absurd (ground arith)
      | inl prior ↦
          let same : q ≡ p = ground arith in
          rw (← same) (inside, (f.beq_iff q.prior_state s).0 prior, refl)
    ]
  ]

  unless_empty :
      (bs : List (Binding D)) (r : Result SelectionError (Option (SelectionProposal D S)))
      (p : SelectionProposal D S)
      → (elim bs [ [] ↦ ok none | b ∷ rest ↦ r ]) ≡ ok (some p)
      → r ≡ ok (some p)
  unless_empty [] r p h = absurd (ground arith)
  unless_empty (b ∷ bs) r p h = h

  -- Whatever its strategy does, a pipeline only proposes one of the offered candidates that every
  -- filter admits, with the prior state it was given, and the strategy proposed it among the ranked
  -- admitted candidates.
  pub propose-admitted :
      (x : SelectionPipeline D S) (bs : List (Binding D)) (s : S) (p : SelectionProposal D S)
      → propose x bs s ≡ ok (some p)
      → In p.binding bs
        × (admits_all x.filters p.binding ≡ true)
        × (p.prior_state ≡ s)
        × (x.strategy.propose (admitted_by_pipeline x bs) s ≡ ok (some p))
  unfolding propose
  propose-admitted x bs s p h =
      let admitted = filter (admits_all x.filters) bs in
      let asked =
        unless_empty admitted
          (x.strategy.propose (admitted_by_pipeline x bs) s >>= λ o.
            check_proposal (admitted_by_pipeline x bs) s o)
          p h in
      let (o, proposed, checked) =
        bind-eq-ok (x.strategy.propose (admitted_by_pipeline x bs) s)
          (λ o. check_proposal (admitted_by_pipeline x bs) s o) asked in
      let (inside, prior, same) = check_proposal_cases (admitted_by_pipeline x bs) s o p checked in
      let there : (contains p.binding bs && admits_all x.filters p.binding) ≡ true =
        sym (contains-filter (admits_all x.filters) p.binding bs)
        ∙ sym (contains-rank x.rankers p.binding admitted)
        ∙ inside in
      let (found, fine) =
        and-eq-true (contains p.binding bs) (admits_all x.filters p.binding) there in
      (contains→In p.binding bs found, fine, prior, proposed ∙ ap ok same)
