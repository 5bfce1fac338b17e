-- ===== src/Selection/Pipeline.antt =====
-- `SelectionPipeline` of src/petrus/impetus/selection/__init__.py. A ranker's keys are numbers here.
pub mod Admitted
use petrus.Base.{
  ℕ, Bool, true, false, not, Option, none, some, List, [], ◌∷◌, Eq, ◌==◌, list_eq, string_eq,
  if◌then◌else◌, leb, Result, ok, err, ◌>>=◌, ◌>>◌, guard, contains, filter, all, ◌≡◌, ◌↔◌, ◌&&◌,
  arith, pair_eq, list_beq_iff,
}
use petrus.Petrinet.Token.{Token, NetPath, token_eq}
use petrus.Petrinet.Enabledness.{Binding, Selection}
use petrus.Selection.{
  SelectionError, SelectionProposal, SelectionPolicy, outside_admitted, other_prior_state,
}

module _ {D : Type 0} ⦃e : Eq D⦄ where
  unfoldable pub selections_beq : List (Selection D) → List (Selection D) → Bool
  selections_beq [] [] = true
  selections_beq ((p, ts) ∷ l) ((q, us) ∷ m) = p == q && (ts == us && selections_beq l m)
  selections_beq _ _ = false

  selections_beq_iff : (l m : List (Selection D)) → (selections_beq l m ≡ true) ↔ (l ≡ m)
  unfolding selections_beq
  selections_beq_iff [] [] = (λ h. ground arith, λ h. ground arith)
  selections_beq_iff [] (y ∷ m) = (λ h. cc, λ h. cc)
  selections_beq_iff (x ∷ l) [] = (λ h. cc, λ h. cc)
  selections_beq_iff ((p, ts) ∷ l) ((q, us) ∷ m) = (
    λ h. ground (arith, list_beq_iff p q, list_beq_iff ts us, selections_beq_iff l m),
    λ h. ground (arith, list_beq_iff p q, list_beq_iff ts us, selections_beq_iff l m),
  )

  -- `==` of the dataclass `Binding`.
  unfoldable pub binding_beq : Binding D → Binding D → Bool
  binding_beq a b =
      a.transition == b.transition
      && (selections_beq a.consumed b.consumed
          && (selections_beq a.read b.read && a.delivered == b.delivered))

  pub binding_beq_iff : (a b : Binding D) → (binding_beq a b ≡ true) ↔ (a ≡ b)
  unfolding binding_beq
  binding_beq_iff a b = (
    λ h. ground (
      arith,
      list_beq_iff a.transition b.transition,
      selections_beq_iff a.consumed b.consumed,
      selections_beq_iff a.read b.read,
      list_beq_iff a.delivered b.delivered,
    ),
    λ h. ground (
      arith,
      list_beq_iff a.transition b.transition,
      selections_beq_iff a.consumed b.consumed,
      selections_beq_iff a.read b.read,
      list_beq_iff a.delivered b.delivered,
    ),
  )

instance abbrev pub binding_eq : {D : Type 0} ⦃e : Eq D⦄ → Eq (Binding D)
binding_eq = record { beq = binding_beq; beq_iff = binding_beq_iff }

-- `sorted(xs, key=key)`, which is stable.
unfoldable pub insert_by : {A : Type 0} → (A → ℕ) → A → List A → List A
insert_by key a [] = a ∷ []
insert_by key a (x ∷ xs) =
    let rest = insert_by key a xs in if leb (key a) (key x) then a ∷ x ∷ xs else x ∷ rest

unfoldable pub sort_by : {A : Type 0} → (A → ℕ) → List A → List A
sort_by key [] = []
sort_by key (x ∷ xs) = insert_by key x (sort_by key xs)

pub record SelectionPipeline (D S : Type 0) : Type 0 where
  pub filters : List (Binding D → Bool)
  pub rankers : List (Binding D → ℕ)
  pub strategy : SelectionPolicy D S

module _ {D : Type 0} where
  abbrev pub admits_all : List (Binding D → Bool) → Binding D → Bool
  admits_all filters b = all (λ (rule : Binding D → Bool). rule b) filters

  -- The rankers from the last one to the first.
  unfoldable pub rank : List (Binding D → ℕ) → List (Binding D) → List (Binding D)
  rank [] bs = bs
  rank (r ∷ rs) bs = sort_by r (rank rs bs)

  abbrev pub admitted_by_pipeline :
      {S : Type 0} → SelectionPipeline D S → List (Binding D) → List (Binding D)
  admitted_by_pipeline x bs = rank x.rankers (filter (admits_all x.filters) bs)

module _ {D S : Type 0} ⦃e : Eq D⦄ ⦃f : Eq S⦄ where
  unfoldable pub check_proposal :
      List (Binding D)
      → S
      → Option (SelectionProposal D S)
      → Result SelectionError (Option (SelectionProposal D S))
  check_proposal bs s none = ok none
  check_proposal bs s (some p) = do
    guard (contains p.binding bs) outside_admitted
    guard (p.prior_state == s) other_prior_state
    ok (some p)

  -- Without admitted candidates the strategy is not asked.
  unfoldable pub propose :
      SelectionPipeline D S
      → List (Binding D)
      → S
      → Result SelectionError (Option (SelectionProposal D S))
  propose x bs s = elim (filter (admits_all x.filters) bs) [
    | [] ↦ ok none
    | b ∷ rest ↦ x.strategy.propose (admitted_by_pipeline x bs) s >>= λ p.
        check_proposal (admitted_by_pipeline x bs) s p
  ]
