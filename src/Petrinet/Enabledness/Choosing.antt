-- ===== src/Petrinet/Enabledness/Choosing.antt =====
-- One alternative from each answer, and where the choice takes its tokens from
-- (src/petrus/impetus/petrinet/enabledness.py).
use petrus.Base.{
  ◌≡◌, ◌≢◌, sym, ◌∙◌, inl, inr, true, false, List, [], ◌∷◌, map, arith, Eq, Bool-cases, All,
  All-lookup, In, list_eq, string_eq,
}
use petrus.Petrinet.Marking.{Marking}
use petrus.Petrinet.Schema.{is_consume, is_inhibit, Arc}
use petrus.Petrinet.Firing.Begin.{Apart}
use petrus.Petrinet.Enabledness.{Selection, Alternative, product}
use petrus.Petrinet.Enabledness.Selecting.{In-map, In-flat_map}
use petrus.Petrinet.Enabledness.Offers.{IsFor}
use petrus.Petrinet.Enabledness.Gathering.{clash, clash-ne, AreSound}
use petrus.Petrinet.Enabledness.Survey.{Answer, consumed_of, read_of, choices}

-- A choice of one alternative from each answer.
abbrev pub Chosen : {D : Type 0} → List (Answer D) → List (Alternative D) → Type 0
Chosen [] [] = Unit
Chosen [] (x ∷ xs) = ⊥
Chosen (a ∷ rest) [] = ⊥
Chosen (a ∷ rest) (x ∷ xs) = In x a.1 × Chosen rest xs

pub product-Chosen :
    {D : Type 0} (answers : List (Answer D)) (choice : List (Alternative D))
    → In choice (choices answers)
    → Chosen answers choice
unfolding product
product-Chosen [] [] m = tt
product-Chosen [] (x ∷ xs) (inl e) = cc
product-Chosen [] (x ∷ xs) (inr e) = absurd e
product-Chosen {D} (a ∷ rest) choice m =
    let (x, here, there) =
      In-flat_map (λ (x : Alternative D). map (λ c. x ∷ c) (choices rest)) choice a.1 m in
    let (c, later, same) = In-map (λ c. x ∷ c) choice (choices rest) there in
    rw same (here, product-Chosen rest c later)

module _ {D : Type 0} ⦃e : Eq D⦄ (m : Marking D) where
  -- What an arc does not clash with consumes elsewhere.
  pub consumed_of-Apart :
      (a : Arc) (answers : List (Answer D)) (choice : List (Alternative D))
      → is_inhibit a.mode ≡ false
      → AreSound m answers
      → Chosen answers choice
      → All (λ (b : Answer D). clash a b.0 ≡ false) answers
      → Apart a.source (consumed_of answers choice)
  unfolding consumed_of
  consumed_of-Apart a [] [] selects sound chosen free = tt
  consumed_of-Apart a [] (x ∷ choice) selects sound chosen free = absurd chosen
  consumed_of-Apart a (b ∷ rest) [] selects sound chosen free = absurd chosen
  consumed_of-Apart a (b ∷ rest) (x ∷ choice) selects sound chosen free =
      let later = consumed_of-Apart a rest choice selects sound.3 chosen.1 free.1 in
      elim (Bool-cases (is_consume b.0.mode)) [
        | inl takes ↦
            let at : x.selection.0 ≡ b.0.source =
              (All-lookup (IsFor m b.0) b.1 sound.1 x chosen.0).source in
            rw takes
              (λ same. clash-ne a b.0 free.0 (ground arith) selects sound.0 (same ∙ at), later)
        | inr leaves ↦ rw leaves later
      ]

  -- What a consuming arc does not clash with reads elsewhere.
  pub read_of-Apart :
      (a : Arc) (answers : List (Answer D)) (choice : List (Alternative D))
      → is_consume a.mode ≡ true
      → AreSound m answers
      → Chosen answers choice
      → All (λ (b : Answer D). clash a b.0 ≡ false) answers
      → All (λ (s : Selection D). s.0 ≢ a.source) (read_of answers choice)
  unfolding read_of
  read_of-Apart a [] [] takes sound chosen free = tt
  read_of-Apart a [] (x ∷ choice) takes sound chosen free = absurd chosen
  read_of-Apart a (b ∷ rest) [] takes sound chosen free = absurd chosen
  read_of-Apart a (b ∷ rest) (x ∷ choice) takes sound chosen free =
      let later = read_of-Apart a rest choice takes sound.3 chosen.1 free.1 in
      elim (Bool-cases (is_consume b.0.mode)) [
        | inl also ↦ rw also later
        | inr reads ↦
            let at : x.selection.0 ≡ b.0.source =
              (All-lookup (IsFor m b.0) b.1 sound.1 x chosen.0).source in
            rw reads (
              λ same. clash-ne a b.0 free.0 (ground arith) (ground arith) sound.0 (sym same ∙ at),
              later,
            )
      ]
