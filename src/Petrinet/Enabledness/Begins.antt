-- ===== src/Petrinet/Enabledness/Begins.antt =====
-- A choice among the offers of src/petrus/impetus/petrinet/enabledness.py makes a binding whose firing
-- can begin.
use petrus.Base.{
  ◌≢◌, ◌∙◌, inl, inr, List, [], ◌∷◌, Eq, Bool-cases, All, All-zip, All-lookup, In, list_eq,
  string_eq,
}
use petrus.Petrinet.Token.{NetPath, token_eq}
use petrus.Petrinet.Marking.{Marking}
use petrus.Petrinet.Schema.{is_consume}
use petrus.Petrinet.Firing.Begin.{Covered, Apart, PairwiseApart}
use petrus.Petrinet.Enabledness.{Selection, Binding, Alternative}
use petrus.Petrinet.Enabledness.Offers.{IsFor}
use petrus.Petrinet.Enabledness.Gathering.{AreSound}
use petrus.Petrinet.Enabledness.Choosing.{Chosen, consumed_of-Apart, read_of-Apart}
use petrus.Petrinet.Enabledness.Survey.{Answer, consumed_of, read_of, binding_of}

module _ {D : Type 0} ⦃e : Eq D⦄ (m : Marking D) where
  -- A binding whose firing can begin at once.
  pub record CanBegin (b : Binding D) : Type 0 where
    pub consumed : All (Covered m) b.consumed
    pub reads : All (Covered m) b.read
    pub apart : PairwiseApart b.consumed
    pub disjoint : All (λ (s : Selection D). Apart s.0 b.consumed) b.read

  answer-Covered :
      (b : Answer D) (x : Alternative D) → All (IsFor m b.0) b.1 → In x b.1 → Covered m x.selection
  answer-Covered b x good here = (All-lookup (IsFor m b.0) b.1 good x here).covered

  -- Whatever is chosen, the firing can begin.
  pub choice-CanBegin :
      (path : NetPath) (answers : List (Answer D)) (choice : List (Alternative D))
      → AreSound m answers
      → Chosen answers choice
      → CanBegin (binding_of path answers choice)
  unfolding consumed_of read_of
  choice-CanBegin path [] [] sound chosen = record {
    consumed = tt;
    reads = tt;
    apart = tt;
    disjoint = tt;
  }
  choice-CanBegin path [] (x ∷ choice) sound chosen = absurd chosen
  choice-CanBegin path (b ∷ rest) [] sound chosen = absurd chosen
  choice-CanBegin path (b ∷ rest) (x ∷ choice) sound chosen =
      let ih = choice-CanBegin path rest choice sound.3 chosen.1 in
      let good : IsFor m b.0 x = All-lookup (IsFor m b.0) b.1 sound.1 x chosen.0 in
      let away : Apart x.selection.0 (consumed_of rest choice) =
        rw good.source (consumed_of-Apart m b.0 rest choice sound.0 sound.3 chosen.1 sound.2) in
      elim (Bool-cases (is_consume b.0.mode)) [
        | inl takes ↦ rw takes (record {
          consumed = (good.covered, ih.consumed);
          reads = ih.reads;
          apart = (away, ih.apart);
          disjoint =
              All-zip (λ (s : Selection D). s.0 ≢ b.0.source)
                (λ (s : Selection D). Apart s.0 (consumed_of rest choice))
                (λ (s : Selection D). Apart s.0 (x.selection ∷ consumed_of rest choice))
                (read_of rest choice) (λ s ne others. (λ same. ne (same ∙ good.source), others))
                (read_of-Apart m b.0 rest choice takes sound.3 chosen.1 sound.2) ih.disjoint;
        })
        | inr reads ↦ rw reads (record {
          consumed = ih.consumed;
          reads = (good.covered, ih.reads);
          apart = ih.apart;
          disjoint = (away, ih.disjoint);
        })
      ]
