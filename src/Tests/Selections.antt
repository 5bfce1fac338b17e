-- ===== src/Tests/Selections.antt =====
-- The theorems on the selection policies, at two candidates.
use petrus.Base.{
  contains, inl, arith, ℕ, ◌≡◌, refl, true, Option, none, some, List, [], ◌∷◌, nat_eq, string_eq,
  list_eq, option_eq, ok, In, Dict, length, ℤ, pos,
}
use petrus.Petrinet.Token.{NetPath}
use petrus.Petrinet.Enabledness.{Binding}
use petrus.Selection.{SelectionProposal}
use petrus.Selection.Strategies.{
  first, IsFirstGreatest, priority_of, propose_priority, propose_priority_lem,
}
use petrus.Selection.RoundRobin.{cursor}
use petrus.Selection.RoundRobin
use petrus.Selection.RoundRobin.Rotation.{first_of, IsNext, propose-IsNext}
use petrus.Selection.RoundRobin.Total.{propose-total}
use petrus.Selection.Pipeline.{SelectionPipeline, admits_all, admitted_by_pipeline, propose}
use petrus.Selection.Pipeline.Admitted.{propose-admitted}
use petrus.Tests.{moves, step}

abbrev two_moves : List (Binding ℕ)
two_moves = moves 1 ∷ moves 2 ∷ []

abbrev step_priority : Dict NetPath ℤ
step_priority = (step, pos 4) ∷ []

propose_priority_lem_example :
    (p : SelectionProposal ℕ ℕ) × (propose_priority step_priority two_moves 7 ≡ some p)
    × (p.prior_state ≡ 7)
    × (p.next_state ≡ 7)
    × IsFirstGreatest (priority_of step_priority) p.binding two_moves
propose_priority_lem_example = propose_priority_lem step_priority (moves 1) (moves 2 ∷ []) 7

abbrev ring : List NetPath
ring = ("s" ∷ []) ∷ step ∷ []

abbrev second_turn : SelectionProposal ℕ (Option ℕ)
second_turn = record { binding = moves 1; prior_state = some 0; next_state = some 0 }

ring-cursor : cursor (some 0) (length ring) ≡ ok 0
unfolding cursor
ring-cursor = refl

ring-proposes : RoundRobin.propose ring two_moves (some 0) ≡ ok (some second_turn)
unfolding RoundRobin.propose cursor RoundRobin.search petrus.Base.get RoundRobin.first_by_transition
    petrus.Base.put petrus.Base.list_beq RoundRobin.index_of
ring-proposes = refl

propose-IsNext_example : IsNext ring (some 0) (first_of two_moves) 0 0 second_turn
propose-IsNext_example =
    propose-IsNext ring two_moves (some 0) 0 second_turn ring-cursor ring-proposes

abbrev plain : SelectionPipeline ℕ ℕ
plain = record { filters = (λ b. true) ∷ []; rankers = (λ b. 0) ∷ []; strategy = first }

abbrev head_kept : SelectionProposal ℕ ℕ
head_kept = record { binding = moves 1; prior_state = 7; next_state = 7 }

plain-proposes : propose plain two_moves 7 ≡ ok (some head_kept)
unfolding propose petrus.Base.filter petrus.Base.all petrus.Selection.Pipeline.check_proposal
    petrus.Selection.Pipeline.rank petrus.Selection.Pipeline.sort_by
    petrus.Selection.Pipeline.insert_by petrus.Base.contains petrus.Selection.Pipeline.binding_beq
    petrus.Base.list_beq petrus.Selection.Pipeline.selections_beq petrus.Petrinet.Token.token_beq
plain-proposes = refl

propose-admitted_example :
    In (moves 1) two_moves
    × (admits_all plain.filters (moves 1) ≡ true)
    × (head_kept.prior_state ≡ 7)
    × (plain.strategy.propose (admitted_by_pipeline plain two_moves) 7 ≡ ok (some head_kept))
propose-admitted_example = propose-admitted plain two_moves 7 head_kept plain-proposes

ring-contains : contains (moves 1).transition ring ≡ true
unfolding contains petrus.Base.list_beq
ring-contains = refl

propose-total_example :
    (p : SelectionProposal ℕ (Option ℕ)) × (RoundRobin.propose ring two_moves (some 0)
      ≡ ok (some p))
propose-total_example =
    propose-total ring two_moves (moves 1) (some 0) 0 ring-cursor (omega arith) (inl refl)
      ring-contains
