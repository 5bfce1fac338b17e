-- ===== src/Petrinet/Enabledness/Survey.antt =====
-- `maturation`, `_survey`, `candidates`, `next_maturation` and `selection` of
-- src/petrus/impetus/petrinet/enabledness.py.
use petrus.Base.{
  ℕ, ◌+◌, Bool, true, false, ◌&&◌, not, Option, none, some, List, [], ◌∷◌, ◌++◌, map, string_eq,
  list_eq, if◌then◌else◌, Result, ok, ◌>>=◌, ◌>>◌, guard, or_raise, get_elem?, any, Dict, get, keys,
  or_else, leb, max, min, is_empty,
}
use petrus.Petrinet.Token.{Token, NetPath}
use petrus.Petrinet.Path.{sorted}
use petrus.Petrinet.Queue.{QueueError, time_blind, admitted_by}
use petrus.Petrinet.Marking.{Marking}
use petrus.Petrinet.Schema.{is_consume, Timer, delay, until, is_delay, Arc, Transition}
use petrus.Petrinet.Net.{Net, ArcUri, inputs, is_source, is_none}
use petrus.Petrinet.Enabledness.{
  Selection, Binding, Implementations, SurveyError, clock_required, anchor_required, Alternative,
  veto, satisfied, alternatives, product, pick, admitted, offer, guards_hold,
}

-- An arc with its alternatives, of which one is chosen.
abbrev pub Answer : Type 0 → Type 0
Answer D = Arc × List (Alternative D)

-- What a survey has found so far: enabled bindings, and maturations that are still to come.
pub record Found (D : Type 0) : Type 0 where
  pub enabled : List (Binding D)
  pub pending : List ℕ

abbrev pub filter_uri : Net → ℕ × Arc → Option ArcUri
filter_uri net (position, arc) =
    if is_none arc.filter then none else get_elem? net.arc_uris position

module _ {D : Type 0} where
  -- `anchor + duration` needs an anchor.
  abbrev pub timer_instant : Option ℕ → Timer → Result (SurveyError D) ℕ
  timer_instant anchor (until i) = ok i
  timer_instant anchor (delay d) = or_raise anchor anchor_required >>= λ a. ok (a + d)

  unfoldable pub latest : Option ℕ → ℕ → List Timer → Result (SurveyError D) (Option ℕ)
  latest anchor m [] = ok (some m)
  latest anchor m (t ∷ ts) = timer_instant anchor t >>= λ n. latest anchor (max m n) ts

  -- The instant at which every timer has matured; `none` without timers.
  unfoldable pub maturation : List Timer → Option ℕ → Result (SurveyError D) (Option ℕ)
  maturation [] anchor = ok none
  maturation (t ∷ ts) anchor = timer_instant anchor t >>= λ m. latest anchor m ts

  abbrev pub with_answer :
      Arc → List (Alternative D) → Option (List (Answer D)) → Option (List (Answer D))
  with_answer arc xs none = none
  with_answer arc xs (some rest) = some ((arc, xs) ∷ rest)

  -- The loop over the input arcs; `none` where one of them vetoes, and later arcs are not asked.
  unfoldable pub gather :
      Net
      → Implementations D
      → Marking D
      → Option (Dict NetPath (List ℕ))
      → List (ℕ × Arc)
      → Result (SurveyError D) (Option (List (Answer D)))
  gather net impl marking anchors [] = ok (some [])
  gather net impl marking anchors (input ∷ rest) =
      offer impl marking anchors (filter_uri net input) input.1 >>= λ answer. elim answer [
        | veto ↦ ok none
        | satisfied ↦ gather net impl marking anchors rest
        | alternatives arc xs ↦
            gather net impl marking anchors rest >>= λ more. ok (with_answer arc xs more)
      ]

  -- `zip(offers, choice)`, sorted into the consumed and the read selections.
  unfoldable pub consumed_of : List (Answer D) → List (Alternative D) → List (Selection D)
  consumed_of [] choice = []
  consumed_of (a ∷ as') [] = []
  consumed_of (a ∷ as') (x ∷ choice) =
      let rest = consumed_of as' choice in if is_consume a.0.mode then x.selection ∷ rest else rest

  unfoldable pub read_of : List (Answer D) → List (Alternative D) → List (Selection D)
  read_of [] choice = []
  read_of (a ∷ as') [] = []
  read_of (a ∷ as') (x ∷ choice) =
      let rest = read_of as' choice in if is_consume a.0.mode then rest else x.selection ∷ rest

  unfoldable pub anchors_of : List (Alternative D) → List ℕ
  anchors_of [] = []
  anchors_of (x ∷ choice) = x.anchors ++ anchors_of choice

  abbrev pub binding_of : NetPath → List (Answer D) → List (Alternative D) → Binding D
  binding_of path answers choice = record {
    transition = path;
    consumed = consumed_of answers choice;
    read = read_of answers choice;
    delivered = [];
  }

-- `max(anchors, default=None)`
unfoldable pub youngest : List ℕ → Option ℕ
youngest [] = none
youngest (a ∷ rest) = elim (youngest rest) [ none ↦ some a | some b ↦ some (max a b) ]

abbrev pub needs_clock : Net → NetPath × Transition → Bool
needs_clock net (path, t) = not (is_empty t.timers) && not (is_source net path)

-- `min(pending, default=None)`
abbrev pub earliest : List ℕ → Option ℕ
earliest [] = none
earliest (m ∷ ms) = elim (earliest ms) [ none ↦ some m | some n ↦ some (min m n) ]

-- `mature is None or mature <= watermark`; with timers the survey has checked for a watermark.
abbrev pub is_mature : Option ℕ → Option ℕ → Bool
is_mature none watermark = true
is_mature (some m) none = false
is_mature (some m) (some w) = leb m w

module _ {D : Type 0} where
  abbrev pub record_maturity : Binding D → Option ℕ → Option ℕ → Found D → Found D
  record_maturity b mature watermark found =
      if is_mature mature watermark
      then record found { enabled = found.enabled ++ b ∷ [] }
      else record found { pending = found.pending ++ or_else mature 0 ∷ [] }

  -- The loop over the cross product of the alternatives.
  unfoldable pub judge :
      Implementations D
      → NetPath
      → Transition
      → List (Answer D)
      → Option ℕ
      → List (List (Alternative D))
      → Found D
      → Result (SurveyError D) (Found D)
  judge impl path t answers watermark [] found = ok found
  judge impl path t answers watermark (choice ∷ rest) found =
      let binding = binding_of path answers choice in
      let skip = judge impl path t answers watermark rest found in
      if guards_hold impl t binding
      then (maturation t.timers (youngest (anchors_of choice)) >>= λ mature.
          judge impl path t answers watermark rest (record_maturity binding mature watermark found))
      else skip

  abbrev pub choices : List (Answer D) → List (List (Alternative D))
  choices answers = product (map (λ (a : Answer D). a.1) answers)

  abbrev pub survey_answers :
      Implementations D
      → NetPath
      → Transition
      → Option ℕ
      → Found D
      → Option (List (Answer D))
      → Result (SurveyError D) (Found D)
  survey_answers impl path t watermark found none = ok found
  survey_answers impl path t watermark found (some answers) =
      judge impl path t answers watermark (choices answers) found

  -- One turn of the loop over the transitions.
  unfoldable pub survey_transition :
      Net
      → Implementations D
      → Marking D
      → Option ℕ
      → Dict NetPath (List ℕ)
      → NetPath
      → Found D
      → Result (SurveyError D) (Found D)
  survey_transition net impl marking watermark instants path found =
      elim (get net.transitions path) [
        | none ↦ ok found
        | some t ↦
            if is_source net path
            then ok found
            else (gather net impl marking (if any is_delay t.timers then some instants else none)
                  (inputs net path)
                >>= survey_answers impl path t watermark found)
      ]

  unfoldable pub survey_loop :
      Net
      → Implementations D
      → Marking D
      → Option ℕ
      → Dict NetPath (List ℕ)
      → List NetPath
      → Found D
      → Result (SurveyError D) (Found D)
  survey_loop net impl marking watermark instants [] found = ok found
  survey_loop net impl marking watermark instants (p ∷ ps) found =
      survey_transition net impl marking watermark instants p found
      >>= survey_loop net impl marking watermark instants ps

  unfoldable pub survey :
      Net
      → Implementations D
      → Marking D
      → Option ℕ
      → Dict NetPath (List ℕ)
      → Result (SurveyError D) (Found D)
  survey net impl marking watermark instants =
      guard (not (is_none watermark && any (needs_clock net) net.transitions)) clock_required
      >> survey_loop net impl marking watermark instants (sorted (keys net.transitions))
          (record { enabled = []; pending = [] })

  unfoldable pub candidates :
      Net
      → Implementations D
      → Marking D
      → Option ℕ
      → Dict NetPath (List ℕ)
      → Result (SurveyError D) (List (Binding D))
  candidates net impl marking watermark instants =
      survey net impl marking watermark instants >>= λ found. ok found.enabled

  unfoldable pub next_maturation :
      Net
      → Implementations D
      → Marking D
      → Option ℕ
      → Dict NetPath (List ℕ)
      → Result (SurveyError D) (Option ℕ)
  next_maturation net impl marking watermark instants =
      survey net impl marking watermark instants >>= λ found. ok (earliest found.pending)

  -- The head selection of an arc: the first `weight` admitted tokens of its queue.
  unfoldable pub selection :
      Implementations D → Arc → List (Token D) → Result (QueueError D) (List (Token D))
  selection impl arc queue =
      admitted_by (time_blind queue) (admitted impl arc none) (some arc.weight) >>= λ positions.
      ok (pick queue positions)
