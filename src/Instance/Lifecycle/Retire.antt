-- ===== src/Instance/Lifecycle/Retire.antt =====
-- A firing that is completed is in flight no more: `complete_firing` and `replay_in_flight` of
-- src/petrus/impetus/instance/firing.py.
use petrus.Base.{
  In→contains, In-map, ℕ, ◌≡◌, refl, ap, ◌∙◌, inl, inr, false, ◌||◌, not, List, [], ◌∷◌, ◌++◌,
  arith, ◌==◌, nat_eq, option_eq, list_eq, string_eq, ok, Result-cases, Bool-cases,
  fold_result-append, filter, contains, contains-append, Dict, UniqueKeys, beq_sym, In, All-lookup,
}
use petrus.Petrinet.Token.{scope_eq}
use petrus.Petrinet.Marking.{Marking}
use petrus.Petrinet.Net.{Net}
use petrus.Petrinet.Firing.{ProducedTokens}
use petrus.Petrinet.Firing
use petrus.History.{Record}
use petrus.Instance.Firing.{FiringOccurrence, HandlerResult, complete_firing}
use petrus.Instance.Lifecycle.{Lifecycle, lifecycle_step, sorted_lifecycle, empty_lifecycle}
use petrus.Instance.Lifecycle.Coherent.{Coherent, sorted_lifecycle-Coherent}
use petrus.Instance.Lifecycle.Flight.{
  rebuild_open-Rebuilt, rebuild_each-Rebuilt, rebuild_each-ids, ids,
}
use petrus.Instance.Lifecycle.Keys.{sorted_lifecycle-UniqueKeys}
use petrus.Instance.Lifecycle.Replays.{rebuild_open, rebuild_each, replay_in_flight}
use petrus.Instance.Lifecycle.Endings.{ordered_boundary, Ended, end_fold}

module _ {D : Type 0} where
  rebuild_open-Ended :
      (k : ℕ) (s s' : Lifecycle D) (j : ℕ) (batch : List (Record D))
      → Ended k s s'
      → (j == k) ≡ false
      → rebuild_open s' j batch ≡ rebuild_open s j batch
  unfolding rebuild_open
  rebuild_open-Ended k s s' j batch e other = rw (e.initiated, e.ending j other) refl

  not_ended :
      (k : ℕ) (s s' : Lifecycle D) (j : ℕ)
      → Ended k s s'
      → contains j s'.ended ≡ (contains j s.ended || j == k)
  unfolding contains
  not_ended k s s' j e =
      ap (contains j) e.ended ∙ ground (arith, contains-append j s.ended (k ∷ []), beq_sym j k)

  -- The others are rebuilt as before.
  rebuild_each-Ended :
      (k : ℕ) (s s' : Lifecycle D) (d : Dict ℕ (List (Record D))) (os : List (FiringOccurrence D))
      → Ended k s s'
      → rebuild_each s d ≡ ok os
      → rebuild_each s' d ≡ ok (filter (λ (o : FiringOccurrence D). not (o.id == k)) os)
  unfolding rebuild_each filter
  rebuild_each-Ended k s s' [] os e h = let same : [] ≡ os = ground arith in rw (← same) refl
  rebuild_each-Ended k s s' ((j, batch) ∷ d) os e h = elim (Bool-cases (contains j s.ended)) [
    | inl ended ↦
        ground (arith, not_ended k s s' j e, rebuild_each-Ended k s s' d os e (ground arith))
    | inr live ↦ elim (Result-cases (rebuild_open s j batch)) [
      | inr (x, raised) ↦ absurd (ground arith)
      | inl (o, rebuilt) ↦ elim (Result-cases (rebuild_each s d)) [
        | inr (x, raised) ↦ absurd (ground arith)
        | inl (rest, more) ↦
            let same : o ∷ rest ≡ os = ground arith in
            let at : o.id ≡ j = (rebuild_open-Rebuilt s j batch o rebuilt).id in
            let tail = rebuild_each-Ended k s s' d rest e more in
            elim (Bool-cases (j == k)) [
              | inl gone ↦ rw (← same, at) (ground (arith, not_ended k s s' j e, tail))
              | inr other ↦
                  rw (← same, at)
                    (ground (
                      arith,
                      not_ended k s s' j e,
                      tail,
                      rebuild_open-Ended k s s' j batch e other,
                    ))
            ]
      ]
    ]
  ]

  open_live :
      (s : Lifecycle D) (os : List (FiringOccurrence D)) (o : FiringOccurrence D)
      → UniqueKeys s.begun
      → rebuild_each s s.begun ≡ ok os
      → In o os
      → contains o.id s.ended ≡ false
  open_live s os o unique rebuilt member = ground (
    arith,
    rebuild_each-ids s s.begun os o.id unique rebuilt,
    In→contains o.id (ids os) (In-map (λ (p : FiringOccurrence D). p.id) o os member),
  )

  uncancelled :
      (s : Lifecycle D) (k : ℕ)
      → Coherent k s
      → contains k s.ended ≡ false
      → contains k s.lifecycle_cancelled ≡ false
  uncancelled s k c live = ground (arith, c.cancelled_ended)

  -- When `replay_in_flight` rebuilds the occurrences of a history and one of them is completed, then
  -- from the history with its end batch appended it rebuilds the same occurrences in the same order,
  -- without that one.
  pub replay_in_flight-complete_firing :
      (net : Net) (history : List (Record D)) (os : List (FiringOccurrence D)) (m : Marking D)
      (o : FiringOccurrence D) (r : HandlerResult D) (at : ℕ)
      → replay_in_flight history ≡ ok os
      → In o os
      → replay_in_flight (history ++ (complete_firing net m o r at).2)
        ≡ ok (filter (λ (p : FiringOccurrence D). not (p.id == o.id)) os)
  unfolding replay_in_flight sorted_lifecycle complete_firing
  replay_in_flight-complete_firing net history os m o r at h member =
      elim (Result-cases (sorted_lifecycle history)) [
        | inr (x, raised) ↦ absurd (ground arith)
        | inl (s, sorted) ↦
            let t = o.binding.transition in
            let unique = sorted_lifecycle-UniqueKeys history s sorted in
            let rebuilt : rebuild_each s s.begun ≡ ok os = ground arith in
            let (found, b) =
              All-lookup _ os (rebuild_each-Rebuilt s s.begun os unique (λ k rs p. p) rebuilt) o
                member in
            let live = open_live s os o unique rebuilt member in
            let c = sorted_lifecycle-Coherent o.id history s sorted in
            let (s', folded, e) =
              end_fold s o.id at t r (Firing.complete_firing net m t r.tokens).0 o.records found
                (ordered_boundary o.records t o.scope b.ordered b.boundary)
                (uncancelled s o.id c live) live in
            rw (fold_result-append lifecycle_step empty_lifecycle s history _ sorted, folded)
              (rw e.begun (rebuild_each-Ended o.id s s' s.begun os e rebuilt))
      ]
