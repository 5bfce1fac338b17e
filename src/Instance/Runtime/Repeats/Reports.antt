-- ===== src/Instance/Runtime/Repeats/Reports.antt =====
-- Reports of an activity after its first one was accepted, before and after its occurrence ends, in
-- src/petrus/impetus/instance/__init__.py.
use petrus.Base.{
  ℕ, ◌≡◌, refl, ◌∙◌, inl, inr, false, Option, none, some, [], ◌∷◌, arith, Eq, nat_eq, ok, err,
  Result-cases, Option-cases, Bool-cases, get, if◌then◌else◌, get-put_self,
}
use petrus.Petrinet.Net.{is_none}
use petrus.Petrinet.Firing
use petrus.History.{firing_failed}
use petrus.Instance.Firing.{FiringOccurrence, FiringOutcome, HandlerResult}
use petrus.Instance.Lifecycle.{Terminal}
use petrus.Instance.Runtime.{
  Instance, Handlers, conflicting_terminal, effective, commit, writer_records, live_marking,
}
use petrus.Instance.Runtime.Activities.{
  accepted, acknowledged, record_terminal, acknowledge, answers,
}
use petrus.Instance.Runtime.Completing.{
  commit_completion, fail, fail_firing, projected_result, armed_after, produced_movements,
  completion_records, apply_produced, retire, cursor_after, projects_failure, may_fail,
  with_failure, end_failed,
}
use petrus.Instance.Runtime.Repeats.{Frozen, accepted-Frozen, Frozen-record_terminal, decided}

module _ {D : Type 0} where
  -- A state in which the occurrence has ended with a terminal fact, and was not cancelled.
  record Settled (t : Instance D) (o : FiringOccurrence D) (x : Terminal D) : Type 0 where
    live : get t.cancelled o.id ≡ none
    terminal : get t.terminal_activity o.id ≡ some x

  retire-Settled :
      (t : Instance D) (o : FiringOccurrence D) (x : Terminal D)
      → get t.cancelled o.id ≡ none
      → is_none o.invocation ≡ false
      → get t.frozen_results o.id ≡ some x
      → Settled (retire t o) o x
  retire-Settled t o x live impure frozen = elim (Option-cases o.invocation) [
    | inl pure ↦ absurd (ground arith)
    | inr (i, asked) ↦
        rw (asked, frozen)
          (record { live = live; terminal = get-put_self t.terminal_activity o.id x })
  ]

  fail_firing-Settled :
      (hs : Handlers D) (s u : Instance D) (o : FiringOccurrence D) (x : Terminal D) (failure : D)
      (instant : ℕ)
      → get s.cancelled o.id ≡ none
      → is_none o.invocation ≡ false
      → get s.frozen_results o.id ≡ some x
      → fail_firing hs s o failure instant ≡ ok u
      → Settled u o x
  unfolding fail_firing
  fail_firing-Settled hs s u o x failure instant live impure frozen h =
      elim (Result-cases (
        writer_records hs
          (firing_failed o.id o.binding.transition (hs.failure_error failure) instant ∷ []))) [
            | inr (y, raised) ↦ absurd (ground arith)
            | inl (batch, written) ↦
                let same : retire (commit s batch instant) o ≡ u = ground arith in
                rw (← same) (retire-Settled (commit s batch instant) o x live impure frozen)
          ]

module _ {D : Type 0} ⦃e : Eq D⦄ ⦃same : Eq (FiringOccurrence D)⦄ where
  commit_completion-Settled :
      (hs : Handlers D) (s u : Instance D) (o : FiringOccurrence D) (x : Terminal D)
      (result : Option (HandlerResult D)) (at : Option ℕ) (f : FiringOutcome D)
      → Frozen s o x
      → commit_completion hs s o result at ≡ ok (u, f)
      → Settled u o x
  unfolding commit_completion
  commit_completion-Settled hs s u o x result at f ready h =
      elim (Result-cases (projected_result hs s o result)) [
        | inr (y, raised) ↦ absurd (ground (arith, ready.flying))
        | inl (r, projected) ↦ elim (Result-cases (armed_after s r)) [
          | inr (y, raised) ↦ absurd (ground (arith, ready.flying))
          | inl (armed, effective_armed) ↦
              let instant = effective s at in
              let effects =
                (Firing.complete_firing s.net (live_marking s) o.binding.transition r.tokens).0 in
              let moves = produced_movements s.next_entry o.scope instant effects in
              elim (Result-cases (writer_records hs (completion_records o instant r moves))) [
                | inr (y, raised) ↦ absurd (ground (arith, ready.flying))
                | inl (batch, written) ↦ elim (Result-cases (apply_produced o.id s.queues moves)) [
                  | inr (y, raised) ↦ absurd (ground (arith, ready.flying))
                  | inl (queues, moved) ↦
                      let left = record (commit s batch instant) {
                        next_entry = cursor_after s.next_entry effects;
                        queues = queues;
                        armed = armed;
                      } in
                      let last : retire left o ≡ u = ground (arith, ready.flying) in
                      rw (← last) (retire-Settled left o x ready.live ready.impure ready.frozen)
                ]
              ]
        ]
      ]

  end_failed-Settled :
      (hs : Handlers D) (s u : Instance D) (o : FiringOccurrence D) (x : Terminal D) (failure : D)
      (at : Option ℕ)
      → Frozen s o x
      → end_failed hs s o failure at ≡ ok u
      → Settled u o x
  end_failed-Settled hs s u o x failure at ready h =
      elim (Bool-cases (projects_failure (hs.bound_handler o.binding.transition))) [
        | inr direct ↦
            fail_firing-Settled hs s u o x failure (effective s at) ready.live ready.impure
              ready.frozen (ground (arith, ready.impure))
        | inl projects ↦ elim (Result-cases (commit_completion hs s o none at)) [
          | inr (y, raised) ↦ absurd (ground (arith, ready.impure))
          | inl ((t, f), completed) ↦
              let last : t ≡ u = ground (arith, ready.impure) in
              rw (← last) (commit_completion-Settled hs s t o x none at f ready completed)
        ]
      ]

  fail-Settled :
      (hs : Handlers D) (s u : Instance D) (o : FiringOccurrence D) (x : Terminal D) (failure : D)
      (at : Option ℕ)
      → Frozen s o x
      → fail hs s o failure at ≡ (u, ok tt)
      → Settled u o x
  unfolding fail
  fail-Settled hs s u o x failure at ready h =
      elim (Bool-cases (may_fail hs failure (get s.frozen_results o.id))) [
        | inr refused ↦ absurd (ground (arith, ready.flying))
        | inl agreed ↦
            let frozen : with_failure hs s o failure at ≡ ok s =
              rw (ready.impure, ready.frozen) refl in
            elim (Result-cases (end_failed hs s o failure at)) [
              | inr (y, raised) ↦ absurd (ground (arith, ready.flying))
              | inl (t, ended) ↦
                  let last : t ≡ u = ground (arith, ready.flying) in
                  rw (← last) (end_failed-Settled hs s t o x failure at ready ended)
            ]
      ]

  Settled-record_terminal :
      (hs : Handlers D) (t : Instance D) (o : FiringOccurrence D) (x y : Terminal D)
      (later : Option ℕ)
      → Settled t o x
      → record_terminal hs t o (ok y) later ≡ acknowledge t o.id (answers hs x y)
  unfolding record_terminal
  Settled-record_terminal hs t o x y later f = ground (arith, f.live, f.terminal)

  -- The states that follow the acceptance: the one it leaves, and those in which the occurrence is
  -- completed or failed next.
  pub data Later (hs : Handlers D) (o : FiringOccurrence D) : Instance D → Instance D → Type 0 where
    open_still : {t : Instance D} → Later hs o t t
    completing :
        {t u : Instance D} (result : Option (HandlerResult D)) (at : Option ℕ) (f : FiringOutcome D)
        → commit_completion hs t o result at ≡ ok (u, f)
        → Later hs o t u
    failing :
        {t u : Instance D} (failure : D) (at : Option ℕ)
        → fail hs t o failure at ≡ (u, ok tt)
        → Later hs o t u

  -- The terminal report of an activity that is accepted decides every report that is made next, at any
  -- instant, while its occurrence is still open and equally once that was completed or failed: a report
  -- of the same kind and text is acknowledged with the state unchanged, and any other is refused as a
  -- conflict.
  pub record_terminal_repeated :
      (hs : Handlers D) (s t u : Instance D) (o : FiringOccurrence D) (x y : Terminal D)
      (at later : Option ℕ)
      → record_terminal hs s o (ok x) at ≡ ok (t, accepted)
      → Later hs o t u
      → record_terminal hs u o (ok y) later
        ≡ (if answers hs x y then ok (u, acknowledged) else err (conflicting_terminal o.id))
  record_terminal_repeated hs s t _ o x y at later h open_still =
      Frozen-record_terminal hs t o x y later (accepted-Frozen hs s t o x at h)
      ∙ decided t o.id (answers hs x y)
  record_terminal_repeated hs s t u o x y at later h (completing result when f done) =
      Settled-record_terminal hs u o x y later
        (commit_completion-Settled hs t u o x result when f (accepted-Frozen hs s t o x at h) done)
      ∙ decided u o.id (answers hs x y)
  record_terminal_repeated hs s t u o x y at later h (failing failure when done) =
      Settled-record_terminal hs u o x y later
        (fail-Settled hs t u o x failure when (accepted-Frozen hs s t o x at h) done)
      ∙ decided u o.id (answers hs x y)
