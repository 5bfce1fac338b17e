-- ===== src/Instance/Runtime/Clock/Reports.antt =====
-- The terminal reports and the failures of src/petrus/impetus/instance/__init__.py advance the
-- history at its effective instant, or leave the state alone.
use petrus.Base.{
  ℕ, ◌≡◌, refl, sym, ap, inl, inr, Bool, ◌&&◌, not, Option, none, [], ◌∷◌, ◌++◌, arith, Eq, ◌==◌,
  nat_eq, string_eq, option_eq, Result, ok, Result-cases, Option-cases, Bool-cases, get, put,
}
use petrus.Petrinet.Net.{is_none}
use petrus.History.{instant_of, activity_terminal_quarantined}
use petrus.Instance.Firing.{FiringOccurrence}
use petrus.Instance.Lifecycle.{Terminal, completed, failed}
use petrus.Instance.Runtime.{
  RuntimeError, Instance, Handlers, RuntimeError, effective, commit, writer_records,
  ensure_in_flight,
}
use petrus.Instance.Runtime.Completing.{
  commit_completion, with_failure, projects_failure, fail, end_failed, may_fail,
}
use petrus.Instance.Runtime.Activities.{
  TerminalDisposition, record_terminal, quarantine_terminal, terminal_record, acknowledge, answers,
  record_activity_failure,
}
use petrus.Instance.Runtime.Clock.{At, Advances, Advances-refl, Advances-trans, commit-Advances}
use petrus.Instance.Runtime.Clock.Commits.{writer_records-eq-ok}
use petrus.Instance.Runtime.Clock.Ends.{fail_firing-Advances, commit_completion-Advances}

module _ {D : Type 0} where
  acknowledge-Advances :
      (s t : Instance D) (k : ℕ) (matches : Bool) (d : TerminalDisposition)
      → acknowledge s k matches ≡ ok (t, d)
      → Advances s t
  acknowledge-Advances s t k matches d h =
      let same : s ≡ t = ground arith in rw (← same) (Advances-refl s)

  terminal_record-At :
      (o : FiringOccurrence D) (x : Terminal D) (at : ℕ) → At at (terminal_record o x at)
  unfolding instant_of
  terminal_record-At o (completed x) at = refl
  terminal_record-At o (failed x) at = refl

module _ {D : Type 0} ⦃same : Eq (FiringOccurrence D)⦄ where
  quarantine_terminal-Advances :
      (hs : Handlers D) (s t : Instance D) (o : FiringOccurrence D) (outcome : D) (at : Option ℕ)
      (d : TerminalDisposition)
      → quarantine_terminal hs s o outcome at ≡ ok (t, d)
      → Advances s t
  unfolding quarantine_terminal instant_of
  quarantine_terminal-Advances hs s t o outcome at d h = elim (Option-cases o.scope) [
    | inl missing ↦ absurd (ground arith)
    | inr (scope, given) ↦ elim (Option-cases (get s.quarantined_activity o.id)) [
      | inr (prior, found) ↦
          acknowledge-Advances s t o.id (hs.payload_text prior == hs.payload_text outcome) d
            (ground arith)
      | inl absent ↦
          let r =
            activity_terminal_quarantined o.id o.binding.transition outcome scope
              (effective s at) in
          elim (Result-cases (writer_records hs (r ∷ []))) [
            | inr (x, raised) ↦ absurd (ground arith)
            | inl (batch, written) ↦
                let whole = writer_records-eq-ok hs _ batch written in
                let last : record (commit s batch (effective s at)) {
                  quarantined_activity = put s.quarantined_activity o.id outcome;
                }
                    ≡ t =
                  ground arith in
                rw (← last) (
                  commit-Advances s _ at r [] (refl, tt) (ap (λ rs. s.history ++ rs) (sym whole))
                    refl)
          ]
    ]
  ]

  pub record_terminal-Advances :
      (hs : Handlers D) (s t : Instance D) (o : FiringOccurrence D)
      (report : Result (RuntimeError D) (Terminal D)) (at : Option ℕ) (d : TerminalDisposition)
      → record_terminal hs s o report at ≡ ok (t, d)
      → Advances s t
  unfolding record_terminal
  record_terminal-Advances hs s t o report at d h = elim (Result-cases report) [
    | inr (x, raised) ↦ absurd (ground arith)
    | inl (x, reported) ↦ elim (Option-cases (get s.cancelled o.id)) [
      | inr (p, gone) ↦
          quarantine_terminal-Advances hs s t o (hs.terminal_outcome x) at d (ground arith)
      | inl live ↦ elim (Option-cases (get s.terminal_activity o.id)) [
        | inr (prior, found) ↦ acknowledge-Advances s t o.id (answers hs prior x) d (ground arith)
        | inl open_ended ↦ elim (Result-cases (ensure_in_flight s o)) [
          | inr (y, raised) ↦ absurd (ground arith)
          | inl (u, flying) ↦ elim (Option-cases (get s.frozen_results o.id)) [
            | inr (frozen, found) ↦
                acknowledge-Advances s t o.id (answers hs frozen x) d (ground arith)
            | inl unfrozen ↦
                elim (Result-cases
                  (writer_records hs (terminal_record o x (effective s at) ∷ []))) [
                    | inr (y, raised) ↦ absurd (ground arith)
                    | inl (batch, written) ↦
                        let whole = writer_records-eq-ok hs _ batch written in
                        let last : record (commit s batch (effective s at)) {
                          frozen_results = put s.frozen_results o.id x;
                        }
                            ≡ t =
                          ground arith in
                        rw (← last) (
                          commit-Advances s _ at (terminal_record o x (effective s at)) []
                            (terminal_record-At o x (effective s at), tt)
                            (ap (λ rs. s.history ++ rs) (sym whole)) refl)
                  ]
          ]
        ]
      ]
    ]
  ]

  with_failure-Advances :
      (hs : Handlers D) (s t : Instance D) (o : FiringOccurrence D) (failure : D) (at : Option ℕ)
      → with_failure hs s o failure at ≡ ok t
      → Advances s t
  unfolding record_activity_failure
  with_failure-Advances hs s t o failure at h =
      elim (Result-cases (record_terminal hs s o (ok (failed failure)) at)) [
        | inl ((u, d), recorded) ↦
            elim (Bool-cases (not (is_none o.invocation) && is_none (get s.frozen_results o.id))) [
              | inl first_report ↦
                  let last : u ≡ t = ground arith in
                  rw (← last)
                    (record_terminal-Advances hs s u o (ok (failed failure)) at d recorded)
              | inr recorded_before ↦
                  let last : s ≡ t = ground arith in rw (← last) (Advances-refl s)
            ]
        | inr (x, raised) ↦
            elim (Bool-cases (not (is_none o.invocation) && is_none (get s.frozen_results o.id))) [
              | inl first_report ↦ absurd (ground arith)
              | inr recorded_before ↦
                  let last : s ≡ t = ground arith in rw (← last) (Advances-refl s)
            ]
      ]

module _ {D : Type 0} ⦃e : Eq D⦄ ⦃same : Eq (FiringOccurrence D)⦄ where
  end_failed-Advances :
      (hs : Handlers D) (s t : Instance D) (o : FiringOccurrence D) (failure : D) (at : Option ℕ)
      → end_failed hs s o failure at ≡ ok t
      → Advances s t
  end_failed-Advances hs s t o failure at h =
      elim (Bool-cases
        (not (is_none o.invocation) && projects_failure (hs.bound_handler o.binding.transition))) [
          | inl projected ↦ elim (Result-cases (commit_completion hs s o none at)) [
            | inr (x, raised) ↦ absurd (ground arith)
            | inl ((v, f), done) ↦
                let last : v ≡ t = ground arith in
                rw (← last) (commit_completion-Advances hs s v o none at f done)
          ]
          | inr direct ↦ fail_firing-Advances hs s t o failure at (ground arith)
        ]

  pub fail-Advances :
      (hs : Handlers D) (s t : Instance D) (o : FiringOccurrence D) (failure : D) (at : Option ℕ)
      (r : Result (RuntimeError D) (Unit {0}))
      → fail hs s o failure at ≡ (t, r)
      → Advances s t
  unfolding fail
  fail-Advances hs s t o failure at r h = elim (Result-cases (ensure_in_flight s o)) [
    | inr (x, raised) ↦ let last : s ≡ t = ground arith in rw (← last) (Advances-refl s)
    | inl (_, flying) ↦ elim (Bool-cases (may_fail hs failure (get s.frozen_results o.id))) [
      | inr refused ↦ let last : s ≡ t = ground arith in rw (← last) (Advances-refl s)
      | inl agreed ↦ elim (Result-cases (with_failure hs s o failure at)) [
        | inr (x, raised) ↦ let last : s ≡ t = ground arith in rw (← last) (Advances-refl s)
        | inl (u, reported) ↦
            let before = with_failure-Advances hs s u o failure at reported in
            elim (Result-cases (end_failed hs u o failure at)) [
              | inr (x, raised) ↦ let last : u ≡ t = ground arith in rw (← last) before
              | inl (v, ended) ↦
                  let last : v ≡ t = ground arith in
                  rw (← last)
                    (Advances-trans s u v before (end_failed-Advances hs u v o failure at ended))
            ]
      ]
    ]
  ]
