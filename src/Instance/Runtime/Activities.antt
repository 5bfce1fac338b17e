-- ===== src/Instance/Runtime/Activities.antt =====
-- The terminal reports of activities in src/petrus/impetus/instance/__init__.py:
-- `record_activity_completion`, `record_activity_failure` and `_quarantine_terminal`.
use petrus.Base.{
  ℕ, Bool, false, ◌&&◌, not, Option, none, some, [], ◌∷◌, Eq, ◌==◌, nat_eq, string_eq, option_eq,
  Result, ok, ◌>>=◌, ◌>>◌, guard, or_raise, map_ok, get, put,
}
use petrus.Petrinet.Net.{is_none}
use petrus.History.{Record, activity_completed, activity_failed, activity_terminal_quarantined}
use petrus.Instance.Firing.{FiringOccurrence}
use petrus.Instance.Lifecycle.{Terminal, completed, failed}
use petrus.Instance.Runtime.{
  Instance, Handlers, RuntimeError, conflicting_terminal, pure_firing, non_canonical,
  writer_records, effective, commit, ensure_in_flight,
}

pub data TerminalDisposition : Type 0 where
  accepted acknowledged quarantined : TerminalDisposition

module _ {D : Type 0} where
  -- Whether a recorded terminal fact answers a report: the same kind with the same text.
  unfoldable pub answers : Handlers D → Terminal D → Terminal D → Bool
  answers hs (completed x) (completed y) = hs.payload_text x == hs.payload_text y
  answers hs (failed x) (failed y) = hs.failure_text x == hs.failure_text y
  answers hs _ _ = false

  abbrev pub terminal_record : FiringOccurrence D → Terminal D → ℕ → Record D
  terminal_record o (completed x) at = activity_completed o.id o.binding.transition x at
  terminal_record o (failed x) at = activity_failed o.id o.binding.transition x at

  -- A prior fact acknowledges the report, or is in conflict with it.
  abbrev pub acknowledge :
      Instance D → ℕ → Bool → Result (RuntimeError D) (Instance D × TerminalDisposition)
  acknowledge s k matches = guard matches (conflicting_terminal k) >> ok (s, acknowledged)

module _ {D : Type 0} ⦃same : Eq (FiringOccurrence D)⦄ where
  -- `_quarantine_terminal`
  unfoldable pub quarantine_terminal :
      Handlers D
      → Instance D
      → FiringOccurrence D
      → D
      → Option ℕ
      → Result (RuntimeError D) (Instance D × TerminalDisposition)
  quarantine_terminal hs s o outcome at =
      guard (get s.cancelled o.id == some o && not (is_none o.invocation))
        (conflicting_terminal o.id)
      >> (or_raise o.scope (conflicting_terminal o.id) >>= λ scope.
          elim (get s.quarantined_activity o.id) [
            | some prior ↦ acknowledge s o.id (hs.payload_text prior == hs.payload_text outcome)
            | none ↦
                let instant = effective s at in
                writer_records hs (
                  activity_terminal_quarantined o.id o.binding.transition outcome scope instant
                  ∷ [])
                >>= λ batch. ok (
                  record (commit s batch instant) {
                    quarantined_activity = put s.quarantined_activity o.id outcome;
                  },
                  quarantined,
                )
          ])

  -- The two doors; `report` is the terminal fact, whose canonical form may not exist.
  unfoldable pub record_terminal :
      Handlers D
      → Instance D
      → FiringOccurrence D
      → Result (RuntimeError D) (Terminal D)
      → Option ℕ
      → Result (RuntimeError D) (Instance D × TerminalDisposition)
  record_terminal hs s o report at = elim (get s.cancelled o.id) [
    | some p ↦ report >>= λ x. quarantine_terminal hs s o (hs.terminal_outcome x) at
    | none ↦ elim (get s.terminal_activity o.id) [
      | some prior ↦ report >>= λ x. acknowledge s o.id (answers hs prior x)
      | none ↦
          ensure_in_flight s o
          >> (guard (not (is_none o.invocation)) (pure_firing o.id)
              >> (report >>= λ x. elim (get s.frozen_results o.id) [
                | some frozen ↦ acknowledge s o.id (answers hs frozen x)
                | none ↦
                    let instant = effective s at in
                    writer_records hs (terminal_record o x instant ∷ []) >>= λ batch. ok (
                      record (commit s batch instant) {
                        frozen_results = put s.frozen_results o.id x;
                      },
                      accepted,
                    )
              ]))
    ]
  ]

  unfoldable pub record_activity_completion :
      Handlers D
      → Instance D
      → FiringOccurrence D
      → D
      → Option ℕ
      → Result (RuntimeError D) (Instance D × TerminalDisposition)
  record_activity_completion hs s o result at =
      record_terminal hs s o
        (map_ok completed (or_raise (hs.canonical_payload result) non_canonical)) at

  unfoldable pub record_activity_failure :
      Handlers D
      → Instance D
      → FiringOccurrence D
      → D
      → Option ℕ
      → Result (RuntimeError D) (Instance D × TerminalDisposition)
  record_activity_failure hs s o failure at = record_terminal hs s o (ok (failed failure)) at
