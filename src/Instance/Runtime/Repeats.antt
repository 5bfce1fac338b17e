-- ===== src/Instance/Runtime/Repeats.antt =====
-- Repeated reports of an activity at the doors of src/petrus/impetus/instance/__init__.py.
pub mod Deliveries
pub mod Reports
use petrus.Base.{
  ℕ, ◌≡◌, refl, sym, ap, ◌∙◌, inl, inr, String, Bool, true, false, ◌&&◌, not, Option, none, some,
  List, [], ◌∷◌, ◌++◌, map, arith, Eq, ◌==◌, nat_eq, string_eq, list_eq, option_eq, pair_eq, Result,
  ok, err, ◌>>=◌, ◌>>◌, guard, or_raise, map_ok, map_err, Result-cases, Option-cases, Bool-cases,
  get, put, if◌then◌else◌, get-put_self, beq_refl, is_empty,
}
use petrus.Petrinet.Token.{Token, NetPath, LifecycleScope, scope_eq}
use petrus.Petrinet.Net.{is_none}
use petrus.Petrinet.Enabledness.{Binding}
use petrus.History.{Record, ScopeReference, exact, named, external_event_delivered}
use petrus.Instance.Firing.{FiringOccurrence}
use petrus.Instance.Lifecycle.{Terminal, completed, failed}
use petrus.Instance.Runtime.{
  Instance, Handlers, RuntimeError, conflicting_terminal, effective, commit, writer_records,
  ensure_in_flight, non_canonical,
}
use petrus.Instance.Runtime.Activities.{
  TerminalDisposition, accepted, acknowledged, record_terminal, quarantine_terminal, acknowledge,
  answers, terminal_record, record_activity_completion,
}
use petrus.Instance.Runtime.Beginning.{begin_occurrence}
use petrus.Instance.Runtime.Delivering.{
  Acknowledgement, accept_delivery, accept_new, begin_delivery, delivered_event, disposition,
  dispositioned, was_spent, canonical_tokens, check_target, inactive_target, exact_scope,
  answer_prior, is_redelivery, content, recorded, same_reference, as_reference,
}

module _ {D : Type 0} where
  answers_self : (hs : Handlers D) (x : Terminal D) → answers hs x x ≡ true
  unfolding answers
  answers_self hs (completed x) = beq_refl (hs.payload_text x)
  answers_self hs (failed x) = beq_refl (hs.failure_text x)

module _ {D : Type 0} ⦃same : Eq (FiringOccurrence D)⦄ where
  quarantine_not_accepted :
      (hs : Handlers D) (s t : Instance D) (o : FiringOccurrence D) (outcome : D) (at : Option ℕ)
      → quarantine_terminal hs s o outcome at ≡ ok (t, accepted)
      → ⊥
  unfolding quarantine_terminal
  quarantine_not_accepted hs s t o outcome at h = elim (Option-cases o.scope) [
    | inl missing ↦ ground arith
    | inr (scope, given) ↦ elim (Option-cases (get s.quarantined_activity o.id)) [
      | inr (prior, found) ↦ ground arith
      | inl absent ↦ ground arith
    ]
  ]

  -- What an accepted report has checked, and the state it leaves.
  accepted_report :
      (hs : Handlers D) (s t : Instance D) (o : FiringOccurrence D) (x : Terminal D) (at : Option ℕ)
      → record_terminal hs s o (ok x) at ≡ ok (t, accepted)
      → (get s.cancelled o.id ≡ none)
        × (get s.terminal_activity o.id ≡ none)
        × (ensure_in_flight s o ≡ ok tt)
        × (is_none o.invocation ≡ false)
        × ((batch : List (Record D)) × (record (commit s batch (effective s at)) {
          frozen_results = put s.frozen_results o.id x;
        }
              ≡ t))
  unfolding record_terminal
  accepted_report hs s t o x at h = elim (Option-cases (get s.cancelled o.id)) [
    | inr (p, gone) ↦
        absurd (quarantine_not_accepted hs s t o (hs.terminal_outcome x) at (ground arith))
    | inl live ↦ elim (Option-cases (get s.terminal_activity o.id)) [
      | inr (prior, found) ↦ absurd (ground arith)
      | inl open_ended ↦ elim (Result-cases (ensure_in_flight s o)) [
        | inr (y, raised) ↦ absurd (ground arith)
        | inl (u, flying) ↦ elim (Option-cases (get s.frozen_results o.id)) [
          | inr (frozen, found) ↦ absurd (ground arith)
          | inl unfrozen ↦
              elim (Result-cases (writer_records hs (terminal_record o x (effective s at) ∷ []))) [
                | inr (y, raised) ↦ absurd (ground arith)
                | inl (batch, written) ↦
                    (live, open_ended, flying, ground arith, (batch, ground arith))
              ]
        ]
      ]
    ]
  ]

  ensure_in_flight_same :
      (s t : Instance D) (o : FiringOccurrence D)
      → t.in_flight ≡ s.in_flight
      → t.next_occurrence ≡ s.next_occurrence
      → ensure_in_flight t o ≡ ensure_in_flight s o
  unfolding ensure_in_flight
  ensure_in_flight_same s t o p q = rw (p, q) refl

  -- A state in which the terminal fact of an occurrence in flight is frozen.
  pub record Frozen (t : Instance D) (o : FiringOccurrence D) (x : Terminal D) : Type 0 where
    pub live : get t.cancelled o.id ≡ none
    pub unended : get t.terminal_activity o.id ≡ none
    pub flying : ensure_in_flight t o ≡ ok tt
    pub impure : is_none o.invocation ≡ false
    pub frozen : get t.frozen_results o.id ≡ some x

  pub accepted-Frozen :
      (hs : Handlers D) (s t : Instance D) (o : FiringOccurrence D) (x : Terminal D) (at : Option ℕ)
      → record_terminal hs s o (ok x) at ≡ ok (t, accepted)
      → Frozen t o x
  accepted-Frozen hs s t o x at h =
      let (live, unended, flying, impure, (batch, last)) = accepted_report hs s t o x at h in
      let left : Instance D = record (commit s batch (effective s at)) {
        frozen_results = put s.frozen_results o.id x;
      } in
      rw (← last) (record {
        live = live;
        unended = unended;
        flying = ensure_in_flight_same s left o refl refl ∙ flying;
        impure = impure;
        frozen = get-put_self s.frozen_results o.id x;
      })

  pub Frozen-record_terminal :
      (hs : Handlers D) (t : Instance D) (o : FiringOccurrence D) (x y : Terminal D)
      (later : Option ℕ)
      → Frozen t o x
      → record_terminal hs t o (ok y) later ≡ acknowledge t o.id (answers hs x y)
  unfolding record_terminal
  Frozen-record_terminal hs t o x y later f =
      ground (arith, f.live, f.unended, f.flying, f.impure, f.frozen)

module _ {D : Type 0} where
  pub decided :
      (u : Instance D) (k : ℕ) (b : Bool)
      → acknowledge u k b ≡ (if b then ok (u, acknowledged) else err (conflicting_terminal k))
  decided u k true = refl
  decided u k false = refl
