-- ===== src/Instance/Lifecycle/Steps.antt =====
-- What each branch of the loop of `_sorted_lifecycle` (src/petrus/impetus/instance/firing.py) has
-- checked and changed when it does not raise.

use petrus.Base.{
  ℕ, ◌≡◌, inl, inr, true, false, not, Option, none, some, List, [], ◌∷◌, ◌++◌, arith, ◌==◌, nat_eq,
  string_eq, option_eq, list_eq, pair_eq, ok, get, put, pop, contains, any, Result-cases,
  Option-cases, Bool-cases, list_beq_iff, option_beq_iff,
}
use petrus.Petrinet.Token.{Token, NetPath, LifecycleScope, scope_eq}
use petrus.Petrinet.Net.{is_none}
use petrus.History.{ActivityRequest, Record, firing_begun, activity_requested}
use petrus.Instance.Lifecycle.{
  Lifecycle, Terminal, initiate, begin, join_batch, move, request, freeze, quarantine, close, end,
  open_under, open_scoped, pop_all, initiation, begun_transition, is_request,
}

module _ {D : Type 0} where
  pub initiate-eq-ok :
      (s s' : Lifecycle D) (k : ℕ) (t : NetPath) (delivered : List (Token D))
      → initiate s k t delivered ≡ ok s'
      → (get s.initiated k ≡ none)
        × (record s { initiated = put s.initiated k (t, delivered) } ≡ s')
  unfolding initiate
  initiate-eq-ok s s' k t delivered h = ground arith

  pub begin-eq-ok :
      (s s' : Lifecycle D) (k : ℕ) (t : NetPath) (scope : Option LifecycleScope) (at : ℕ)
      → begin s k t scope at ≡ ok s'
      → (is_none (get s.initiated k) ≡ false)
        × (get s.begun k ≡ none)
        × (initiation s.previous ≡ some (k, at))
        × (record s {
          begun = put s.begun k (firing_begun k t scope at ∷ []);
          active_begin = some (k, at);
          scoped_open = open_scoped s.scoped_open k scope;
        }
            ≡ s')
  unfolding begin
  begin-eq-ok s s' k t scope at h =
      ground (arith, option_beq_iff (initiation s.previous) (some (k, at)))

  pub join_batch-eq-ok :
      (s s' : Lifecycle D) (k at : ℕ) (records : List (Record D)) (r : Record D)
      → join_batch s k at records r ≡ ok s'
      → (contains k s.ended ≡ false)
        × (contains k s.ending ≡ false)
        × (s.active_begin ≡ some (k, at))
        × (record s { begun = put s.begun k (records ++ r ∷ []) } ≡ s')
  unfolding join_batch
  join_batch-eq-ok s s' k at records r h =
      ground (arith, option_beq_iff s.active_begin (some (k, at)))

  pub move-eq-ok :
      (s s' : Lifecycle D) (k at : ℕ) (r : Record D)
      → move s k at r ≡ ok s'
      → (records : List (Record D)) × (get s.begun k ≡ some records)
        × (join_batch s k at records r ≡ ok s')
  unfolding move
  move-eq-ok s s' k at r h = elim (Option-cases (get s.begun k)) [
    | inl missing ↦ absurd (ground arith)
    | inr (records, found) ↦ (records, found, ground arith)
  ]

  pub request-eq-ok :
      (s s' : Lifecycle D) (k : ℕ) (r : ActivityRequest D)
      → request s k r ≡ ok s'
      → (records : List (Record D)) × (get s.begun k ≡ some records)
        × (begun_transition records ≡ ok r.transition)
        × (any is_request records ≡ false)
        × (join_batch s k r.instant records (activity_requested k r) ≡ ok s')
  unfolding request
  request-eq-ok s s' k r h = elim (Option-cases (get s.begun k)) [
    | inl missing ↦ absurd (ground arith)
    | inr (records, found) ↦ elim (Result-cases (begun_transition records)) [
      | inl (u, known) ↦
          (records, found, ground (arith, list_beq_iff r.transition u), ground arith, ground arith)
      | inr (x, raised) ↦ absurd (ground arith)
    ]
  ]

  pub freeze-eq-ok :
      (s s' : Lifecycle D) (k : ℕ) (t : NetPath) (x : Terminal D)
      → freeze s k t x ≡ ok s'
      → (records : List (Record D)) × (get s.begun k ≡ some records)
        × (any is_request records ≡ true)
        × (begun_transition records ≡ ok t)
        × (get s.frozen k ≡ none)
        × (contains k s.lifecycle_cancelled ≡ false)
        × (record s { frozen = put s.frozen k x } ≡ s')
  unfolding freeze
  freeze-eq-ok s s' k t x h = elim (Option-cases (get s.begun k)) [
    | inl missing ↦ absurd (ground arith)
    | inr (records, found) ↦ elim (Result-cases (begun_transition records)) [
      | inl (u, known) ↦ (
        records,
        found,
        ground arith,
        ground (arith, list_beq_iff t u),
        ground arith,
        ground arith,
        ground arith,
      )
      | inr (y, raised) ↦ absurd (ground arith)
    ]
  ]

  pub quarantine-eq-ok :
      (s s' : Lifecycle D) (k : ℕ) (t : NetPath)
      → quarantine s k t ≡ ok s'
      → (is_none (get s.begun k) ≡ false) × (s ≡ s')
  unfolding quarantine
  quarantine-eq-ok s s' k t h = elim (Option-cases (get s.begun k)) [
    | inl missing ↦ absurd (ground arith)
    | inr (records, found) ↦ elim (Result-cases (begun_transition records)) [
      | inl (u, known) ↦ (ground arith, ground arith)
      | inr (y, raised) ↦ absurd (ground arith)
    ]
  ]

  pub close-eq-ok :
      (s s' : Lifecycle D) (scope : LifecycleScope) (cancelled : List ℕ)
      → close s scope cancelled ≡ ok s'
      → (cancelled ≡ open_under scope s.scoped_open)
        × (any (λ k. not (is_none (get s.frozen k))) cancelled ≡ false)
        × (record s {
          scoped_open = pop_all s.scoped_open cancelled;
          lifecycle_cancelled = s.lifecycle_cancelled ++ cancelled;
          ended = s.ended ++ cancelled;
        }
            ≡ s')
  unfolding close
  close-eq-ok s s' scope cancelled h =
      elim (Bool-cases (cancelled == open_under scope s.scoped_open)) [
        | inr other ↦ absurd (ground arith)
        | inl same ↦
            let exact : cancelled ≡ open_under scope s.scoped_open =
              (list_beq_iff cancelled (open_under scope s.scoped_open)).0 same in
            (exact, ground arith, ground arith)
      ]

  pub end-eq-ok :
      (s s' : Lifecycle D) (k : ℕ) (t : NetPath)
      → end s k t ≡ ok s'
      → (records : List (Record D)) × (get s.begun k ≡ some records)
        × (begun_transition records ≡ ok t)
        × (contains k s.lifecycle_cancelled ≡ false)
        × (contains k s.ended ≡ false)
        × (record s { scoped_open = pop s.scoped_open k; ended = s.ended ++ k ∷ [] } ≡ s')
  unfolding end
  end-eq-ok s s' k t h = elim (Option-cases (get s.begun k)) [
    | inl missing ↦ absurd (ground arith)
    | inr (records, found) ↦ elim (Result-cases (begun_transition records)) [
      | inl (u, known) ↦ (
        records,
        found,
        ground (arith, list_beq_iff t u),
        ground arith,
        ground arith,
        ground arith,
      )
      | inr (y, raised) ↦ absurd (ground arith)
    ]
  ]
