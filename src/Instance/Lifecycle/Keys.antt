-- ===== src/Instance/Lifecycle/Keys.antt =====
-- The dict of begin batches that `_sorted_lifecycle` (src/petrus/impetus/instance/firing.py) builds.
use petrus.Base.{
  ◌≡◌, inl, inr, none, some, List, [], arith, nat_eq, list_eq, string_eq, ok, Result-cases,
  fold_result-induct, UniqueKeys, put-UniqueKeys,
}
use petrus.History.{
  Record, scope_closed, scope_reset, candidate_selected, external_event_delivered,
  delivery_registration_opened, delivery_registration_closed, firing_begun, tokens_consumed,
  tokens_read, activity_requested, activity_completed, activity_terminal_quarantined,
  tokens_produced, firing_completed, activity_failed, firing_failed,
}
use petrus.Instance.Lifecycle.{
  Lifecycle, completed, failed, sort_record, lifecycle_step, sorted_lifecycle, empty_lifecycle,
  leave_batch, mark_ending,
}
use petrus.Instance.Lifecycle.Steps.{
  initiate-eq-ok, begin-eq-ok, join_batch-eq-ok, move-eq-ok, request-eq-ok, freeze-eq-ok,
  quarantine-eq-ok, close-eq-ok, end-eq-ok,
}

module _ {D : Type 0} where
  -- The batches of `begun` stand under different keys.
  sort_record-UniqueKeys :
      (s s' : Lifecycle D) (r : Record D)
      → sort_record s r ≡ ok s'
      → UniqueKeys s.begun
      → UniqueKeys s'.begun
  unfolding sort_record
  sort_record-UniqueKeys s s' (candidate_selected j t at) h u =
      let (_, same) = initiate-eq-ok s s' j t [] h in rw (← same) u
  sort_record-UniqueKeys s s' (external_event_delivered j d) h u =
      let (_, same) = initiate-eq-ok s s' j d.source d.tokens h in rw (← same) u
  sort_record-UniqueKeys s s' (firing_begun j t scope at) h u =
      let (_, _, _, same) = begin-eq-ok s s' j t scope at h in
      rw (← same) (put-UniqueKeys s.begun j _ u)
  sort_record-UniqueKeys s s' (tokens_consumed j m) h u =
      let (records, _, joined) = move-eq-ok s s' j m.instant (tokens_consumed j m) h in
      let (_, _, _, same) = join_batch-eq-ok s s' j m.instant records _ joined in
      rw (← same) (put-UniqueKeys s.begun j _ u)
  sort_record-UniqueKeys s s' (tokens_read j m) h u =
      let (records, _, joined) = move-eq-ok s s' j m.instant (tokens_read j m) h in
      let (_, _, _, same) = join_batch-eq-ok s s' j m.instant records _ joined in
      rw (← same) (put-UniqueKeys s.begun j _ u)
  sort_record-UniqueKeys s s' (activity_requested j r) h u =
      let (records, _, _, _, joined) = request-eq-ok s s' j r h in
      let (_, _, _, same) = join_batch-eq-ok s s' j r.instant records _ joined in
      rw (← same) (put-UniqueKeys s.begun j _ u)
  sort_record-UniqueKeys s s' (activity_completed j t x at) h u =
      let (_, _, _, _, _, _, same) = freeze-eq-ok s s' j t (completed x) h in rw (← same) u
  sort_record-UniqueKeys s s' (activity_failed j t x at) h u =
      let (_, _, _, _, _, _, same) = freeze-eq-ok s s' j t (failed x) h in rw (← same) u
  sort_record-UniqueKeys s s' (activity_terminal_quarantined j t x scope at) h u =
      let (_, same) = quarantine-eq-ok s s' j t h in rw (← same) u
  sort_record-UniqueKeys s s' (scope_closed scope discarded cancelled at) h u =
      let (_, _, same) = close-eq-ok s s' scope cancelled h in rw (← same) u
  sort_record-UniqueKeys s s' (scope_reset scope opened discarded cancelled at) h u =
      let (_, _, same) = close-eq-ok s s' scope cancelled h in rw (← same) u
  sort_record-UniqueKeys s s' (firing_completed j t at) h u =
      let (_, _, _, _, _, same) = end-eq-ok s s' j t h in rw (← same) u
  sort_record-UniqueKeys s s' (firing_failed j t x at) h u =
      let (_, _, _, _, _, same) = end-eq-ok s s' j t h in rw (← same) u
  sort_record-UniqueKeys s s' (tokens_produced j m) h u =
      let same : mark_ending s (some j) ≡ s' = ground arith in rw (← same) u
  sort_record-UniqueKeys s s' (delivery_registration_opened none source key at) h u =
      let same : s ≡ s' = ground arith in rw (← same) u
  sort_record-UniqueKeys s s' (delivery_registration_opened (some j) source key at) h u =
      let same : mark_ending s (some j) ≡ s' = ground arith in rw (← same) u
  sort_record-UniqueKeys s s' (delivery_registration_closed none source key at) h u =
      let same : s ≡ s' = ground arith in rw (← same) u
  sort_record-UniqueKeys s s' (delivery_registration_closed (some j) source key at) h u =
      let same : mark_ending s (some j) ≡ s' = ground arith in rw (← same) u
  sort_record-UniqueKeys s s' _ h u = let same : s ≡ s' = ground arith in rw (← same) u

  lifecycle_step-UniqueKeys :
      (s s' : Lifecycle D) (r : Record D)
      → UniqueKeys s.begun
      → lifecycle_step s r ≡ ok s'
      → UniqueKeys s'.begun
  unfolding lifecycle_step
  lifecycle_step-UniqueKeys s s' r u h = elim (Result-cases (sort_record (leave_batch s r) r)) [
    | inr (e, raised) ↦ absurd (ground arith)
    | inl (t, sorted) ↦
        let same : record t { previous = some r } ≡ s' = ground arith in
        rw (← same) (sort_record-UniqueKeys (leave_batch s r) t r sorted u)
  ]

  pub sorted_lifecycle-UniqueKeys :
      (history : List (Record D)) (s : Lifecycle D)
      → sorted_lifecycle history ≡ ok s
      → UniqueKeys s.begun
  unfolding sorted_lifecycle
  sorted_lifecycle-UniqueKeys history s h =
      fold_result-induct (λ seen t. UniqueKeys t.begun) lifecycle_step
        (λ seen t t' r u turn. lifecycle_step-UniqueKeys t t' r u turn) [] history empty_lifecycle s
        tt h
