-- ===== src/Instance/Lifecycle/Coherent.antt =====
-- What holds of every state that the loop of `_sorted_lifecycle`
-- (src/petrus/impetus/instance/firing.py) reaches.
use petrus.Base.{
  ℕ, ◌≡◌, refl, inl, inr, Bool, true, false, not, Option, none, some, List, [], ◌∷◌, ◌++◌, arith,
  ◌==◌, nat_eq, ok, Result-cases, if◌then◌else◌, fold_result-induct, Bool-cases, any, contains,
  contains-append, get, pop, get-put, get-pop, nat_beq_iff, Dict,
}
use petrus.Petrinet.Token.{Token, NetPath, LifecycleScope, scope_eq}
use petrus.Petrinet.Net.{is_none}
use petrus.History.{
  Record, scope_closed, scope_reset, candidate_selected, external_event_delivered,
  delivery_registration_opened, delivery_registration_closed, firing_begun, tokens_consumed,
  tokens_read, activity_requested, activity_completed, activity_terminal_quarantined,
  tokens_produced, firing_completed, activity_failed, firing_failed,
}
use petrus.Instance.Lifecycle.{
  Lifecycle, Terminal, completed, failed, sort_record, lifecycle_step, sorted_lifecycle,
  empty_lifecycle, leave_batch, initiate, begin, join_batch, freeze, close, end, mark_ending,
  open_under, open_scoped, pop_all,
}
use petrus.Instance.Lifecycle.Steps.{
  initiate-eq-ok, begin-eq-ok, join_batch-eq-ok, move-eq-ok, request-eq-ok, freeze-eq-ok,
  quarantine-eq-ok, close-eq-ok, end-eq-ok,
}

open_under-get :
    (scope : LifecycleScope) (d : Dict ℕ LifecycleScope) (k : ℕ)
    → get d k ≡ none
    → contains k (open_under scope d) ≡ false
unfolding open_under contains get
open_under-get scope [] k h = refl
open_under-get scope ((j, s) ∷ d) k h = ground (arith, open_under-get scope d k)

get-pop_all :
    (d : Dict ℕ LifecycleScope) (ks : List ℕ) (k : ℕ)
    → get (pop_all d ks) k ≡ (if contains k ks then none else get d k)
unfolding pop_all contains
get-pop_all d [] k = refl
get-pop_all d (j ∷ ks) k = ground (arith, get-pop_all (pop d j) ks k, get-pop d j k)

any-contains :
    (p : ℕ → Bool) (ks : List ℕ) (k : ℕ) → any p ks ≡ false → contains k ks ≡ true → p k ≡ false
unfolding any contains
any-contains p [] k none_holds member = cc
any-contains p (j ∷ ks) k none_holds member = elim (Bool-cases (j == k)) [
  | inl same ↦ let at : j ≡ k = (nat_beq_iff j k).0 same in rw (← at) (ground arith)
  | inr other ↦ any-contains p ks k (ground arith) (ground arith)
]

module _ {D : Type 0} (k : ℕ) where
  -- An occurrence is initiated before it is begun, and begun before anything else holds of it; once
  -- ended it is not open in a scope; once cancelled it is ended and never has a terminal fact.
  pub record Coherent (s : Lifecycle D) : Type 0 where
    pub begun_initiated : get s.initiated k ≡ none → get s.begun k ≡ none
    pub ended_begun : get s.begun k ≡ none → contains k s.ended ≡ false
    pub open_begun : get s.begun k ≡ none → get s.scoped_open k ≡ none
    pub frozen_begun : get s.begun k ≡ none → get s.frozen k ≡ none
    pub ended_closed : contains k s.ended ≡ true → get s.scoped_open k ≡ none
    pub cancelled_ended : contains k s.lifecycle_cancelled ≡ true → contains k s.ended ≡ true
    pub cancelled_unfrozen : contains k s.lifecycle_cancelled ≡ true → get s.frozen k ≡ none

  join_batch-Coherent :
      (s s' : Lifecycle D) (j at : ℕ) (records : List (Record D)) (r : Record D)
      → get s.begun j ≡ some records
      → join_batch s j at records r ≡ ok s'
      → Coherent s
      → Coherent s'
  join_batch-Coherent s s' j at records r found h c =
      let (_, _, _, same) = join_batch-eq-ok s s' j at records r h in
      let grown = get-put s.begun j k (records ++ r ∷ []) in
      rw (← same) (record {
        begun_initiated = λ p. ground (arith, c.begun_initiated, grown, nat_beq_iff j k);
        ended_begun = λ p. ground (arith, c.ended_begun, grown, nat_beq_iff j k);
        open_begun = λ p. ground (arith, c.open_begun, grown, nat_beq_iff j k);
        frozen_begun = λ p. ground (arith, c.frozen_begun, grown, nat_beq_iff j k);
        ended_closed = c.ended_closed;
        cancelled_ended = c.cancelled_ended;
        cancelled_unfrozen = c.cancelled_unfrozen;
      })

  freeze-Coherent :
      (s s' : Lifecycle D) (j : ℕ) (t : NetPath) (x : Terminal D)
      → freeze s j t x ≡ ok s'
      → Coherent s
      → Coherent s'
  freeze-Coherent s s' j t x h c =
      let (records, found, _, _, _, live, same) = freeze-eq-ok s s' j t x h in
      let grown = get-put s.frozen j k x in
      rw (← same) (record {
        begun_initiated = c.begun_initiated;
        ended_begun = c.ended_begun;
        open_begun = c.open_begun;
        frozen_begun = λ p. ground (arith, c.frozen_begun p, grown, nat_beq_iff j k);
        ended_closed = c.ended_closed;
        cancelled_ended = c.cancelled_ended;
        cancelled_unfrozen = λ p. ground (arith, c.cancelled_unfrozen p, grown, nat_beq_iff j k);
      })

  initiate-Coherent :
      (s s' : Lifecycle D) (j : ℕ) (t : NetPath) (delivered : List (Token D))
      → initiate s j t delivered ≡ ok s'
      → Coherent s
      → Coherent s'
  initiate-Coherent s s' j t delivered h c =
      let (_, same) = initiate-eq-ok s s' j t delivered h in
      rw (← same) (record {
        begun_initiated = λ p.
            ground
              (arith, c.begun_initiated, get-put s.initiated j k (t, delivered), nat_beq_iff j k);
        ended_begun = c.ended_begun;
        open_begun = c.open_begun;
        frozen_begun = c.frozen_begun;
        ended_closed = c.ended_closed;
        cancelled_ended = c.cancelled_ended;
        cancelled_unfrozen = c.cancelled_unfrozen;
      })

  begin-Coherent :
      (s s' : Lifecycle D) (j : ℕ) (t : NetPath) (scope : Option LifecycleScope) (at : ℕ)
      → begin s j t scope at ≡ ok s'
      → Coherent s
      → Coherent s'
  begin-Coherent s s' j t scope at h c =
      let (given, fresh, _, same) = begin-eq-ok s s' j t scope at h in
      let grown = get-put s.begun j k (firing_begun j t scope at ∷ []) in
      let opened = get-open_scoped s.scoped_open j scope in
      rw (← same) (record {
        begun_initiated = λ p. ground (arith, c.begun_initiated, grown, nat_beq_iff j k);
        ended_begun = λ p. ground (arith, c.ended_begun, grown, nat_beq_iff j k);
        open_begun = λ p. ground (arith, c.open_begun, grown, opened, nat_beq_iff j k);
        frozen_begun = λ p. ground (arith, c.frozen_begun, grown, nat_beq_iff j k);
        ended_closed = λ p. ground (arith, c.ended_closed, c.ended_begun, opened, nat_beq_iff j k);
        cancelled_ended = c.cancelled_ended;
        cancelled_unfrozen = c.cancelled_unfrozen;
      })
    where
      get-open_scoped :
          (d : Dict ℕ LifecycleScope) (j : ℕ) (scope : Option LifecycleScope)
          → get (open_scoped d j scope) k
            ≡ (if j == k then (elim scope [ none ↦ get d k | some s ↦ some s ]) else get d k)
      get-open_scoped d j none = ground arith
      get-open_scoped d j (some s) = get-put d j k s

  close-Coherent :
      (s s' : Lifecycle D) (scope : LifecycleScope) (cancelled : List ℕ)
      → close s scope cancelled ≡ ok s'
      → Coherent s
      → Coherent s'
  close-Coherent s s' scope cancelled h c =
      let (exact, free, same) = close-eq-ok s s' scope cancelled h in
      let within : get s.scoped_open k ≡ none → contains k cancelled ≡ false =
        λ p. rw exact (open_under-get scope s.scoped_open k p) in
      let unfrozen = any-contains (λ j. not (is_none (get s.frozen j))) cancelled k free in
      let closed = get-pop_all s.scoped_open cancelled k in
      let more = contains-append k s.ended cancelled in
      let more_cancelled = contains-append k s.lifecycle_cancelled cancelled in
      rw (← same) (record {
        begun_initiated = c.begun_initiated;
        ended_begun = λ p. ground (arith, c.ended_begun p, within (c.open_begun p), more);
        open_begun = λ p. ground (arith, c.open_begun p, closed);
        frozen_begun = c.frozen_begun;
        ended_closed = λ p. ground (arith, c.ended_closed, closed, more);
        cancelled_ended = λ p. ground (arith, c.cancelled_ended, more, more_cancelled);
        cancelled_unfrozen = λ p. ground (arith, c.cancelled_unfrozen, unfrozen, more_cancelled);
      })

  end-Coherent :
      (s s' : Lifecycle D) (j : ℕ) (t : NetPath) → end s j t ≡ ok s' → Coherent s → Coherent s'
  unfolding contains
  end-Coherent s s' j t h c =
      let (records, found, _, _, _, same) = end-eq-ok s s' j t h in
      let closed = get-pop s.scoped_open j k in
      let more = contains-append k s.ended (j ∷ []) in
      rw (← same) (record {
        begun_initiated = c.begun_initiated;
        ended_begun = λ p. ground (arith, c.ended_begun p, more, nat_beq_iff j k);
        open_begun = λ p. ground (arith, c.open_begun p, closed);
        frozen_begun = c.frozen_begun;
        ended_closed = λ p. ground (arith, c.ended_closed, closed, more);
        cancelled_ended = λ p. ground (arith, c.cancelled_ended p, more);
        cancelled_unfrozen = c.cancelled_unfrozen;
      })

  -- The loop's own fields play no part.
  with_previous :
      (s : Lifecycle D) (r : Record D) → Coherent s → Coherent (record s { previous = some r })
  with_previous s r c = record {
    begun_initiated = c.begun_initiated;
    ended_begun = c.ended_begun;
    open_begun = c.open_begun;
    frozen_begun = c.frozen_begun;
    ended_closed = c.ended_closed;
    cancelled_ended = c.cancelled_ended;
    cancelled_unfrozen = c.cancelled_unfrozen;
  }

  without_batch : (s : Lifecycle D) (r : Record D) → Coherent s → Coherent (leave_batch s r)
  without_batch s r c = record {
    begun_initiated = c.begun_initiated;
    ended_begun = c.ended_begun;
    open_begun = c.open_begun;
    frozen_begun = c.frozen_begun;
    ended_closed = c.ended_closed;
    cancelled_ended = c.cancelled_ended;
    cancelled_unfrozen = c.cancelled_unfrozen;
  }

  mark_ending-Coherent : (s : Lifecycle D) (o : Option ℕ) → Coherent s → Coherent (mark_ending s o)
  mark_ending-Coherent s none c = c
  mark_ending-Coherent s (some j) c = record {
    begun_initiated = c.begun_initiated;
    ended_begun = c.ended_begun;
    open_begun = c.open_begun;
    frozen_begun = c.frozen_begun;
    ended_closed = c.ended_closed;
    cancelled_ended = c.cancelled_ended;
    cancelled_unfrozen = c.cancelled_unfrozen;
  }

  sort_record-Coherent :
      (s s' : Lifecycle D) (r : Record D) → sort_record s r ≡ ok s' → Coherent s → Coherent s'
  unfolding sort_record
  sort_record-Coherent s s' (candidate_selected j t at) h = initiate-Coherent s s' j t [] h
  sort_record-Coherent s s' (external_event_delivered j d) h =
      initiate-Coherent s s' j d.source d.tokens h
  sort_record-Coherent s s' (firing_begun j t scope at) h = begin-Coherent s s' j t scope at h
  sort_record-Coherent s s' (tokens_consumed j m) h =
      let (records, found, joined) = move-eq-ok s s' j m.instant (tokens_consumed j m) h in
      join_batch-Coherent s s' j m.instant records (tokens_consumed j m) found joined
  sort_record-Coherent s s' (tokens_read j m) h =
      let (records, found, joined) = move-eq-ok s s' j m.instant (tokens_read j m) h in
      join_batch-Coherent s s' j m.instant records (tokens_read j m) found joined
  sort_record-Coherent s s' (activity_requested j r) h =
      let (records, found, known, once, joined) = request-eq-ok s s' j r h in
      join_batch-Coherent s s' j r.instant records (activity_requested j r) found joined
  sort_record-Coherent s s' (activity_completed j t x at) h =
      freeze-Coherent s s' j t (completed x) h
  sort_record-Coherent s s' (activity_failed j t x at) h = freeze-Coherent s s' j t (failed x) h
  sort_record-Coherent s s' (activity_terminal_quarantined j t x scope at) h =
      let (known, same) = quarantine-eq-ok s s' j t h in rw (← same) (λ c. c)
  sort_record-Coherent s s' (scope_closed scope discarded cancelled at) h =
      close-Coherent s s' scope cancelled h
  sort_record-Coherent s s' (scope_reset scope opened discarded cancelled at) h =
      close-Coherent s s' scope cancelled h
  sort_record-Coherent s s' (firing_completed j t at) h = end-Coherent s s' j t h
  sort_record-Coherent s s' (firing_failed j t x at) h = end-Coherent s s' j t h
  sort_record-Coherent s s' (tokens_produced j m) h =
      let same : mark_ending s (some j) ≡ s' = ground arith in
      rw (← same) (mark_ending-Coherent s (some j))
  sort_record-Coherent s s' (delivery_registration_opened o source key at) h =
      let same : mark_ending s o ≡ s' = ground arith in rw (← same) (mark_ending-Coherent s o)
  sort_record-Coherent s s' (delivery_registration_closed o source key at) h =
      let same : mark_ending s o ≡ s' = ground arith in rw (← same) (mark_ending-Coherent s o)
  sort_record-Coherent s s' _ h = let same : s ≡ s' = ground arith in rw (← same) (λ c. c)

  Coherent-step :
      (s s' : Lifecycle D) (r : Record D) → Coherent s → lifecycle_step s r ≡ ok s' → Coherent s'
  unfolding lifecycle_step
  Coherent-step s s' r c h = elim (Result-cases (sort_record (leave_batch s r) r)) [
    | inr (e, raised) ↦ absurd (ground arith)
    | inl (t, sorted) ↦
        let same : record t { previous = some r } ≡ s' = ground arith in
        rw (← same) (
          with_previous t r
            (sort_record-Coherent (leave_batch s r) t r sorted (without_batch s r c)))
  ]

  -- Of every occurrence, the lifecycle that a history is sorted into satisfies: it is initiated where
  -- it is begun, begun where it is ended, open in a scope or frozen, in no open scope once it is
  -- ended, and ended and without a terminal activity fact once it is cancelled.
  pub sorted_lifecycle-Coherent :
      (history : List (Record D)) (s : Lifecycle D) → sorted_lifecycle history ≡ ok s → Coherent s
  unfolding sorted_lifecycle contains get
  sorted_lifecycle-Coherent history s h =
      fold_result-induct (λ seen t. Coherent t) lifecycle_step
        (λ seen t t' r c turn. Coherent-step t t' r c turn) [] history empty_lifecycle s
        (record {
          begun_initiated = λ p. refl;
          ended_begun = λ p. refl;
          open_begun = λ p. refl;
          frozen_begun = λ p. refl;
          ended_closed = λ p. refl;
          cancelled_ended = λ p. absurd cc;
          cancelled_unfrozen = λ p. refl;
        })
        h
