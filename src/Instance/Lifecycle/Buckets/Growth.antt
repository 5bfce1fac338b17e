-- ===== src/Instance/Lifecycle/Buckets/Growth.antt =====
-- What one turn of the loop of `_sorted_lifecycle` (src/petrus/impetus/instance/firing.py) adds to
-- the buckets of an occurrence.
use petrus.Base.{
  ℕ, ◌≡◌, refl, Bool, true, false, ◌||◌, Option, none, some, List, [], ◌∷◌, ◌++◌, arith, ◌==◌,
  nat_eq, ok, if◌then◌else◌, option_eq, first, contains, contains-append, get, get-put, nat_beq_iff,
}
use petrus.Petrinet.Token.{Token, NetPath, LifecycleScope}
use petrus.History.{
  Record, scope_closed, scope_reset, candidate_selected, external_event_delivered,
  delivery_registration_opened, delivery_registration_closed, firing_begun, tokens_consumed,
  tokens_read, activity_requested, activity_completed, activity_terminal_quarantined,
  tokens_produced, firing_completed, activity_failed, firing_failed,
}
use petrus.Instance.Lifecycle.{
  Lifecycle, Terminal, completed, failed, sort_record, join_batch, freeze, initiate, close, end,
  mark_ending,
}
use petrus.Instance.Lifecycle.Steps.{
  initiate-eq-ok, begin-eq-ok, join_batch-eq-ok, move-eq-ok, request-eq-ok, freeze-eq-ok,
  quarantine-eq-ok, close-eq-ok, end-eq-ok,
}
use petrus.Instance.Lifecycle.Buckets.{begins, ends, cancels, completes, initiates, terminates}

module _ {D : Type 0} (k : ℕ) where
  abbrev pub grow : Bool → Record D → Option (List (Record D)) → Option (List (Record D))
  grow false r batch = batch
  grow true r none = some (r ∷ [])
  grow true r (some rs) = some (rs ++ r ∷ [])

  -- What one record adds to the buckets of `k`.
  pub record Grows (s : Lifecycle D) (r : Record D) (s' : Lifecycle D) : Type 0 where
    pub initiated : get s'.initiated k ≡ first (get s.initiated k) (initiates k r)
    pub begun : get s'.begun k ≡ grow (begins k r) r (get s.begun k)
    pub ended : contains k s'.ended ≡ (contains k s.ended || ends k r)
    pub ending : contains k s'.ending ≡ (contains k s.ending || completes k r)
    pub frozen : get s'.frozen k ≡ first (get s.frozen k) (terminates k r)
    pub cancelled :
        contains k s'.lifecycle_cancelled ≡ (contains k s.lifecycle_cancelled || cancels k r)

  unchanged :
      (s : Lifecycle D) (r : Record D)
      → begins k r ≡ false
      → ends k r ≡ false
      → completes k r ≡ false
      → initiates k r ≡ none
      → terminates k r ≡ none
      → cancels k r ≡ false
      → Grows s r s
  unchanged s r b e c i t x = record {
    initiated = ground arith;
    begun = rw b refl;
    ended = ground arith;
    ending = ground arith;
    frozen = ground arith;
    cancelled = ground arith;
  }

  move-Grows :
      (s s' : Lifecycle D) (j at : ℕ) (records : List (Record D)) (r : Record D)
      → get s.begun j ≡ some records
      → join_batch s j at records r ≡ ok s'
      → begins k r ≡ (j == k)
      → ends k r ≡ false
      → completes k r ≡ false
      → initiates k r ≡ none
      → terminates k r ≡ none
      → cancels k r ≡ false
      → Grows s r s'
  move-Grows s s' j at records r found h b e c i t x =
      let (unfinished, unended, active, same) = join_batch-eq-ok s s' j at records r h in
      rw (← same) (record {
        initiated = ground arith;
        begun = rw b (ground (arith, get-put s.begun j k (records ++ r ∷ []), nat_beq_iff j k));
        ended = ground arith;
        ending = ground arith;
        frozen = ground arith;
        cancelled = ground arith;
      })

  freeze-Grows :
      (s s' : Lifecycle D) (j : ℕ) (t : NetPath) (x : Terminal D) (r : Record D)
      → freeze s j t x ≡ ok s'
      → terminates k r ≡ (if j == k then some x else none)
      → begins k r ≡ false
      → ends k r ≡ false
      → completes k r ≡ false
      → initiates k r ≡ none
      → cancels k r ≡ false
      → Grows s r s'
  freeze-Grows s s' j t x r h f b e c i y =
      let (records, found, asked, known, unfrozen, live, same) = freeze-eq-ok s s' j t x h in
      rw (← same) (record {
        initiated = ground arith;
        begun = rw b refl;
        ended = ground arith;
        ending = ground arith;
        frozen = rw f (ground (arith, get-put s.frozen j k x, nat_beq_iff j k));
        cancelled = ground arith;
      })

  initiate-Grows :
      (s s' : Lifecycle D) (j : ℕ) (t : NetPath) (delivered : List (Token D)) (r : Record D)
      → initiate s j t delivered ≡ ok s'
      → initiates k r ≡ (if j == k then some (t, delivered) else none)
      → begins k r ≡ false
      → ends k r ≡ false
      → completes k r ≡ false
      → terminates k r ≡ none
      → cancels k r ≡ false
      → Grows s r s'
  initiate-Grows s s' j t delivered r h i b e c f x =
      let (fresh, same) = initiate-eq-ok s s' j t delivered h in
      rw (← same) (record {
        initiated = rw i (ground (arith, get-put s.initiated j k (t, delivered), nat_beq_iff j k));
        begun = rw b refl;
        ended = ground arith;
        ending = ground arith;
        frozen = ground arith;
        cancelled = ground arith;
      })

  close-Grows :
      (s s' : Lifecycle D) (scope : LifecycleScope) (cancelled : List ℕ) (r : Record D)
      → close s scope cancelled ≡ ok s'
      → ends k r ≡ contains k cancelled
      → begins k r ≡ false
      → completes k r ≡ false
      → initiates k r ≡ none
      → terminates k r ≡ none
      → cancels k r ≡ contains k cancelled
      → Grows s r s'
  close-Grows s s' scope cancelled r h e b c i f x =
      let (exact, free, same) = close-eq-ok s s' scope cancelled h in
      rw (← same) (record {
        initiated = ground arith;
        begun = rw b refl;
        ended = ground (arith, contains-append k s.ended cancelled);
        ending = ground arith;
        frozen = ground arith;
        cancelled = ground (arith, contains-append k s.lifecycle_cancelled cancelled);
      })

  end-Grows :
      (s s' : Lifecycle D) (j : ℕ) (t : NetPath) (r : Record D)
      → end s j t ≡ ok s'
      → ends k r ≡ (j == k)
      → begins k r ≡ false
      → completes k r ≡ false
      → initiates k r ≡ none
      → terminates k r ≡ none
      → cancels k r ≡ false
      → Grows s r s'
  unfolding contains
  end-Grows s s' j t r h e b c i f x =
      let (records, found, known, live, unended, same) = end-eq-ok s s' j t h in
      rw (← same) (record {
        initiated = ground arith;
        begun = rw b refl;
        ended = ground (arith, contains-append k s.ended (j ∷ []));
        ending = ground arith;
        frozen = ground arith;
        cancelled = ground arith;
      })

  mark_ending-Grows :
      (s : Lifecycle D) (o : Option ℕ) (r : Record D)
      → completes k r ≡ (o == some k)
      → ends k r ≡ false
      → begins k r ≡ false
      → initiates k r ≡ none
      → terminates k r ≡ none
      → cancels k r ≡ false
      → Grows s r (mark_ending s o)
  unfolding contains
  mark_ending-Grows s none r c e b i f x = unchanged s r b e c i f x
  mark_ending-Grows s (some j) r c e b i f x = record {
    initiated = ground arith;
    begun = rw b refl;
    ended = ground arith;
    ending = ground (arith, contains-append k s.ending (j ∷ []));
    frozen = ground arith;
    cancelled = ground arith;
  }

  pub sort_record-Grows :
      (s s' : Lifecycle D) (r : Record D) → sort_record s r ≡ ok s' → Grows s r s'
  unfolding sort_record
  sort_record-Grows s s' (candidate_selected j t at) h =
      initiate-Grows s s' j t [] _ h refl refl refl refl refl refl
  sort_record-Grows s s' (external_event_delivered j d) h =
      initiate-Grows s s' j d.source d.tokens _ h refl refl refl refl refl refl
  sort_record-Grows s s' (firing_begun j t scope at) h =
      let (given, fresh, after, same) = begin-eq-ok s s' j t scope at h in
      rw (← same) (record {
        initiated = ground arith;
        begun =
            ground (arith, get-put s.begun j k (firing_begun j t scope at ∷ []), nat_beq_iff j k);
        ended = ground arith;
        ending = ground arith;
        frozen = ground arith;
        cancelled = ground arith;
      })
  sort_record-Grows s s' (tokens_consumed j m) h =
      let (records, found, joined) = move-eq-ok s s' j m.instant (tokens_consumed j m) h in
      move-Grows s s' j m.instant records _ found joined refl refl refl refl refl refl
  sort_record-Grows s s' (tokens_read j m) h =
      let (records, found, joined) = move-eq-ok s s' j m.instant (tokens_read j m) h in
      move-Grows s s' j m.instant records _ found joined refl refl refl refl refl refl
  sort_record-Grows s s' (activity_requested j r) h =
      let (records, found, known, once, joined) = request-eq-ok s s' j r h in
      move-Grows s s' j r.instant records _ found joined refl refl refl refl refl refl
  sort_record-Grows s s' (activity_completed j t x at) h =
      freeze-Grows s s' j t (completed x) _ h refl refl refl refl refl refl
  sort_record-Grows s s' (activity_failed j t x at) h =
      freeze-Grows s s' j t (failed x) _ h refl refl refl refl refl refl
  sort_record-Grows s s' (activity_terminal_quarantined j t x scope at) h =
      let (known, same) = quarantine-eq-ok s s' j t h in
      rw (← same) (unchanged s _ refl refl refl refl refl refl)
  sort_record-Grows s s' (scope_closed scope discarded cancelled at) h =
      close-Grows s s' scope cancelled _ h refl refl refl refl refl refl
  sort_record-Grows s s' (scope_reset scope opened discarded cancelled at) h =
      close-Grows s s' scope cancelled _ h refl refl refl refl refl refl
  sort_record-Grows s s' (firing_completed j t at) h =
      end-Grows s s' j t _ h refl refl refl refl refl refl
  sort_record-Grows s s' (firing_failed j t x at) h =
      end-Grows s s' j t _ h refl refl refl refl refl refl
  sort_record-Grows s s' (tokens_produced j m) h =
      let same : mark_ending s (some j) ≡ s' = ground arith in
      rw (← same) (mark_ending-Grows s (some j) _ refl refl refl refl refl refl)
  sort_record-Grows s s' (delivery_registration_opened none source key at) h =
      let same : s ≡ s' = ground arith in rw (← same) (unchanged s _ refl refl refl refl refl refl)
  sort_record-Grows s s' (delivery_registration_opened (some j) source key at) h =
      let same : mark_ending s (some j) ≡ s' = ground arith in
      rw (← same) (mark_ending-Grows s (some j) _ refl refl refl refl refl refl)
  sort_record-Grows s s' (delivery_registration_closed none source key at) h =
      let same : s ≡ s' = ground arith in rw (← same) (unchanged s _ refl refl refl refl refl refl)
  sort_record-Grows s s' (delivery_registration_closed (some j) source key at) h =
      let same : mark_ending s (some j) ≡ s' = ground arith in
      rw (← same) (mark_ending-Grows s (some j) _ refl refl refl refl refl refl)
  sort_record-Grows s s' _ h =
      let same : s ≡ s' = ground arith in rw (← same) (unchanged s _ refl refl refl refl refl refl)
