-- ===== src/Instance/Lifecycle/Endings.antt =====
-- An end batch through the fold of `_sorted_lifecycle` (src/petrus/impetus/instance/firing.py).
use petrus.Base.{
  ℕ, suc, ◌≡◌, refl, ap, ◌∙◌, true, false, Option, none, some, List, [], ◌∷◌, ◌++◌, arith, ◌==◌,
  nat_eq, option_eq, list_eq, string_eq, ok, fold_result, fold_result-append, contains,
  contains-append, get, pop, nat_beq_iff, beq_refl, append_assoc, All, All-append, All-map,
}
use petrus.Petrinet.Token.{NetPath, LifecycleScope, scope_eq}
use petrus.Petrinet.Firing.{ProducedTokens}
use petrus.History.{Record, firing_begun, firing_completed, tokens_consumed, tokens_read}
use petrus.Instance.Firing.{HandlerResult, end_records, produced_records, registration_records}
use petrus.Instance.Lifecycle.{
  Lifecycle, sort_record, lifecycle_step, leave_batch, mark_ending, end, begun_transition,
}
use petrus.Instance.Lifecycle.Replays.{boundary_of, is_sorted, begin_ranks}

module _ {D : Type 0} where
  -- Behind another record, an ordered batch has no boundary.
  no_boundary :
      (a : ℕ) (rs : List (Record D))
      → is_sorted (suc a ∷ begin_ranks rs) ≡ true
      → boundary_of rs ≡ none
  unfolding is_sorted begin_ranks boundary_of
  no_boundary a [] h = refl
  no_boundary a (firing_begun j t s at ∷ rs) h = absurd (ground arith)
  no_boundary a (tokens_consumed j m ∷ rs) h = no_boundary 0 rs (ground arith)
  no_boundary a (tokens_read j m ∷ rs) h = no_boundary 1 rs (ground arith)
  no_boundary a (_ ∷ rs) h = no_boundary 2 rs (ground arith)

  -- An ordered batch with a boundary starts with it.
  pub ordered_boundary :
      (batch : List (Record D)) (t : NetPath) (scope : Option LifecycleScope)
      → is_sorted (begin_ranks batch) ≡ true
      → boundary_of batch ≡ some (t, scope)
      → begun_transition batch ≡ ok t
  unfolding is_sorted begin_ranks boundary_of
  ordered_boundary [] t scope sorted h = cc
  ordered_boundary (firing_begun j u s at ∷ rs) t scope sorted h = ground arith
  ordered_boundary (tokens_consumed j m ∷ rs) t scope sorted h =
      absurd (ground (arith, no_boundary 0 rs sorted))
  ordered_boundary (tokens_read j m ∷ rs) t scope sorted h =
      absurd (ground (arith, no_boundary 1 rs sorted))
  ordered_boundary (_ ∷ rs) t scope sorted h = absurd (ground (arith, no_boundary 2 rs sorted))

  -- States that differ in what they remember and in the end records of `k`.
  record Ending (k : ℕ) (s s' : Lifecycle D) : Type 0 where
    initiated : s'.initiated ≡ s.initiated
    begun : s'.begun ≡ s.begun
    ended : s'.ended ≡ s.ended
    cancelled : s'.lifecycle_cancelled ≡ s.lifecycle_cancelled
    ending : (j : ℕ) → (j == k) ≡ false → contains j s'.ending ≡ contains j s.ending

  Ending-trans : (k : ℕ) (s t u : Lifecycle D) → Ending k s t → Ending k t u → Ending k s u
  Ending-trans k s t u x y = record {
    initiated = y.initiated ∙ x.initiated;
    begun = y.begun ∙ x.begun;
    ended = y.ended ∙ x.ended;
    cancelled = y.cancelled ∙ x.cancelled;
    ending = λ j other. y.ending j other ∙ x.ending j other;
  }

  marked :
      (k : ℕ) (s : Lifecycle D) (r : Record D)
      → Ending k s (record (mark_ending (leave_batch s r) (some k)) { previous = some r })
  unfolding contains
  marked k s r = record {
    initiated = refl;
    begun = refl;
    ended = refl;
    cancelled = refl;
    ending = λ j other.
        ground (arith, contains-append j s.ending (k ∷ []), nat_beq_iff j k, nat_beq_iff k j);
  }

  -- A record that only marks the occurrence as ending.
  abbrev Marks : ℕ → Record D → Type 0
  Marks k r =
      (s : Lifecycle D)
      → lifecycle_step s r
        ≡ ok (record (mark_ending (leave_batch s r) (some k)) { previous = some r })

  Marks-fold :
      (k : ℕ) (s : Lifecycle D) (rs : List (Record D))
      → All (Marks k) rs
      → (s' : Lifecycle D) × (fold_result lifecycle_step s rs ≡ ok s') × Ending k s s'
  unfolding fold_result
  Marks-fold k s [] h = (
    s,
    refl,
    record {
      initiated = refl;
      begun = refl;
      ended = refl;
      cancelled = refl;
      ending = λ j other. refl;
    },
  )
  Marks-fold k s (r ∷ rs) h =
      let (s', done, after) =
        Marks-fold k (record (mark_ending (leave_batch s r) (some k)) { previous = some r }) rs
          h.1 in
      (s', rw (h.0 s) done, Ending-trans k s _ s' (marked k s r) after)

  -- The records of an end batch before its boundary.
  marking_records : ℕ → ℕ → HandlerResult D → List (ProducedTokens D) → List (Record D)
  marking_records k at r xs = produced_records k at xs ++ registration_records k at r

  marking_records-Marks :
      (k at : ℕ) (r : HandlerResult D) (xs : List (ProducedTokens D))
      → All (Marks k) (marking_records k at r xs)
  unfolding marking_records lifecycle_step sort_record
  marking_records-Marks k at r xs =
      All-append (Marks k) _ _ (All-map (Marks k) _ xs (λ x s. refl)) (
        All-append (Marks k) _ _ (All-map (Marks k) _ r.closes (λ x s. refl))
          (All-map (Marks k) _ r.opens (λ x s. refl)))

  -- The terminal boundary of an open occurrence.
  end_step :
      (s : Lifecycle D) (k at : ℕ) (t : NetPath) (batch : List (Record D))
      → get s.begun k ≡ some batch
      → begun_transition batch ≡ ok t
      → contains k s.lifecycle_cancelled ≡ false
      → contains k s.ended ≡ false
      → lifecycle_step s (firing_completed k t at)
        ≡ ok (record s {
          scoped_open = pop s.scoped_open k;
          ended = s.ended ++ k ∷ [];
          active_begin = none;
          previous = some (firing_completed k t at);
        })
  unfolding lifecycle_step sort_record end
  end_step s k at t batch found known live unended =
      rw (found, known, beq_refl t, live, unended) refl

  -- The state after an end batch of an open occurrence.
  pub record Ended (k : ℕ) (s s' : Lifecycle D) : Type 0 where
    pub initiated : s'.initiated ≡ s.initiated
    pub begun : s'.begun ≡ s.begun
    pub ended : s'.ended ≡ s.ended ++ k ∷ []
    pub ending : (j : ℕ) → (j == k) ≡ false → contains j s'.ending ≡ contains j s.ending

  pub end_fold :
      (s : Lifecycle D) (k at : ℕ) (t : NetPath) (r : HandlerResult D)
      (xs : List (ProducedTokens D)) (batch : List (Record D))
      → get s.begun k ≡ some batch
      → begun_transition batch ≡ ok t
      → contains k s.lifecycle_cancelled ≡ false
      → contains k s.ended ≡ false
      → (s' : Lifecycle D) × (fold_result lifecycle_step s (end_records k at t r xs) ≡ ok s')
        × Ended k s s'
  unfolding fold_result marking_records
  end_fold s k at t r xs batch found known live unended =
      let (m, marks, after) =
        Marks-fold k s (marking_records k at r xs) (marking_records-Marks k at r xs) in
      let last =
        end_step m k at t batch (ap (λ d. get d k) after.begun ∙ found) known
          (ap (contains k) after.cancelled ∙ live) (ap (contains k) after.ended ∙ unended) in
      (
        record m {
          scoped_open = pop m.scoped_open k;
          ended = m.ended ++ k ∷ [];
          active_begin = none;
          previous = some (firing_completed k t at);
        },
        rw
            (← append_assoc (produced_records k at xs) (registration_records k at r)
              (firing_completed k t at ∷ []))
            (fold_result-append lifecycle_step s m (marking_records k at r xs)
                (firing_completed k t at ∷ []) marks
              ∙ rw last refl),
        record {
          initiated = after.initiated;
          begun = after.begun;
          ended = ap (λ ks. ks ++ k ∷ []) after.ended;
          ending = after.ending;
        },
      )
