-- ===== src/Instance/Lifecycle/Beginnings.antt =====
-- A begin batch, appended to a history that does not name its occurrence, through the fold of
-- `_sorted_lifecycle` (src/petrus/impetus/instance/firing.py).
use petrus.Base.{
  ℕ, ◌≡◌, refl, ◌∙◌, Bool, false, Option, none, some, List, [], ◌∷◌, ◌++◌, arith, map, ◌==◌, nat_eq,
  option_eq, list_eq, string_eq, ok, fold_result, any, contains, get, put, first_some, get-put_self,
  put_new, put_last, get_last, beq_refl, append_assoc, append-nil,
}
use petrus.Petrinet.Token.{NetPath, scope_eq}
use petrus.Petrinet.Firing.{BeginEffect, consumed_tokens, read_tokens}
use petrus.History.{
  Record, candidate_selected, external_event_delivered, delivery_registration_opened,
  delivery_registration_closed, firing_begun, tokens_produced, occurrence_of,
}
use petrus.Instance.Firing.{begin_record, begin_records}
use petrus.Instance.Lifecycle.{
  Lifecycle, sort_record, lifecycle_step, sorted_lifecycle, initiate, begin, move, join_batch,
}
use petrus.Instance.Lifecycle.Buckets.{completes, initiates}
use petrus.Instance.Lifecycle.Buckets.Sorted.{sorted_lifecycle-Buckets}
use petrus.Instance.Lifecycle.Coherent.{sorted_lifecycle-Coherent}

module _ {D : Type 0} where
  -- Whether a record is one of an occurrence.
  abbrev pub names : ℕ → Record D → Bool
  names k r = occurrence_of r == some k

  initiates-names : (k : ℕ) (r : Record D) → names k r ≡ false → initiates k r ≡ none
  unfolding occurrence_of
  initiates-names k (candidate_selected j t at) h = ground arith
  initiates-names k (external_event_delivered j d) h = ground arith
  initiates-names k _ h = refl

  completes-names : (k : ℕ) (r : Record D) → names k r ≡ false → completes k r ≡ false
  unfolding occurrence_of
  completes-names k (tokens_produced j m) h = ground arith
  completes-names k (delivery_registration_opened none s n at) h = refl
  completes-names k (delivery_registration_opened (some j) s n at) h = ground arith
  completes-names k (delivery_registration_closed none s n at) h = refl
  completes-names k (delivery_registration_closed (some j) s n at) h = ground arith
  completes-names k _ h = refl

  unnamed :
      (k : ℕ) (history : List (Record D))
      → any (names k) history ≡ false
      → (first_some (initiates k) history ≡ none) × (any (completes k) history ≡ false)
  unfolding any first_some
  unnamed k [] h = (refl, refl)
  unnamed k (r ∷ rs) h =
      let (given, completed) = unnamed k rs (ground arith) in
      (ground (arith, initiates-names k r), ground (arith, completes-names k r))

  -- An occurrence that the state knows nothing of.
  pub record Fresh (s : Lifecycle D) (k : ℕ) : Type 0 where
    pub initiated : get s.initiated k ≡ none
    pub begun : get s.begun k ≡ none
    pub ended : contains k s.ended ≡ false
    pub ending : contains k s.ending ≡ false

  pub unnamed-Fresh :
      (history : List (Record D)) (s : Lifecycle D) (k : ℕ)
      → sorted_lifecycle history ≡ ok s
      → any (names k) history ≡ false
      → Fresh s k
  unnamed-Fresh history s k sorted h =
      let b = sorted_lifecycle-Buckets k history s sorted in
      let c = sorted_lifecycle-Coherent k history s sorted in
      let (given, completed) = unnamed k history h in
      let uninitiated = b.initiated ∙ given in
      let unbegun = c.begun_initiated uninitiated in
      record {
        initiated = uninitiated;
        begun = unbegun;
        ended = c.ended_begun unbegun;
        ending = b.ending ∙ completed;
      }

  -- The state with the batch of one more occurrence.
  abbrev pub with_batch :
      Lifecycle D → ℕ → ℕ → NetPath → List (Record D) → Option (Record D) → Lifecycle D
  with_batch s k at t batch previous = record s {
    initiated = put s.initiated k (t, []);
    begun = s.begun ++ (k, batch) ∷ [];
    active_begin = some (k, at);
    previous = previous;
  }

  initiated_and_begun :
      (s : Lifecycle D) (k at : ℕ) (t : NetPath) (rest : List (Record D))
      → Fresh s k
      → fold_result lifecycle_step s (candidate_selected k t at ∷ firing_begun k t none at ∷ rest)
        ≡ fold_result lifecycle_step
            (with_batch s k at t (firing_begun k t none at ∷ []) (some (firing_begun k t none at)))
            rest
  unfolding fold_result lifecycle_step sort_record initiate begin
  initiated_and_begun s k at t rest f =
      rw
        (
          f.initiated,
          get-put_self s.initiated k (t, []),
          f.begun,
          beq_refl k,
          beq_refl at,
          put_new s.begun k (firing_begun k t none at ∷ []) f.begun,
        )
        refl

  effect_step :
      (s : Lifecycle D) (k at : ℕ) (t : NetPath) (batch : List (Record D))
      (previous : Option (Record D)) (x : BeginEffect D)
      → Fresh s k
      → lifecycle_step (with_batch s k at t batch previous) (begin_record k at x)
        ≡ ok (with_batch s k at t (batch ++ begin_record k at x ∷ []) (some (begin_record k at x)))
  unfolding lifecycle_step sort_record move join_batch
  effect_step s k at t batch previous (consumed_tokens p ts) f =
      rw
        (
          get_last s.begun k batch f.begun,
          f.ended,
          f.ending,
          beq_refl k,
          beq_refl at,
          put_last s.begun k batch (batch ++ begin_record k at (consumed_tokens p ts) ∷ []) f.begun,
        )
        refl
  effect_step s k at t batch previous (read_tokens p ts) f =
      rw
        (
          get_last s.begun k batch f.begun,
          f.ended,
          f.ending,
          beq_refl k,
          beq_refl at,
          put_last s.begun k batch (batch ++ begin_record k at (read_tokens p ts) ∷ []) f.begun,
        )
        refl

  effects_fold :
      (s : Lifecycle D) (k at : ℕ) (t : NetPath) (batch : List (Record D))
      (previous : Option (Record D)) (xs : List (BeginEffect D))
      → Fresh s k
      → (last : Option (Record D)) × (fold_result lifecycle_step
            (with_batch s k at t batch previous)
            (map (begin_record k at) xs)
          ≡ ok (with_batch s k at t (batch ++ map (begin_record k at) xs) last))
  unfolding fold_result
  effects_fold s k at t batch previous [] f = (previous, rw append-nil refl)
  effects_fold s k at t batch previous (x ∷ xs) f =
      let (last, done) =
        effects_fold s k at t (batch ++ begin_record k at x ∷ []) (some (begin_record k at x)) xs
          f in
      (last, rw (effect_step s k at t batch previous x f) (done ∙ rw append_assoc refl))

  -- The loop's state after the initiation and the begin batch of a fresh occurrence.
  pub batch_fold :
      (s : Lifecycle D) (k at : ℕ) (t : NetPath) (xs : List (BeginEffect D))
      → Fresh s k
      → (last : Option (Record D)) × (fold_result lifecycle_step s
            (candidate_selected k t at ∷ begin_records k at t xs)
          ≡ ok (with_batch s k at t (begin_records k at t xs) last))
  batch_fold s k at t xs f =
      let (last, done) =
        effects_fold s k at t (firing_begun k t none at ∷ []) (some (firing_begun k t none at)) xs
          f in
      (last, initiated_and_begun s k at t (map (begin_record k at) xs) f ∙ done)
