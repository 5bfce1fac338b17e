-- ===== src/History/Queues/WellFormed.antt =====
-- The replay of src/petrus/impetus/history/__init__.py keeps queue-entry identities unique, and
-- below the next one.
use petrus.Base.{
  ℕ, ◌≤◌, ◌<◌, ◌≡◌, refl, inl, inr, true, false, List, [], ◌∷◌, ◌++◌, arith, Eq, ◌==◌, nat_eq,
  Result, ok, err, ◌>>=◌, length, any, count, count-append, contains, any-contains-count,
  Bool-cases, Result-cases, fold_result, All, put, list_eq, string_eq,
}
use petrus.History.{
  Movement, Record, tokens_initialized, scope_closed, scope_reset, tokens_consumed, tokens_produced,
  validate_entries, is_unique,
}
use petrus.History.Queues.{
  PlaceQueues, Projection, ReplayError, all_ids, queue_at, deposit_entries, deposit_with,
  chosen_entries, next_queue_identity, apply_deposit, apply_consume, apply_scope_cleanup,
  apply_movement, inferred_entries, next_after, deposit_step, replay_step, empty_projection,
  replay_projection,
}
use petrus.History.Queues.Identities.{
  ids, all_ids-put, ids-deposit_entries, cleanup-ids, consume-ids,
}
use petrus.History.Queues.Identified.{
  AreIdentified, put-AreIdentified, queue_at-IsIdentified, deposit_entries-IsIdentified,
  consume-AreIdentified, cleanup-AreIdentified,
}
use petrus.History.Queues.Spent.{or_list-count, or_list-again, next_after-le, count-next_after}

-- A record's own entries were validated when the record was made.
abbrev pub IsValid : {D : Type 0} → Record D → Type 0
IsValid (tokens_initialized m) = validate_entries m ≡ ok tt
IsValid (tokens_produced k m) = validate_entries m ≡ ok tt
IsValid _ = Unit

-- Each identity is spent at most once, none from the next one on is spent, every queue entry has an
-- identity, and the identities in the queues are spent ones, none of them twice.
pub record IsWellFormed {D : Type 0} (p : Projection D) : Type 0 where
  pub spent_once : (i : ℕ) → count i p.spent ≤ 1
  pub fresh : (i : ℕ) → p.next_identity ≤ i → count i p.spent ≡ 0
  pub queued : (i : ℕ) → count i (all_ids p.queues) ≤ count i p.spent
  pub identified : AreIdentified p.queues
  pub positive : 0 < p.next_identity

module _ {D : Type 0} where
  validate_entries-is_unique :
      (m : Movement D) → validate_entries m ≡ ok tt → is_unique m.entries ≡ true
  unfolding validate_entries
  validate_entries-is_unique m v = ground arith

  -- The projection that a deposit leaves.
  abbrev pub deposited : Projection D → Movement D → Projection D
  deposited p m = record {
    queues = put p.queues m.place (
        deposit_entries (queue_at p.queues m.place) m.tokens (inferred_entries p m) m.scope
          m.instant);
    next_identity = next_after p.next_identity (inferred_entries p m);
    spent = inferred_entries p m ++ p.spent;
  }

  pub deposit_with_cases :
      (d d' : PlaceQueues D) (m : Movement D) (is : List ℕ)
      → deposit_with d m is ≡ ok d'
      → (length is ≡ length m.tokens)
        × (d' ≡ put d m.place (deposit_entries (queue_at d m.place) m.tokens is m.scope m.instant))
  unfolding deposit_with
  deposit_with_cases d d' m is h = elim (Bool-cases (length is == length m.tokens)) [
    | inr differs ↦ absurd (ground arith)
    | inl fits ↦ elim (Bool-cases (any (λ i. contains i (all_ids d)) is)) [
      | inl present ↦ absurd (ground arith)
      | inr absent ↦ (ground arith, ground arith)
    ]
  ]

  pub deposit_step_cases :
      (p p' : Projection D) (m : Movement D)
      → deposit_step p m ≡ ok p'
      → (any (λ i. contains i p.spent) (inferred_entries p m) ≡ false)
        × (length (inferred_entries p m) ≡ length m.tokens)
        × (p' ≡ deposited p m)
  unfolding deposit_step apply_deposit
  deposit_step_cases p p' m h =
      elim (Bool-cases (any (λ i. contains i p.spent) (inferred_entries p m))) [
        | inl spent ↦ absurd (ground arith)
        | inr unspent ↦
            let again : chosen_entries p.queues m (inferred_entries p m) ≡ inferred_entries p m =
              or_list-again m.entries p.next_identity (next_queue_identity p.queues)
                (length m.tokens) in
            elim (Result-cases (deposit_with p.queues m (inferred_entries p m))) [
              | inr (x, raised) ↦ absurd (ground arith)
              | inl (d', done) ↦
                  let (fits, same) = deposit_with_cases p.queues d' m (inferred_entries p m) done in
                  (unspent, fits, ground arith)
            ]
      ]

  pub deposited-IsWellFormed :
      (p : Projection D) (m : Movement D)
      → validate_entries m ≡ ok tt
      → any (λ i. contains i p.spent) (inferred_entries p m) ≡ false
      → length (inferred_entries p m) ≡ length m.tokens
      → IsWellFormed p
      → IsWellFormed (deposited p m)
  deposited-IsWellFormed p m valid unspent fits w =
      let es = inferred_entries p m in
      let q = queue_at p.queues m.place in
      record {
        spent_once = λ i. ground (
          arith,
          count-append i es p.spent,
          or_list-count i p.next_identity (length m.tokens) m.entries
              (validate_entries-is_unique m valid),
          any-contains-count i es p.spent unspent,
          w.spent_once i,
        );
        fresh = λ i h. ground (
          arith,
          count-append i es p.spent,
          count-next_after p.next_identity i es h,
          next_after-le p.next_identity es,
          w.fresh i,
        );
        queued = λ i. ground (
          arith,
          count-append i es p.spent,
          all_ids-put i p.queues m.place (deposit_entries q m.tokens es m.scope m.instant),
          ids-deposit_entries q m.tokens es m.scope m.instant fits,
          count-append i (ids q) es,
          w.queued i,
        );
        identified =
            put-AreIdentified p.queues m.place (deposit_entries q m.tokens es m.scope m.instant)
              w.identified
              (deposit_entries-IsIdentified q m.tokens es m.scope m.instant fits
                (queue_at-IsIdentified p.queues m.place w.identified));
        positive = omega (arith, next_after-le p.next_identity es, w.positive);
      }

  -- A step that adds no identity to the queues.
  kept-IsWellFormed :
      (p : Projection D) (d : PlaceQueues D)
      → ((i : ℕ) → count i (all_ids d) ≤ count i (all_ids p.queues))
      → AreIdentified d
      → IsWellFormed p
      → IsWellFormed (record p { queues = d })
  kept-IsWellFormed p d fewer named w = record {
    spent_once = w.spent_once;
    fresh = w.fresh;
    queued = λ i. omega (arith, fewer i, w.queued i);
    identified = named;
    positive = w.positive;
  }

  deposit_step-IsWellFormed :
      (p p' : Projection D) (m : Movement D)
      → validate_entries m ≡ ok tt
      → deposit_step p m ≡ ok p'
      → IsWellFormed p
      → IsWellFormed p'
  deposit_step-IsWellFormed p p' m valid h w =
      let (unspent, fits, same) = deposit_step_cases p p' m h in
      rw same (deposited-IsWellFormed p m valid unspent fits w)

module _ {D : Type 0} ⦃e : Eq D⦄ where
  moved-IsWellFormed :
      (p p' : Projection D) (x : Result (ReplayError D) (PlaceQueues D))
      → ((d : PlaceQueues D)
          → x ≡ ok d
          → (i : ℕ) → count i (all_ids d) ≤ count i (all_ids p.queues))
      → ((d : PlaceQueues D) → x ≡ ok d → AreIdentified p.queues → AreIdentified d)
      → (x >>= λ d. ok (record p { queues = d })) ≡ ok p'
      → IsWellFormed p
      → IsWellFormed p'
  moved-IsWellFormed p p' (ok d) fewer named h w =
      let same : record p { queues = d } ≡ p' = ground arith in
      rw (← same) (kept-IsWellFormed p d (fewer d refl) (named d refl w.identified) w)
  moved-IsWellFormed p p' (err x) fewer named h w = cc

  replay_step-IsWellFormed :
      (p p' : Projection D) (r : Record D)
      → IsValid r
      → replay_step p r ≡ ok p'
      → IsWellFormed p
      → IsWellFormed p'
  unfolding replay_step apply_movement
  replay_step-IsWellFormed p p' (tokens_initialized m) v h w =
      deposit_step-IsWellFormed p p' m v h w
  replay_step-IsWellFormed p p' (tokens_produced k m) v h w = deposit_step-IsWellFormed p p' m v h w
  replay_step-IsWellFormed p p' (tokens_consumed k m) v h w =
      moved-IsWellFormed p p' (apply_consume p.queues m)
        (λ d done i. consume-ids i p.queues d m done)
        (λ d done. consume-AreIdentified p.queues d m done) h w
  replay_step-IsWellFormed p p' (scope_closed s gone cancelled at) v h w =
      moved-IsWellFormed p p' (apply_scope_cleanup p.queues s gone)
        (λ d done i. cleanup-ids i p.queues d s gone done)
        (λ d done. cleanup-AreIdentified p.queues d s gone done) h w
  replay_step-IsWellFormed p p' (scope_reset s o gone cancelled at) v h w =
      moved-IsWellFormed p p' (apply_scope_cleanup p.queues s gone)
        (λ d done i. cleanup-ids i p.queues d s gone done)
        (λ d done. cleanup-AreIdentified p.queues d s gone done) h w
  replay_step-IsWellFormed p p' _ v h w =
      moved-IsWellFormed p p' (ok p.queues)
        (λ d done i. let same : p.queues ≡ d = ground arith in rw same (omega arith))
        (λ d done named. let same : p.queues ≡ d = ground arith in rw (← same) named) h w

  fold-IsWellFormed :
      (p p' : Projection D) (history : List (Record D))
      → All IsValid history
      → fold_result replay_step p history ≡ ok p'
      → IsWellFormed p
      → IsWellFormed p'
  unfolding fold_result
  fold-IsWellFormed p p' [] v h w = let same : p ≡ p' = ground arith in rw (← same) w
  fold-IsWellFormed p p' (r ∷ rs) v h w = elim (Result-cases (replay_step p r)) [
    | inr (x, raised) ↦ absurd (ground arith)
    | inl (q, step) ↦
        fold-IsWellFormed q p' rs v.1 (ground arith) (replay_step-IsWellFormed p q r v.0 step w)
  ]

  -- However a history of valid records replays, no identity is spent twice, none from the next
  -- identity on is spent, and every entry of every queue carries an identity, which is a spent one and
  -- no other entry's.
  pub replay_projection-IsWellFormed :
      (history : List (Record D)) (p : Projection D)
      → All IsValid history
      → replay_projection history ≡ ok p
      → IsWellFormed p
  unfolding replay_projection all_ids count
  replay_projection-IsWellFormed history p v h =
      fold-IsWellFormed empty_projection p history v h (record {
        spent_once = λ i. omega arith;
        fresh = λ i h. refl;
        queued = λ i. omega arith;
        identified = tt;
        positive = omega arith;
      })
