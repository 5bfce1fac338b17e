-- ===== src/Instance/Firing/Replay.antt =====
-- The records of a firing (src/petrus/impetus/instance/firing.py) replay to the marking that the
-- firing left (src/petrus/impetus/history/__init__.py).
use petrus.Base.{
  ℕ, ◌≡◌, refl, ◌∙◌, inl, inr, List, [], ◌∷◌, ◌++◌, map, arith, Eq, nat_eq, list_eq, string_eq, ok,
  Result-cases, fold_result, fold_result-append, put, get-put, map-append,
}
use petrus.Petrinet.Token.{Token, NetPath}
use petrus.Petrinet.Queue.{tokens, time_blind, remove}
use petrus.Petrinet.Queue.Removal.{remove-time_blind}
use petrus.Petrinet.Marking.{Marking, place, consume}
use petrus.Petrinet.Marking.Laws.{consume_cases, place-consume, tokens-time_blind}
use petrus.Petrinet.Enabledness.{Selection, Binding}
use petrus.Petrinet.Firing.{
  consume_all, check_reads, BeginEffect, consumed_effects, read_effects, ProducedTokens,
  deposit_all, produce, with_effect,
}
use petrus.Petrinet.Firing
use petrus.History.{Record}
use petrus.History.Queues.{
  PlaceQueues, Projection, queue_at, apply_consume, apply_movement, replay_step,
}
use petrus.Instance.Firing.{unscoped, begin_record, begin_records, begin_firing}

-- The queues hold, at every place, the tokens of the marking.
abbrev pub Simulates : {D : Type 0} → PlaceQueues D → Marking D → Type 0
Simulates d m = (p : NetPath) → tokens (queue_at d p) ≡ place m p

module _ {D : Type 0} ⦃e : Eq D⦄ where
  -- A consume of the marking is a consume of the queues.
  consume-Simulates :
      (d : PlaceQueues D) (m n : Marking D) (p : NetPath) (ts : List (Token D)) (at : ℕ)
      → Simulates d m
      → consume m p ts ≡ ok n
      → (d' : PlaceQueues D) × (apply_consume d (unscoped p ts at) ≡ ok d') × Simulates d' n
  unfolding apply_consume
  consume-Simulates d m n p ts at sim h =
      let (r, removed, _) = consume_cases m n p ts h in
      let blind = remove-time_blind (queue_at d p) ts in
      elim (Result-cases (remove (queue_at d p) ts [])) [
        | inr (x, raised) ↦ absurd (ground (arith, blind, sim p))
        | inl (q, taken) ↦
            let half : time_blind (tokens q) ≡ r = ground (arith, blind, sim p) in
            let rest : tokens r ≡ tokens q = rw (← half) (tokens-time_blind (tokens q)) in
            (
              put d p q,
              rw taken refl,
              λ j.
                  ground
                    (arith, get-put d p j q, place-consume m n p ts r removed h j, sim j, rest),
            )
      ]

  fold-consumes :
      (p : Projection D) (m n : Marking D) (ss : List (Selection D)) (k at : ℕ)
      → Simulates p.queues m
      → consume_all m ss ≡ ok n
      → (d : PlaceQueues D) × (fold_result replay_step p
            (map (begin_record k at) (consumed_effects ss))
          ≡ ok (record p { queues = d }))
        × Simulates d n
  unfolding fold_result consume_all replay_step apply_movement
  fold-consumes p m n [] k at sim h =
      let same : m ≡ n = ground arith in (p.queues, refl, rw (← same) sim)
  fold-consumes p m n ((j, ts) ∷ ss) k at sim h = elim (Result-cases (consume m j ts)) [
    | inr (x, raised) ↦ absurd (ground arith)
    | inl (m', taken) ↦
        let (d, step, sim') = consume-Simulates p.queues m m' j ts at sim taken in
        let (d', steps, sim'') =
          fold-consumes (record p { queues = d }) m' n ss k at sim' (ground arith) in
        (d', rw step steps, sim'')
  ]

  fold-reads :
      (p : Projection D) (ss : List (Selection D)) (k at : ℕ)
      → fold_result replay_step p (map (begin_record k at) (read_effects ss)) ≡ ok p
  unfolding fold_result replay_step apply_movement
  fold-reads p [] k at = refl
  fold-reads p (s ∷ ss) k at = fold-reads p ss k at

  fold-begin :
      (p : Projection D) (m n : Marking D) (b : Binding D) (k at : ℕ)
      → Simulates p.queues m
      → consume_all m b.consumed ≡ ok n
      → (d : PlaceQueues D) × (fold_result replay_step p
            (begin_records k at b.transition (consumed_effects b.consumed ++ read_effects b.read))
          ≡ ok (record p { queues = d }))
        × Simulates d n
  unfolding fold_result replay_step apply_movement
  fold-begin p m n b k at sim h =
      let (d, steps, sim') = fold-consumes p m n b.consumed k at sim h in
      (
        d,
        rw (map-append (begin_record k at) (consumed_effects b.consumed)) (
            fold_result-append replay_step p (record p { queues = d })
              (map (begin_record k at) (consumed_effects b.consumed))
              (map (begin_record k at) (read_effects b.read)) steps
            ∙ fold-reads (record p { queues = d }) b.read k at),
        sim',
      )

  -- Where the replayed queues hold, place by place, the tokens of a marking from which a firing
  -- begins, its begin batch replays without an error, spends no identity, and leaves queues that hold
  -- the tokens of the marking that the firing leaves.
  pub begin_firing-Simulates :
      (p : Projection D) (m n : Marking D) (b : Binding D) (k at : ℕ) (batch : List (Record D))
      → Simulates p.queues m
      → begin_firing m b k at ≡ ok (n, batch)
      → (d : PlaceQueues D) × (fold_result replay_step p batch ≡ ok (record p { queues = d }))
        × Simulates d n
  unfolding begin_firing Firing.begin_firing
  begin_firing-Simulates p m n b k at batch sim h = elim (Result-cases (consume_all m b.consumed)) [
    | inr (x, raised) ↦ absurd (ground arith)
    | inl (n', taken) ↦ elim (Result-cases (check_reads n' b.read)) [
      | inr (x, raised) ↦ absurd (ground arith)
      | inl (u, present) ↦
          let left : n' ≡ n = ground arith in
          let emitted : begin_records k at b.transition
                (consumed_effects b.consumed ++ read_effects b.read)
              ≡ batch =
            ground arith in
          rw (← left, ← emitted) (fold-begin p m n' b k at sim taken)
    ]
  ]
