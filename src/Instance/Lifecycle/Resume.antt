-- ===== src/Instance/Lifecycle/Resume.antt =====
-- A firing that is begun and recorded is rebuilt by `replay_in_flight`
-- (src/petrus/impetus/instance/firing.py) exactly as it was begun.

use petrus.Base.{
  ℕ, ◌≡◌, refl, ap, ◌∙◌, inl, inr, true, false, Option, none, List, [], ◌∷◌, ◌++◌, arith, map, ◌==◌,
  nat_eq, option_eq, list_eq, string_eq, ok, Result-cases, Bool-cases, Eq, fold_result-append, any,
  all, contains, get, Dict, get-put, get-put_self, beq_refl, beq_sym,
}
use petrus.Petrinet.Token.{NetPath, scope_eq}
use petrus.Petrinet.Marking.{Marking}
use petrus.Petrinet.Enabledness.{Binding, Selection}
use petrus.Petrinet.Firing.{
  consume_all, check_reads, BeginEffect, consumed_tokens, read_tokens, consumed_effects,
  read_effects,
}
use petrus.Petrinet.Firing
use petrus.History.{Record, candidate_selected}
use petrus.Instance.Firing.{FiringOccurrence, begin_firing, begin_record, begin_records}
use petrus.Instance.Lifecycle.{Lifecycle, lifecycle_step, sorted_lifecycle, empty_lifecycle}
use petrus.Instance.Lifecycle.Replays.{
  boundary_of, agrees_with, consumed_of, read_of, invocation_of, rebuilt_occurrence, rebuild_open,
  rebuild_each, replay_in_flight, is_sorted, begin_ranks,
}
use petrus.Instance.Lifecycle.Beginnings.{with_batch, batch_fold, names, Fresh, unnamed-Fresh}

module _ {D : Type 0} where
  rebuild_open-other :
      (s : Lifecycle D) (k at : ℕ) (t : NetPath) (batch : List (Record D))
      (last : Option (Record D)) (j : ℕ) (records : List (Record D))
      → (j == k) ≡ false
      → rebuild_open (with_batch s k at t batch last) j records ≡ rebuild_open s j records
  unfolding rebuild_open
  rebuild_open-other s k at t batch last j records other =
      rw (get-put s.initiated k j (t, []), beq_sym k j, other) refl

  rebuild_each-ended :
      (s : Lifecycle D) (k : ℕ) (batch : List (Record D)) (d : Dict ℕ (List (Record D)))
      → contains k s.ended ≡ true
      → rebuild_each s ((k, batch) ∷ d) ≡ rebuild_each s d
  unfolding rebuild_each
  rebuild_each-ended s k batch d ended = ground arith

  rebuild_each-live :
      (s : Lifecycle D) (k : ℕ) (batch : List (Record D)) (d : Dict ℕ (List (Record D)))
      (o : FiringOccurrence D) (os : List (FiringOccurrence D))
      → contains k s.ended ≡ false
      → rebuild_open s k batch ≡ ok o
      → rebuild_each s d ≡ ok os
      → rebuild_each s ((k, batch) ∷ d) ≡ ok (o ∷ os)
  unfolding rebuild_each
  rebuild_each-live s k batch d o os live rebuilt more = ground arith

  -- What is rebuilt of the other occurrences does not change.
  rebuild_each-with_batch :
      (s : Lifecycle D) (k at : ℕ) (t : NetPath) (batch : List (Record D))
      (last : Option (Record D)) (d : Dict ℕ (List (Record D))) (os : List (FiringOccurrence D))
      (o : FiringOccurrence D)
      → Fresh s k
      → get d k ≡ none
      → rebuild_each s d ≡ ok os
      → rebuild_open (with_batch s k at t batch last) k batch ≡ ok o
      → rebuild_each (with_batch s k at t batch last) (d ++ (k, batch) ∷ []) ≡ ok (os ++ o ∷ [])
  unfolding rebuild_each get
  rebuild_each-with_batch s k at t batch last [] os o f absent h added =
      let same : [] ≡ os = ground arith in
      rw (← same)
        (rebuild_each-live (with_batch s k at t batch last) k batch [] o [] f.ended added refl)
  rebuild_each-with_batch s k at t batch last ((j, records) ∷ d) os o f absent h added =
      elim (Bool-cases (contains j s.ended)) [
        | inl ended ↦
            let whole = with_batch s k at t batch last in
            rebuild_each-ended whole j records (d ++ (k, batch) ∷ []) ended
            ∙ rebuild_each-with_batch s k at t batch last d os o f (ground arith) (ground arith)
                added
        | inr live ↦ elim (Result-cases (rebuild_open s j records)) [
          | inr (e, raised) ↦ absurd (ground arith)
          | inl (p, rebuilt) ↦ elim (Result-cases (rebuild_each s d)) [
            | inr (e, raised) ↦ absurd (ground arith)
            | inl (rest, more) ↦
                let same : p ∷ rest ≡ os = ground arith in
                let kept = rebuild_open-other s k at t batch last j records (ground arith) in
                rw (← same) (
                  rebuild_each-live (with_batch s k at t batch last) j records
                    (d ++ (k, batch) ∷ []) p (rest ++ o ∷ []) live (kept ∙ rebuilt)
                    (rebuild_each-with_batch s k at t batch last d rest o f (ground arith) more
                      added))
          ]
        ]
      ]

  -- The batch of a firing is in order.
  ranks_read :
      (k at : ℕ) (rs : List (Selection D))
      → is_sorted (begin_ranks (map (begin_record k at) (read_effects rs))) ≡ true
  unfolding is_sorted begin_ranks
  ranks_read k at [] = refl
  ranks_read k at (r ∷ []) = refl
  ranks_read k at (r ∷ q ∷ rs) = ranks_read k at (q ∷ rs)

  ranks_moves :
      (k at : ℕ) (cs rs : List (Selection D))
      → is_sorted (begin_ranks (map (begin_record k at) (consumed_effects cs ++ read_effects rs)))
        ≡ true
  unfolding is_sorted begin_ranks
  ranks_moves k at [] rs = ranks_read k at rs
  ranks_moves k at (c ∷ []) [] = refl
  ranks_moves k at (c ∷ []) (r ∷ rs) = ranks_read k at (r ∷ rs)
  ranks_moves k at (c ∷ d ∷ cs) rs = ranks_moves k at (d ∷ cs) rs

  ranks_batch :
      (k at : ℕ) (t : NetPath) (cs rs : List (Selection D))
      → is_sorted (begin_ranks (begin_records k at t (consumed_effects cs ++ read_effects rs)))
        ≡ true
  unfolding is_sorted begin_ranks
  ranks_batch k at t [] [] = refl
  ranks_batch k at t [] (r ∷ rs) = ranks_read k at (r ∷ rs)
  ranks_batch k at t (c ∷ cs) rs = ranks_moves k at (c ∷ cs) rs

  read_moves :
      (k at : ℕ) (cs rs : List (Selection D))
      → let batch = map (begin_record k at) (consumed_effects cs ++ read_effects rs) in
        (consumed_of batch ≡ cs)
        × (read_of batch ≡ rs)
        × (invocation_of batch ≡ none)
        × (all (agrees_with none) batch ≡ true)
  unfolding consumed_of read_of invocation_of all
  read_moves k at [] [] = (refl, refl, refl, refl)
  read_moves k at [] ((p, ts) ∷ rs) =
      let (a, b, c, d) = read_moves k at [] rs in (a, ap (λ xs. (p, ts) ∷ xs) b, c, d)
  read_moves k at ((p, ts) ∷ cs) rs =
      let (a, b, c, d) = read_moves k at cs rs in (ap (λ xs. (p, ts) ∷ xs) a, b, c, d)

  -- The occurrence that a firing begins.
  abbrev pub begun_occurrence : Binding D → ℕ → List (Record D) → FiringOccurrence D
  begun_occurrence b k batch = record {
    id = k;
    binding = record b { delivered = [] };
    records = batch;
    invocation = none;
    scope = none;
  }

  rebuild_open-begun :
      (s : Lifecycle D) (k at : ℕ) (b : Binding D) (last : Option (Record D))
      → Fresh s k
      → let batch =
          begin_records k at b.transition (consumed_effects b.consumed ++ read_effects b.read) in
        rebuild_open (with_batch s k at b.transition batch last) k batch
        ≡ ok (begun_occurrence b k batch)
  unfolding rebuild_open rebuilt_occurrence boundary_of consumed_of read_of invocation_of all
  rebuild_open-begun s k at b last f =
      let (taken, read, asked, agreed) = read_moves k at b.consumed b.read in
      rw
        (
          get-put_self s.initiated k (b.transition, []),
          f.ending,
          ranks_batch k at b.transition b.consumed b.read,
          beq_refl b.transition,
          agreed,
          taken,
          read,
          asked,
        )
        refl

  batch_of :
      ⦃e : Eq D⦄ (m n : Marking D) (b : Binding D) (k at : ℕ) (batch : List (Record D))
      → begin_firing m b k at ≡ ok (n, batch)
      → begin_records k at b.transition (consumed_effects b.consumed ++ read_effects b.read) ≡ batch
  unfolding begin_firing Firing.begin_firing
  batch_of m n b k at batch h = elim (Result-cases (consume_all m b.consumed)) [
    | inr (e, raised) ↦ absurd (ground arith)
    | inl (m', consumed) ↦ elim (Result-cases (check_reads m' b.read)) [
      | inr (e, raised) ↦ absurd (ground arith)
      | inl (u, checked) ↦ ground arith
    ]
  ]

  -- When `replay_in_flight` rebuilds the occurrences of a history that names `k` nowhere, and a firing
  -- of a binding begins under `k`, then from the history with the initiation and the begin batch
  -- appended it rebuilds the same occurrences and, last, the one that was begun: its transition, its
  -- consumed and its read selections, and its records.
  pub replay_in_flight-begin_firing :
      ⦃e : Eq D⦄ (history : List (Record D)) (os : List (FiringOccurrence D)) (m n : Marking D)
      (b : Binding D) (k at : ℕ) (batch : List (Record D))
      → replay_in_flight history ≡ ok os
      → any (names k) history ≡ false
      → begin_firing m b k at ≡ ok (n, batch)
      → replay_in_flight (history ++ candidate_selected k b.transition at ∷ batch)
        ≡ ok (os ++ begun_occurrence b k batch ∷ [])
  unfolding replay_in_flight sorted_lifecycle
  replay_in_flight-begin_firing history os m n b k at batch h absent begun =
      elim (Result-cases (sorted_lifecycle history)) [
        | inr (e, raised) ↦ absurd (ground arith)
        | inl (s, sorted) ↦
            let f = unnamed-Fresh history s k sorted absent in
            let xs = consumed_effects b.consumed ++ read_effects b.read in
            let (last, folded) = batch_fold s k at b.transition xs f in
            let same : begin_records k at b.transition xs ≡ batch =
              batch_of m n b k at batch begun in
            rw
              (← same, fold_result-append lifecycle_step empty_lifecycle s history _ sorted, folded)
              (rebuild_each-with_batch s k at b.transition (begin_records k at b.transition xs) last
                s.begun os (begun_occurrence b k (begin_records k at b.transition xs)) f f.begun
                (ground arith) (rebuild_open-begun s k at b last f))
      ]
