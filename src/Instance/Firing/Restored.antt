-- ===== src/Instance/Firing/Restored.antt =====
-- What `replay_marking` of src/petrus/impetus/history/__init__.py restores after the batches of
-- src/petrus/impetus/instance/firing.py are appended.
use petrus.Base.{
  ℕ, ◌≡◌, refl, sym, ◌∙◌, inl, inr, List, [], ◌∷◌, ◌++◌, map, arith, Eq, list_eq, string_eq, ok,
  Result-cases, fold_result, fold_result-append, get, or_else, All,
}
use petrus.Petrinet.Token.{NetPath}
use petrus.Petrinet.Queue.{TokenQueue, tokens}
use petrus.Petrinet.Marking.{Marking, place}
use petrus.Petrinet.Marking.Laws.{place-marking}
use petrus.Petrinet.Net.{Net}
use petrus.Petrinet.Enabledness.{Binding}
use petrus.History.{Record}
use petrus.History.Queues.{
  PlaceQueues, Projection, queue_at, empty_projection, replay_step, replay_projection,
  replay_queues, marking_of, replay_marking,
}
use petrus.History.Queues.WellFormed.{IsValid, replay_projection-IsWellFormed}
use petrus.Instance.Firing.{begin_firing, complete_firing, FiringOccurrence, HandlerResult}
use petrus.Instance.Firing.Replay.{Simulates, begin_firing-Simulates}
use petrus.Instance.Firing.Completion.{complete_firing-Simulates}

module _ {D : Type 0} where
  tokens-get :
      (d : PlaceQueues D) (p : NetPath)
      → or_else (get (map (λ (x : NetPath × TokenQueue D ℕ). (x.0, tokens x.1)) d) p) []
        ≡ tokens (queue_at d p)
  unfolding get
  tokens-get [] p = refl
  tokens-get ((j, q) ∷ d) p = ground (arith, tokens-get d p)

  marking_of-Simulates : (d : PlaceQueues D) → Simulates d (marking_of d)
  unfolding marking_of
  marking_of-Simulates d p = sym (
      place-marking (map (λ (x : NetPath × TokenQueue D ℕ). (x.0, tokens x.1)) d) p
      ∙ tokens-get d p)

module _ {D : Type 0} ⦃e : Eq D⦄ where
  replay_marking_cases :
      (history : List (Record D)) (m : Marking D)
      → replay_marking history ≡ ok m
      → (p : Projection D) × (replay_projection history ≡ ok p) × Simulates p.queues m
  unfolding replay_marking replay_queues
  replay_marking_cases history m h = elim (Result-cases (replay_projection history)) [
    | inr (x, raised) ↦ absurd (ground arith)
    | inl (p, done) ↦
        let same : marking_of p.queues ≡ m = ground arith in
        (p, done, rw (← same) (marking_of-Simulates p.queues))
  ]

  -- The restored marking of a longer history.
  replay_marking-append :
      (history batch : List (Record D)) (p p' : Projection D) (n : Marking D)
      → replay_projection history ≡ ok p
      → fold_result replay_step p batch ≡ ok p'
      → Simulates p'.queues n
      → (n' : Marking D) × (replay_marking (history ++ batch) ≡ ok n')
        × ((j : NetPath) → place n' j ≡ place n j)
  unfolding replay_marking replay_queues replay_projection
  replay_marking-append history batch p p' n replayed steps sim =
      let whole =
        fold_result-append replay_step empty_projection p history batch replayed ∙ steps in
      (marking_of p'.queues, rw whole refl, λ j. sym (marking_of-Simulates p'.queues j) ∙ sim j)

  -- If a history restores a marking from which a firing begins, then with the firing's begin batch
  -- appended it restores, place by place, the marking that the firing leaves.
  pub replay_marking-begin_firing :
      (history : List (Record D)) (m n : Marking D) (b : Binding D) (k at : ℕ)
      (batch : List (Record D))
      → replay_marking history ≡ ok m
      → begin_firing m b k at ≡ ok (n, batch)
      → (n' : Marking D) × (replay_marking (history ++ batch) ≡ ok n')
        × ((j : NetPath) → place n' j ≡ place n j)
  replay_marking-begin_firing history m n b k at batch h begun =
      let (p, replayed, sim) = replay_marking_cases history m h in
      let (d, steps, sim') = begin_firing-Simulates p m n b k at batch sim begun in
      replay_marking-append history batch p (record p { queues = d }) n replayed steps sim'

  -- If a history of valid records restores a marking, then with the end batch of a firing completed
  -- there appended it restores, place by place, the marking that the completion returns.
  pub replay_marking-complete_firing :
      (net : Net) (history : List (Record D)) (m : Marking D) (o : FiringOccurrence D)
      (r : HandlerResult D) (at : ℕ)
      → All IsValid history
      → replay_marking history ≡ ok m
      → (n' : Marking D) × (replay_marking (history ++ (complete_firing net m o r at).2) ≡ ok n')
        × ((j : NetPath) → place n' j ≡ place (complete_firing net m o r at).0 j)
  replay_marking-complete_firing net history m o r at valid h =
      let (p, replayed, sim) = replay_marking_cases history m h in
      let (p', steps, sim', _) =
        complete_firing-Simulates net p m o r at
          (replay_projection-IsWellFormed history p valid replayed) sim in
      replay_marking-append history (complete_firing net m o r at).2 p p'
        (complete_firing net m o r at).0 replayed steps sim'
