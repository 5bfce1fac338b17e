-- ===== src/Instance/Runtime/Scopes/Closing.antt =====
-- What `close_scope` and `reset_scope` of src/petrus/impetus/instance/__init__.py do to the state.
use petrus.Base.{
  ap, filter, values, ℕ, ◌+◌, ◌≡◌, refl, sym, ◌∙◌, inl, inr, Option, none, some, List, [], ◌∷◌,
  ◌++◌, Eq, nat_eq, string_eq, option_eq, arith, ok, Result-cases, get, pop, option_beq_iff,
  string_eq,
}
use petrus.Petrinet.Token.{LifecycleScope, scope_eq}
use petrus.History.{Record, scope_closed, scope_reset}
use petrus.History.Queues.{apply_movement}
use petrus.Instance.Firing.{FiringOccurrence}
use petrus.Instance.Runtime.{Instance, Handlers, writer_records, effective, commit}
use petrus.Instance.Runtime.Scopes.{
  ScopeClosure, scope_closure, cancel_one, scope_entries, ids_of, is_of_scope, cancel_all,
  apply_scope_terminal, close_scope, reset_scope, active_after, generations_after,
}

module _ {D : Type 0} where
  -- What a cancellation leaves alone.
  pub record Keeps (s t : Instance D) : Type 0 where
    pub history : t.history ≡ s.history
    pub watermark : t.watermark ≡ s.watermark
    pub queues : t.queues ≡ s.queues
    pub active : t.active_scopes ≡ s.active_scopes
    pub generations : t.scope_generations ≡ s.scope_generations
    pub next_occurrence : t.next_occurrence ≡ s.next_occurrence

  cancel_one-Keeps :
      (s : Instance D) (k : ℕ) (o : Option (FiringOccurrence D)) → Keeps s (cancel_one s k o)
  cancel_one-Keeps s k none = record {
    history = refl;
    watermark = refl;
    queues = refl;
    active = refl;
    generations = refl;
    next_occurrence = refl;
  }
  cancel_one-Keeps s k (some o) = record {
    history = refl;
    watermark = refl;
    queues = refl;
    active = refl;
    generations = refl;
    next_occurrence = refl;
  }

  pub cancel_all-Keeps : (ks : List ℕ) (s : Instance D) → Keeps s (cancel_all s ks)
  unfolding cancel_all
  cancel_all-Keeps [] s = record {
    history = refl;
    watermark = refl;
    queues = refl;
    active = refl;
    generations = refl;
    next_occurrence = refl;
  }
  cancel_all-Keeps (k ∷ ks) s =
      let a = cancel_one-Keeps s k (get s.in_flight k) in
      let b = cancel_all-Keeps ks (cancel_one s k (get s.in_flight k)) in
      record {
        history = b.history ∙ a.history;
        watermark = b.watermark ∙ a.watermark;
        queues = b.queues ∙ a.queues;
        active = b.active ∙ a.active;
        generations = b.generations ∙ a.generations;
        next_occurrence = b.next_occurrence ∙ a.next_occurrence;
      }

module _ {D : Type 0} ⦃e : Eq D⦄ where
  -- The effect of a close or a reset on the scopes, the history and the clock.
  pub record Terminated (s t : Instance D) (r : Record D) (scope : LifecycleScope)
      (opened : Option LifecycleScope) (instant : ℕ) : Type 0 where
    pub was_active : get s.active_scopes scope.name ≡ some scope
    pub moved : apply_movement s.queues r [] ≡ ok t.queues
    pub history : t.history ≡ s.history ++ r ∷ []
    pub watermark : t.watermark ≡ instant
    pub active : t.active_scopes ≡ active_after (pop s.active_scopes scope.name) opened
    pub generations : t.scope_generations ≡ generations_after s.scope_generations opened
    pub next_occurrence : t.next_occurrence ≡ s.next_occurrence

  scope_closure-eq-ok :
      (s : Instance D) (scope : LifecycleScope) (c : ScopeClosure)
      → scope_closure s scope ≡ ok c
      → (get s.active_scopes scope.name ≡ some scope)
        × (c.scope ≡ scope)
        × (c.discarded ≡ scope_entries scope s.queues)
        × (c.cancelled ≡ ids_of (filter (is_of_scope scope) (values s.in_flight)))
  unfolding scope_closure
  scope_closure-eq-ok s scope c h = (
    ground (arith, option_beq_iff (get s.active_scopes scope.name) (some scope)),
    ground arith,
    ground arith,
    ground arith,
  )

  terminated :
      (hs : Handlers D) (s t : Instance D) (scope : LifecycleScope) (c : ScopeClosure)
      (r : Record D) (opened : Option LifecycleScope) (instant : ℕ)
      → scope_closure s scope ≡ ok c
      → apply_scope_terminal (commit s (r ∷ []) instant) r c opened ≡ ok t
      → Terminated s t r scope opened instant
  unfolding apply_scope_terminal
  terminated hs s t scope c r opened instant closed h =
      elim (Result-cases (apply_movement s.queues r [])) [
        | inr (x, raised) ↦ absurd (ground arith)
        | inl (queues, moved) ↦
            let (was_active, named, _, _) = scope_closure-eq-ok s scope c closed in
            let mid = record (commit s (r ∷ []) instant) {
              queues = queues;
              active_scopes = active_after (pop s.active_scopes c.scope.name) opened;
              scope_generations = generations_after s.scope_generations opened;
            } in
            let same : cancel_all mid c.cancelled ≡ t = ground arith in
            let k = cancel_all-Keeps c.cancelled mid in
            rw (← same) (record {
              was_active = was_active;
              moved = moved ∙ ap ok (sym k.queues);
              history = k.history;
              watermark = k.watermark;
              active =
                  k.active
                  ∙ ap (λ (x : LifecycleScope). active_after (pop s.active_scopes x.name) opened)
                      named;
              generations = k.generations;
              next_occurrence = k.next_occurrence;
            })
      ]

  pub close_scope-Terminated :
      (hs : Handlers D) (s t : Instance D) (scope : LifecycleScope) (at : Option ℕ)
      (c : ScopeClosure)
      → close_scope hs s scope at ≡ ok (t, c)
      → Terminated s t
          (scope_closed scope c.discarded c.cancelled (effective s at))
          scope
          none
          (effective s at)
  unfolding close_scope writer_records
  close_scope-Terminated hs s t scope at c h = elim (Result-cases (scope_closure s scope)) [
    | inr (x, raised) ↦ absurd (ground arith)
    | inl (d, closed) ↦
        let r = scope_closed scope d.discarded d.cancelled (effective s at) in
        elim (Result-cases (apply_scope_terminal (commit s (r ∷ []) (effective s at)) r d none)) [
          | inr (x, raised) ↦ absurd (ground arith)
          | inl (u, done) ↦
              let same : d ≡ c = ground arith in
              let state : u ≡ t = ground arith in
              rw (← same, ← state) (terminated hs s u scope d r none (effective s at) closed done)
        ]
  ]

  pub reset_scope-Terminated :
      (hs : Handlers D) (s t : Instance D) (scope opened : LifecycleScope) (at : Option ℕ)
      → reset_scope hs s scope at ≡ ok (t, opened)
      → (c : ScopeClosure) × (opened
          ≡ record { name = scope.name; generation = scope.generation + 1 })
        × Terminated s t
            (scope_reset scope opened c.discarded c.cancelled (effective s at))
            scope
            (some opened)
            (effective s at)
  unfolding reset_scope writer_records
  reset_scope-Terminated hs s t scope opened at h = elim (Result-cases (scope_closure s scope)) [
    | inr (x, raised) ↦ absurd (ground arith)
    | inl (d, closed) ↦
        let next : LifecycleScope = record {
          name = scope.name;
          generation = scope.generation + 1;
        } in
        let r = scope_reset scope next d.discarded d.cancelled (effective s at) in
        elim (Result-cases
          (apply_scope_terminal (commit s (r ∷ []) (effective s at)) r d (some next))) [
            | inr (x, raised) ↦ absurd (ground arith)
            | inl (u, done) ↦
                let same : next ≡ opened = ground arith in
                let state : u ≡ t = ground arith in
                (
                  d,
                  sym same,
                  rw (← same, ← state)
                      (terminated hs s u scope d r (some next) (effective s at) closed done),
                )
          ]
  ]
