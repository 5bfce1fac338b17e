-- ===== src/Instance/Runtime/Scopes/Mirror.antt =====
-- The scopes of a live `Instance` (src/petrus/impetus/instance/__init__.py) are the ones that
-- `replay_scopes` (src/petrus/impetus/history/__init__.py) rebuilds from its history.
use petrus.Base.{
  ap, ℕ, ◌+◌, ◌≡◌, refl, ◌∙◌, String, Option, none, some, List, [], ◌∷◌, Eq, nat_eq, string_eq,
  option_eq, arith, ok, fold_result, fold_result-append, get, put, pop, get-put, get-pop, beq_refl,
  string_eq,
}
use petrus.Petrinet.Token.{LifecycleScope, scope_eq}
use petrus.History.{Record, scope_opened, scope_closed, scope_reset}
use petrus.History.Scopes.{Scopes, scope_step, replay_scopes, activate}
use petrus.Instance.Runtime.{Instance, Handlers, writer_records, effective, commit}
use petrus.Instance.Runtime.Scopes.Closing.{
  Terminated, close_scope-Terminated, reset_scope-Terminated,
}
use petrus.Instance.Runtime.Scopes.{
  ScopeClosure, open_scope, close_scope, reset_scope, next_generation,
}

module _ {D : Type 0} where
  -- The history replays, to the active scopes and the generations that the state holds.
  pub record Mirrors (history : List (Record D)) (s : Instance D) : Type 0 where
    pub scopes : Scopes
    pub replayed : replay_scopes history ≡ ok scopes
    pub active : (n : String) → get scopes.active n ≡ get s.active_scopes n
    pub generations : (n : String) → get scopes.generations n ≡ get s.scope_generations n

  -- What a successful opening has checked, and its result.
  pub open_scope-eq-ok :
      (hs : Handlers D) (s t : Instance D) (name : String) (at : Option ℕ) (scope : LifecycleScope)
      → open_scope hs s name at ≡ ok (t, scope)
      → (get s.active_scopes name ≡ none)
        × (next_generation s.scope_generations name ≡ scope)
        × (record (commit s
              (scope_opened (next_generation s.scope_generations name) (effective s at) ∷ [])
              (effective s at)) {
                active_scopes = put s.active_scopes name (next_generation s.scope_generations name);
                scope_generations =
                    put s.scope_generations name
                      (next_generation s.scope_generations name).generation;
              }
            ≡ t)
  unfolding open_scope writer_records
  open_scope-eq-ok hs s t name at scope h = (ground arith, ground arith, ground arith)

  -- Opening a scope that is returned keeps the state and its history in step.
  pub open_scope-Mirrors :
      (hs : Handlers D) (s t : Instance D) (name : String) (at : Option ℕ) (scope : LifecycleScope)
      → open_scope hs s name at ≡ ok (t, scope)
      → Mirrors s.history s
      → Mirrors t.history t
  unfolding replay_scopes scope_step fold_result
  open_scope-Mirrors hs s t name at scope h m =
      let (fresh, _, same) = open_scope-eq-ok hs s t name at scope h in
      let opened = next_generation s.scope_generations name in
      rw (← same) (record {
        scopes = activate m.scopes opened;
        replayed =
            fold_result-append scope_step (record { active = []; generations = [] }) m.scopes
              s.history (scope_opened opened (effective s at) ∷ []) m.replayed
            ∙ rw (m.active name, fresh, m.generations name, beq_refl opened.generation) refl;
        active = λ n. ground (
          arith,
          get-put m.scopes.active name n opened,
          get-put s.active_scopes name n opened,
          m.active n,
        );
        generations = λ n. ground (
          arith,
          get-put m.scopes.generations name n opened.generation,
          get-put s.scope_generations name n opened.generation,
          m.generations n,
        );
      })

module _ {D : Type 0} ⦃e : Eq D⦄ (hs : Handlers D) where
  -- The operations on the scopes.
  pub data ScopeStep : Instance D → Instance D → Type 0 where
    opening :
        {s t : Instance D} (name : String) (at : Option ℕ) (scope : LifecycleScope)
        → open_scope hs s name at ≡ ok (t, scope)
        → ScopeStep s t
    closing :
        {s t : Instance D} (scope : LifecycleScope) (at : Option ℕ) (c : ScopeClosure)
        → close_scope hs s scope at ≡ ok (t, c)
        → ScopeStep s t
    resetting :
        {s t : Instance D} (scope : LifecycleScope) (at : Option ℕ) (opened : LifecycleScope)
        → reset_scope hs s scope at ≡ ok (t, opened)
        → ScopeStep s t

  closed-Mirrors :
      (s t : Instance D) (scope : LifecycleScope) (discarded cancelled : List ℕ) (at instant : ℕ)
      → Terminated s t (scope_closed scope discarded cancelled at) scope none instant
      → Mirrors s.history s
      → Mirrors t.history t
  unfolding replay_scopes scope_step fold_result
  closed-Mirrors s t scope discarded cancelled at instant x m = rw (x.history) (record {
    scopes = record m.scopes { active = pop m.scopes.active scope.name };
    replayed =
        fold_result-append scope_step (record { active = []; generations = [] }) m.scopes s.history
          (scope_closed scope discarded cancelled at ∷ []) m.replayed
        ∙ rw (m.active scope.name, x.was_active, beq_refl scope) refl;
    active = λ n. rw (x.active) (
        ground (
          arith,
          get-pop m.scopes.active scope.name n,
          get-pop s.active_scopes scope.name n,
          m.active n,
        ));
    generations = λ n. rw (x.generations) (m.generations n);
  })

  reset-Mirrors :
      (s t : Instance D) (scope opened : LifecycleScope) (discarded cancelled : List ℕ)
      (at instant : ℕ)
      → opened ≡ record { name = scope.name; generation = scope.generation + 1 }
      → Terminated s t (scope_reset scope opened discarded cancelled at) scope (some opened) instant
      → Mirrors s.history s
      → Mirrors t.history t
  unfolding replay_scopes scope_step fold_result
  reset-Mirrors s t scope opened discarded cancelled at instant next x m =
      let name : opened.name ≡ scope.name = ap (λ (o : LifecycleScope). o.name) next in
      rw (x.history) (record {
        scopes = activate m.scopes opened;
        replayed =
            fold_result-append scope_step (record { active = []; generations = [] }) m.scopes
              s.history (scope_reset scope opened discarded cancelled at ∷ []) m.replayed
            ∙ rw (m.active scope.name, x.was_active, beq_refl scope) refl;
        active = λ n.
            rw (x.active, name)
              (ground (
                arith,
                get-put m.scopes.active scope.name n opened,
                get-put (pop s.active_scopes scope.name) scope.name n opened,
                get-pop s.active_scopes scope.name n,
                m.active n,
              ));
        generations = λ n. rw (x.generations) (
            ground (
              arith,
              get-put m.scopes.generations opened.name n opened.generation,
              get-put s.scope_generations opened.name n opened.generation,
              m.generations n,
            ));
      })

  -- Whenever opening, closing or resetting a scope returns, a state whose history replays to its own
  -- active scopes and spent generations is left in such a state.
  pub ScopeStep-Mirrors :
      (s t : Instance D) → ScopeStep s t → Mirrors s.history s → Mirrors t.history t
  ScopeStep-Mirrors s t (opening name at scope h) m = open_scope-Mirrors hs s t name at scope h m
  ScopeStep-Mirrors s t (closing scope at c h) m =
      closed-Mirrors s t scope c.discarded c.cancelled (effective s at) (effective s at)
        (close_scope-Terminated hs s t scope at c h) m
  ScopeStep-Mirrors s t (resetting scope at opened h) m =
      let (c, next, x) = reset_scope-Terminated hs s t scope opened at h in
      reset-Mirrors s t scope opened c.discarded c.cancelled (effective s at) (effective s at) next
        x m
