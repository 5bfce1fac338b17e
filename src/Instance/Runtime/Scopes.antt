-- ===== src/Instance/Runtime/Scopes.antt =====
-- The lifecycle scopes of src/petrus/impetus/instance/__init__.py: `open_scope`, `close_scope` and
-- `reset_scope`.
pub mod Closing
pub mod Mirror
use petrus.Base.{
  ℕ, ◌+◌, String, Bool, true, false, ◌&&◌, ◌||◌, not, Option, none, some, List, [], ◌∷◌, ◌++◌, map,
  Eq, ◌==◌, nat_eq, string_eq, option_eq, if◌then◌else◌, Result, ok, err, ◌>>=◌, ◌>>◌, guard,
  or_raise, map_err, Dict, get, put, pop, or_else, is_empty, filter, flat_map, values,
}
use petrus.Petrinet.Token.{NetPath, LifecycleScope, scope_eq}
use petrus.Petrinet.Net.{is_none}
use petrus.Petrinet.Queue.{Entry, TokenQueue, identities}
use petrus.History.{Record, scope_opened, scope_closed, scope_reset}
use petrus.History.Queues.{PlaceQueues, is_in_scope, known_ids, apply_movement}
use petrus.Instance.Firing.{FiringOccurrence}
use petrus.Instance.Runtime.{
  is_name, Instance, Handlers, RuntimeError, invalid_name, already_active, inactive_scope,
  awaits_projection, cannot_move, writer_records, effective, commit,
}

pub record ScopeClosure : Type 0 where
  pub scope : LifecycleScope
  pub discarded : List ℕ
  pub cancelled : List ℕ

-- The generation after the greatest one spent under the name.
abbrev pub next_generation : Dict String ℕ → String → LifecycleScope
next_generation generations name = record {
  name = name;
  generation = or_else (get generations name) 0 + 1;
}

-- What the generation that a reset opens adds.
abbrev pub active_after :
    Dict String LifecycleScope → Option LifecycleScope → Dict String LifecycleScope
active_after active none = active
active_after active (some o) = put active o.name o

abbrev pub generations_after : Dict String ℕ → Option LifecycleScope → Dict String ℕ
generations_after generations none = generations
generations_after generations (some o) = put generations o.name o.generation

module _ {D : Type 0} where
  abbrev pub is_of_scope : LifecycleScope → FiringOccurrence D → Bool
  is_of_scope scope o = o.scope == some scope

  abbrev pub ids_of : List (FiringOccurrence D) → List ℕ
  ids_of os = map (λ (o : FiringOccurrence D). o.id) os

  -- `projection_pending`
  unfoldable pub projection_pending : Instance D → List (FiringOccurrence D)
  projection_pending s =
      filter (λ (o : FiringOccurrence D). not (is_none (get s.frozen_results o.id)))
        (values s.in_flight)

  -- The durable identities of the entries of a scope, in every queue.
  unfoldable pub scope_entries : LifecycleScope → PlaceQueues D → List ℕ
  scope_entries scope queues =
      flat_map
        (λ (x : NetPath × TokenQueue D ℕ). known_ids (identities (filter (is_in_scope scope) x.1)))
        queues

  -- `_scope_closure`
  unfoldable pub scope_closure : Instance D → LifecycleScope → Result (RuntimeError D) ScopeClosure
  scope_closure s scope = do
    guard (get s.active_scopes scope.name == some scope) (inactive_scope scope)
    guard (is_empty (filter (is_of_scope scope) (projection_pending s))) (awaits_projection scope)
    ok (record {
      scope = scope;
      discarded = scope_entries scope s.queues;
      cancelled = ids_of (filter (is_of_scope scope) (values s.in_flight));
    })

  unfoldable pub open_scope :
      Handlers D
      → Instance D
      → String
      → Option ℕ
      → Result (RuntimeError D) (Instance D × LifecycleScope)
  open_scope hs s name at = do
    guard (is_name name) (invalid_name name)
    guard (is_none (get s.active_scopes name)) (already_active name)
    let scope = next_generation s.scope_generations name
    let instant = effective s at
    batch ← writer_records hs (scope_opened scope instant ∷ [])
    ok (
      record (commit s batch instant) {
        active_scopes = put s.active_scopes name scope;
        scope_generations = put s.scope_generations name scope.generation;
      },
      scope,
    )

  -- A cancelled occurrence leaves the ones in flight.
  abbrev pub cancel_one : Instance D → ℕ → Option (FiringOccurrence D) → Instance D
  cancel_one s k none = s
  cancel_one s k (some o) = record s {
    in_flight = pop s.in_flight k;
    frozen_results = pop s.frozen_results k;
    cancelled = put s.cancelled k o;
  }

  -- The loop over the closure's occurrences.
  unfoldable pub cancel_all : Instance D → List ℕ → Instance D
  cancel_all s [] = s
  cancel_all s (k ∷ ks) = cancel_all (cancel_one s k (get s.in_flight k)) ks

module _ {D : Type 0} ⦃e : Eq D⦄ where
  -- `_apply_scope_terminal`, of a close or of a reset with the generation it opens.
  unfoldable pub apply_scope_terminal :
      Instance D
      → Record D
      → ScopeClosure
      → Option LifecycleScope
      → Result (RuntimeError D) (Instance D)
  apply_scope_terminal s r closure opened =
      map_err cannot_move (apply_movement s.queues r []) >>= λ queues. ok (
        cancel_all
          (record s {
            queues = queues;
            active_scopes = active_after (pop s.active_scopes closure.scope.name) opened;
            scope_generations = generations_after s.scope_generations opened;
          })
          closure.cancelled)

  unfoldable pub close_scope :
      Handlers D
      → Instance D
      → LifecycleScope
      → Option ℕ
      → Result (RuntimeError D) (Instance D × ScopeClosure)
  close_scope hs s scope at = do
    closure ← scope_closure s scope
    let instant = effective s at
    let r = scope_closed scope closure.discarded closure.cancelled instant
    batch ← writer_records hs (r ∷ [])
    t ← apply_scope_terminal (commit s batch instant) r closure none
    ok (t, closure)

  unfoldable pub reset_scope :
      Handlers D
      → Instance D
      → LifecycleScope
      → Option ℕ
      → Result (RuntimeError D) (Instance D × LifecycleScope)
  reset_scope hs s scope at = do
    closure ← scope_closure s scope
    let opened : LifecycleScope = record { name = scope.name; generation = scope.generation + 1 }
    let instant = effective s at
    let r = scope_reset scope opened closure.discarded closure.cancelled instant
    batch ← writer_records hs (r ∷ [])
    t ← apply_scope_terminal (commit s batch instant) r closure (some opened)
    ok (t, opened)
