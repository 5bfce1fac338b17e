-- ===== src/History/Scopes.antt =====
-- `replay_scopes` of src/petrus/impetus/history/__init__.py: the active lifecycle generations and the
-- greatest generation spent per name.
pub mod Generations
use petrus.Base.{
  ℕ, zero, suc, ◌+◌, ◌≡◌, String, Bool, true, false, ◌&&◌, ◌||◌, not, Option, none, some, List, [],
  ◌∷◌, ◌==◌, nat_eq, string_eq, option_eq, ltb, Result, ok, err, ◌>>=◌, ◌>>◌, guard, fold_result,
  Dict, get, put, pop, or_else,
}
use petrus.Petrinet.Token.{LifecycleScope, scope_eq}
use petrus.Petrinet.Net.{is_none}
use petrus.History.{
  Movement, Delivery, ActivityRequest, Record, ScopeReference, exact, named, tokens_initialized,
  scope_opened, scope_closed, scope_reset, external_event_delivered, scoped_delivery_dropped,
  scoped_delivery_quarantined, firing_begun, tokens_consumed, tokens_read, activity_requested,
  tokens_produced,
}

-- Replay divergence.
pub data ScopeError : Type 0 where
  invalid_open closed_inactive reset_inactive dropped_unproved : LifecycleScope → ScopeError
  quarantined_known uses_inactive : LifecycleScope → ScopeError

-- The active generation of each name, and the greatest one that it has spent.
pub record Scopes : Type 0 where
  pub active : Dict String LifecycleScope
  pub generations : Dict String ℕ

-- `generations.get(name, 0)`
abbrev pub spent : Scopes → String → ℕ
spent x n = or_else (get x.generations n) 0

-- `active.get(scope.name) == scope`
abbrev pub is_active : Scopes → LifecycleScope → Bool
is_active x s = get x.active s.name == some s

-- `active[scope.name] = scope` and `generations[scope.name] = scope.generation`
abbrev pub activate : Scopes → LifecycleScope → Scopes
activate x s = record {
  active = put x.active s.name s;
  generations = put x.generations s.name s.generation;
}

-- A record that carries a scope needs it to be active.
unfoldable pub require_active : Scopes → Option LifecycleScope → Result ScopeError Scopes
require_active x none = ok x
require_active x (some s) = guard (is_active x s) (uses_inactive s) >> ok x

-- The condition on a `ScopeReset` when it is made.
abbrev pub is_successor : LifecycleScope → LifecycleScope → Bool
is_successor closed opened =
    opened.name == closed.name && opened.generation == closed.generation + 1

module _ {D : Type 0} where
  -- One turn of the loop of `replay_scopes`.
  unfoldable pub scope_step : Scopes → Record D → Result ScopeError Scopes
  scope_step x (scope_opened s at) =
      guard (is_none (get x.active s.name) && s.generation == spent x s.name + 1) (invalid_open s)
      >> ok (activate x s)
  scope_step x (scope_closed s discarded cancelled at) =
      guard (is_active x s) (closed_inactive s) >> ok (record x { active = pop x.active s.name })
  scope_step x (scope_reset closed opened discarded cancelled at) =
      guard (is_active x closed) (reset_inactive closed) >> ok (activate x opened)
  scope_step x (scoped_delivery_dropped d) =
      guard (not (is_active x d.scope || ltb (spent x d.scope.name) d.scope.generation))
        (dropped_unproved d.scope)
      >> ok x
  scope_step x (scoped_delivery_quarantined d) = elim d.scope [
    | named n ↦ ok x
    | exact s ↦
        guard (not (is_active x s || not (ltb (spent x s.name) s.generation))) (quarantined_known s)
        >> ok x
  ]
  scope_step x (tokens_initialized m) = require_active x m.scope
  scope_step x (external_event_delivered k d) = require_active x d.scope
  scope_step x (firing_begun k t s at) = require_active x s
  scope_step x (tokens_consumed k m) = require_active x m.scope
  scope_step x (tokens_read k m) = require_active x m.scope
  scope_step x (activity_requested k r) = require_active x r.scope
  scope_step x (tokens_produced k m) = require_active x m.scope
  scope_step x _ = ok x

  unfoldable pub replay_scopes : List (Record D) → Result ScopeError Scopes
  replay_scopes history = fold_result scope_step (record { active = []; generations = [] }) history
