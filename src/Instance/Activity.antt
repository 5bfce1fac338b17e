-- ===== src/Instance/Activity.antt =====
-- The indexes of terminal activity facts of src/petrus/impetus/instance/firing.py:
-- `replay_terminal_activity`, `replay_quarantined_activity` and `replay_cancelled`.
use petrus.Base.{
  ℕ, not, some, List, [], ◌∷◌, ◌++◌, ◌==◌, nat_eq, option_eq, Result, ok, ◌>>=◌, ◌>>◌, guard,
  or_raise, map_err, fold_result, Dict, get, put, contains, if◌then◌else◌,
}
use petrus.Petrinet.Token.{LifecycleScope, scope_eq}
use petrus.Petrinet.Net.{is_none}
use petrus.History.{
  Record, scope_closed, scope_reset, activity_completed, activity_terminal_quarantined,
  firing_completed, activity_failed, firing_failed,
}
use petrus.Instance.Firing.{FiringOccurrence}
use petrus.Instance.Lifecycle.{
  Terminal, completed, failed, Lifecycle, LifecycleError, sorted_lifecycle,
}
use petrus.Instance.Lifecycle.Replays.{rebuilt_occurrence}

-- Replay divergence.
pub data ActivityError : Type 0 where
  second_terminal terminal_after_end cancelled_twice outside_cancellation second_quarantine :
      ℕ → ActivityError
  cancelled_unbegun cancelled_elsewhere : ℕ → ActivityError
  refused : LifecycleError → ActivityError

pub record Terminals (D : Type 0) : Type 0 where
  pub ended : List ℕ
  pub terminal : Dict ℕ (Terminal D)

pub record Quarantine (D : Type 0) : Type 0 where
  pub quarantined : Dict ℕ D
  pub cancelled : Dict ℕ LifecycleScope

-- The inner loop over `record.cancelled`.
unfoldable pub cancel_each :
    LifecycleScope → List ℕ → Dict ℕ LifecycleScope → Result ActivityError (Dict ℕ LifecycleScope)
cancel_each scope [] cancelled = ok cancelled
cancel_each scope (k ∷ ks) cancelled =
    guard (is_none (get cancelled k)) (cancelled_twice k)
    >> cancel_each scope ks (put cancelled k scope)

-- The terminal facts of the ended occurrences.
unfoldable pub of_ended : {D : Type 0} → List ℕ → Dict ℕ (Terminal D) → Dict ℕ (Terminal D)
of_ended ended [] = []
of_ended ended ((k, x) ∷ d) =
    let rest = of_ended ended d in if contains k ended then (k, x) ∷ rest else rest

module _ {D : Type 0} where
  unfoldable pub terminate : Terminals D → ℕ → Terminal D → Result ActivityError (Terminals D)
  terminate s k x =
      guard (is_none (get s.terminal k)) (second_terminal k)
      >> (guard (not (contains k s.ended)) (terminal_after_end k)
          >> ok (record s { terminal = put s.terminal k x }))

  -- One turn of the loop of `replay_terminal_activity`.
  unfoldable pub terminal_step : Terminals D → Record D → Result ActivityError (Terminals D)
  terminal_step s (firing_completed k t at) = ok (record s { ended = s.ended ++ k ∷ [] })
  terminal_step s (firing_failed k t x at) = ok (record s { ended = s.ended ++ k ∷ [] })
  terminal_step s (activity_completed k t x at) = terminate s k (completed x)
  terminal_step s (activity_failed k t x at) = terminate s k (failed x)
  terminal_step s _ = ok s

  unfoldable pub replay_terminal_activity :
      List (Record D) → Result ActivityError (Dict ℕ (Terminal D))
  replay_terminal_activity history =
      fold_result terminal_step (record { ended = []; terminal = [] }) history >>= λ s.
      ok (of_ended s.ended s.terminal)

  -- One turn of the loop of `replay_quarantined_activity`.
  unfoldable pub quarantine_step : Quarantine D → Record D → Result ActivityError (Quarantine D)
  quarantine_step s (scope_closed scope discarded ks at) =
      cancel_each scope ks s.cancelled >>= λ c. ok (record s { cancelled = c })
  quarantine_step s (scope_reset scope opened discarded ks at) =
      cancel_each scope ks s.cancelled >>= λ c. ok (record s { cancelled = c })
  quarantine_step s (activity_terminal_quarantined k t x scope at) =
      guard (get s.cancelled k == some scope) (outside_cancellation k)
      >> (guard (is_none (get s.quarantined k)) (second_quarantine k)
          >> ok (record s { quarantined = put s.quarantined k x }))
  quarantine_step s _ = ok s

  unfoldable pub replay_quarantined_activity : List (Record D) → Result ActivityError (Dict ℕ D)
  replay_quarantined_activity history =
      fold_result quarantine_step (record { quarantined = []; cancelled = [] }) history >>= λ s.
      ok s.quarantined

  -- One turn of the first loop of `replay_cancelled`.
  unfoldable pub cancelled_step :
      Dict ℕ LifecycleScope → Record D → Result ActivityError (Dict ℕ LifecycleScope)
  cancelled_step d (scope_closed scope discarded ks at) = cancel_each scope ks d
  cancelled_step d (scope_reset scope opened discarded ks at) = cancel_each scope ks d
  cancelled_step d _ = ok d

  -- Its second loop.
  unfoldable pub rebuild_cancelled :
      Lifecycle D → Dict ℕ LifecycleScope → Result ActivityError (List (FiringOccurrence D))
  rebuild_cancelled s [] = ok []
  rebuild_cancelled s ((k, scope) ∷ d) =
      or_raise (get s.begun k) (cancelled_unbegun k) >>= λ records.
      or_raise (get s.initiated k) (cancelled_unbegun k) >>= λ given.
      map_err refused (rebuilt_occurrence k given.0 given.1 records) >>= λ o.
      guard (o.scope == some scope) (cancelled_elsewhere k)
      >> (rebuild_cancelled s d >>= λ rest. ok (o ∷ rest))

  unfoldable pub replay_cancelled :
      List (Record D) → Result ActivityError (List (FiringOccurrence D))
  replay_cancelled history = map_err refused (sorted_lifecycle history) >>= λ s.
      fold_result cancelled_step [] history >>= λ d. rebuild_cancelled s d
