-- ===== src/Instance/Runtime/Completing.antt =====
-- The end of a firing occurrence in src/petrus/impetus/instance/__init__.py: `_armed_after`,
-- `_commit_completion` and `fail`.

use petrus.Base.{
  ℕ, ◌+◌, String, Bool, true, false, ◌&&◌, not, Option, none, some, List, [], ◌∷◌, ◌++◌, map, Eq,
  ◌==◌, nat_eq, string_eq, option_eq, list_eq, if◌then◌else◌, Result, ok, err, ◌>>=◌, ◌>>◌, guard,
  or_raise, map_ok, map_err, Dict, get, put, pop, contains, filter, flat_map, length,
}
use petrus.Petrinet.Token.{Token, NetPath, LifecycleScope}
use petrus.Petrinet.Net.{Net, in_dict, is_source, is_none}
use petrus.Petrinet.Enabledness.{Binding, Selection}
use petrus.Petrinet.Firing.{ProducedTokens}
use petrus.Petrinet.Firing
use petrus.History.{Movement, Record, tokens_produced, firing_completed, firing_failed}
use petrus.History.Queues.{PlaceQueues, ReplayError, range_from, apply_movement}
use petrus.History.Registrations.{keys_of}
use petrus.Instance.Firing.{
  FiringOccurrence, FiringOutcome, HandlerResult, DeliveryRegistration, registration_records,
}
use petrus.Instance.Lifecycle.{Terminal, completed, failed}
use petrus.Instance.Runtime.{
  Instance, Handlers, Handler, ActivityHandler, projection, activity, RuntimeError, effect_unknown,
  effect_not_source, close_unarmed, open_armed, result_missing, result_given, no_terminal,
  handler_disagrees, no_failure_projection, raising_handler, cannot_fail, cannot_move,
  writer_records, effective, commit, ensure_in_flight, live_marking,
}
use petrus.Instance.Runtime.Beginning.{recorded_entries}
use petrus.Instance.Runtime.Activities.{record_activity_failure, TerminalDisposition}

-- The check of each effect, on a transition of the net that is a source.
unfoldable pub check_effects :
    {D : Type 0} → Net → List DeliveryRegistration → Result (RuntimeError D) (Unit {0})
check_effects net [] = ok tt
check_effects net (x ∷ xs) = do
  guard (in_dict x.source net.transitions) (effect_unknown x.source)
  guard (is_source net x.source) (effect_not_source x.source)
  check_effects net xs

unfoldable pub apply_closes :
    {D : Type 0}
    → Dict NetPath (List String)
    → List DeliveryRegistration
    → Result (RuntimeError D) (Dict NetPath (List String))
apply_closes armed [] = ok armed
apply_closes armed (x ∷ xs) =
    guard (contains x.key (keys_of armed x.source)) (close_unarmed x.source)
    >> apply_closes (put armed x.source (filter (λ k. not (k == x.key)) (keys_of armed x.source)))
        xs

unfoldable pub apply_opens :
    {D : Type 0}
    → Dict NetPath (List String)
    → List DeliveryRegistration
    → Result (RuntimeError D) (Dict NetPath (List String))
apply_opens armed [] = ok armed
apply_opens armed (x ∷ xs) =
    guard (not (contains x.key (keys_of armed x.source))) (open_armed x.source)
    >> apply_opens (put armed x.source (keys_of armed x.source ++ x.key ∷ [])) xs

module _ {D : Type 0} where
  -- `_armed_after`
  unfoldable pub armed_after :
      Instance D → HandlerResult D → Result (RuntimeError D) (Dict NetPath (List String))
  armed_after s r = do
    check_effects s.net (r.closes ++ r.opens)
    armed ← apply_closes s.armed r.closes
    apply_opens armed r.opens

  abbrev pub projected_failure :
      ℕ
      → NetPath
      → Option (Binding D → D → Option (HandlerResult D))
      → Binding D
      → D
      → Result (RuntimeError D) (HandlerResult D)
  projected_failure k t none b x = err (no_failure_projection k)
  projected_failure k t (some f) b x = or_raise (f b x) (raising_handler t)

  abbrev pub projected_terminal :
      ℕ → ActivityHandler D → Binding D → Terminal D → Result (RuntimeError D) (HandlerResult D)
  projected_terminal k h b (completed x) = or_raise (h.project b x) (raising_handler b.transition)
  projected_terminal k h b (failed x) = projected_failure k b.transition h.project_failure b x

  -- The result to commit: a pure firing's is given, an impure one's is projected from its frozen fact.
  unfoldable pub projected_result :
      Handlers D
      → Instance D
      → FiringOccurrence D
      → Option (HandlerResult D)
      → Result (RuntimeError D) (HandlerResult D)
  projected_result hs s o result = elim o.invocation [
    | none ↦ or_raise result (result_missing o.id)
    | some i ↦
        guard (is_none result) (result_given o.id)
        >> (or_raise (get s.frozen_results o.id) (no_terminal o.id) >>= λ frozen.
            elim (hs.bound_handler o.binding.transition) [
              | projection f ↦ err (handler_disagrees o.id)
              | activity h ↦ projected_terminal o.id h o.binding frozen
            ])
  ]

  -- The movement of each produced effect, with the entries that it takes from the cursor on.
  unfoldable pub produced_movements :
      ℕ → Option LifecycleScope → ℕ → List (ProducedTokens D) → List (Movement D × List ℕ)
  produced_movements cursor scope at [] = []
  produced_movements cursor scope at (x ∷ xs) =
      let entries = range_from cursor (length x.tokens) in
      (
        record {
          place = x.place;
          tokens = x.tokens;
          entries = recorded_entries scope entries;
          scope = scope;
          instant = at;
        },
        entries,
      )
      ∷ produced_movements (cursor + length x.tokens) scope at xs

  abbrev pub cursor_after : ℕ → List (ProducedTokens D) → ℕ
  cursor_after cursor [] = cursor
  cursor_after cursor (x ∷ xs) = cursor_after (cursor + length x.tokens) xs

  -- The completion batch.
  abbrev pub completion_records :
      FiringOccurrence D → ℕ → HandlerResult D → List (Movement D × List ℕ) → List (Record D)
  completion_records o at r moves =
      map (λ (x : Movement D × List ℕ). tokens_produced o.id x.0) moves
      ++ (registration_records o.id at r ++ firing_completed o.id o.binding.transition at ∷ [])

  -- The frozen result of an impure occurrence moves to the terminal index.
  abbrev pub settle : Instance D → ℕ → Option (Terminal D) → Instance D
  settle s k none = s
  settle s k (some x) = record s {
    terminal_activity = put s.terminal_activity k x;
    frozen_results = pop s.frozen_results k;
  }

  abbrev pub frozen_of : Instance D → FiringOccurrence D → Option (Terminal D)
  frozen_of s o = elim o.invocation [ none ↦ none | some i ↦ get s.frozen_results o.id ]

  -- The occurrence is in flight no more.
  abbrev pub retire : Instance D → FiringOccurrence D → Instance D
  retire s o =
      let t = settle s o.id (frozen_of s o) in record t { in_flight = pop t.in_flight o.id }

  abbrev pub outcome_of :
      FiringOccurrence D → List (ProducedTokens D) → List (Record D) → FiringOutcome D
  outcome_of o effects appended = record {
    transition = o.binding.transition;
    occurrence = o.id;
    consumed = flat_map (λ (x : Selection D). x.1) o.binding.consumed;
    produced =
        flat_map (λ (x : ProducedTokens D). map (λ (y : Token D). (x.place, y)) x.tokens) effects;
    records = o.records ++ appended;
  }

  -- A frozen fact that is not the same failure refuses the failure.
  abbrev pub may_fail : Handlers D → D → Option (Terminal D) → Bool
  may_fail hs failure none = true
  may_fail hs failure (some (completed x)) = false
  may_fail hs failure (some (failed x)) = hs.failure_text x == hs.failure_text failure

  abbrev pub projects_failure : Handler D → Bool
  projects_failure (projection f) = false
  projects_failure (activity h) = not (is_none h.project_failure)

  -- The `FiringFailed` of an occurrence, and what follows its append.
  unfoldable pub fail_firing :
      Handlers D → Instance D → FiringOccurrence D → D → ℕ → Result (RuntimeError D) (Instance D)
  fail_firing hs s o failure instant =
      writer_records hs
        (firing_failed o.id o.binding.transition (hs.failure_error failure) instant ∷ [])
      >>= λ batch. ok (retire (commit s batch instant) o)

module _ {D : Type 0} ⦃e : Eq D⦄ where
  -- `apply_movement(self._queues, record, inferred_entries=entries)` of each produced record.
  unfoldable pub apply_produced :
      ℕ → PlaceQueues D → List (Movement D × List ℕ) → Result (ReplayError D) (PlaceQueues D)
  apply_produced k queues [] = ok queues
  apply_produced k queues ((m, entries) ∷ rest) =
      apply_movement queues (tokens_produced k m) entries >>= λ q. apply_produced k q rest

module _ {D : Type 0} ⦃same : Eq (FiringOccurrence D)⦄ where
  -- `if occurrence.invocation is not None and occurrence.id not in self._frozen_results`
  abbrev pub with_failure :
      Handlers D
      → Instance D
      → FiringOccurrence D
      → D
      → Option ℕ
      → Result (RuntimeError D) (Instance D)
  with_failure hs s o failure at =
      if not (is_none o.invocation) && is_none (get s.frozen_results o.id)
      then map_ok (λ (x : Instance D × TerminalDisposition). x.0)
          (record_activity_failure hs s o failure at)
      else ok s

module _ {D : Type 0} ⦃e : Eq D⦄ ⦃same : Eq (FiringOccurrence D)⦄ where
  -- `_commit_completion`
  unfoldable pub commit_completion :
      Handlers D
      → Instance D
      → FiringOccurrence D
      → Option (HandlerResult D)
      → Option ℕ
      → Result (RuntimeError D) (Instance D × FiringOutcome D)
  commit_completion hs s o result at = do
    ensure_in_flight s o
    r ← projected_result hs s o result
    armed ← armed_after s r
    let instant = effective s at
    let effects = (Firing.complete_firing s.net (live_marking s) o.binding.transition r.tokens).0
    let moves = produced_movements s.next_entry o.scope instant effects
    batch ← writer_records hs (completion_records o instant r moves)
    queues ← map_err cannot_move (apply_produced o.id s.queues moves)
    ok (
      retire
          (record (commit s batch instant) {
            next_entry = cursor_after s.next_entry effects;
            queues = queues;
            armed = armed;
          })
          o,
      outcome_of o effects batch,
    )

  -- What `fail` does once the activity's failure is recorded.
  abbrev pub end_failed :
      Handlers D
      → Instance D
      → FiringOccurrence D
      → D
      → Option ℕ
      → Result (RuntimeError D) (Instance D)
  end_failed hs t o failure at =
      let projected =
        map_ok (λ (x : Instance D × FiringOutcome D). x.0) (commit_completion hs t o none at) in
      let direct = fail_firing hs t o failure (effective t at) in
      if not (is_none o.invocation) && projects_failure (hs.bound_handler o.binding.transition)
      then projected
      else direct

  -- A step that raises leaves the state that it started in.
  abbrev pub left_by :
      Instance D
      → Result (RuntimeError D) (Instance D)
      → Instance D × Result (RuntimeError D) (Unit {0})
  left_by s (ok t) = (t, ok tt)
  left_by s (err x) = (s, err x)

  -- The state is the one that is left where a later step raises, too: the record of the activity's
  -- failure stays then.
  unfoldable pub fail :
      Handlers D
      → Instance D
      → FiringOccurrence D
      → D
      → Option ℕ
      → Instance D × Result (RuntimeError D) (Unit {0})
  fail hs s o failure at =
      elim (ensure_in_flight s o
        >> (guard (may_fail hs failure (get s.frozen_results o.id)) (cannot_fail o.id)
            >> with_failure hs s o failure at)) [
              | err x ↦ (s, err x)
              | ok t ↦ left_by t (end_failed hs t o failure at)
            ]
