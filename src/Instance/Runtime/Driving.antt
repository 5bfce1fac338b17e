-- ===== src/Instance/Runtime/Driving.antt =====
-- The inline driver and the status of src/petrus/impetus/instance/__init__.py: `candidates`, `step`,
-- `wake`, `is_quiescent` and `status`, and the construction of an `Instance`.
use petrus.Base.{
  ℕ, ◌+◌, String, Bool, true, false, ◌&&◌, not, Option, none, some, List, [], ◌∷◌, ◌++◌, map, Eq,
  ◌==◌, nat_eq, string_eq, option_eq, list_eq, ltb, if◌then◌else◌, Result, ok, err, ◌>>=◌, ◌>>◌,
  guard, or_raise, map_err, map_ok, Dict, get, is_empty, any, all, keys, values, filter, length,
}
use petrus.Petrinet.Token.{Token, NetPath}
use petrus.Petrinet.Path.{sorted}
use petrus.Petrinet.Net.{Net, outputs, is_source, is_none}
use petrus.Petrinet.Marking.{Marking}
use petrus.Petrinet.Enabledness.{Implementations, Binding, SurveyError}
use petrus.Petrinet.Enabledness.Survey.{candidates, next_maturation}
use petrus.History.{
  Record, instance_created, tokens_initialized, delivery_registration_opened, timer_matured,
}
use petrus.History.Queues.{instants_of}
use petrus.Petrinet.Schema.{Arc}
use petrus.Instance.Firing.{HandlerResult, FiringOccurrence, FiringOutcome}
use petrus.Instance.Runtime.{
  Instance, Handlers, Handler, projection, activity, RuntimeError, raising_handler, cannot_survey,
  initial_color, activity_in_step, writer_records, cannot_move, effective, commit, live_marking,
}
use petrus.Instance.Runtime.Beginning.{begin, apply_all}
use petrus.Instance.Runtime.Completing.{commit_completion, fail}

pub data Status : Type 0 where
  running terminated completed stuck awaiting : Status

-- `_source_transitions`
unfoldable pub source_transitions : Net → List NetPath
source_transitions net = sorted (filter (is_source net) (keys net.transitions))

-- The pending maturation, once the effective instant has come to it.
abbrev pub has_come : Option ℕ → ℕ → Option ℕ
has_come none instant = none
has_come (some pending) instant = if ltb instant pending then none else some pending

module _ {D : Type 0} where
  -- `_validate_initial_tokens`: a typed place takes tokens of its color.
  unfoldable pub initial_tokens_valid : Net → NetPath → List (Token D) → Bool
  initial_tokens_valid net p ts = elim (get net.places p) [
    | none ↦ true
    | some declared ↦ elim declared.color [
      | none ↦ true
      | some c ↦ all (λ (t : Token D). t.color == some c) ts
    ]
  ]

  -- `candidates()` at an instant.
  unfoldable pub candidates_at :
      Implementations D → Instance D → ℕ → Result (SurveyError D) (List (Binding D))
  candidates_at impl s at = candidates s.net impl (live_marking s) (some at) (instants_of s.queues)

  unfoldable pub pending_maturation :
      Implementations D → Instance D → Result (SurveyError D) (Option ℕ)
  pending_maturation impl s =
      next_maturation s.net impl (live_marking s) (some s.watermark) (instants_of s.queues)

  unfoldable pub is_quiescent : Implementations D → Instance D → Result (SurveyError D) Bool
  is_quiescent impl s = candidates_at impl s s.watermark >>= λ bs.
      pending_maturation impl s >>= λ pending.
      ok (is_empty bs && is_none pending && is_empty s.in_flight)

  -- `_completion_holds`: a condition that raises does not hold.
  abbrev pub completion_holds : Option (Marking D → Option Bool) → Marking D → Bool
  completion_holds none m = false
  completion_holds (some f) m = elim (f m) [ none ↦ false | some b ↦ b ]

  -- `any(self._armed.values())`
  abbrev pub any_armed : Instance D → Bool
  any_armed s = any (λ ks. not (is_empty ks)) (values s.armed)

  unfoldable pub status :
      Implementations D
      → Option (Marking D → Option Bool)
      → Instance D
      → Result (SurveyError D) Status
  status impl completion s = is_quiescent impl s >>= λ quiet. ok (
      if not quiet
      then running
      else if completion_holds completion (live_marking s)
      then completed
      else if any_armed s
      then awaiting
      else if is_none completion
      then terminated
      else stuck)

  unfoldable pub wake :
      Handlers D
      → Implementations D
      → Instance D
      → ℕ
      → Result (RuntimeError D) (Instance D × Option (Record D))
  wake hs impl s at = map_err cannot_survey (pending_maturation impl s) >>= λ pending.
      let instant = effective s (some at) in
      elim (has_come pending instant) [
        | none ↦ ok (s, none)
        | some maturation ↦ writer_records hs (timer_matured maturation instant ∷ []) >>= λ batch.
            ok (commit s batch instant, some (timer_matured maturation instant))
      ]

  -- The records of the initial marking.
  abbrev pub initial_records : ℕ → Dict NetPath (List (Token D)) → List (Record D)
  initial_records at queues =
      map
        (λ (x : NetPath × List (Token D)).
          tokens_initialized
            (record { place = x.0; tokens = x.1; entries = []; scope = none; instant = at }))
        queues

  abbrev pub opening_records : ℕ → List NetPath → List (Record D)
  opening_records at sources =
      map (λ source. delivery_registration_opened none source "default" at) sources

  unfoldable pub initial_batch : Net → Marking D → ℕ → String → List (Record D)
  initial_batch net m at identity =
      instance_created identity net.name at ∷ initial_records at m.queues
      ++ opening_records at (source_transitions net)

  -- `for place, tokens in marking: _validate_initial_tokens(...)`
  unfoldable pub check_initial_tokens :
      Net → Dict NetPath (List (Token D)) → Result (RuntimeError D) (Unit {0})
  check_initial_tokens net [] = ok tt
  check_initial_tokens net ((p, ts) ∷ rest) =
      guard (initial_tokens_valid net p ts) (initial_color p) >> check_initial_tokens net rest

  -- `next_entry`, counted over the initial marking.
  abbrev pub entries_after : ℕ → Dict NetPath (List (Token D)) → ℕ
  entries_after n [] = n
  entries_after n ((p, ts) ∷ rest) = entries_after (n + length ts) rest

module _ {D : Type 0} ⦃e : Eq D⦄ where
  -- `Instance.__init__`, with the symbols bound and the store empty.
  unfoldable pub construct :
      Handlers D → Net → Marking D → ℕ → String → Result (RuntimeError D) (Instance D)
  construct hs net m at identity = do
    check_initial_tokens net m.queues
    batch ← writer_records hs (initial_batch net m at identity)
    queues ← map_err cannot_move (apply_all [] batch)
    ok (record {
      net = net;
      history = batch;
      watermark = at;
      queues = queues;
      armed = map (λ source. (source, "default" ∷ [])) (source_transitions net);
      next_occurrence = 1;
      next_entry = entries_after 1 m.queues;
      in_flight = [];
      activity_occurrences = [];
      cancelled = [];
      frozen_results = [];
      terminal_activity = [];
      quarantined_activity = [];
      accepted_identities = [];
      active_scopes = [];
      scope_generations = [];
    })

module _ {D : Type 0} ⦃e : Eq D⦄ ⦃same : Eq (FiringOccurrence D)⦄ where
  -- The handler's result, committed.
  abbrev pub attempt :
      Handlers D
      → (Binding D → List Arc → Option (HandlerResult D))
      → Instance D
      → FiringOccurrence D
      → Option ℕ
      → Result (RuntimeError D) (Instance D × FiringOutcome D)
  attempt hs f s o at =
      or_raise (f o.binding (outputs s.net o.binding.transition))
        (raising_handler o.binding.transition)
      >>= λ r. commit_completion hs s o (some r) at

  -- The error that goes on after the failure: the one that was raised, or the one that failing raises.
  abbrev pub raised_after :
      RuntimeError D
      → Instance D × Result (RuntimeError D) (Unit {0})
      → Instance D × Result (RuntimeError D) (FiringOutcome D)
  raised_after x (t, ok u) = (t, err x)
  raised_after x (t, err y) = (t, err y)

  -- `_execute`: a raising handler or a refused result fails the occurrence, and is raised again; a
  -- handler of activities is refused before. `describe` is the failure that the exception's text makes.
  unfoldable pub execute :
      Handlers D
      → (RuntimeError D → D)
      → Instance D
      → FiringOccurrence D
      → Option ℕ
      → Instance D × Result (RuntimeError D) (FiringOutcome D)
  execute hs describe s o at = elim (hs.bound_handler o.binding.transition) [
    | activity h ↦ (s, err (activity_in_step o.binding.transition))
    | projection f ↦ elim (attempt hs f s o at) [
      | ok (t, outcome) ↦ (t, ok outcome)
      | err x ↦ elim (is_none (get s.in_flight o.id)) [
        | true ↦ (s, err x)
        | false ↦ raised_after x (fail hs s o (describe x) at)
      ]
    ]
  ]

  -- The begin of the selected binding, and its execution.
  abbrev pub fire :
      Handlers D
      → (RuntimeError D → D)
      → Instance D
      → Binding D
      → Option ℕ
      → Instance D × Result (RuntimeError D) (Option (FiringOutcome D))
  fire hs describe s b at = elim (begin hs s b at) [
    | err x ↦ (s, err x)
    | ok (t, o) ↦ let (u, outcome) = execute hs describe t o none in (u, map_ok some outcome)
  ]

  abbrev pub is_activity : Handler D → Bool
  is_activity (projection f) = false
  is_activity (activity h) = true

  -- `step`: `scheduler` selects among the candidates at the effective instant.
  unfoldable pub step :
      Handlers D
      → Implementations D
      → (List (Binding D) → Option (Binding D))
      → (RuntimeError D → D)
      → Instance D
      → Option ℕ
      → Instance D × Result (RuntimeError D) (Option (FiringOutcome D))
  step hs impl scheduler describe s at = elim (candidates_at impl s (effective s at)) [
    | err x ↦ (s, err (cannot_survey x))
    | ok bs ↦ elim (scheduler bs) [
      | none ↦ (s, ok none)
      | some b ↦ elim (is_activity (hs.bound_handler b.transition)) [
        | true ↦ (s, err (activity_in_step b.transition))
        | false ↦ fire hs describe s b at
      ]
    ]
  ]
