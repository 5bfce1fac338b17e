-- ===== src/Instance/Runtime.antt =====
-- The class `Instance` of src/petrus/impetus/instance/__init__.py: its live state, its clock, and the
-- guards that its operations share. The store is the list of its records, and every append to it
-- commits; the telemetry events are left out. `Handlers` is what the binding layer resolved: a
-- transition's handler and the canonical form of payloads, which JSON decides.

pub mod Scopes
pub mod Beginning
pub mod Activities
pub mod Completing
pub mod Delivering
pub mod Driving
pub mod Clock
pub mod Repeats
pub mod Construction
use Prim.Native.String.{count as count_chars}
use text.Mathlib.Text.{find? as find_text?}
use petrus.Base.{
  ℕ, zero, suc, ◌+◌, ◌≡◌, String, Bool, true, false, ◌&&◌, not, Option, none, some, List, [], ◌∷◌,
  ◌++◌, ◌==◌, nat_eq, string_eq, list_eq, option_eq, ltb, leb, if◌then◌else◌, Result, ok, err,
  ◌>>=◌, ◌>>◌, guard, Dict, get, contains, all, is_empty, max, Eq,
}
use petrus.Petrinet.Token.{Token, NetPath, LifecycleScope}
use petrus.Petrinet.Net.{Net, is_none}
use petrus.Petrinet.Schema.{Arc}
use petrus.Petrinet.Marking.{Marking, MarkingError}
use petrus.Petrinet.Queue.{QueueError}
use petrus.Petrinet.Enabledness.{Binding, Selection, SurveyError}
use petrus.History.{
  Movement, Delivery, ActivityRequest, Record, instant_of, is_unique, ScopeReference, exact, named,
  timer_matured, validate_entries, candidate_selected, firing_begun, firing_completed,
  tokens_initialized, scope_closed, scope_reset, external_event_delivered, scoped_delivery_dropped,
  scoped_delivery_quarantined, instance_created, delivery_registration_opened,
  delivery_registration_closed, tokens_consumed, tokens_read, activity_requested,
  activity_completed, activity_failed, activity_terminal_quarantined, tokens_produced,
  firing_failed,
}
use petrus.History.Queues.{PlaceQueues, ReplayError, marking_of}
use petrus.Instance.Firing.{FiringOccurrence, HandlerResult}
use petrus.Instance.Lifecycle.{Terminal}

-- The exceptions of the operations, by the occurrence, the transition or the name they concern.
pub data RuntimeError (D : Type 0) : Type 0 where
  non_canonical : RuntimeError D
  invalid_name already_active : String → RuntimeError D
  inactive_scope awaits_projection : LifecycleScope → RuntimeError D
  unknown_transition source_not_scheduled not_source not_armed : NetPath → RuntimeError D
  delivered_binding consume_mismatch read_mismatch raising_handler : NetPath → RuntimeError D
  reserved_identity : NetPath → RuntimeError D
  different_scopes entry_unknown : NetPath → RuntimeError D
  never_begun already_ended pure_firing conflicting_terminal : ℕ → RuntimeError D
  result_missing result_given no_terminal handler_disagrees no_failure_projection :
      ℕ → RuntimeError D
  cannot_fail : ℕ → RuntimeError D
  effect_unknown effect_not_source close_unarmed open_armed : NetPath → RuntimeError D
  empty_delivery : NetPath → RuntimeError D
  empty_identity : NetPath → RuntimeError D
  identity_conflict : String → RuntimeError D
  cannot_move : ReplayError D → RuntimeError D
  cannot_begin : MarkingError D → RuntimeError D
  cannot_select : QueueError D → RuntimeError D
  cannot_survey : SurveyError D → RuntimeError D
  initial_color : NetPath → RuntimeError D
  activity_in_step : NetPath → RuntimeError D

-- The invocation that a handler prepares: the writer derives the identities that are left out.
pub record Preparation (D : Type 0) : Type 0 where
  pub activity : String
  pub input : D
  pub policy : D
  pub correlation : Option String
  pub idempotency : Option String

-- `ActivityHandler`, and `project_failure` where the handler has it; `none` where a call raises.
pub record ActivityHandler (D : Type 0) : Type 0 where
  pub prepare : Binding D → Option (Preparation D)
  pub project : Binding D → D → Option (HandlerResult D)
  pub project_failure : Option (Binding D → D → Option (HandlerResult D))

pub data Handler (D : Type 0) : Type 0 where
  projection : (Binding D → List Arc → Option (HandlerResult D)) → Handler D
  activity : ActivityHandler D → Handler D

pub record Handlers (D : Type 0) : Type 0 where
  pub bound_handler : NetPath → Handler D
  -- The JSON round trip of a payload; `none` if it has no JSON spelling.
  pub canonical_payload : D → Option D
  -- Whether a payload of a record has the canonical JSON types.
  pub is_canonical : D → Bool
  -- `_canonical_payload_text` and `_failure_text`: the JSON text of a payload, or of a failure.
  pub payload_text : D → String
  pub failure_text : D → String
  -- The `error` field of a failure.
  pub failure_error : D → String
  -- The JSON object that `_terminal_outcome` builds.
  pub terminal_outcome : Terminal D → D

-- The fields of an `Instance` that its operations read or assign.
pub record Instance (D : Type 0) : Type 0 where
  pub net : Net
  pub history : List (Record D)
  pub watermark : ℕ
  pub queues : PlaceQueues D
  pub armed : Dict NetPath (List String)
  pub next_occurrence : ℕ
  pub next_entry : ℕ
  pub in_flight : Dict ℕ (FiringOccurrence D)
  pub activity_occurrences : Dict ℕ (FiringOccurrence D)
  pub cancelled : Dict ℕ (FiringOccurrence D)
  pub frozen_results : Dict ℕ (Terminal D)
  pub terminal_activity : Dict ℕ (Terminal D)
  pub quarantined_activity : Dict ℕ D
  pub accepted_identities : Dict String (Record D)
  pub active_scopes : Dict String LifecycleScope
  pub scope_generations : Dict String ℕ

abbrev pub nonempty : String → Bool
nonempty s = not (s == "")

-- A name of a lifecycle scope.
abbrev pub is_name : String → Bool
is_name name = not (name == "") && is_none (find_text? name "\0")

abbrev pub names_scope : ScopeReference → Bool
names_scope (exact s) = true
names_scope (named n) = is_name n

-- `_validate_positive_ids`: positive, and pairwise different.
abbrev pub positive : List ℕ → Bool
positive is = all (λ i. ltb 0 i) is && is_unique is

-- The entries of a movement, which `_validate_entries` checks when the record is made.
abbrev pub has_entries : {D : Type 0} → Movement D → Bool
has_entries m = elim (validate_entries m) [ ok _ ↦ true | err _ ↦ false ]

-- The text of a `FiringFailed` has at most 4096 characters.
abbrev pub is_failure_text : String → Bool
is_failure_text s = nonempty s && leb (count_chars s) 4096

abbrev pub positive_occurrence : Option ℕ → Bool
positive_occurrence none = true
positive_occurrence (some k) = ltb 0 k

module _ {D : Type 0} where
  -- `_validate_record_field` on the fields of a record and its own checks when it is made, as far as
  -- the types leave something to check: the texts, the identities, the entries, the generation that a
  -- reset opens and the payloads of activities.
  unfoldable pub is_writable : (D → Bool) → Record D → Bool
  is_writable canonical (instance_created i n at) = nonempty i
  is_writable canonical (tokens_initialized m) = has_entries m
  is_writable canonical (scope_closed s discarded cancelled at) =
      positive discarded && positive cancelled
  is_writable canonical (external_event_delivered k d) =
      ltb 0 k && nonempty d.identity && not (is_empty d.tokens)
  is_writable canonical (scoped_delivery_dropped d) = nonempty d.identity && not (is_empty d.tokens)
  is_writable canonical (scoped_delivery_quarantined d) =
      nonempty d.identity && not (is_empty d.tokens) && names_scope d.scope
  is_writable canonical (delivery_registration_opened k s n at) =
      positive_occurrence k && nonempty n
  is_writable canonical (delivery_registration_closed k s n at) =
      positive_occurrence k && nonempty n
  is_writable canonical (tokens_consumed k m) = ltb 0 k && has_entries m
  is_writable canonical (tokens_read k m) = ltb 0 k && has_entries m
  is_writable canonical (activity_requested k r) =
      ltb 0 k
      && nonempty r.activity
      && canonical r.input
      && nonempty r.correlation
      && nonempty r.idempotency
  is_writable canonical (activity_completed k t x at) = ltb 0 k && canonical x
  is_writable canonical (activity_failed k t x at) = ltb 0 k && canonical x
  is_writable canonical (activity_terminal_quarantined k t x s at) = ltb 0 k && canonical x
  is_writable canonical (tokens_produced k m) = ltb 0 k && has_entries m
  is_writable canonical (firing_failed k t x at) = ltb 0 k && is_failure_text x
  is_writable canonical (timer_matured maturation at) = leb maturation at
  is_writable canonical (candidate_selected k t at) = ltb 0 k
  is_writable canonical (firing_begun k t s at) = ltb 0 k
  is_writable canonical (firing_completed k t at) = ltb 0 k
  is_writable canonical (scope_reset s o discarded cancelled at) =
      o.name == s.name
      && o.generation == s.generation + 1
      && positive discarded
      && positive cancelled
  is_writable canonical _ = true

  -- `_writer_records`
  unfoldable pub writer_records :
      Handlers D → List (Record D) → Result (RuntimeError D) (List (Record D))
  writer_records hs batch =
      guard (all (is_writable hs.is_canonical) batch) non_canonical >> ok batch

  abbrev pub live_marking : Instance D → Marking D
  live_marking s = marking_of s.queues

  -- `_instant`: no instant is the watermark, and an earlier one clamps to it.
  abbrev pub effective : Instance D → Option ℕ → ℕ
  effective s none = s.watermark
  effective s (some at) = max at s.watermark

  -- The append of a batch, and `_advance`.
  abbrev pub commit : Instance D → List (Record D) → ℕ → Instance D
  commit s batch instant = record s { history = s.history ++ batch; watermark = instant }

module _ {D : Type 0} ⦃same : Eq (FiringOccurrence D)⦄ where
  -- `_ensure_in_flight`
  unfoldable pub ensure_in_flight :
      Instance D → FiringOccurrence D → Result (RuntimeError D) (Unit {0})
  ensure_in_flight s o =
      if get s.in_flight o.id == some o
      then ok tt
      else if ltb o.id s.next_occurrence && is_none (get s.in_flight o.id)
      then err (already_ended o.id)
      else err (never_begun o.id)
