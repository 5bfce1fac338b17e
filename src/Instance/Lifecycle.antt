-- ===== src/Instance/Lifecycle.antt =====
-- `_sorted_lifecycle` of src/petrus/impetus/instance/firing.py: the fold that sorts a history into
-- the buckets of the occurrence lifecycle, and refuses the orders that no writer leaves.
pub mod Replays
pub mod Steps
pub mod Buckets
pub mod Coherent
pub mod Keys
pub mod Flight
pub mod Beginnings
pub mod Endings
pub mod Resume
pub mod Retire
use petrus.Base.{
  ℕ, Bool, true, false, ◌&&◌, not, Option, none, some, List, [], ◌∷◌, ◌++◌, ◌==◌, nat_eq, string_eq,
  option_eq, list_eq, pair_eq, Result, ok, err, ◌>>=◌, ◌>>◌, guard, or_raise, fold_result, Dict,
  get, put, pop, contains, if◌then◌else◌, any, is_empty, map,
}
use mathlib.Core.Option
use petrus.Petrinet.Token.{Token, NetPath, LifecycleScope, scope_eq}
use petrus.Petrinet.Net.{is_none}
use petrus.History.{
  Movement, Delivery, ActivityRequest, Record, scope_closed, scope_reset, candidate_selected,
  external_event_delivered, delivery_registration_opened, delivery_registration_closed,
  firing_begun, tokens_consumed, tokens_read, activity_requested, activity_completed,
  activity_terminal_quarantined, tokens_produced, firing_completed, activity_failed, firing_failed,
}

-- Replay divergence, and the two exceptions of a dict without the key and of a batch that does not
-- start with its boundary.
pub data LifecycleError : Type 0 where
  initiated_twice not_initiated begun_twice not_after_initiation : ℕ → LifecycleError
  not_begun after_terminal after_completion outside_batch other_instant : ℕ → LifecycleError
  other_transition second_request not_requested second_terminal : ℕ → LifecycleError
  after_cancellation ended_twice : ℕ → LifecycleError
  other_cancellations awaits_projection : LifecycleScope → LifecycleError
  torn_batch disordered_batch mismatched_scope cancelled_twice : ℕ → LifecycleError
  boundary_missing : LifecycleError

-- What a terminal activity fact froze: a result, or the fields of an `ActivityFailure`.
pub data Terminal (D : Type 0) : Type 0 where
  completed : D → Terminal D
  failed : D → Terminal D

-- The buckets, and what the loop remembers of the records before: the batch that is being begun
-- with its instant, and the record before.
pub record Lifecycle (D : Type 0) : Type 0 where
  pub initiated : Dict ℕ (NetPath × List (Token D))
  pub begun : Dict ℕ (List (Record D))
  pub ended : List ℕ
  pub ending : List ℕ
  pub frozen : Dict ℕ (Terminal D)
  pub scoped_open : Dict ℕ LifecycleScope
  pub lifecycle_cancelled : List ℕ
  pub active_begin : Option (ℕ × ℕ)
  pub previous : Option (Record D)

-- `tuple(k for k, provenance in scoped_open.items() if provenance == scope)`
unfoldable pub open_under : LifecycleScope → Dict ℕ LifecycleScope → List ℕ
open_under s [] = []
open_under s ((k, t) ∷ d) = let rest = open_under s d in if t == s then k ∷ rest else rest

-- `for k in expected: del scoped_open[k]`
unfoldable pub pop_all : Dict ℕ LifecycleScope → List ℕ → Dict ℕ LifecycleScope
pop_all d [] = d
pop_all d (k ∷ ks) = pop_all (pop d k) ks

-- `if record.scope is not None: scoped_open[record.occurrence] = record.scope`
abbrev pub open_scoped : Dict ℕ LifecycleScope → ℕ → Option LifecycleScope → Dict ℕ LifecycleScope
open_scoped d k none = d
open_scoped d k (some s) = put d k s

module _ {D : Type 0} where
  abbrev pub empty_lifecycle : Lifecycle D
  empty_lifecycle = record {
    initiated = [];
    begun = [];
    ended = [];
    ending = [];
    frozen = [];
    scoped_open = [];
    lifecycle_cancelled = [];
    active_begin = none;
    previous = none;
  }

  -- The records that continue a begin batch.
  abbrev pub is_begin_tail : Record D → Bool
  is_begin_tail (tokens_consumed k m) = true
  is_begin_tail (tokens_read k m) = true
  is_begin_tail (activity_requested k r) = true
  is_begin_tail _ = false

  abbrev pub is_request : Record D → Bool
  is_request (activity_requested k r) = true
  is_request _ = false

  -- The occurrence and the instant of an initiation.
  abbrev pub initiation : Option (Record D) → Option (ℕ × ℕ)
  initiation (some (candidate_selected k t at)) = some (k, at)
  initiation (some (external_event_delivered k d)) = some (k, d.instant)
  initiation _ = none

  -- `begun[k][0]`, which is the boundary.
  abbrev pub begun_transition : List (Record D) → Result LifecycleError NetPath
  begun_transition (firing_begun k t s at ∷ rs) = ok t
  begun_transition _ = err boundary_missing

  unfoldable pub initiate :
      Lifecycle D → ℕ → NetPath → List (Token D) → Result LifecycleError (Lifecycle D)
  initiate s k t delivered =
      guard (is_none (get s.initiated k)) (initiated_twice k)
      >> ok (record s { initiated = put s.initiated k (t, delivered) })

  unfoldable pub begin :
      Lifecycle D → ℕ → NetPath → Option LifecycleScope → ℕ → Result LifecycleError (Lifecycle D)
  begin s k t scope at = do
    guard (not (is_none (get s.initiated k))) (not_initiated k)
    guard (is_none (get s.begun k)) (begun_twice k)
    guard (Option.map (λ x. x.0) (initiation s.previous) == some k) (not_after_initiation k)
    guard (initiation s.previous == some (k, at)) (other_instant k)
    ok (record s {
      begun = put s.begun k (firing_begun k t scope at ∷ []);
      active_begin = some (k, at);
      scoped_open = open_scoped s.scoped_open k scope;
    })

  -- `_refuse_late_begin_record` and `_validate_begin_record_position`, and the append to the batch.
  unfoldable pub join_batch :
      Lifecycle D → ℕ → ℕ → List (Record D) → Record D → Result LifecycleError (Lifecycle D)
  join_batch s k at records r = do
    guard (not (contains k s.ended)) (after_terminal k)
    guard (not (contains k s.ending)) (after_completion k)
    guard (Option.map (λ x. x.0) s.active_begin == some k) (outside_batch k)
    guard (s.active_begin == some (k, at)) (other_instant k)
    ok (record s { begun = put s.begun k (records ++ r ∷ []) })

  unfoldable pub move : Lifecycle D → ℕ → ℕ → Record D → Result LifecycleError (Lifecycle D)
  move s k at r = or_raise (get s.begun k) (not_begun k) >>= λ records. join_batch s k at records r

  -- `_validate_activity_record_transition`
  abbrev pub same_transition : ℕ → NetPath → List (Record D) → Result LifecycleError (Unit {0})
  same_transition k t records =
      begun_transition records >>= λ u. guard (t == u) (other_transition k)

  unfoldable pub request : Lifecycle D → ℕ → ActivityRequest D → Result LifecycleError (Lifecycle D)
  request s k r = or_raise (get s.begun k) (not_begun k) >>= λ records.
      same_transition k r.transition records
      >> (guard (not (any is_request records)) (second_request k)
          >> join_batch s k r.instant records (activity_requested k r))

  -- A terminal fact of an activity.
  unfoldable pub freeze :
      Lifecycle D → ℕ → NetPath → Terminal D → Result LifecycleError (Lifecycle D)
  freeze s k t x = or_raise (get s.begun k) (not_requested k) >>= λ records.
      guard (any is_request records) (not_requested k)
      >> (same_transition k t records
          >> (guard (is_none (get s.frozen k)) (second_terminal k)
              >> (guard (not (contains k s.lifecycle_cancelled)) (after_cancellation k)
                  >> ok (record s { frozen = put s.frozen k x }))))

  unfoldable pub quarantine : Lifecycle D → ℕ → NetPath → Result LifecycleError (Lifecycle D)
  quarantine s k t =
      or_raise (get s.begun k) (not_begun k) >>= λ records. same_transition k t records >> ok s

  -- A close or reset cancels exactly the open occurrences of its scope, none of them frozen.
  unfoldable pub close : Lifecycle D → LifecycleScope → List ℕ → Result LifecycleError (Lifecycle D)
  close s scope cancelled =
      let expected = open_under scope s.scoped_open in
      guard (cancelled == expected) (other_cancellations scope)
      >> (guard (not (any (λ k. not (is_none (get s.frozen k))) expected)) (awaits_projection scope)
          >> ok (record s {
            scoped_open = pop_all s.scoped_open expected;
            lifecycle_cancelled = s.lifecycle_cancelled ++ expected;
            ended = s.ended ++ expected;
          }))

  -- A terminal boundary of a firing.
  unfoldable pub end : Lifecycle D → ℕ → NetPath → Result LifecycleError (Lifecycle D)
  end s k t = or_raise (get s.begun k) (not_begun k) >>= λ records.
      same_transition k t records
      >> (guard (not (contains k s.lifecycle_cancelled)) (after_cancellation k)
          >> (guard (not (contains k s.ended)) (ended_twice k)
              >> ok (record s { scoped_open = pop s.scoped_open k; ended = s.ended ++ k ∷ [] })))

  abbrev pub mark_ending : Lifecycle D → Option ℕ → Lifecycle D
  mark_ending s none = s
  mark_ending s (some k) = record s { ending = s.ending ++ k ∷ [] }

  -- The branches of the loop's body.
  unfoldable pub sort_record : Lifecycle D → Record D → Result LifecycleError (Lifecycle D)
  sort_record s (candidate_selected k t at) = initiate s k t []
  sort_record s (external_event_delivered k d) = initiate s k d.source d.tokens
  sort_record s (firing_begun k t scope at) = begin s k t scope at
  sort_record s (tokens_consumed k m) = move s k m.instant (tokens_consumed k m)
  sort_record s (tokens_read k m) = move s k m.instant (tokens_read k m)
  sort_record s (activity_requested k r) = request s k r
  sort_record s (activity_completed k t x at) = freeze s k t (completed x)
  sort_record s (activity_failed k t x at) = freeze s k t (failed x)
  sort_record s (activity_terminal_quarantined k t x scope at) = quarantine s k t
  sort_record s (scope_closed scope discarded cancelled at) = close s scope cancelled
  sort_record s (scope_reset scope opened discarded cancelled at) = close s scope cancelled
  sort_record s (tokens_produced k m) = ok (mark_ending s (some k))
  sort_record s (delivery_registration_opened k source key at) = ok (mark_ending s k)
  sort_record s (delivery_registration_closed k source key at) = ok (mark_ending s k)
  sort_record s (firing_completed k t at) = end s k t
  sort_record s (firing_failed k t x at) = end s k t
  sort_record s _ = ok s

  -- `if not isinstance(record, (...)): active_begin = None`
  abbrev pub leave_batch : Lifecycle D → Record D → Lifecycle D
  leave_batch s r = record s { active_begin = still (is_begin_tail r) s.active_begin }
    where
      still : Bool → Option (ℕ × ℕ) → Option (ℕ × ℕ)
      still true b = b
      still false b = none

  -- One turn of the loop, which ends with `previous = record`.
  unfoldable pub lifecycle_step : Lifecycle D → Record D → Result LifecycleError (Lifecycle D)
  lifecycle_step s r = sort_record (leave_batch s r) r >>= λ t. ok (record t { previous = some r })

  unfoldable pub sorted_lifecycle : List (Record D) → Result LifecycleError (Lifecycle D)
  sorted_lifecycle history = fold_result lifecycle_step empty_lifecycle history
