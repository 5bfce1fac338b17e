-- ===== src/Instance/Lifecycle/Buckets.antt =====
-- The buckets of `_sorted_lifecycle` (src/petrus/impetus/instance/firing.py), described by the
-- records of the history alone.
pub mod Growth
pub mod Sorted
use petrus.Base.{
  ℕ, ◌≡◌, refl, inl, inr, Bool, true, false, ◌||◌, not, Option, none, some, List, [], ◌∷◌, ◌++◌,
  arith, ◌==◌, nat_eq, ok, Result-cases, Eq, if◌then◌else◌, fold_result, fold_result-induct, sym,
  ap, ◌∙◌, append-nil, Bool-cases, option_eq, first, first_some, first_some-append, filter,
  filter-append, any, any-append, contains, contains-append, get, put, get-put, nat_beq_iff,
}
use petrus.Petrinet.Token.{Token, NetPath, LifecycleScope}
use petrus.History.{
  Movement, Delivery, ActivityRequest, Record, scope_closed, scope_reset, candidate_selected,
  external_event_delivered, delivery_registration_opened, delivery_registration_closed,
  firing_begun, tokens_consumed, tokens_read, activity_requested, activity_completed,
  activity_terminal_quarantined, tokens_produced, firing_completed, activity_failed, firing_failed,
}
use petrus.Instance.Lifecycle.{
  Lifecycle, Terminal, completed, failed, sort_record, lifecycle_step, sorted_lifecycle,
  empty_lifecycle, leave_batch, join_batch, freeze, initiate, close, end, mark_ending,
}
use petrus.Instance.Lifecycle.Steps.{
  initiate-eq-ok, begin-eq-ok, join_batch-eq-ok, move-eq-ok, request-eq-ok, freeze-eq-ok,
  quarantine-eq-ok, close-eq-ok, end-eq-ok,
}

-- A batch that holds no record is not in the dict.
module _ {D : Type 0} where
  abbrev pub as_batch : List (Record D) → Option (List (Record D))
  as_batch [] = none
  as_batch (r ∷ rs) = some (r ∷ rs)

module _ {D : Type 0} (k : ℕ) where
  -- The records of the begin batch of `k`.
  abbrev pub begins : Record D → Bool
  begins (firing_begun j t s at) = j == k
  begins (tokens_consumed j m) = j == k
  begins (tokens_read j m) = j == k
  begins (activity_requested j r) = j == k
  begins _ = false

  -- The records after which `k` is no longer in flight.
  abbrev pub ends : Record D → Bool
  ends (firing_completed j t at) = j == k
  ends (firing_failed j t x at) = j == k
  ends (scope_closed s discarded cancelled at) = contains k cancelled
  ends (scope_reset s o discarded cancelled at) = contains k cancelled
  ends _ = false

  -- The records that cancel `k`.
  abbrev pub cancels : Record D → Bool
  cancels (scope_closed s discarded cancelled at) = contains k cancelled
  cancels (scope_reset s o discarded cancelled at) = contains k cancelled
  cancels _ = false

  -- The records of an end batch of `k` before its boundary. A failed activity is none of them: it is
  -- appended alone, by `record_activity_failure`, although the docstring of `_sorted_lifecycle` lists it.
  abbrev pub completes : Record D → Bool
  completes (tokens_produced j m) = j == k
  completes (delivery_registration_opened (some j) s n at) = j == k
  completes (delivery_registration_closed (some j) s n at) = j == k
  completes _ = false

  -- The transition and the delivered tokens that an initiation of `k` gives.
  abbrev pub initiates : Record D → Option (NetPath × List (Token D))
  initiates (candidate_selected j t at) = if j == k then some (t, []) else none
  initiates (external_event_delivered j d) = if j == k then some (d.source, d.tokens) else none
  initiates _ = none

  -- The terminal fact of the activity of `k`, completed or failed.
  abbrev pub terminates : Record D → Option (Terminal D)
  terminates (activity_completed j t x at) = if j == k then some (completed x) else none
  terminates (activity_failed j t x at) = if j == k then some (failed x) else none
  terminates _ = none

  -- The buckets of `k` hold what the history says of it.
  pub record Buckets (history : List (Record D)) (s : Lifecycle D) : Type 0 where
    pub initiated : get s.initiated k ≡ first_some initiates history
    pub begun : get s.begun k ≡ as_batch (filter begins history)
    pub ended : contains k s.ended ≡ any ends history
    pub ending : contains k s.ending ≡ any completes history
    pub frozen : get s.frozen k ≡ first_some terminates history
    pub cancelled : contains k s.lifecycle_cancelled ≡ any cancels history
