-- ===== src/Instance/Lifecycle/Replays.antt =====
-- The projections of src/petrus/impetus/instance/firing.py over the sorted lifecycle.
use petrus.Base.{
  if◌then◌else◌, any, ℕ, Bool, true, false, ◌&&◌, not, Option, none, some, List, [], ◌∷◌, ◌==◌,
  nat_eq, string_eq, option_eq, list_eq, leb, Result, ok, ◌>>=◌, ◌>>◌, guard, or_raise, Dict, get,
  contains, all, head?,
}
use petrus.Petrinet.Token.{Token, NetPath, LifecycleScope, scope_eq}
use petrus.Petrinet.Net.{is_none}
use petrus.Petrinet.Enabledness.{Selection, Binding}
use petrus.History.{Record, firing_begun, tokens_consumed, tokens_read, activity_requested}
use petrus.Instance.Firing.{FiringOccurrence, ActivityInvocation}
use petrus.Instance.Lifecycle.{
  Terminal, is_request, Lifecycle, LifecycleError, torn_batch, disordered_batch, mismatched_scope,
  not_initiated, other_transition, boundary_missing, sorted_lifecycle,
}

-- Whether each rank is at most the next: the list is its own `sorted`.
unfoldable pub is_sorted : List ℕ → Bool
is_sorted [] = true
is_sorted (a ∷ []) = true
is_sorted (a ∷ b ∷ rest) = leb a b && is_sorted (b ∷ rest)

-- `_refuse_torn_batch`
abbrev pub refuse_torn_batch : ℕ → List ℕ → Result LifecycleError (Unit {0})
refuse_torn_batch k ending = guard (not (contains k ending)) (torn_batch k)

module _ {D : Type 0} where
  -- `select_conservative`
  abbrev pub select_conservative : List (Binding D) → Option (Binding D)
  select_conservative bindings = head? bindings

  -- The rank in a begin batch; the buckets hold no other record.
  abbrev pub begin_rank : Record D → ℕ
  begin_rank (firing_begun k t s at) = 0
  begin_rank (tokens_consumed k m) = 1
  begin_rank (tokens_read k m) = 2
  begin_rank _ = 3

  unfoldable pub begin_ranks : List (Record D) → List ℕ
  begin_ranks [] = []
  begin_ranks (r ∷ rs) = begin_rank r ∷ begin_ranks rs

  -- `_refuse_disordered_begin_batch`
  abbrev pub refuse_disordered_begin_batch : ℕ → List (Record D) → Result LifecycleError (Unit {0})
  refuse_disordered_begin_batch k records =
      guard (is_sorted (begin_ranks records)) (disordered_batch k)

  unfoldable pub consumed_of : List (Record D) → List (Selection D)
  consumed_of [] = []
  consumed_of (tokens_consumed k m ∷ rs) = (m.place, m.tokens) ∷ consumed_of rs
  consumed_of (_ ∷ rs) = consumed_of rs

  unfoldable pub read_of : List (Record D) → List (Selection D)
  read_of [] = []
  read_of (tokens_read k m ∷ rs) = (m.place, m.tokens) ∷ read_of rs
  read_of (_ ∷ rs) = read_of rs

  unfoldable pub invocation_of : List (Record D) → Option (ActivityInvocation D)
  invocation_of [] = none
  invocation_of (activity_requested k r ∷ rs) = some (record {
    activity = r.activity;
    input = r.input;
    policy = r.policy;
    correlation = r.correlation;
    idempotency = r.idempotency;
  })
  invocation_of (_ ∷ rs) = invocation_of rs

  -- The transition and the scope of the first boundary.
  unfoldable pub boundary_of : List (Record D) → Option (NetPath × Option LifecycleScope)
  boundary_of [] = none
  boundary_of (firing_begun k t s at ∷ rs) = some (t, s)
  boundary_of (_ ∷ rs) = boundary_of rs

  -- The scope of a record of a begin batch; a record of another category is not looked at.
  abbrev pub agrees_with : Option LifecycleScope → Record D → Bool
  agrees_with scope (firing_begun k t s at) = s == scope
  agrees_with scope (tokens_consumed k m) = m.scope == scope
  agrees_with scope (tokens_read k m) = m.scope == scope
  agrees_with scope (activity_requested k r) = r.scope == scope
  agrees_with scope _ = true

  -- `_rebuilt_occurrence`
  unfoldable pub rebuilt_occurrence :
      ℕ → NetPath → List (Token D) → List (Record D) → Result LifecycleError (FiringOccurrence D)
  rebuilt_occurrence k transition delivered records =
      or_raise (boundary_of records) boundary_missing >>= λ boundary.
      guard (boundary.0 == transition) (other_transition k)
      >> (guard (all (agrees_with boundary.1) records) (mismatched_scope k)
          >> ok (record {
            id = k;
            binding = record {
              transition = transition;
              consumed = consumed_of records;
              read = read_of records;
              delivered = delivered;
            };
            records = records;
            invocation = invocation_of records;
            scope = boundary.1;
          }))

  -- The loop's body in `replay_in_flight`; `initiated[k]` raises where the key is missing.
  unfoldable pub rebuild_open :
      Lifecycle D → ℕ → List (Record D) → Result LifecycleError (FiringOccurrence D)
  rebuild_open s k records = or_raise (get s.initiated k) (not_initiated k) >>= λ given.
      refuse_torn_batch k s.ending
      >> (refuse_disordered_begin_batch k records >> rebuilt_occurrence k given.0 given.1 records)

  unfoldable pub rebuild_each :
      Lifecycle D → Dict ℕ (List (Record D)) → Result LifecycleError (List (FiringOccurrence D))
  rebuild_each s [] = ok []
  rebuild_each s ((k, records) ∷ d) = elim (contains k s.ended) [
    | true ↦ rebuild_each s d
    | false ↦ rebuild_open s k records >>= λ o. rebuild_each s d >>= λ rest. ok (o ∷ rest)
  ]

  unfoldable pub replay_in_flight :
      List (Record D) → Result LifecycleError (List (FiringOccurrence D))
  replay_in_flight history = sorted_lifecycle history >>= λ s. rebuild_each s s.begun

  -- `replay_firing_occurrences`
  unfoldable pub rebuild_named :
      List ℕ
      → Lifecycle D
      → Dict ℕ (List (Record D))
      → Result LifecycleError (List (FiringOccurrence D))
  rebuild_named wanted s [] = ok []
  rebuild_named wanted s ((k, records) ∷ d) = elim (contains k wanted) [
    | false ↦ rebuild_named wanted s d
    | true ↦ or_raise (get s.initiated k) (not_initiated k) >>= λ given.
        (if contains k s.ended then ok tt else refuse_torn_batch k s.ending)
        >> (refuse_disordered_begin_batch k records
            >> (rebuilt_occurrence k given.0 given.1 records >>= λ o.
                rebuild_named wanted s d >>= λ rest. ok (o ∷ rest)))
  ]

  unfoldable pub replay_firing_occurrences :
      List (Record D) → List ℕ → Result LifecycleError (List (FiringOccurrence D))
  replay_firing_occurrences history wanted =
      sorted_lifecycle history >>= λ s. rebuild_named wanted s s.begun

  -- `replay_projection_pending`: the frozen facts whose occurrence is begun and not ended.
  unfoldable pub pending_of : Lifecycle D → Dict ℕ (Terminal D) → Dict ℕ (Terminal D)
  pending_of s [] = []
  pending_of s ((k, x) ∷ d) =
      let rest = pending_of s d in
      if not (is_none (get s.begun k)) && not (contains k s.ended) then (k, x) ∷ rest else rest

  unfoldable pub replay_projection_pending :
      List (Record D) → Result LifecycleError (Dict ℕ (Terminal D))
  replay_projection_pending history = sorted_lifecycle history >>= λ s. ok (pending_of s s.frozen)

  -- `replay_activity_occurrences`
  unfoldable pub rebuild_activities :
      Lifecycle D → Dict ℕ (List (Record D)) → Result LifecycleError (List (FiringOccurrence D))
  rebuild_activities s [] = ok []
  rebuild_activities s ((k, records) ∷ d) = elim (any is_request records) [
    | false ↦ rebuild_activities s d
    | true ↦ or_raise (get s.initiated k) (not_initiated k) >>= λ given.
        refuse_disordered_begin_batch k records
        >> (rebuilt_occurrence k given.0 given.1 records >>= λ o.
            rebuild_activities s d >>= λ rest. ok (o ∷ rest))
  ]

  unfoldable pub replay_activity_occurrences :
      List (Record D) → Result LifecycleError (List (FiringOccurrence D))
  replay_activity_occurrences history =
      sorted_lifecycle history >>= λ s. rebuild_activities s s.begun
