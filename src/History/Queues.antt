-- ===== src/History/Queues.antt =====
-- The movement fold of src/petrus/impetus/history/__init__.py: `apply_movement`, `replay_queues` and
-- the projections of the queues.
pub mod Identities
pub mod Identified
pub mod Spent
pub mod WellFormed
use petrus.Base.{
  ℕ, zero, suc, ◌+◌, Bool, true, false, ◌&&◌, ◌||◌, not, Option, none, some, List, [], ◌∷◌, ◌++◌,
  map, Eq, ◌==◌, nat_eq, option_eq, list_eq, string_eq, if◌then◌else◌, Result, ok, err, ◌>>=◌, ◌>>◌,
  guard, map_err, fold_result, Dict, get, put, or_else, is_empty, length, any, flat_map, filter,
  contains, max,
}
use petrus.Petrinet.Token.{Token, NetPath, LifecycleScope, scope_eq}
use petrus.Petrinet.Queue.{
  Entry, TokenQueue, QueueError, token_not_present, identity_count, identity_not_present,
  limit_not_positive, tokens, instants, identities, deposit, remove, discard,
}
use petrus.Petrinet.Marking.{Marking, marking}
use petrus.History.{
  Movement, Record, tokens_initialized, scope_closed, scope_reset, tokens_consumed, tokens_produced,
}

-- The entries at each place, with the instants at which they entered.
abbrev pub PlaceQueues : Type 0 → Type 0
PlaceQueues D = Dict NetPath (TokenQueue D ℕ)

-- Replay divergence.
pub data ReplayError (D : Type 0) : Type 0 where
  cannot_consume : Token D → NetPath → ReplayError D
  queue_error : QueueError D → ReplayError D
  entry_count : ReplayError D
  entries_present : ReplayError D
  entries_spent : ReplayError D
  cannot_discard : List ℕ → ReplayError D
  entries_retained : ReplayError D

-- `range(n, n + k)`
unfoldable pub range_from : ℕ → ℕ → List ℕ
range_from n zero = []
range_from n (suc k) = n ∷ range_from (suc n) k

abbrev pub greatest : List ℕ → ℕ
greatest [] = 0
greatest (i ∷ is) = max i (greatest is)

-- The identities that are there.
unfoldable pub known_ids : List (Option ℕ) → List ℕ
known_ids [] = []
known_ids (none ∷ is) = known_ids is
known_ids (some i ∷ is) = i ∷ known_ids is

-- `xs or ys`, for tuples.
abbrev pub or_list : List ℕ → List ℕ → List ℕ
or_list [] ys = ys
or_list (x ∷ xs) ys = x ∷ xs

module _ {D : Type 0} where
  abbrev pub queue_at : PlaceQueues D → NetPath → TokenQueue D ℕ
  queue_at queues p = or_else (get queues p) []

  -- The identities at every place.
  unfoldable pub all_ids : PlaceQueues D → List ℕ
  all_ids [] = []
  all_ids ((p, q) ∷ rest) = known_ids (identities q) ++ all_ids rest

  unfoldable pub next_queue_identity : PlaceQueues D → ℕ
  next_queue_identity queues = greatest (all_ids queues) + 1

  -- `zip(tokens, entries)`, each deposited at the record's instant.
  unfoldable pub deposit_entries :
      TokenQueue D ℕ → List (Token D) → List ℕ → Option LifecycleScope → ℕ → TokenQueue D ℕ
  deposit_entries q [] is scope at = q
  deposit_entries q (t ∷ ts) [] scope at = q
  deposit_entries q (t ∷ ts) (i ∷ is) scope at =
      deposit_entries (deposit q t at (some i) scope) ts is scope at

  -- The checks of the chosen identities, and the deposits.
  unfoldable pub deposit_with :
      PlaceQueues D → Movement D → List ℕ → Result (ReplayError D) (PlaceQueues D)
  deposit_with queues m entries =
      guard (length entries == length m.tokens) entry_count
      >> (guard (not (any (λ i. contains i (all_ids queues)) entries)) entries_present
          >> ok (
              put queues m.place
                (deposit_entries (queue_at queues m.place) m.tokens entries m.scope m.instant)))

  -- `record.entries or inferred_entries or tuple(range(...))`
  abbrev pub chosen_entries : PlaceQueues D → Movement D → List ℕ → List ℕ
  chosen_entries queues m inferred =
      or_list m.entries
        (or_list inferred (range_from (next_queue_identity queues) (length m.tokens)))

  -- The branch of `TokensInitialized` and `TokensProduced`.
  unfoldable pub apply_deposit :
      PlaceQueues D → Movement D → List ℕ → Result (ReplayError D) (PlaceQueues D)
  apply_deposit queues m inferred = deposit_with queues m (chosen_entries queues m inferred)

  -- The entries of a closed scope that are to be discarded.
  abbrev pub is_in_scope : LifecycleScope → Entry D ℕ → Bool
  is_in_scope closed x = x.scope == some closed

  abbrev pub is_discarded : LifecycleScope → List ℕ → Entry D ℕ → Bool
  is_discarded closed remaining x = elim x.identity [
    | none ↦ false
    | some i ↦ contains i remaining && is_in_scope closed x
  ]

  abbrev pub present_ids : LifecycleScope → List ℕ → TokenQueue D ℕ → List ℕ
  present_ids closed remaining q = known_ids (identities (filter (is_discarded closed remaining) q))

  -- The loop of `_apply_scope_cleanup`, with the identities that are still to be found.
  unfoldable pub cleanup_loop :
      LifecycleScope → List ℕ → PlaceQueues D → Result (ReplayError D) (PlaceQueues D × List ℕ)
  cleanup_loop closed remaining [] = ok ([], remaining)
  cleanup_loop closed remaining ((p, q) ∷ rest) =
      let present = present_ids closed remaining q in
      let left = filter (λ i. not (contains i present)) remaining in
      map_err queue_error (discard q present) >>= λ q'.
      cleanup_loop closed left rest >>= λ done. ok ((p, q') ∷ done.0, done.1)

  -- `_apply_scope_cleanup`
  unfoldable pub apply_scope_cleanup :
      PlaceQueues D → LifecycleScope → List ℕ → Result (ReplayError D) (PlaceQueues D)
  apply_scope_cleanup queues closed discarded = cleanup_loop closed discarded queues >>= λ done.
      guard (is_empty done.1) (cannot_discard done.1)
      >> (guard (not (any (λ (x : NetPath × TokenQueue D ℕ). any (is_in_scope closed) x.1) done.0))
            entries_retained
          >> ok done.0)

  abbrev pub consume_error : NetPath → QueueError D → ReplayError D
  consume_error p (token_not_present t) = cannot_consume t p
  consume_error p identity_count = queue_error identity_count
  consume_error p (identity_not_present i) = queue_error (identity_not_present i)
  consume_error p limit_not_positive = queue_error limit_not_positive

module _ {D : Type 0} ⦃e : Eq D⦄ where
  unfoldable pub apply_consume : PlaceQueues D → Movement D → Result (ReplayError D) (PlaceQueues D)
  apply_consume queues m =
      map_err (consume_error m.place) (remove (queue_at queues m.place) m.tokens m.entries)
      >>= λ rest. ok (put queues m.place rest)

  -- One step of the movement fold; every other record applies as nothing.
  unfoldable pub apply_movement :
      PlaceQueues D → Record D → List ℕ → Result (ReplayError D) (PlaceQueues D)
  apply_movement queues (tokens_initialized m) inferred = apply_deposit queues m inferred
  apply_movement queues (tokens_produced k m) inferred = apply_deposit queues m inferred
  apply_movement queues (tokens_consumed k m) inferred = apply_consume queues m
  apply_movement queues (scope_closed s discarded cancelled at) inferred =
      apply_scope_cleanup queues s discarded
  apply_movement queues (scope_reset closed opened discarded cancelled at) inferred =
      apply_scope_cleanup queues closed discarded
  apply_movement queues _ inferred = ok queues

-- The queues, the next identity that was never spent, and the spent ones.
pub record Projection (D : Type 0) : Type 0 where
  pub queues : PlaceQueues D
  pub next_identity : ℕ
  pub spent : List ℕ

abbrev pub empty_projection : {D : Type 0} → Projection D
empty_projection = record { queues = []; next_identity = 1; spent = [] }

-- `next_identity = max(next_identity, max(inferred_entries) + 1)`, if there are any
abbrev pub next_after : ℕ → List ℕ → ℕ
next_after next [] = next
next_after next (i ∷ is) = max next (greatest (i ∷ is) + 1)

module _ {D : Type 0} where
  -- `record.entries or tuple(range(next_identity, next_identity + len(record.tokens)))`
  abbrev pub inferred_entries : Projection D → Movement D → List ℕ
  inferred_entries p m = or_list m.entries (range_from p.next_identity (length m.tokens))

  unfoldable pub deposit_step : Projection D → Movement D → Result (ReplayError D) (Projection D)
  deposit_step p m =
      let entries = inferred_entries p m in
      guard (not (any (λ i. contains i p.spent) entries)) entries_spent
      >> (apply_deposit p.queues m entries >>= λ queues. ok (record {
        queues = queues;
        next_identity = next_after p.next_identity entries;
        spent = entries ++ p.spent;
      }))

  -- `Marking({place: queue.tokens for place, queue in queues.items()})`
  unfoldable pub marking_of : PlaceQueues D → Marking D
  marking_of queues = marking (map (λ (x : NetPath × TokenQueue D ℕ). (x.0, tokens x.1)) queues)

  -- The instants of the non-empty places.
  unfoldable pub instants_of : PlaceQueues D → Dict NetPath (List ℕ)
  instants_of queues =
      map (λ (x : NetPath × TokenQueue D ℕ). (x.0, instants x.1))
        (filter (λ (x : NetPath × TokenQueue D ℕ). not (is_empty x.1)) queues)

module _ {D : Type 0} ⦃e : Eq D⦄ where
  -- One turn of `_replay_queue_states`.
  unfoldable pub replay_step : Projection D → Record D → Result (ReplayError D) (Projection D)
  replay_step p (tokens_initialized m) = deposit_step p m
  replay_step p (tokens_produced k m) = deposit_step p m
  replay_step p r = apply_movement p.queues r [] >>= λ queues. ok (record p { queues = queues })

  -- `_replay_queue_projection`
  unfoldable pub replay_projection : List (Record D) → Result (ReplayError D) (Projection D)
  replay_projection history = fold_result replay_step empty_projection history

  unfoldable pub replay_queues : List (Record D) → Result (ReplayError D) (PlaceQueues D)
  replay_queues history = replay_projection history >>= λ p. ok p.queues

  unfoldable pub replay_next_queue_identity : List (Record D) → Result (ReplayError D) ℕ
  replay_next_queue_identity history = replay_projection history >>= λ p. ok p.next_identity

  unfoldable pub replay_marking : List (Record D) → Result (ReplayError D) (Marking D)
  replay_marking history = replay_queues history >>= λ queues. ok (marking_of queues)

  unfoldable pub entry_instants : List (Record D) → Result (ReplayError D) (Dict NetPath (List ℕ))
  entry_instants history = replay_queues history >>= λ queues. ok (instants_of queues)
