-- ===== src/Instance/Runtime/Beginning.antt =====
-- The birth of a firing occurrence in src/petrus/impetus/instance/__init__.py: `begin`,
-- `_prepared_invocation`, `_binding_entries` and `_begin_occurrence`.
use text.Mathlib.Text.{starts_with}
use Prim.Native.Nat.{◌/◌, ◌%◌}
use mathlib.Core.Option
use Prim.Native.String.{◌++◌ as ◌<>◌}
use petrus.Base.{
  ℕ, zero, suc, ◌+◌, ◌<◌, ◌≡◌, refl, inl, inr, arith, Bool-cases, String, Bool, true, false, ◌&&◌,
  not, Option, none, some, List, [], ◌∷◌, ◌++◌, map, Eq, ◌==◌, nat_eq, string_eq, option_eq,
  list_eq, ltb, if◌then◌else◌, Result, ok, err, ◌>>=◌, ◌>>◌, guard, or_raise, or_else, map_err,
  Dict, put, is_empty, filter, all, any, length, fold_result, get_elem?,
}
use petrus.Petrinet.Token.{Token, NetPath, LifecycleScope, scope_eq}
use petrus.Petrinet.Schema.{Arc, ArcMode}
use petrus.Petrinet.Net.{Net, inputs, is_source, in_dict, is_none}
use petrus.Petrinet.Queue.{selected, remove}
use petrus.Petrinet.Enabledness.{Binding, Selection}
use petrus.Petrinet.Firing
use petrus.History.{
  Movement, Record, candidate_selected, firing_begun, tokens_consumed, tokens_read,
  activity_requested,
}
use petrus.History.Queues.{PlaceQueues, queue_at, known_ids, apply_movement, ReplayError}
use petrus.Instance.Firing.{FiringOccurrence, ActivityInvocation}
use petrus.Instance.Runtime.{
  Instance, Handlers, projection, activity, Preparation, RuntimeError, unknown_transition,
  source_not_scheduled, delivered_binding, consume_mismatch, read_mismatch, raising_handler,
  reserved_identity, different_scopes, entry_unknown, cannot_begin, cannot_select, cannot_move,
  non_canonical, writer_records, effective, commit, live_marking,
}

abbrev digit : ℕ → String
digit n = or_else (get_elem? ("0" ∷ "1" ∷ "2" ∷ "3" ∷ "4" ∷ "5" ∷ "6" ∷ "7" ∷ "8" ∷ "9" ∷ []) n) ""

-- The decimal digits of a number, on fuel.
unfoldable pub digits : ℕ → ℕ → String
digits zero n = ""
digits (suc fuel) n =
    let rest = digits fuel (n / 10) in (if ltb n 10 then "" else rest) <> digit (n % 10)

-- Every fuel above the number gives the same digits.
digits_enough : (f g n : ℕ) → n < f → n < g → digits f n ≡ digits g n
unfolding digits
digits_enough zero g n below _ = absurd (omega arith)
digits_enough (suc f) zero n _ below = absurd (omega arith)
digits_enough (suc f) (suc g) n below bound = elim (Bool-cases (ltb n 10)) [
  | inl small ↦ rw small refl
  | inr large ↦ rw (large, digits_enough f g (n / 10) (ground arith) (ground arith)) refl
]

-- `f"occurrence-{k}"`
abbrev pub self_identity : ℕ → String
self_identity k = "occurrence-" <> digits (suc k) k

-- An identity in the namespace that the writer derives.
abbrev pub is_reserved : Option String → Bool
is_reserved none = false
is_reserved (some s) = starts_with s "occurrence-"

abbrev pub is_mode : ArcMode → Arc → Bool
is_mode ArcMode.consume a = elim a.mode [ ArcMode.consume ↦ true | _ ↦ false ]
is_mode ArcMode.read a = elim a.mode [ ArcMode.read ↦ true | _ ↦ false ]
is_mode ArcMode.inhibit a = elim a.mode [ ArcMode.inhibit ↦ true | _ ↦ false ]

-- The input arcs of a transition with a mode, in input order.
unfoldable pub arcs_of : Net → NetPath → ArcMode → List Arc
arcs_of net t mode = filter (is_mode mode) (map (λ (x : ℕ × Arc). x.1) (inputs net t))

-- The scopes that are there must be one.
unfoldable pub one_scope :
    {D : Type 0} → NetPath → List LifecycleScope → Result (RuntimeError D) (Option LifecycleScope)
one_scope t [] = ok none
one_scope t (s ∷ rest) = guard (all (λ x. x == s) rest) (different_scopes t) >> ok (some s)

abbrev pub known_scopes : List (Option LifecycleScope) → List LifecycleScope
known_scopes [] = []
known_scopes (none ∷ rest) = known_scopes rest
known_scopes (some s ∷ rest) = s ∷ known_scopes rest

-- The identity and the scope of each selected entry, selection by selection.
abbrev pub EntrySelections : Type 0
EntrySelections = List (List (Option ℕ × Option LifecycleScope))

abbrev pub scopes_of : EntrySelections → List LifecycleScope
scopes_of [] = []
scopes_of (xs ∷ rest) = known_scopes (map (λ x. x.1) xs) ++ scopes_of rest

-- `entries if scope is not None else ()`
abbrev pub recorded_entries : Option LifecycleScope → List ℕ → List ℕ
recorded_entries none entries = []
recorded_entries (some s) entries = entries

module _ {D : Type 0} where
  -- One selection per arc: on its place, of its weight.
  unfoldable pub matches_arcs : List Arc → List (Selection D) → Bool
  matches_arcs [] [] = true
  matches_arcs (a ∷ arcs) ((p, ts) ∷ rest) =
      p == a.source && length ts == a.weight && matches_arcs arcs rest
  matches_arcs _ _ = false

  -- `_validate_binding_shape`
  unfoldable pub validate_binding_shape : Net → Binding D → Result (RuntimeError D) (Unit {0})
  validate_binding_shape net b = do
    guard (matches_arcs (arcs_of net b.transition ArcMode.consume) b.consumed)
        (consume_mismatch b.transition)
    guard (matches_arcs (arcs_of net b.transition ArcMode.read) b.read) (read_mismatch b.transition)

  -- `_prepared_invocation`
  unfoldable pub prepared_invocation :
      Handlers D → Binding D → Result (RuntimeError D) (Option (Preparation D))
  prepared_invocation hs b = elim (hs.bound_handler b.transition) [
    | projection f ↦ ok none
    | activity h ↦ or_raise (h.prepare b) (raising_handler b.transition) >>= λ i.
        guard (not (is_reserved i.correlation)) (reserved_identity b.transition)
        >> (guard (not (is_reserved i.idempotency)) (reserved_identity b.transition)
            >> (or_raise (hs.canonical_payload i.input) non_canonical >>= λ input.
                ok (some (record i { input = input }))))
  ]

  -- The invocation with its identities resolved.
  abbrev pub resolved : ℕ → Preparation D → ActivityInvocation D
  resolved k i = record {
    activity = i.activity;
    input = i.input;
    policy = i.policy;
    correlation = or_else i.correlation (self_identity k);
    idempotency = or_else i.idempotency (self_identity k);
  }

  abbrev pub request_records :
      NetPath → ℕ → Option LifecycleScope → ℕ → Option (ActivityInvocation D) → List (Record D)
  request_records t k scope at none = []
  request_records t k scope at (some i) =
      activity_requested k (record {
        transition = t;
        activity = i.activity;
        input = i.input;
        policy = i.policy;
        correlation = i.correlation;
        idempotency = i.idempotency;
        scope = scope;
        instant = at;
      })
      ∷ []

  -- The movement of one selection, with its entries.
  abbrev pub narrated : NetPath × List (Token D) → List ℕ → Option LifecycleScope → ℕ → Movement D
  narrated (p, ts) entries scope at = record {
    place = p;
    tokens = ts;
    entries = recorded_entries scope entries;
    scope = scope;
    instant = at;
  }

  -- The loop over the begin effects; `make` is the record of a consume or of a read.
  unfoldable pub narrate :
      (Movement D → Record D)
      → NetPath
      → Option LifecycleScope
      → ℕ
      → List (Selection D)
      → EntrySelections
      → Result (RuntimeError D) (List (Record D))
  narrate make t scope at [] [] = ok []
  narrate make t scope at (x ∷ xs) (es ∷ rest) =
      guard (not (any is_none (map (λ e. e.0) es))) (entry_unknown t)
      >> (narrate make t scope at xs rest >>= λ more.
          ok (make (narrated x (known_ids (map (λ e. e.0) es)) scope at) ∷ more))
  narrate make t scope at _ _ = err (entry_unknown t)

module _ {D : Type 0} ⦃e : Eq D⦄ where
  -- The consumed selections of `_binding_entries`, each removed from its queue.
  unfoldable pub consumed_entries :
      PlaceQueues D → List (Selection D) → Result (RuntimeError D) (PlaceQueues D × EntrySelections)
  consumed_entries queues [] = ok (queues, [])
  consumed_entries queues ((p, ts) ∷ rest) =
      map_err cannot_select (selected (queue_at queues p) ts) >>= λ es.
      map_err cannot_select (remove (queue_at queues p) ts (known_ids (map (λ e. e.0) es))) >>= λ q.
      consumed_entries (put queues p q) rest >>= λ done. ok (done.0, es ∷ done.1)

  unfoldable pub read_entries :
      PlaceQueues D → List (Selection D) → Result (RuntimeError D) EntrySelections
  read_entries queues [] = ok []
  read_entries queues ((p, ts) ∷ rest) =
      map_err cannot_select (selected (queue_at queues p) ts) >>= λ es.
      read_entries queues rest >>= λ more. ok (es ∷ more)

  -- `_binding_entries`: the entries of the consumed and of the read selections.
  unfoldable pub binding_entries :
      PlaceQueues D → Binding D → Result (RuntimeError D) (EntrySelections × EntrySelections)
  binding_entries queues b = consumed_entries queues b.consumed >>= λ done.
      read_entries done.0 b.read >>= λ reads. ok (done.1, reads)

  -- `for record in records: apply_movement(self._queues, record)`
  unfoldable pub apply_all :
      PlaceQueues D → List (Record D) → Result (ReplayError D) (PlaceQueues D)
  apply_all queues batch = fold_result (λ q r. apply_movement q r []) queues batch

  abbrev pub with_activity :
      Dict ℕ (FiringOccurrence D)
      → FiringOccurrence D
      → Option (ActivityInvocation D)
      → Dict ℕ (FiringOccurrence D)
  with_activity d o none = d
  with_activity d o (some i) = put d o.id o

  -- The first half of `_begin_occurrence`: the occurrence with its records, before any append.
  unfoldable pub narrated_occurrence :
      Instance D
      → Binding D
      → ℕ
      → Option (Preparation D)
      → Option LifecycleScope
      → Result (RuntimeError D) (FiringOccurrence D)
  narrated_occurrence s b instant prepared given = do
    let k = s.next_occurrence
    effects ← map_err cannot_begin (Firing.begin_firing (live_marking s) b)
    entries ← binding_entries s.queues b
    scope ← one_scope b.transition (scopes_of (entries.0 ++ entries.1) ++ known_scopes (given ∷ []))
    consumes ← narrate (tokens_consumed k) b.transition scope instant b.consumed entries.0
    reads ← narrate (tokens_read k) b.transition scope instant b.read entries.1
    let invocation = Option.map (resolved k) prepared
    ok (record {
      id = k;
      binding = b;
      records =
          firing_begun k b.transition scope instant ∷ consumes
          ++ (reads ++ request_records b.transition k scope instant invocation);
      invocation = invocation;
      scope = scope;
    })

  -- `_begin_occurrence`; `initiation` makes the record that the door starts the batch with.
  unfoldable pub begin_occurrence :
      Handlers D
      → Instance D
      → Binding D
      → Option ℕ
      → (ℕ → ℕ → Record D)
      → Option (Preparation D)
      → Option LifecycleScope
      → Result (RuntimeError D) (Instance D × FiringOccurrence D)
  begin_occurrence hs s b at initiation prepared given = do
    let instant = effective s at
    o ← narrated_occurrence s b instant prepared given
    batch ← writer_records hs (initiation s.next_occurrence instant ∷ o.records)
    queues ← map_err cannot_move (apply_all s.queues o.records)
    ok (
      record (commit s batch instant) {
        next_occurrence = s.next_occurrence + 1;
        queues = queues;
        in_flight = put s.in_flight o.id o;
        activity_occurrences = with_activity s.activity_occurrences o o.invocation;
      },
      o,
    )

  -- `begin`: the scheduler's door.
  unfoldable pub begin :
      Handlers D
      → Instance D
      → Binding D
      → Option ℕ
      → Result (RuntimeError D) (Instance D × FiringOccurrence D)
  begin hs s b at = do
    guard (in_dict b.transition s.net.transitions) (unknown_transition b.transition)
    guard (not (is_source s.net b.transition)) (source_not_scheduled b.transition)
    guard (is_empty b.delivered) (delivered_binding b.transition)
    validate_binding_shape s.net b
    prepared ← prepared_invocation hs b
    begin_occurrence hs s b at (λ k instant. candidate_selected k b.transition instant) prepared
        none
