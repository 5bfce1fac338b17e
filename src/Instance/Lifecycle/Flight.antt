-- ===== src/Instance/Lifecycle/Flight.antt =====
-- Which occurrences `replay_in_flight` of src/petrus/impetus/instance/firing.py rebuilds, and from
-- which records.
use petrus.Base.{
  ℕ, ◌≡◌, refl, sym, subst, ◌∙◌, inl, inr, Bool, true, false, ◌&&◌, not, some, List, [], ◌∷◌, arith,
  map, ◌==◌, nat_eq, list_eq, string_eq, ok, Result-cases, Option-cases, Bool-cases, filter, any,
  all, contains, get, Dict, UniqueKeys, nat_beq_iff, list_beq_iff, All, All-weaken, first_some,
}
use petrus.Petrinet.Net.{is_none}
use petrus.History.{Record}
use petrus.Instance.Firing.{FiringOccurrence}
use petrus.Instance.Lifecycle.{Lifecycle, sorted_lifecycle}
use petrus.Instance.Lifecycle.Buckets.{begins, ends, completes, initiates, as_batch, Buckets}
use petrus.Instance.Lifecycle.Buckets.Sorted.{sorted_lifecycle-Buckets}
use petrus.Instance.Lifecycle.Replays.{
  boundary_of, agrees_with, consumed_of, read_of, invocation_of, rebuilt_occurrence, rebuild_open,
  rebuild_each, replay_in_flight, is_sorted, begin_ranks,
}
use petrus.Instance.Lifecycle.Keys.{sorted_lifecycle-UniqueKeys}

module _ {D : Type 0} where
  -- What an occurrence that is rebuilt from a batch holds.
  pub record Rebuilt (s : Lifecycle D) (k : ℕ) (batch : List (Record D)) (o : FiringOccurrence D)
      : Type 0 where
    pub id : o.id ≡ k
    pub records : o.records ≡ batch
    pub given : get s.initiated k ≡ some (o.binding.transition, o.binding.delivered)
    pub whole : contains k s.ending ≡ false
    pub ordered : is_sorted (begin_ranks batch) ≡ true
    pub boundary : boundary_of batch ≡ some (o.binding.transition, o.scope)
    pub agreed : all (agrees_with o.scope) batch ≡ true
    pub consumed : o.binding.consumed ≡ consumed_of batch
    pub read : o.binding.read ≡ read_of batch
    pub invocation : o.invocation ≡ invocation_of batch

  pub rebuild_open-Rebuilt :
      (s : Lifecycle D) (k : ℕ) (records : List (Record D)) (o : FiringOccurrence D)
      → rebuild_open s k records ≡ ok o
      → Rebuilt s k records o
  unfolding rebuild_open rebuilt_occurrence
  rebuild_open-Rebuilt s k records o h = elim (Option-cases (get s.initiated k)) [
    | inl missing ↦ absurd (ground arith)
    | inr ((t, delivered), found) ↦ elim (Option-cases (boundary_of records)) [
      | inl missing ↦ absurd (ground arith)
      | inr ((u, scope), boundary) ↦ elim (Bool-cases (u == t)) [
        | inr other ↦ absurd (ground arith)
        | inl matches ↦
            let at : u ≡ t = (list_beq_iff u t).0 matches in
            let same : record {
              id = k;
              binding = record {
                transition = t;
                consumed = consumed_of records;
                read = read_of records;
                delivered = delivered;
              };
              records = records;
              invocation = invocation_of records;
              scope = scope;
            }
                ≡ o =
              ground arith in
            rw (← same) (record {
              id = refl;
              records = refl;
              given = found;
              whole = ground arith;
              ordered = ground arith;
              boundary = rw (← at) boundary;
              agreed = ground arith;
              consumed = refl;
              read = refl;
              invocation = refl;
            })
      ]
    ]
  ]

  of_itself :
      (s : Lifecycle D) (k : ℕ) (batch : List (Record D)) (o : FiringOccurrence D)
      → Rebuilt s k batch o
      → Rebuilt s o.id o.records o
  of_itself s k batch o b =
      subst (λ i. Rebuilt s i o.records o) (sym b.id)
        (subst (λ rs. Rebuilt s k rs o) (sym b.records) b)

  -- The batches that `rebuild_each` goes through are those of the state.
  abbrev pub Within : Dict ℕ (List (Record D)) → Lifecycle D → Type 0
  Within d s = (k : ℕ) (rs : List (Record D)) → get d k ≡ some rs → get s.begun k ≡ some rs

  Within-rest :
      (s : Lifecycle D) (j : ℕ) (records : List (Record D)) (d : Dict ℕ (List (Record D)))
      → UniqueKeys ((j, records) ∷ d)
      → Within ((j, records) ∷ d) s
      → Within d s
  unfolding get
  Within-rest s j records d u w k rs found = w k rs (ground (arith, u.0, nat_beq_iff j k))

  abbrev pub ids : List (FiringOccurrence D) → List ℕ
  ids os = map (λ (o : FiringOccurrence D). o.id) os

  pub rebuild_each-ids :
      (s : Lifecycle D) (d : Dict ℕ (List (Record D))) (os : List (FiringOccurrence D)) (k : ℕ)
      → UniqueKeys d
      → rebuild_each s d ≡ ok os
      → contains k (ids os) ≡ (not (is_none (get d k)) && not (contains k s.ended))
  unfolding rebuild_each get contains
  rebuild_each-ids s [] os k u h = ground arith
  rebuild_each-ids s ((j, records) ∷ d) os k u h = elim (Bool-cases (contains j s.ended)) [
    | inl ended ↦ ground (arith, rebuild_each-ids s d os k u.1 (ground arith), u.0, nat_beq_iff j k)
    | inr live ↦ elim (Result-cases (rebuild_open s j records)) [
      | inr (e, raised) ↦ absurd (ground arith)
      | inl (o, rebuilt) ↦ elim (Result-cases (rebuild_each s d)) [
        | inr (e, raised) ↦ absurd (ground arith)
        | inl (rest, more) ↦
            let same : o ∷ rest ≡ os = ground arith in
            let at : o.id ≡ j = (rebuild_open-Rebuilt s j records o rebuilt).id in
            rw (← same, at)
              (ground (arith, rebuild_each-ids s d rest k u.1 more, u.0, nat_beq_iff j k))
      ]
    ]
  ]

  -- Each occurrence is rebuilt from the batch of its own id.
  pub rebuild_each-Rebuilt :
      (s : Lifecycle D) (d : Dict ℕ (List (Record D))) (os : List (FiringOccurrence D))
      → UniqueKeys d
      → Within d s
      → rebuild_each s d ≡ ok os
      → All
          (λ (o : FiringOccurrence D).
            (get s.begun o.id ≡ some o.records) × Rebuilt s o.id o.records o)
          os
  unfolding rebuild_each get
  rebuild_each-Rebuilt s [] os u w h = let same : [] ≡ os = ground arith in rw (← same) tt
  rebuild_each-Rebuilt s ((j, records) ∷ d) os u w h = elim (Bool-cases (contains j s.ended)) [
    | inl ended ↦ rebuild_each-Rebuilt s d os u.1 (Within-rest s j records d u w) (ground arith)
    | inr live ↦ elim (Result-cases (rebuild_open s j records)) [
      | inr (e, raised) ↦ absurd (ground arith)
      | inl (o, rebuilt) ↦ elim (Result-cases (rebuild_each s d)) [
        | inr (e, raised) ↦ absurd (ground arith)
        | inl (rest, more) ↦
            let same : o ∷ rest ≡ os = ground arith in
            let b = rebuild_open-Rebuilt s j records o rebuilt in
            rw (← same) (
              (
                rw (b.id, b.records) (w j records (ground (arith, nat_beq_iff j j))),
                of_itself s j records o b,
              ),
              rebuild_each-Rebuilt s d rest u.1 (Within-rest s j records d u w) more,
            )
      ]
    ]
  ]

  -- An occurrence in flight is what the history says of its id: the records of its begin batch, the
  -- transition and the tokens of its first initiation, the selections and the invocation that its
  -- records give, in the order of a begin batch, and no record of an end batch.
  pub record InFlight (history : List (Record D)) (o : FiringOccurrence D) : Type 0 where
    pub records : filter (begins o.id) history ≡ o.records
    pub given :
        first_some (initiates o.id) history ≡ some (o.binding.transition, o.binding.delivered)
    pub boundary : boundary_of o.records ≡ some (o.binding.transition, o.scope)
    pub consumed : o.binding.consumed ≡ consumed_of o.records
    pub read : o.binding.read ≡ read_of o.records
    pub invocation : o.invocation ≡ invocation_of o.records
    pub ordered : is_sorted (begin_ranks o.records) ≡ true
    pub whole : any (completes o.id) history ≡ false

  from_batch : (xs ys : List (Record D)) → as_batch xs ≡ some ys → xs ≡ ys
  from_batch [] ys h = cc
  from_batch (x ∷ xs) ys h = ground arith

  batch-any :
      (p : Record D → Bool) (history : List (Record D))
      → not (is_none (as_batch (filter p history))) ≡ any p history
  unfolding filter any
  batch-any p [] = refl
  batch-any p (r ∷ rs) = elim (Bool-cases (p r)) [
    | inl holds ↦ rw (holds) refl
    | inr fails ↦ rw (fails) (batch-any p rs)
  ]

  Rebuilt-InFlight :
      (history : List (Record D)) (s : Lifecycle D) (o : FiringOccurrence D)
      → ((k : ℕ) → Buckets k history s)
      → (get s.begun o.id ≡ some o.records) × Rebuilt s o.id o.records o
      → InFlight history o
  Rebuilt-InFlight history s o buckets (found, r) =
      let b = buckets o.id in
      record {
        records = from_batch _ o.records (sym b.begun ∙ found);
        given = sym b.initiated ∙ r.given;
        boundary = r.boundary;
        consumed = r.consumed;
        read = r.read;
        invocation = r.invocation;
        ordered = r.ordered;
        whole = sym b.ending ∙ r.whole;
      }

  -- The occurrences that `replay_in_flight` gives are, among all ids, exactly those with a begin
  -- record and with no terminal boundary and no cancellation, and each is what the history says.
  pub replay_in_flight_lem :
      (history : List (Record D)) (os : List (FiringOccurrence D))
      → replay_in_flight history ≡ ok os
      → ((k : ℕ) → contains k (ids os) ≡ (any (begins k) history && not (any (ends k) history)))
        × All (InFlight history) os
  unfolding replay_in_flight
  replay_in_flight_lem history os h = elim (Result-cases (sorted_lifecycle history)) [
    | inr (e, raised) ↦ absurd (ground arith)
    | inl (s, sorted) ↦
        let unique = sorted_lifecycle-UniqueKeys history s sorted in
        let buckets : (k : ℕ) → Buckets k history s =
          λ k. sorted_lifecycle-Buckets k history s sorted in
        (
          λ k.
              let b : Buckets k history s = buckets k in
              rebuild_each-ids s s.begun os k unique (ground arith)
              ∙ ground (arith, b.begun, b.ended, batch-any (begins k) history),
          All-weaken _ (InFlight history) os (λ o r. Rebuilt-InFlight history s o buckets r)
              (rebuild_each-Rebuilt s s.begun os unique (λ k rs found. found) (ground arith)),
        )
  ]
