-- ===== src/Instance/Runtime/Clock/Commits.antt =====
-- The records that each operation of src/petrus/impetus/instance/__init__.py commits are at its
-- effective instant.
use mathlib.Core.Option
use petrus.Base.{
  ℕ, ◌+◌, ◌≡◌, refl, sym, ap, inl, inr, Option, none, some, List, [], ◌∷◌, ◌++◌, map, arith, Eq,
  nat_eq, string_eq, option_eq, list_eq, ok, Result-cases, All, All-append, put,
}
use petrus.Petrinet.Token.{NetPath, LifecycleScope, scope_eq}
use petrus.Petrinet.Enabledness.{Binding, Selection}
use petrus.Petrinet.Firing.{ProducedTokens}
use petrus.Petrinet.Firing
use petrus.History.{Movement, Record, instant_of, firing_begun, tokens_consumed, tokens_read}
use petrus.History.Queues.{known_ids}
use petrus.Instance.Firing.{FiringOccurrence, ActivityInvocation}
use petrus.Instance.Runtime.{
  Instance, Handlers, Preparation, effective, commit, writer_records, live_marking,
}
use petrus.Instance.Runtime.Beginning.{
  begin_occurrence, narrated_occurrence, with_activity, narrate, EntrySelections, narrated,
  request_records, resolved, binding_entries, one_scope, scopes_of, known_scopes, apply_all,
}
use petrus.Instance.Runtime.Clock.{At}

module _ {D : Type 0} where
  pub writer_records-eq-ok :
      (hs : Handlers D) (batch written : List (Record D))
      → writer_records hs batch ≡ ok written
      → batch ≡ written
  unfolding writer_records
  writer_records-eq-ok hs batch written h = ground arith

  narrate-At :
      (make : Movement D → Record D) (t : NetPath) (scope : Option LifecycleScope) (at : ℕ)
      (xs : List (Selection D)) (es : EntrySelections) (rs : List (Record D))
      → ((m : Movement D) → instant_of (make m) ≡ m.instant)
      → narrate make t scope at xs es ≡ ok rs
      → All (At at) rs
  unfolding narrate
  narrate-At make t scope at [] [] rs stamp h = let same : [] ≡ rs = ground arith in rw (← same) tt
  narrate-At make t scope at [] (e ∷ es) rs stamp h = absurd (ground arith)
  narrate-At make t scope at (x ∷ xs) [] rs stamp h = absurd (ground arith)
  narrate-At make t scope at (x ∷ xs) (e ∷ es) rs stamp h =
      elim (Result-cases (narrate make t scope at xs es)) [
        | inr (y, raised) ↦ absurd (ground arith)
        | inl (more, done) ↦
            let same : make (narrated x (known_ids (map (λ i. i.0) e)) scope at) ∷ more ≡ rs =
              ground arith in
            rw (← same) (
              stamp (narrated x (known_ids (map (λ i. i.0) e)) scope at),
              narrate-At make t scope at xs es more stamp done,
            )
      ]

  requests-At :
      (t : NetPath) (k : ℕ) (scope : Option LifecycleScope) (at : ℕ)
      (i : Option (ActivityInvocation D))
      → All (At at) (request_records t k scope at i)
  unfolding instant_of
  requests-At t k scope at none = tt
  requests-At t k scope at (some i) = (refl, tt)

module _ {D : Type 0} ⦃e : Eq D⦄ where
  -- The batch of a begin, after its initiation.
  pub record Begun (s t : Instance D) (o : FiringOccurrence D) (at : Option ℕ)
      (initiation : ℕ → ℕ → Record D) : Type 0 where
    pub history : t.history ≡ s.history ++ initiation s.next_occurrence (effective s at) ∷ o.records
    pub watermark : t.watermark ≡ effective s at
    pub stamped : All (At (effective s at)) o.records
    pub id : o.id ≡ s.next_occurrence
    pub next_occurrence : t.next_occurrence ≡ s.next_occurrence + 1
    pub in_flight : t.in_flight ≡ put s.in_flight o.id o
    pub moved : apply_all s.queues o.records ≡ ok t.queues

  narrated_occurrence-At :
      (s : Instance D) (b : Binding D) (at : ℕ) (prepared : Option (Preparation D))
      (given : Option LifecycleScope) (o : FiringOccurrence D)
      → narrated_occurrence s b at prepared given ≡ ok o
      → All (At at) o.records × (o.id ≡ s.next_occurrence)
  unfolding narrated_occurrence instant_of
  narrated_occurrence-At s b at prepared given o h =
      elim (Result-cases (Firing.begin_firing (live_marking s) b)) [
        | inr (x, raised) ↦ absurd (ground arith)
        | inl (effects, moved) ↦ elim (Result-cases (binding_entries s.queues b)) [
          | inr (x, raised) ↦ absurd (ground arith)
          | inl (entries, selected) ↦
              elim (Result-cases (
                one_scope {D = D} b.transition
                  (scopes_of (entries.0 ++ entries.1) ++ known_scopes (given ∷ [])))) [
                    | inr (x, raised) ↦ absurd (ground arith)
                    | inl (scope, agreed) ↦
                        elim (Result-cases (
                          narrate (tokens_consumed s.next_occurrence) b.transition scope at
                            b.consumed entries.0)) [
                              | inr (x, raised) ↦ absurd (ground arith)
                              | inl (cs, consumed) ↦
                                  elim (Result-cases (
                                    narrate (tokens_read s.next_occurrence) b.transition scope at
                                      b.read entries.1)) [
                                        | inr (x, raised) ↦ absurd (ground arith)
                                        | inl (rs, read) ↦
                                            let i =
                                              Option.map (resolved s.next_occurrence) prepared in
                                            let same : record {
                                              id = s.next_occurrence;
                                              binding = b;
                                              records =
                                                  firing_begun s.next_occurrence b.transition scope
                                                      at
                                                    ∷ cs
                                                  ++ (rs
                                                      ++ request_records b.transition
                                                          s.next_occurrence scope at i);
                                              invocation = i;
                                              scope = scope;
                                            }
                                                ≡ o =
                                              ground arith in
                                            rw (← same) (
                                              (
                                                refl,
                                                All-append (At at) cs _
                                                    (narrate-At (tokens_consumed s.next_occurrence)
                                                      b.transition scope at b.consumed entries.0 cs
                                                      (λ m. refl) consumed)
                                                    (All-append (At at) rs _
                                                      (narrate-At (tokens_read s.next_occurrence)
                                                        b.transition scope at b.read entries.1 rs
                                                        (λ m. refl) read)
                                                      (requests-At b.transition s.next_occurrence
                                                        scope at i)),
                                              ),
                                              refl,
                                            )
                                      ]
                            ]
                  ]
        ]
      ]

  pub begin_occurrence-Begun :
      (hs : Handlers D) (s t : Instance D) (b : Binding D) (at : Option ℕ)
      (initiation : ℕ → ℕ → Record D) (prepared : Option (Preparation D))
      (given : Option LifecycleScope) (o : FiringOccurrence D)
      → begin_occurrence hs s b at initiation prepared given ≡ ok (t, o)
      → Begun s t o at initiation
  unfolding begin_occurrence
  begin_occurrence-Begun hs s t b at initiation prepared given o h =
      elim (Result-cases (narrated_occurrence s b (effective s at) prepared given)) [
        | inr (x, raised) ↦ absurd (ground arith)
        | inl (p, narrated) ↦
            elim (Result-cases
              (writer_records hs (initiation s.next_occurrence (effective s at) ∷ p.records))) [
                | inr (x, raised) ↦ absurd (ground arith)
                | inl (batch, written) ↦ elim (Result-cases (apply_all s.queues p.records)) [
                  | inr (x, raised) ↦ absurd (ground arith)
                  | inl (queues, moved) ↦
                      let whole = writer_records-eq-ok hs _ batch written in
                      let (stamped, id) =
                        narrated_occurrence-At s b (effective s at) prepared given p narrated in
                      let last : p ≡ o = ground arith in
                      let state : record (commit s batch (effective s at)) {
                        next_occurrence = s.next_occurrence + 1;
                        queues = queues;
                        in_flight = put s.in_flight p.id p;
                        activity_occurrences = with_activity s.activity_occurrences p p.invocation;
                      }
                          ≡ t =
                        ground arith in
                      rw (← last, ← state)
                        (record {
                          history = ap (λ rs. s.history ++ rs) (sym whole);
                          watermark = refl;
                          stamped = stamped;
                          id = id;
                          next_occurrence = refl;
                          in_flight = refl;
                          moved = moved;
                        })
                ]
              ]
      ]
