-- ===== src/Instance/Lifecycle/Buckets/Sorted.antt =====
-- `_sorted_lifecycle` (src/petrus/impetus/instance/firing.py) sorts a history into the buckets that
-- the history describes.
use petrus.Base.{
  fold_result-induct, sym, ap, ◌∙◌, append-nil, Bool-cases, filter, filter-append, any, any-append,
  first_some, first_some-append, Result-cases, ℕ, ◌≡◌, refl, inl, inr, true, some, List, [], ◌∷◌,
  ◌++◌, arith, nat_eq, ok, option_eq, contains, get,
}
use petrus.History.{Record}
use petrus.Instance.Lifecycle.{
  lifecycle_step, sorted_lifecycle, empty_lifecycle, leave_batch, Lifecycle, sort_record,
}
use petrus.Instance.Lifecycle.Buckets.{
  begins, ends, cancels, completes, initiates, terminates, as_batch, Buckets,
}
use petrus.Instance.Lifecycle.Buckets.Growth.{Grows, grow, sort_record-Grows}

module _ {D : Type 0} (k : ℕ) where
  as_batch-append :
      (rs : List (Record D)) (r : Record D)
      → as_batch (filter (begins k) (rs ++ r ∷ []))
        ≡ grow k (begins k r) r (as_batch (filter (begins k) rs))
  unfolding filter
  as_batch-append rs r = elim (Bool-cases (begins k r)) [
    | inl joins ↦ rw (joins, filter-append, joins) (with_last (filter (begins k) rs))
    | inr other ↦ rw (other, filter-append, other, append-nil) refl
  ]
    where
      with_last : (xs : List (Record D)) → as_batch (xs ++ r ∷ []) ≡ grow k true r (as_batch xs)
      with_last [] = refl
      with_last (x ∷ xs) = refl

  Buckets-step :
      (history : List (Record D)) (s s' : Lifecycle D) (r : Record D)
      → Buckets k history s
      → lifecycle_step s r ≡ ok s'
      → Buckets k (history ++ r ∷ []) s'
  unfolding lifecycle_step first_some any
  Buckets-step history s s' r b h = elim (Result-cases (sort_record (leave_batch s r) r)) [
    | inr (e, raised) ↦ absurd (ground arith)
    | inl (t, sorted) ↦
        let g : Grows k (leave_batch s r) r t = sort_record-Grows k (leave_batch s r) t r sorted in
        let same : record t { previous = some r } ≡ s' = ground arith in
        rw (← same) (record {
          initiated =
              ground
                (arith, g.initiated, b.initiated, first_some-append (initiates k) history (r ∷ []));
          begun = g.begun ∙ ap (grow k (begins k r) r) b.begun ∙ sym (as_batch-append history r);
          ended = ground (arith, g.ended, b.ended, any-append (ends k) history (r ∷ []));
          ending = ground (arith, g.ending, b.ending, any-append (completes k) history (r ∷ []));
          frozen =
              ground (arith, g.frozen, b.frozen, first_some-append (terminates k) history (r ∷ []));
          cancelled =
              ground (arith, g.cancelled, b.cancelled, any-append (cancels k) history (r ∷ []));
        })
  ]

  -- When a history is not refused, the buckets of an occurrence hold what its records say: its first
  -- initiation, the records of its begin batch in their order, whether a terminal boundary or a
  -- cancellation of it stands in the history, whether a produce or a correlated registration record
  -- does, and its first terminal activity fact, which a completed and a failed activity give alike.
  pub sorted_lifecycle-Buckets :
      (history : List (Record D)) (s : Lifecycle D)
      → sorted_lifecycle history ≡ ok s
      → Buckets k history s
  unfolding sorted_lifecycle first_some filter any contains get
  sorted_lifecycle-Buckets history s h =
      fold_result-induct (Buckets k) lifecycle_step Buckets-step [] history empty_lifecycle s
        (record {
          initiated = refl;
          begun = refl;
          ended = refl;
          ending = refl;
          frozen = refl;
          cancelled = refl;
        })
        h
