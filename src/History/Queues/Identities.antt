-- ===== src/History/Queues/Identities.antt =====
-- Queue-entry identities in the replay of src/petrus/impetus/history/__init__.py: none is spent
-- twice.
use petrus.Base.{
  option_eq, ℕ, ◌+◌, ◌≤◌, ◌≡◌, refl, ap, sym, ◌∙◌, inl, inr, Bool, not, Option, none, some, List,
  [], ◌∷◌, ◌++◌, arith, Eq, ◌==◌, nat_eq, list_eq, string_eq, ok, get, put, length, count,
  count-append, contains, filter, Bool-cases, Option-cases, Result-cases, map-append, append_assoc,
  append-nil,
}
use petrus.Petrinet.Token.{Token, NetPath, LifecycleScope}
use petrus.Petrinet.Queue.{
  Entry, TokenQueue, identities, deposit, remove, remove_loop, discard, delete_first, is_match,
  by_value, by_identity,
}
use petrus.History.{Movement}
use petrus.History.Queues.{
  PlaceQueues, known_ids, all_ids, queue_at, deposit_entries, apply_consume, cleanup_loop,
  apply_scope_cleanup, present_ids,
}

known_ids-append : (is js : List (Option ℕ)) → known_ids (is ++ js) ≡ known_ids is ++ known_ids js
unfolding known_ids
known_ids-append [] js = refl
known_ids-append (none ∷ is) js = known_ids-append is js
known_ids-append (some i ∷ is) js = ap (◌∷◌ i) (known_ids-append is js)

module _ {D : Type 0} where
  abbrev pub ids : TokenQueue D ℕ → List ℕ
  ids q = known_ids (identities q)

  -- A write replaces the identities at its place.
  pub all_ids-put :
      (i : ℕ) (d : PlaceQueues D) (p : NetPath) (q : TokenQueue D ℕ)
      → count i (all_ids (put d p q)) + count i (ids (queue_at d p))
        ≡ count i (all_ids d) + count i (ids q)
  unfolding all_ids put get count known_ids
  all_ids-put i [] p q = ground (arith, count-append i (ids q) [])
  all_ids-put i ((j, r) ∷ d) p q = ground (
    arith,
    all_ids-put i d p q,
    count-append i (ids q) (all_ids d),
    count-append i (ids r) (all_ids d),
    count-append i (ids r) (all_ids (put d p q)),
  )

  ids-deposit :
      (q : TokenQueue D ℕ) (t : Token D) (at i : ℕ) (s : Option LifecycleScope)
      → ids (deposit q t at (some i) s) ≡ ids q ++ i ∷ []
  unfolding deposit known_ids
  ids-deposit q t at i s = rw map-append (known_ids-append (identities q) (some i ∷ []))

  pub ids-deposit_entries :
      (q : TokenQueue D ℕ) (ts : List (Token D)) (is : List ℕ) (s : Option LifecycleScope) (at : ℕ)
      → length is ≡ length ts
      → ids (deposit_entries q ts is s at) ≡ ids q ++ is
  unfolding deposit_entries known_ids
  ids-deposit_entries q [] [] s at h = sym (append-nil (ids q))
  ids-deposit_entries q [] (i ∷ is) s at h = absurd (omega arith)
  ids-deposit_entries q (t ∷ ts) [] s at h = absurd (omega arith)
  ids-deposit_entries q (t ∷ ts) (i ∷ is) s at h =
      ids-deposit_entries (deposit q t at (some i) s) ts is s at (omega arith)
      ∙ ap (λ l. l ++ is) (ids-deposit q t at i s)
      ∙ append_assoc (ids q) (i ∷ []) is

  -- Deleting an entry adds no identity.
  delete_first-ids :
      (i : ℕ) (p : Entry D ℕ → Bool) (q r : TokenQueue D ℕ)
      → delete_first p q ≡ some r
      → count i (ids r) ≤ count i (ids q)
  unfolding delete_first known_ids count
  delete_first-ids i p [] r h = cc
  delete_first-ids i p (x ∷ q) r h = elim (Bool-cases (p x)) [
    | inl hit ↦ ground arith
    | inr skip ↦ elim (Option-cases (delete_first p q)) [
      | inl none_left ↦ absurd (ground arith)
      | inr (ys, found) ↦ ground (arith, delete_first-ids i p q ys found)
    ]
  ]

  discard-ids :
      (i : ℕ) (q r : TokenQueue D ℕ) (is : List ℕ)
      → discard q is ≡ ok r
      → count i (ids r) ≤ count i (ids q)
  unfolding discard
  discard-ids i q r [] h = let same : q ≡ r = ground arith in rw same (omega arith)
  discard-ids i q r (j ∷ is) h = elim (Option-cases (delete_first (λ x. x.identity == some j) q)) [
    | inl none_left ↦ absurd (ground arith)
    | inr (ys, found) ↦ omega (
      arith,
      delete_first-ids i (λ x. x.identity == some j) q ys found,
      discard-ids i ys r is (ground arith),
    )
  ]

  cleanup_loop-ids :
      (i : ℕ) (s : LifecycleScope) (left : List ℕ) (d : PlaceQueues D)
      (done : PlaceQueues D × List ℕ)
      → cleanup_loop s left d ≡ ok done
      → count i (all_ids done.0) ≤ count i (all_ids d)
  unfolding cleanup_loop all_ids
  cleanup_loop-ids i s left [] done h =
      let same : done.0 ≡ [] = ground arith in rw (same, all_ids) (omega arith)
  cleanup_loop-ids i s left ((p, q) ∷ rest) done h =
      elim (Result-cases (discard q (present_ids s left q))) [
        | inr (x, raised) ↦ absurd (ground arith)
        | inl (q', kept) ↦
            elim (Result-cases
              (cleanup_loop s (filter (λ j. not (contains j (present_ids s left q))) left) rest)) [
                | inr (x, raised) ↦ absurd (ground arith)
                | inl (more, cleaned) ↦
                    let same : done.0 ≡ (p, q') ∷ more.0 = ground arith in
                    rw (same, all_ids)
                      (omega (
                        arith,
                        count-append i (ids q') (all_ids more.0),
                        count-append i (ids q) (all_ids rest),
                        discard-ids i q q' (present_ids s left q) kept,
                        cleanup_loop-ids i s
                            (filter (λ j. not (contains j (present_ids s left q))) left) rest more
                            cleaned,
                      ))
              ]
      ]

  pub cleanup-ids :
      (i : ℕ) (d d' : PlaceQueues D) (s : LifecycleScope) (discarded : List ℕ)
      → apply_scope_cleanup d s discarded ≡ ok d'
      → count i (all_ids d') ≤ count i (all_ids d)
  unfolding apply_scope_cleanup
  cleanup-ids i d d' s discarded h = elim (Result-cases (cleanup_loop s discarded d)) [
    | inr (x, raised) ↦ absurd (ground arith)
    | inl (done, cleaned) ↦
        let same : done.0 ≡ d' = ground arith in
        rw (← same) (cleanup_loop-ids i s discarded d done cleaned)
  ]

module _ {D : Type 0} ⦃e : Eq D⦄ where
  remove_loop-ids :
      (i : ℕ) (q r : TokenQueue D ℕ) (rs : List (Token D × Option ℕ))
      → remove_loop q rs ≡ ok r
      → count i (ids r) ≤ count i (ids q)
  unfolding remove_loop
  remove_loop-ids i q r [] h = let same : q ≡ r = ground arith in rw same (omega arith)
  remove_loop-ids i q r ((t, x) ∷ rs) h = elim (Option-cases (delete_first (is_match t x) q)) [
    | inl none_left ↦ absurd (ground arith)
    | inr (ys, found) ↦ omega (
      arith,
      delete_first-ids i (is_match t x) q ys found,
      remove_loop-ids i ys r rs (ground arith),
    )
  ]

  remove-ids :
      (i : ℕ) (q r : TokenQueue D ℕ) (ts : List (Token D)) (is : List ℕ)
      → remove q ts is ≡ ok r
      → count i (ids r) ≤ count i (ids q)
  unfolding remove
  remove-ids i q r ts [] h = remove_loop-ids i q r (by_value ts) h
  remove-ids i q r ts (j ∷ is) h = elim (Bool-cases (length (j ∷ is) == length ts)) [
    | inl fits ↦ remove_loop-ids i q r (by_identity ts (j ∷ is)) (ground arith)
    | inr differs ↦ absurd (ground arith)
  ]

  pub consume-ids :
      (i : ℕ) (d d' : PlaceQueues D) (m : Movement D)
      → apply_consume d m ≡ ok d'
      → count i (all_ids d') ≤ count i (all_ids d)
  unfolding apply_consume
  consume-ids i d d' m h = elim (Result-cases (remove (queue_at d m.place) m.tokens m.entries)) [
    | inr (x, raised) ↦ absurd (ground arith)
    | inl (rest, removed) ↦
        let same : put d m.place rest ≡ d' = ground arith in
        rw (← same) (
          omega (
            arith,
            all_ids-put i d m.place rest,
            remove-ids i (queue_at d m.place) rest m.tokens m.entries removed,
          ))
  ]
