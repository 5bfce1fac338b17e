-- ===== src/History/Queues/Identified.antt =====
-- Every queue entry has an identity in the replay of src/petrus/impetus/history/__init__.py.
use petrus.Base.{
  option_eq, ℕ, ◌≡◌, refl, inl, inr, Bool, false, not, Option, some, List, [], ◌∷◌, arith, Eq, ◌==◌,
  nat_eq, list_eq, string_eq, ok, get, put, length, contains, filter, Bool-cases, Option-cases,
  Result-cases, All, All-append,
}
use petrus.Petrinet.Token.{Token, NetPath, LifecycleScope}
use petrus.Petrinet.Net.{is_none}
use petrus.Petrinet.Queue.{
  Entry, TokenQueue, deposit, remove, remove_loop, discard, delete_first, is_match, by_value,
  by_identity,
}
use petrus.History.{Movement}
use petrus.History.Queues.{
  PlaceQueues, queue_at, deposit_entries, apply_consume, cleanup_loop, apply_scope_cleanup,
  present_ids,
}

module _ {D : Type 0} where
  -- Every entry of a queue, or of all queues, has an identity.
  abbrev pub IsIdentified : TokenQueue D ℕ → Type 0
  IsIdentified q = All (λ (x : Entry D ℕ). is_none x.identity ≡ false) q

  abbrev pub AreIdentified : PlaceQueues D → Type 0
  AreIdentified d = All (λ (x : NetPath × TokenQueue D ℕ). IsIdentified x.1) d

  pub put-AreIdentified :
      (d : PlaceQueues D) (p : NetPath) (q : TokenQueue D ℕ)
      → AreIdentified d
      → IsIdentified q
      → AreIdentified (put d p q)
  unfolding put
  put-AreIdentified [] p q h new = (new, tt)
  put-AreIdentified ((j, r) ∷ d) p q h new = elim (Bool-cases (j == p)) [
    | inl here ↦ rw here (new, h.1)
    | inr there ↦ rw there (h.0, put-AreIdentified d p q h.1 new)
  ]

  pub queue_at-IsIdentified :
      (d : PlaceQueues D) (p : NetPath) → AreIdentified d → IsIdentified (queue_at d p)
  unfolding get
  queue_at-IsIdentified [] p h = tt
  queue_at-IsIdentified ((j, r) ∷ d) p h = elim (Bool-cases (j == p)) [
    | inl here ↦ rw here h.0
    | inr there ↦ rw there (queue_at-IsIdentified d p h.1)
  ]

  pub deposit_entries-IsIdentified :
      (q : TokenQueue D ℕ) (ts : List (Token D)) (is : List ℕ) (s : Option LifecycleScope) (at : ℕ)
      → length is ≡ length ts
      → IsIdentified q
      → IsIdentified (deposit_entries q ts is s at)
  unfolding deposit_entries deposit
  deposit_entries-IsIdentified q [] [] s at h named = named
  deposit_entries-IsIdentified q [] (i ∷ is) s at h named = absurd (omega arith)
  deposit_entries-IsIdentified q (t ∷ ts) [] s at h named = absurd (omega arith)
  deposit_entries-IsIdentified q (t ∷ ts) (i ∷ is) s at h named =
      deposit_entries-IsIdentified (deposit q t at (some i) s) ts is s at (omega arith)
        (All-append (λ (x : Entry D ℕ). is_none x.identity ≡ false) q _ named (refl, tt))

  delete_first-IsIdentified :
      (p : Entry D ℕ → Bool) (q r : TokenQueue D ℕ)
      → delete_first p q ≡ some r
      → IsIdentified q
      → IsIdentified r
  unfolding delete_first
  delete_first-IsIdentified p [] r h named = cc
  delete_first-IsIdentified p (x ∷ q) r h named = elim (Bool-cases (p x)) [
    | inl hit ↦ let same : q ≡ r = ground arith in rw (← same) named.1
    | inr skip ↦ elim (Option-cases (delete_first p q)) [
      | inl none_left ↦ absurd (ground arith)
      | inr (ys, found) ↦
          let same : x ∷ ys ≡ r = ground arith in
          rw (← same) (named.0, delete_first-IsIdentified p q ys found named.1)
    ]
  ]

  discard-IsIdentified :
      (q r : TokenQueue D ℕ) (is : List ℕ) → discard q is ≡ ok r → IsIdentified q → IsIdentified r
  unfolding discard
  discard-IsIdentified q r [] h named = let same : q ≡ r = ground arith in rw (← same) named
  discard-IsIdentified q r (j ∷ is) h named =
      elim (Option-cases (delete_first (λ x. x.identity == some j) q)) [
        | inl none_left ↦ absurd (ground arith)
        | inr (ys, found) ↦
            discard-IsIdentified ys r is (ground arith)
              (delete_first-IsIdentified (λ x. x.identity == some j) q ys found named)
      ]

  cleanup_loop-AreIdentified :
      (s : LifecycleScope) (left : List ℕ) (d : PlaceQueues D) (done : PlaceQueues D × List ℕ)
      → cleanup_loop s left d ≡ ok done
      → AreIdentified d
      → AreIdentified done.0
  unfolding cleanup_loop
  cleanup_loop-AreIdentified s left [] done h named =
      let same : done.0 ≡ [] = ground arith in rw same tt
  cleanup_loop-AreIdentified s left ((p, q) ∷ rest) done h named =
      let later = filter (λ j. not (contains j (present_ids s left q))) left in
      elim (Result-cases (discard q (present_ids s left q))) [
        | inr (x, raised) ↦ absurd (ground arith)
        | inl (q', kept) ↦ elim (Result-cases (cleanup_loop s later rest)) [
          | inr (x, raised) ↦ absurd (ground arith)
          | inl (more, cleaned) ↦
              let same : done.0 ≡ (p, q') ∷ more.0 = ground arith in
              rw same (
                discard-IsIdentified q q' (present_ids s left q) kept named.0,
                cleanup_loop-AreIdentified s later rest more cleaned named.1,
              )
        ]
      ]

  pub cleanup-AreIdentified :
      (d d' : PlaceQueues D) (s : LifecycleScope) (discarded : List ℕ)
      → apply_scope_cleanup d s discarded ≡ ok d'
      → AreIdentified d
      → AreIdentified d'
  unfolding apply_scope_cleanup
  cleanup-AreIdentified d d' s discarded h named =
      elim (Result-cases (cleanup_loop s discarded d)) [
        | inr (x, raised) ↦ absurd (ground arith)
        | inl (done, cleaned) ↦
            let same : done.0 ≡ d' = ground arith in
            rw (← same) (cleanup_loop-AreIdentified s discarded d done cleaned named)
      ]

module _ {D : Type 0} ⦃e : Eq D⦄ where
  remove_loop-IsIdentified :
      (q r : TokenQueue D ℕ) (rs : List (Token D × Option ℕ))
      → remove_loop q rs ≡ ok r
      → IsIdentified q
      → IsIdentified r
  unfolding remove_loop
  remove_loop-IsIdentified q r [] h named = let same : q ≡ r = ground arith in rw (← same) named
  remove_loop-IsIdentified q r ((t, x) ∷ rs) h named =
      elim (Option-cases (delete_first (is_match t x) q)) [
        | inl none_left ↦ absurd (ground arith)
        | inr (ys, found) ↦
            remove_loop-IsIdentified ys r rs (ground arith)
              (delete_first-IsIdentified (is_match t x) q ys found named)
      ]

  remove-IsIdentified :
      (q r : TokenQueue D ℕ) (ts : List (Token D)) (is : List ℕ)
      → remove q ts is ≡ ok r
      → IsIdentified q
      → IsIdentified r
  unfolding remove
  remove-IsIdentified q r ts [] h named = remove_loop-IsIdentified q r (by_value ts) h named
  remove-IsIdentified q r ts (j ∷ is) h named = elim (Bool-cases (length (j ∷ is) == length ts)) [
    | inl fits ↦ remove_loop-IsIdentified q r (by_identity ts (j ∷ is)) (ground arith) named
    | inr differs ↦ absurd (ground arith)
  ]

  pub consume-AreIdentified :
      (d d' : PlaceQueues D) (m : Movement D)
      → apply_consume d m ≡ ok d'
      → AreIdentified d
      → AreIdentified d'
  unfolding apply_consume
  consume-AreIdentified d d' m h named =
      elim (Result-cases (remove (queue_at d m.place) m.tokens m.entries)) [
        | inr (x, raised) ↦ absurd (ground arith)
        | inl (rest, removed) ↦
            let same : put d m.place rest ≡ d' = ground arith in
            rw (← same) (
              put-AreIdentified d m.place rest named (
                remove-IsIdentified (queue_at d m.place) rest m.tokens m.entries removed
                  (queue_at-IsIdentified d m.place named)))
      ]
