-- ===== src/History/Cancellation.antt =====
-- `replay_cancellation_positions` of src/petrus/impetus/history/__init__.py.
use petrus.Base.{
  ℕ, suc, ◌≤◌, ◌≡◌, refl, inl, inr, true, false, Option, none, some, List, [], ◌∷◌, arith, nat_eq,
  nat_beq_iff, if◌then◌else◌, Result, ok, ◌>>=◌, ◌>>◌, guard, Dict, get, put, get-put, Result-cases,
  contains, count, count-append, contains-count, count-contains, flat_map,
}
use petrus.Petrinet.Net.{is_none}
use petrus.History.{Record, scope_closed, scope_reset}

-- Replay divergence: the occurrence is cancelled twice.
pub data CancellationError : Type 0 where
  cancelled_twice : ℕ → CancellationError

unfoldable pub cancel_each : ℕ → List ℕ → Dict ℕ ℕ → Result CancellationError (Dict ℕ ℕ)
cancel_each position [] positions = ok positions
cancel_each position (k ∷ ks) positions =
    guard (is_none (get positions k)) (cancelled_twice k)
    >> cancel_each position ks (put positions k position)

module _ {D : Type 0} where
  abbrev pub cancelled_by : Record D → List ℕ
  cancelled_by (scope_closed s discarded cancelled at) = cancelled
  cancelled_by (scope_reset closed opened discarded cancelled at) = cancelled
  cancelled_by _ = []

  -- `enumerate(history, start=position)`
  unfoldable pub cancellation_loop :
      ℕ → List (Record D) → Dict ℕ ℕ → Result CancellationError (Dict ℕ ℕ)
  cancellation_loop position [] positions = ok positions
  cancellation_loop position (r ∷ rs) positions =
      cancel_each position (cancelled_by r) positions >>= λ more.
      cancellation_loop (suc position) rs more

  unfoldable pub replay_cancellation_positions :
      List (Record D) → Result CancellationError (Dict ℕ ℕ)
  replay_cancellation_positions history = cancellation_loop 1 history []

  -- The position of the first record that cancels the occurrence.
  pub first_cancelled : ℕ → ℕ → List (Record D) → Option ℕ
  first_cancelled k position [] = none
  first_cancelled k position (r ∷ rs) =
      if contains k (cancelled_by r) then some position else first_cancelled k (suc position) rs

cancel_each_cases :
    (k position : ℕ) (ks : List ℕ) (d d' : Dict ℕ ℕ)
    → cancel_each position ks d ≡ ok d'
    → (get d' k ≡ (if contains k ks then some position else get d k))
      × (is_none (get d k) ≡ false → count k ks ≡ 0)
      × (count k ks ≤ 1)
unfolding cancel_each contains count
cancel_each_cases k position [] d d' h =
    let same : d ≡ d' = ground arith in (rw same refl, λ e. refl, omega arith)
cancel_each_cases k position (j ∷ ks) d d' h =
    let absent : is_none (get d j) ≡ true = ground arith in
    let (found, once, few) = cancel_each_cases k position ks (put d j position) d' (ground arith) in
    (
      ground (arith, found, get-put d j k position, nat_beq_iff j k),
      λ e. ground (arith, once, get-put d j k position, nat_beq_iff j k),
      ground (arith, once, few, get-put d j k position, nat_beq_iff j k),
    )

module _ {D : Type 0} where
  cancellation_loop_cases :
      (k position : ℕ) (rs : List (Record D)) (d d' : Dict ℕ ℕ)
      → cancellation_loop position rs d ≡ ok d'
      → (is_none (get d k) ≡ true → get d' k ≡ first_cancelled k position rs)
        × (is_none (get d k) ≡ false → count k (flat_map cancelled_by rs) ≡ 0)
        × (count k (flat_map cancelled_by rs) ≤ 1)
        × (is_none (get d k) ≡ false → get d' k ≡ get d k)
  unfolding cancellation_loop first_cancelled flat_map count
  cancellation_loop_cases k position [] d d' h =
      let same : d ≡ d' = ground arith in
      rw (← same) (λ e. ground arith, λ e. refl, omega arith, λ e. refl)
  cancellation_loop_cases k position (r ∷ rs) d d' h =
      elim (Result-cases (cancel_each position (cancelled_by r) d)) [
        | inr (e, raised) ↦ absurd (ground arith)
        | inl (more, step) ↦
            let (found, once, few) = cancel_each_cases k position (cancelled_by r) d more step in
            let (first, none_left, at_most, kept) =
              cancellation_loop_cases k (suc position) rs more d' (ground arith) in
            let joined = count-append k (cancelled_by r) (flat_map cancelled_by rs) in
            let absent = contains-count k (cancelled_by r) in
            (
              λ e. ground (arith, found, first, kept),
              λ e. ground (arith, found, once, none_left, joined),
              ground (arith, found, few, none_left, at_most, joined, absent),
              λ e. ground (arith, found, kept, once, count-contains k (cancelled_by r)),
            )
      ]

  -- Once the cancellations of a history replay, an occurrence has the position of the first record
  -- that cancels it, counted from 1, and no occurrence is cancelled twice.
  pub replay_cancellation_positions_lem :
      (history : List (Record D)) (positions : Dict ℕ ℕ) (k : ℕ)
      → replay_cancellation_positions history ≡ ok positions
      → (get positions k ≡ first_cancelled k 1 history)
        × (count k (flat_map cancelled_by history) ≤ 1)
  unfolding replay_cancellation_positions get
  replay_cancellation_positions_lem history positions k h =
      let (first, _, once, _) = cancellation_loop_cases k 1 history [] positions h in
      (first refl, once)
