-- ===== src/Instance/Runtime/Clock/Ends.antt =====
-- What the operations that end an occurrence or report its activity, in
-- src/petrus/impetus/instance/__init__.py, commit.

use petrus.Base.{
  length, is_empty, ℕ, ◌+◌, ◌≡◌, refl, sym, ap, ◌∙◌, inl, inr, false, Option, none, some, List, [],
  ◌∷◌, ◌++◌, map, arith, Eq, nat_eq, string_eq, option_eq, list_eq, ok, Result-cases, All,
  All-append, All-map,
}
use petrus.Petrinet.Token.{LifecycleScope, scope_eq}
use petrus.Petrinet.Firing.{ProducedTokens}
use petrus.Petrinet.Firing
use petrus.History.{Movement, Record, instant_of, tokens_produced, firing_completed, firing_failed}
use petrus.Instance.Firing.{FiringOccurrence, FiringOutcome, HandlerResult, registration_records}
use petrus.Instance.Lifecycle.{Terminal}
use petrus.Instance.Runtime.{
  Instance, Handlers, effective, commit, writer_records, ensure_in_flight, live_marking,
}
use petrus.Instance.Runtime.Completing.{
  commit_completion, fail_firing, projected_result, armed_after, produced_movements,
  completion_records, apply_produced, retire, settle, frozen_of, cursor_after,
}
use petrus.Instance.Runtime.Clock.{At, Advances, commit-Advances}
use petrus.Instance.Runtime.Clock.Commits.{writer_records-eq-ok}

module _ {D : Type 0} where
  produced-At :
      (cursor : ℕ) (scope : Option LifecycleScope) (at k : ℕ) (xs : List (ProducedTokens D))
      → All (At at) (
          map
            (λ (x : Movement D × List ℕ). tokens_produced k x.0)
            (produced_movements cursor scope at xs))
  unfolding produced_movements instant_of
  produced-At cursor scope at k [] = tt
  produced-At cursor scope at k (x ∷ xs) =
      (refl, produced-At (cursor + length x.tokens) scope at k xs)

  completion-At :
      (o : FiringOccurrence D) (at cursor : ℕ) (r : HandlerResult D) (xs : List (ProducedTokens D))
      → All (At at) (completion_records o at r (produced_movements cursor o.scope at xs))
  unfolding instant_of
  completion-At o at cursor r xs = All-append (At at) _ _ (produced-At cursor o.scope at o.id xs) (
      All-append (At at) _ _
        (All-append (At at) _ _ (All-map (At at) _ r.closes (λ x. refl))
          (All-map (At at) _ r.opens (λ x. refl)))
        (refl, tt))

  settle-same :
      (s : Instance D) (k : ℕ) (x : Option (Terminal D))
      → ((settle s k x).history ≡ s.history) × ((settle s k x).watermark ≡ s.watermark)
  settle-same s k none = (refl, refl)
  settle-same s k (some x) = (refl, refl)

  -- A batch that is not empty, committed at the effective instant.
  pub committed :
      (s t : Instance D) (at : Option ℕ) (batch : List (Record D))
      → All (At (effective s at)) batch
      → is_empty batch ≡ false
      → t.history ≡ s.history ++ batch
      → t.watermark ≡ effective s at
      → Advances s t
  committed s t at [] stamped some_record h w = cc
  committed s t at (r ∷ rs) stamped some_record h w = commit-Advances s t at r rs stamped h w

  append_nonempty :
      (xs : List (Record D)) (ys : List (Record D)) (r : Record D)
      → is_empty (xs ++ (ys ++ r ∷ [])) ≡ false
  append_nonempty (x ∷ xs) ys r = refl
  append_nonempty [] (y ∷ ys) r = refl
  append_nonempty [] [] r = refl

  pub fail_firing-Advances :
      (hs : Handlers D) (s t : Instance D) (o : FiringOccurrence D) (failure : D) (at : Option ℕ)
      → fail_firing hs s o failure (effective s at) ≡ ok t
      → Advances s t
  unfolding fail_firing instant_of
  fail_firing-Advances hs s t o failure at h =
      let r = firing_failed o.id o.binding.transition (hs.failure_error failure) (effective s at) in
      elim (Result-cases (writer_records hs (r ∷ []))) [
        | inr (x, raised) ↦ absurd (ground arith)
        | inl (batch, written) ↦
            let whole = writer_records-eq-ok hs _ batch written in
            let u = commit s batch (effective s at) in
            let (kept, clock) = settle-same u o.id (frozen_of u o) in
            let same : retire u o ≡ t = ground arith in
            rw (← same) (
              commit-Advances s (retire u o) at r [] (refl, tt)
                (kept ∙ ap (λ rs. s.history ++ rs) (sym whole)) clock)
      ]

module _ {D : Type 0} ⦃e : Eq D⦄ ⦃same : Eq (FiringOccurrence D)⦄ where
  pub commit_completion-Advances :
      (hs : Handlers D) (s t : Instance D) (o : FiringOccurrence D)
      (result : Option (HandlerResult D)) (at : Option ℕ) (f : FiringOutcome D)
      → commit_completion hs s o result at ≡ ok (t, f)
      → Advances s t
  unfolding commit_completion
  commit_completion-Advances hs s t o result at f h = elim (Result-cases (ensure_in_flight s o)) [
    | inr (x, raised) ↦ absurd (ground arith)
    | inl (_, flying) ↦ elim (Result-cases (projected_result hs s o result)) [
      | inr (x, raised) ↦ absurd (ground arith)
      | inl (r, projected) ↦ elim (Result-cases (armed_after s r)) [
        | inr (x, raised) ↦ absurd (ground arith)
        | inl (armed, effective_armed) ↦
            let instant = effective s at in
            let effects =
              (Firing.complete_firing s.net (live_marking s) o.binding.transition r.tokens).0 in
            let moves = produced_movements s.next_entry o.scope instant effects in
            elim (Result-cases (writer_records hs (completion_records o instant r moves))) [
              | inr (x, raised) ↦ absurd (ground arith)
              | inl (batch, written) ↦ elim (Result-cases (apply_produced o.id s.queues moves)) [
                | inr (x, raised) ↦ absurd (ground arith)
                | inl (queues, moved) ↦
                    let whole = writer_records-eq-ok hs _ batch written in
                    let u = record (commit s batch instant) {
                      next_entry = cursor_after s.next_entry effects;
                      queues = queues;
                      armed = armed;
                    } in
                    let (kept, clock) = settle-same u o.id (frozen_of u o) in
                    let last : retire u o ≡ t = ground arith in
                    rw (← last) (
                      committed s (retire u o) at (completion_records o instant r moves)
                        (completion-At o instant s.next_entry r effects)
                        (append_nonempty
                          (map (λ (x : Movement D × List ℕ). tokens_produced o.id x.0) moves)
                          (registration_records o.id instant r)
                          (firing_completed o.id o.binding.transition instant))
                        (kept ∙ ap (λ rs. s.history ++ rs) (sym whole)) clock)
              ]
            ]
      ]
    ]
  ]
