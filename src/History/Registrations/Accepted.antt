-- ===== src/History/Registrations/Accepted.antt =====
-- `replay_accepted_identities` of src/petrus/impetus/history/__init__.py: the accepted deliveries by
-- their identity.
use petrus.Base.{
  ℕ, ◌≡◌, refl, ap, sym, ◌∙◌, inl, inr, String, Bool, true, false, ◌&&◌, not, Option, none, some,
  List, [], ◌∷◌, ◌++◌, arith, ◌==◌, nat_eq, string_eq, option_eq, list_eq, Result, ok, ◌>>=◌, ◌>>◌,
  guard, Dict, get, put, UniqueKeys, put-UniqueKeys, Option-cases, Result-cases, is_empty, head?,
  append_assoc, append-nil,
}
use petrus.Petrinet.Token.{LifecycleScope, scope_eq}
use petrus.Petrinet.Net.{is_none}
use petrus.History.{
  Delivery, Record, external_event_delivered, scoped_delivery_dropped, scoped_delivery_quarantined,
  firing_begun,
}
use petrus.History.Registrations.{
  RegistrationError, Registrations, keys_of, empty_tokens, unarmed_source, not_begun,
  accepted_twice, validate_batches, registration_step, first_instant,
}

module _ {D : Type 0} where
  -- The `FiringBegun` that a delivery expects.
  abbrev pub is_begun : ℕ → Delivery D (Option LifecycleScope) → Option (Record D) → Bool
  is_begun k d (some (firing_begun j t s at)) =
      j == k && (t == d.source && (s == d.scope && at == d.instant))
  is_begun k d _ = false

  unfoldable pub accept :
      Dict String (Record D) → String → Record D → Result RegistrationError (Dict String (Record D))
  accept accepted identity r =
      guard (is_none (get accepted identity)) (accepted_twice identity)
      >> ok (put accepted identity r)

  -- What a delivery has to satisfy, with the record that follows it.
  unfoldable pub accept_delivery :
      Registrations
      → Dict String (Record D)
      → Record D
      → Option (Record D)
      → Result RegistrationError (Dict String (Record D))
  accept_delivery x accepted (external_event_delivered k d) next = do
    guard (not (is_empty d.tokens)) (empty_tokens d.identity)
    guard (not (is_empty (keys_of x.armed d.source))) (unarmed_source d.identity)
    guard (is_begun k d next) (not_begun d.identity)
    accept accepted d.identity (external_event_delivered k d)
  accept_delivery x accepted (scoped_delivery_dropped d) next =
      guard (not (is_empty d.tokens)) (empty_tokens d.identity)
      >> accept accepted d.identity (scoped_delivery_dropped d)
  accept_delivery x accepted (scoped_delivery_quarantined d) next =
      guard (not (is_empty d.tokens)) (empty_tokens d.identity)
      >> accept accepted d.identity (scoped_delivery_quarantined d)
  accept_delivery x accepted _ next = ok accepted

  unfoldable pub accept_loop :
      ℕ
      → Registrations
      → Dict String (Record D)
      → List (Record D)
      → Result RegistrationError (Dict String (Record D))
  accept_loop initial_instant x accepted [] = ok accepted
  accept_loop initial_instant x accepted (r ∷ rs) = registration_step initial_instant x r >>= λ y.
      accept_delivery y accepted r (head? rs) >>= λ more. accept_loop initial_instant y more rs

  unfoldable pub replay_accepted_identities :
      List (Record D) → Result RegistrationError (Dict String (Record D))
  replay_accepted_identities history =
      validate_batches history
      >> accept_loop (first_instant history)
          (record { armed = []; initial_batch = true; started = false }) [] history

  -- The deliveries of a history under their identities, in order.
  pub deliveries : List (Record D) → Dict String (Record D)
  deliveries [] = []
  deliveries (external_event_delivered k d ∷ rs) =
      (d.identity, external_event_delivered k d) ∷ deliveries rs
  deliveries (scoped_delivery_dropped d ∷ rs) =
      (d.identity, scoped_delivery_dropped d) ∷ deliveries rs
  deliveries (scoped_delivery_quarantined d ∷ rs) =
      (d.identity, scoped_delivery_quarantined d) ∷ deliveries rs
  deliveries (_ ∷ rs) = deliveries rs

  put-absent :
      (d : Dict String (Record D)) (k : String) (r : Record D)
      → get d k ≡ none
      → put d k r ≡ d ++ (k, r) ∷ []
  unfolding get put
  put-absent [] k r h = refl
  put-absent ((j, x) ∷ d) k r h = ground (arith, put-absent d k r)

  accept_cases :
      (d d' : Dict String (Record D)) (k : String) (r : Record D)
      → accept d k r ≡ ok d'
      → (d' ≡ d ++ (k, r) ∷ []) × (UniqueKeys d → UniqueKeys d')
  unfolding accept
  accept_cases d d' k r h =
      let same : put d k r ≡ d' = ground arith in
      let absent : get d k ≡ none = elim (Option-cases (get d k)) [
        | inl gone ↦ gone
        | inr (x, there) ↦ absurd (ground arith)
      ] in
      (sym same ∙ put-absent d k r absent, λ u. rw (← same) (put-UniqueKeys d k r u))

  accept_delivery-deliveries :
      (x : Registrations) (d d' : Dict String (Record D)) (r : Record D) (next : Option (Record D))
      → accept_delivery x d r next ≡ ok d'
      → (d' ≡ d ++ deliveries (r ∷ [])) × (UniqueKeys d → UniqueKeys d')
  unfolding accept_delivery deliveries
  accept_delivery-deliveries x d d' (external_event_delivered k e) next h =
      accept_cases d d' e.identity (external_event_delivered k e) (ground arith)
  accept_delivery-deliveries x d d' (scoped_delivery_dropped e) next h =
      accept_cases d d' e.identity (scoped_delivery_dropped e) (ground arith)
  accept_delivery-deliveries x d d' (scoped_delivery_quarantined e) next h =
      accept_cases d d' e.identity (scoped_delivery_quarantined e) (ground arith)
  accept_delivery-deliveries x d d' _ next h =
      let same : d ≡ d' = ground arith in (rw (← same) (sym (append-nil d)), λ u. rw (← same) u)

  deliveries-cons :
      (r : Record D) (rs : List (Record D))
      → deliveries (r ∷ rs) ≡ deliveries (r ∷ []) ++ deliveries rs
  unfolding deliveries
  deliveries-cons (external_event_delivered k e) rs = refl
  deliveries-cons (scoped_delivery_dropped e) rs = refl
  deliveries-cons (scoped_delivery_quarantined e) rs = refl
  deliveries-cons _ rs = refl

  accept_loop-deliveries :
      (i : ℕ) (x : Registrations) (d d' : Dict String (Record D)) (rs : List (Record D))
      → accept_loop i x d rs ≡ ok d'
      → UniqueKeys d
      → (d' ≡ d ++ deliveries rs) × UniqueKeys d'
  unfolding accept_loop deliveries
  accept_loop-deliveries i x d d' [] h u =
      let same : d ≡ d' = ground arith in rw (← same) (sym (append-nil d), u)
  accept_loop-deliveries i x d d' (r ∷ rs) h u = elim (Result-cases (registration_step i x r)) [
    | inr (e, raised) ↦ absurd (ground arith)
    | inl (y, step) ↦ elim (Result-cases (accept_delivery y d r (head? rs))) [
      | inr (e, raised) ↦ absurd (ground arith)
      | inl (more, taken) ↦
          let (grown, unique) = accept_delivery-deliveries y d more r (head? rs) taken in
          let (all_of, unique') = accept_loop-deliveries i y more d' rs (ground arith) (unique u) in
          (
            all_of
                ∙ ap (λ l. l ++ deliveries rs) grown
                ∙ append_assoc d (deliveries (r ∷ [])) (deliveries rs)
                ∙ ap (λ l. d ++ l) (sym (deliveries-cons r rs)),
            unique',
          )
    ]
  ]

  -- The accepted identities of a history that replays are those of its deliveries, in order, each
  -- with its whole record, and no identity stands twice.
  pub replay_accepted_identities-deliveries :
      (history : List (Record D)) (accepted : Dict String (Record D))
      → replay_accepted_identities history ≡ ok accepted
      → (accepted ≡ deliveries history) × UniqueKeys (deliveries history)
  unfolding replay_accepted_identities
  replay_accepted_identities-deliveries history accepted h =
      elim (Result-cases (validate_batches history)) [
        | inr (e, raised) ↦ absurd (ground arith)
        | inl (u, valid) ↦
            let (same, unique) =
              accept_loop-deliveries (first_instant history)
                (record { armed = []; initial_batch = true; started = false }) [] accepted history
                (ground arith) tt in
            (same, rw (← same) unique)
      ]
