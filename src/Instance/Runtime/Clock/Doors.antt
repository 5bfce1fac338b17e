-- ===== src/Instance/Runtime/Clock/Doors.antt =====
-- The doors of src/petrus/impetus/instance/__init__.py that begin occurrences, dispose of deliveries
-- and open or close scopes and registrations advance the history at its effective instant.
use petrus.Base.{
  ℕ, ◌≡◌, refl, sym, ap, ◌∙◌, inl, inr, String, false, Option, none, some, List, [], ◌∷◌, ◌++◌, map,
  arith, Eq, nat_eq, string_eq, list_eq, option_eq, ok, Result-cases, Option-cases, Bool-cases, get,
  put, All-map, is_empty,
}
use petrus.Petrinet.Token.{Token, NetPath, LifecycleScope, scope_eq}
use petrus.Petrinet.Path.{dotted, sorted, insert_sorted}
use petrus.Petrinet.Enabledness.{Binding, Implementations}
use petrus.History.{
  Record, ScopeReference, instant_of, scope_opened, scope_closed, scope_reset, candidate_selected,
  external_event_delivered, delivery_registration_closed, timer_matured,
}
use petrus.History.Registrations.{keys_of}
use petrus.Instance.Firing.{FiringOccurrence}
use petrus.Instance.Runtime.{Instance, Handlers, effective, commit, writer_records}
use petrus.Instance.Runtime.Scopes.{next_generation}
use petrus.Instance.Runtime.Scopes.Mirror.{ScopeStep, opening, closing, resetting, open_scope-eq-ok}
use petrus.Instance.Runtime.Scopes.Closing.{close_scope-Terminated, reset_scope-Terminated}
use petrus.Instance.Runtime.Beginning.{
  begin_occurrence, begin, prepared_invocation, validate_binding_shape,
}
use petrus.Instance.Runtime.Delivering.{
  Acknowledgement, accept_delivery, accept_new, begin_delivery, delivered_event, disposition,
  dispositioned, was_spent, canonical_tokens, check_target, inactive_target, exact_scope, seal,
  sorted_keys,
}
use petrus.Instance.Runtime.Driving.{wake, pending_maturation, has_come}
use petrus.Instance.Runtime.Clock.{At, Advances, Advances-refl, commit-Advances}
use petrus.Instance.Runtime.Clock.Commits.{writer_records-eq-ok, Begun, begin_occurrence-Begun}
use petrus.Instance.Runtime.Clock.Ends.{committed}

module _ {D : Type 0} ⦃e : Eq D⦄ where
  pub ScopeStep-Advances : (hs : Handlers D) (s t : Instance D) → ScopeStep hs s t → Advances s t
  unfolding instant_of
  ScopeStep-Advances hs s t (opening name at scope h) =
      let (fresh, _, last) = open_scope-eq-ok hs s t name at scope h in
      commit-Advances s t at
        (scope_opened (next_generation s.scope_generations name) (effective s at)) [] (refl, tt)
        (sym (ap (λ (i : Instance D). i.history) last))
        (sym (ap (λ (i : Instance D). i.watermark) last))
  ScopeStep-Advances hs s t (closing scope at c h) =
      let x = close_scope-Terminated hs s t scope at c h in
      commit-Advances s t at (scope_closed scope c.discarded c.cancelled (effective s at)) []
        (refl, tt) x.history x.watermark
  ScopeStep-Advances hs s t (resetting scope at opened h) =
      let (c, next, x) = reset_scope-Terminated hs s t scope opened at h in
      commit-Advances s t at (scope_reset scope opened c.discarded c.cancelled (effective s at)) []
        (refl, tt) x.history x.watermark

  Begun-Advances :
      (s t : Instance D) (o : FiringOccurrence D) (at : Option ℕ) (initiation : ℕ → ℕ → Record D)
      → instant_of (initiation s.next_occurrence (effective s at)) ≡ effective s at
      → Begun s t o at initiation
      → Advances s t
  Begun-Advances s t o at initiation stamp b =
      commit-Advances s t at (initiation s.next_occurrence (effective s at)) o.records
        (stamp, b.stamped) b.history b.watermark

  pub begin-Advances :
      (hs : Handlers D) (s t : Instance D) (b : Binding D) (at : Option ℕ) (o : FiringOccurrence D)
      → begin hs s b at ≡ ok (t, o)
      → Advances s t
  unfolding begin instant_of
  begin-Advances hs s t b at o h = elim (Result-cases (prepared_invocation hs b)) [
    | inr (x, raised) ↦ elim (Result-cases (validate_binding_shape s.net b)) [
      | inr (y, refused) ↦ absurd (ground arith)
      | inl (u, shaped) ↦ absurd (ground arith)
    ]
    | inl (prepared, resolved) ↦ elim (Result-cases (validate_binding_shape s.net b)) [
      | inr (y, refused) ↦ absurd (ground arith)
      | inl (u, shaped) ↦
          Begun-Advances s t o at (λ k instant. candidate_selected k b.transition instant) refl
            (begin_occurrence-Begun hs s t b at
              (λ k instant. candidate_selected k b.transition instant) prepared none o
              (ground arith))
    ]
  ]

  begin_delivery-Advances :
      (hs : Handlers D) (s t : Instance D) (path : NetPath) (ts : List (Token D))
      (identity : String) (scope : Option LifecycleScope) (at : Option ℕ) (a : Acknowledgement)
      → begin_delivery hs s path ts identity scope at ≡ ok (t, a)
      → Advances s t
  unfolding begin_delivery instant_of
  begin_delivery-Advances hs s t path ts identity scope at a h =
      let b : Binding D = record { transition = path; consumed = []; read = []; delivered = ts } in
      let initiation : ℕ → ℕ → Record D =
        λ k instant. external_event_delivered k (delivered_event path ts identity scope instant) in
      elim (Result-cases (begin_occurrence hs s b at initiation none scope)) [
        | inr (x, raised) ↦ absurd (ground arith)
        | inl ((u, o), begun) ↦
            let x =
              Begun-Advances s u o at initiation refl
                (begin_occurrence-Begun hs s u b at initiation none scope o begun) in
            let last : record u {
              accepted_identities = put u.accepted_identities identity (
                  external_event_delivered o.id
                    (delivered_event path ts identity scope u.watermark));
            }
                ≡ t =
              ground arith in
            rw (← last) (record { batch = x.batch; history = x.history; ticks = x.ticks })
      ]

  dispositioned-At :
      (path : NetPath) (ts : List (Token D)) (identity : String) (target : ScopeReference) (at : ℕ)
      (g : Option LifecycleScope)
      → At at (dispositioned path ts identity target at g).0
  unfolding instant_of
  dispositioned-At path ts identity target at none = refl
  dispositioned-At path ts identity target at (some g) = refl

  disposition-Advances :
      (hs : Handlers D) (s t : Instance D) (path : NetPath) (ts : List (Token D))
      (identity : String) (target : ScopeReference) (at : Option ℕ) (a : Acknowledgement)
      → disposition hs s path ts identity target (effective s at) ≡ ok (t, a)
      → Advances s t
  unfolding disposition
  disposition-Advances hs s t path ts identity target at a h =
      let r = (dispositioned path ts identity target (effective s at) (was_spent s target)).0 in
      elim (Result-cases (writer_records hs (r ∷ []))) [
        | inr (x, raised) ↦ absurd (ground arith)
        | inl (batch, written) ↦
            let whole = writer_records-eq-ok hs _ batch written in
            let last : record (commit s batch (effective s at)) {
              accepted_identities = put s.accepted_identities identity r;
            }
                ≡ t =
              ground arith in
            commit-Advances s t at r []
              (dispositioned-At path ts identity target (effective s at) (was_spent s target), tt)
              (sym (ap (λ (i : Instance D). i.history) last)
                ∙ ap (λ rs. s.history ++ rs) (sym whole))
              (sym (ap (λ (i : Instance D). i.watermark) last))
      ]

  accept_new-Advances :
      (hs : Handlers D) (s t : Instance D) (path : NetPath) (ts : List (Token D))
      (identity : String) (target : Option ScopeReference) (at : Option ℕ) (a : Acknowledgement)
      → accept_new hs s path ts identity target at ≡ ok (t, a)
      → Advances s t
  unfolding accept_new
  accept_new-Advances hs s t path ts identity target at a h =
      elim (Option-cases (inactive_target s target)) [
        | inl active ↦
            begin_delivery-Advances hs s t path ts identity (exact_scope target) at a (ground arith)
        | inr (g, inactive) ↦ disposition-Advances hs s t path ts identity g at a (ground arith)
      ]

  pub accept_delivery-Advances :
      (hs : Handlers D) (s t : Instance D) (path : NetPath) (ts : List (Token D))
      (identity : String) (target : Option ScopeReference) (at : Option ℕ) (a : Acknowledgement)
      → accept_delivery hs s path ts identity target at ≡ ok (t, a)
      → Advances s t
  unfolding accept_delivery
  accept_delivery-Advances hs s t path ts identity target at a h =
      elim (Result-cases (check_target {D = D} target)) [
        | inr (x, raised) ↦ absurd (ground arith)
        | inl (u, targeted) ↦ elim (Result-cases (canonical_tokens hs ts)) [
          | inr (x, raised) ↦ absurd (ground arith)
          | inl (delivered, canonical) ↦ elim (Option-cases (get s.accepted_identities identity)) [
            | inr (prior, found) ↦ let last : s ≡ t = ground arith in rw (← last) (Advances-refl s)
            | inl fresh ↦
                accept_new-Advances hs s t path delivered identity target at a (ground arith)
          ]
        ]
      ]

  pub wake-Advances :
      (hs : Handlers D) (impl : Implementations D) (s t : Instance D) (at : ℕ)
      (r : Option (Record D))
      → wake hs impl s at ≡ ok (t, r)
      → Advances s t
  unfolding wake instant_of
  wake-Advances hs impl s t at r h = elim (Result-cases (pending_maturation impl s)) [
    | inr (x, raised) ↦ absurd (ground arith)
    | inl (pending, surveyed) ↦ elim (Option-cases (has_come pending (effective s (some at)))) [
      | inl early ↦ let last : s ≡ t = ground arith in rw (← last) (Advances-refl s)
      | inr (maturation, come) ↦
          let matured = timer_matured maturation (effective s (some at)) in
          elim (Result-cases (writer_records hs (matured ∷ []))) [
            | inr (x, raised) ↦ absurd (ground arith)
            | inl (batch, written) ↦
                let whole = writer_records-eq-ok hs _ batch written in
                let last : commit s batch (effective s (some at)) ≡ t = ground arith in
                commit-Advances s t (some at) matured [] (refl, tt)
                  (sym (ap (λ (i : Instance D). i.history) last)
                    ∙ ap (λ rs. s.history ++ rs) (sym whole))
                  (sym (ap (λ (i : Instance D). i.watermark) last))
          ]
    ]
  ]

insert_sorted-nonempty : (p : NetPath) (qs : List NetPath) → is_empty (insert_sorted p qs) ≡ false
unfolding insert_sorted
insert_sorted-nonempty p [] = refl
insert_sorted-nonempty p (q ∷ qs) = ground arith

nonempty_map : {A B : Type 0} (f : A → B) (xs : List A) → is_empty (map f xs) ≡ is_empty xs
nonempty_map f [] = refl
nonempty_map f (x ∷ xs) = refl

sorted_keys-nonempty : (ks : List String) → is_empty ks ≡ false → is_empty (sorted_keys ks) ≡ false
unfolding sorted
sorted_keys-nonempty [] h = cc
sorted_keys-nonempty (k ∷ ks) h =
    nonempty_map dotted (insert_sorted (k ∷ []) (sorted (map (λ j. j ∷ []) ks)))
    ∙ insert_sorted-nonempty (k ∷ []) (sorted (map (λ j. j ∷ []) ks))

module _ {D : Type 0} where
  pub seal-Advances :
      (hs : Handlers D) (s t : Instance D) (path : NetPath) (at : Option ℕ)
      → seal hs s path at ≡ ok t
      → Advances s t
  unfolding seal instant_of
  seal-Advances hs s t path at h =
      let close : String → Record D =
        λ key. delivery_registration_closed none path key (effective s at) in
      let closes = map close (sorted_keys (keys_of s.armed path)) in
      elim (Bool-cases (is_empty (keys_of s.armed path))) [
        | inl unarmed ↦ absurd (ground arith)
        | inr armed ↦ elim (Result-cases (writer_records hs closes)) [
          | inr (x, raised) ↦ absurd (ground arith)
          | inl (batch, written) ↦
              let whole = writer_records-eq-ok hs closes batch written in
              let last : record (commit s batch (effective s at)) { armed = put s.armed path [] }
                  ≡ t =
                ground arith in
              committed s t at closes
                (All-map (At (effective s at)) close (sorted_keys (keys_of s.armed path))
                  (λ key. refl))
                (nonempty_map close (sorted_keys (keys_of s.armed path))
                  ∙ sorted_keys-nonempty (keys_of s.armed path) armed)
                (sym (ap (λ (i : Instance D). i.history) last)
                  ∙ ap (λ rs. s.history ++ rs) (sym whole))
                (sym (ap (λ (i : Instance D). i.watermark) last))
        ]
      ]
