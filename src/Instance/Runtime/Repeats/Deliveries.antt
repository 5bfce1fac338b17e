-- ===== src/Instance/Runtime/Repeats/Deliveries.antt =====
-- Repeated deliveries at `accept_delivery` of src/petrus/impetus/instance/__init__.py.
use petrus.Base.{
  subst, ℕ, ◌≡◌, refl, sym, ap, ◌∙◌, inl, inr, String, Bool, true, false, Option, none, some, List,
  [], ◌∷◌, arith, Eq, ◌==◌, nat_eq, string_eq, list_eq, option_eq, pair_eq, Result, ok, ◌>>◌, guard,
  Result-cases, Option-cases, get, put, get-put_self, beq_refl, is_empty,
}
use petrus.Petrinet.Token.{Token, NetPath, LifecycleScope, scope_eq}
use petrus.Petrinet.Enabledness.{Binding}
use petrus.History.{Record, ScopeReference, exact, named, external_event_delivered}
use petrus.Instance.Firing.{FiringOccurrence}
use petrus.Instance.Runtime.{
  identity_conflict, Preparation, Instance, Handlers, RuntimeError, effective, commit,
  writer_records,
}
use petrus.Instance.Runtime.Beginning.{begin_occurrence}
use petrus.Instance.Runtime.Delivering.{
  Acknowledgement, accepted_delivery, accept_delivery, accept_new, begin_delivery, delivered_event,
  disposition, dispositioned, was_spent, canonical_tokens, check_target, inactive_target,
  exact_scope, answer_prior, is_redelivery, content, recorded, same_reference, as_reference,
}
use petrus.Instance.Runtime.Clock.Commits.{begin_occurrence-Begun}

same_reference_self : (r : Option ScopeReference) → same_reference r r ≡ true
same_reference_self none = refl
same_reference_self (some (exact s)) = beq_refl s
same_reference_self (some (named n)) = beq_refl n

module _ {D : Type 0} ⦃e : Eq D⦄ where
  -- What the door remembers of a new delivery.
  record Remembered (a : Acknowledgement) (hs : Handlers D) (t : Instance D) (path : NetPath)
      (ts : List (Token D)) (identity : String) (target : Option ScopeReference) : Type 0 where
    prior : Record D
    found : get t.accepted_identities identity ≡ some prior
    answers_it : is_redelivery hs path ts target prior ≡ true
    answer : answer_prior t identity prior ≡ a

  redelivered :
      (hs : Handlers D) (path : NetPath) (ts : List (Token D)) (target : Option ScopeReference)
      (r : Record D)
      → recorded r ≡ (path, ts, target)
      → is_redelivery hs path ts target r ≡ true
  redelivered hs path ts target r h =
      rw (h, beq_refl path, beq_refl (content hs ts), same_reference_self target) refl

  -- A begun occurrence is in flight.
  begun_flies :
      (hs : Handlers D) (s u : Instance D) (b : Binding D) (at : Option ℕ)
      (initiation : ℕ → ℕ → Record D) (prepared : Option (Preparation D))
      (given : Option LifecycleScope) (o : FiringOccurrence D)
      → begin_occurrence hs s b at initiation prepared given ≡ ok (u, o)
      → get u.in_flight o.id ≡ some o
  begun_flies hs s u b at initiation prepared given o h =
      let begun = begin_occurrence-Begun hs s u b at initiation prepared given o h in
      rw (begun.in_flight) (get-put_self s.in_flight o.id o)

  flying :
      (u t : Instance D) (o : FiringOccurrence D) (r : Record D) (identity : String)
      (path : NetPath) (ts : List (Token D)) (scope : Option LifecycleScope) (a : Acknowledgement)
      → record u { accepted_identities = put u.accepted_identities identity r } ≡ t
      → get u.in_flight o.id ≡ some o
      → accepted_delivery path identity o.id ≡ a
      → answer_prior t identity
          (external_event_delivered o.id (delivered_event path ts identity scope u.watermark))
        ≡ a
  flying u t o r identity path ts scope a last found same = rw (← last, found) same

  begin_delivery-Remembered :
      (hs : Handlers D) (s t : Instance D) (path : NetPath) (ts : List (Token D))
      (identity : String) (target : Option ScopeReference) (at : Option ℕ) (a : Acknowledgement)
      → as_reference (exact_scope target) ≡ target
      → begin_delivery hs s path ts identity (exact_scope target) at ≡ ok (t, a)
      → Remembered a hs t path ts identity target
  unfolding begin_delivery
  begin_delivery-Remembered hs s t path ts identity target at a whole h =
      let scope = exact_scope target in
      let b : Binding D = record { transition = path; consumed = []; read = []; delivered = ts } in
      let initiation : ℕ → ℕ → Record D =
        λ k instant. external_event_delivered k (delivered_event path ts identity scope instant) in
      elim (Result-cases (begin_occurrence hs s b at initiation none scope)) [
        | inr (x, raised) ↦ absurd (ground arith)
        | inl ((u, o), begun) ↦
            let r =
              external_event_delivered o.id (delivered_event path ts identity scope u.watermark) in
            let last : record u { accepted_identities = put u.accepted_identities identity r } ≡ t =
              ground arith in
            record {
              prior = r;
              found =
                  sym (ap (λ (i : Instance D). get i.accepted_identities identity) last)
                  ∙ get-put_self u.accepted_identities identity r;
              answers_it = redelivered hs path ts target r (ap (λ x. (path, ts, x)) whole);
              answer =
                  flying u t o r identity path ts scope a last
                    (begun_flies hs s u b at initiation none scope o begun) (ground arith);
            }
      ]

  recorded-dispositioned :
      (path : NetPath) (ts : List (Token D)) (identity : String) (target : ScopeReference) (at : ℕ)
      (s : Instance D)
      → recorded (dispositioned path ts identity target at (was_spent s target)).0
        ≡ (path, ts, some target)
  recorded-dispositioned path ts identity (named n) at s = refl
  recorded-dispositioned path ts identity (exact g) at s = ground arith

  answer_dispositioned :
      (t : Instance D) (path : NetPath) (ts : List (Token D)) (identity : String)
      (target : ScopeReference) (at : ℕ) (g : Option LifecycleScope) (a : Acknowledgement)
      → (dispositioned path ts identity target at g).1 ≡ a
      → answer_prior t identity (dispositioned path ts identity target at g).0 ≡ a
  answer_dispositioned t path ts identity target at none a h = h
  answer_dispositioned t path ts identity target at (some g) a h = h

  disposition-Remembered :
      (hs : Handlers D) (s t : Instance D) (path : NetPath) (ts : List (Token D))
      (identity : String) (target : ScopeReference) (at : ℕ) (a : Acknowledgement)
      → disposition hs s path ts identity target at ≡ ok (t, a)
      → Remembered a hs t path ts identity (some target)
  unfolding disposition
  disposition-Remembered hs s t path ts identity target at a h =
      let r = (dispositioned path ts identity target at (was_spent s target)).0 in
      elim (Result-cases (writer_records hs (r ∷ []))) [
        | inr (x, raised) ↦ absurd (ground arith)
        | inl (batch, written) ↦
            let last : record (commit s batch at) {
              accepted_identities = put s.accepted_identities identity r;
            }
                ≡ t =
              ground arith in
            record {
              prior = r;
              found =
                  sym (ap (λ (i : Instance D). get i.accepted_identities identity) last)
                  ∙ get-put_self s.accepted_identities identity r;
              answers_it =
                  redelivered hs path ts (some target) r
                    (recorded-dispositioned path ts identity target at s);
              answer =
                  answer_dispositioned t path ts identity target at (was_spent s target) a
                    (ground arith);
            }
      ]

  -- An inactive target is the target, and an active one an exact generation.
  inactive_itself :
      (s : Instance D) (target : Option ScopeReference) (t : ScopeReference)
      → inactive_target s target ≡ some t
      → target ≡ some t
  inactive_itself s none t h = cc
  inactive_itself s (some (named n)) t h = ground arith
  inactive_itself s (some (exact g)) t h = ground arith

  active_exact :
      (s : Instance D) (target : Option ScopeReference)
      → inactive_target s target ≡ none
      → as_reference (exact_scope target) ≡ target
  active_exact s none h = refl
  active_exact s (some (named n)) h = cc
  active_exact s (some (exact g)) h = refl

  accept_new-Remembered :
      (hs : Handlers D) (s t : Instance D) (path : NetPath) (ts : List (Token D))
      (identity : String) (target : Option ScopeReference) (at : Option ℕ) (a : Acknowledgement)
      → accept_new hs s path ts identity target at ≡ ok (t, a)
      → Remembered a hs t path ts identity target
  unfolding accept_new
  accept_new-Remembered hs s t path ts identity target at a h =
      elim (Option-cases (inactive_target s target)) [
        | inl active ↦
            begin_delivery-Remembered hs s t path ts identity target at a
              (active_exact s target active) (ground arith)
        | inr (g, inactive) ↦
            subst (λ x. Remembered a hs t path ts identity x)
              (sym (inactive_itself s target g inactive))
              (disposition-Remembered hs s t path ts identity g (effective s at) a (ground arith))
      ]

  -- The checks before the identity is looked up.
  record Checked (hs : Handlers D) (ts delivered : List (Token D)) (identity : String)
      (target : Option ScopeReference) : Type 0 where
    targeted : check_target {D = D} target ≡ ok tt
    supplied : is_empty ts ≡ false
    canonical : canonical_tokens hs ts ≡ ok delivered
    identified : (identity == "") ≡ false

  accept_delivery-Checked :
      (hs : Handlers D) (s : Instance D) (path : NetPath) (ts : List (Token D)) (identity : String)
      (target : Option ScopeReference) (at : Option ℕ) (r : Instance D × Acknowledgement)
      → accept_delivery hs s path ts identity target at ≡ ok r
      → (delivered : List (Token D)) × Checked hs ts delivered identity target
  unfolding accept_delivery
  accept_delivery-Checked hs s path ts identity target at r h =
      elim (Result-cases (check_target {D = D} target)) [
        | inr (x, raised) ↦ absurd (ground arith)
        | inl (u, targeted) ↦ elim (Result-cases (canonical_tokens hs ts)) [
          | inr (x, raised) ↦ absurd (ground arith)
          | inl (delivered, canonical) ↦ (
            delivered,
            record {
              targeted = targeted;
              supplied = ground arith;
              canonical = canonical;
              identified = ground arith;
            },
          )
        ]
      ]

  -- The rest of the door, by what is remembered of the identity.
  known_identity :
      (hs : Handlers D) (s : Instance D) (path : NetPath) (ts delivered : List (Token D))
      (identity : String) (target : Option ScopeReference) (at : Option ℕ) (prior : Record D)
      → Checked hs ts delivered identity target
      → get s.accepted_identities identity ≡ some prior
      → accept_delivery hs s path ts identity target at ≡ (
          guard (is_redelivery hs path delivered target prior) (identity_conflict identity)
          >> ok (s, answer_prior s identity prior))
  unfolding accept_delivery
  known_identity hs s path ts delivered identity target at prior c found =
      rw (c.targeted, c.supplied, c.canonical, c.identified, found) refl

  new_identity :
      (hs : Handlers D) (s : Instance D) (path : NetPath) (ts delivered : List (Token D))
      (identity : String) (target : Option ScopeReference) (at : Option ℕ)
      → Checked hs ts delivered identity target
      → get s.accepted_identities identity ≡ none
      → accept_delivery hs s path ts identity target at
        ≡ accept_new hs s path delivered identity target at
  unfolding accept_delivery
  new_identity hs s path ts delivered identity target at c fresh =
      rw (c.targeted, c.supplied, c.canonical, c.identified, fresh) refl

  abbrev after_guard :
      Bool
      → RuntimeError D
      → Instance D
      → Acknowledgement
      → Result (RuntimeError D) (Instance D × Acknowledgement)
  after_guard b x s answer = guard b x >> ok (s, answer)

  guarded_same :
      (s t : Instance D) (b : Bool) (x : RuntimeError D) (answer a : Acknowledgement)
      → after_guard b x s answer ≡ ok (t, a)
      → s ≡ t
  guarded_same s t true x answer a h = ground arith
  guarded_same s t false x answer a h = cc

  -- A delivery that is accepted is accepted once: repeated right after it with the same source,
  -- tokens, identity and scope, at any instant, it gives the same answer and leaves the state alone.
  pub accept_delivery_repeated :
      (hs : Handlers D) (s t : Instance D) (path : NetPath) (ts : List (Token D))
      (identity : String) (target : Option ScopeReference) (at later : Option ℕ)
      (a : Acknowledgement)
      → accept_delivery hs s path ts identity target at ≡ ok (t, a)
      → accept_delivery hs t path ts identity target later ≡ ok (t, a)
  accept_delivery_repeated hs s t path ts identity target at later a h =
      let (delivered, c) = accept_delivery-Checked hs s path ts identity target at (t, a) h in
      elim (Option-cases (get s.accepted_identities identity)) [
        | inr (prior, found) ↦
            let known = known_identity hs s path ts delivered identity target at prior c found in
            let last : s ≡ t =
              guarded_same s t (is_redelivery hs path delivered target prior)
                (identity_conflict identity) (answer_prior s identity prior) a (sym known ∙ h) in
            subst
              (λ (u : Instance D). accept_delivery hs u path ts identity target later ≡ ok (t, a))
              last
              (known_identity hs s path ts delivered identity target later prior c found
                ∙ sym known
                ∙ h)
        | inl fresh ↦
            let r =
              accept_new-Remembered hs s t path delivered identity target at a
                (sym (new_identity hs s path ts delivered identity target at c fresh) ∙ h) in
            known_identity hs t path ts delivered identity target later r.prior c r.found
            ∙ rw (r.answers_it, r.answer) refl
      ]
