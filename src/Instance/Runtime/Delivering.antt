-- ===== src/Instance/Runtime/Delivering.antt =====
-- The delivery door of src/petrus/impetus/instance/__init__.py: `accept_delivery` and `seal`.
use petrus.Base.{
  ℕ, String, Bool, true, false, ◌&&◌, not, Option, none, some, List, [], ◌∷◌, map, Eq, ◌==◌, nat_eq,
  string_eq, option_eq, list_eq, pair_eq, ltb, if◌then◌else◌, Result, ok, ◌>>=◌, ◌>>◌, guard,
  or_raise, get, put, or_else, is_empty,
}
use petrus.Petrinet.Token.{Token, NetPath, LifecycleScope, scope_eq}
use petrus.Petrinet.Net.{in_dict, is_source, is_none}
use petrus.Petrinet.Path.{dotted, sorted}
use petrus.Petrinet.Enabledness.{Binding}
use petrus.History.{
  Delivery, Record, ScopeReference, exact, named, external_event_delivered, scoped_delivery_dropped,
  scoped_delivery_quarantined, delivery_registration_closed,
}
use petrus.History.Registrations.{keys_of}
use petrus.Instance.Runtime.{
  is_name, Instance, Handlers, RuntimeError, invalid_name, empty_delivery, empty_identity,
  identity_conflict, non_canonical, unknown_transition, not_source, not_armed, writer_records,
  effective, commit,
}
use petrus.Instance.Runtime.Beginning.{begin_occurrence}

-- `AcceptedDelivery`, `PriorAcknowledgement` and `ScopedDeliveryAcknowledgement`.
pub data Acknowledgement : Type 0 where
  accepted_delivery : NetPath → String → ℕ → Acknowledgement
  prior_acknowledgement : String → ℕ → Acknowledgement
  dropped : String → LifecycleScope → Acknowledgement
  quarantined : String → ScopeReference → Acknowledgement

abbrev pub same_reference : Option ScopeReference → Option ScopeReference → Bool
same_reference none none = true
same_reference (some (exact s)) (some (exact t)) = s == t
same_reference (some (named n)) (some (named m)) = n == m
same_reference _ _ = false

-- `sorted(keys)`: a key alone is a path whose text is the key.
abbrev pub sorted_keys : List String → List String
sorted_keys ks = map dotted (sorted (map (λ k. k ∷ []) ks))

-- An uncertain scope is a name.
abbrev pub check_target : {D : Type 0} → Option ScopeReference → Result (RuntimeError D) (Unit {0})
check_target (some (named n)) = guard (is_name n) (invalid_name n)
check_target _ = ok tt

abbrev pub as_reference : Option LifecycleScope → Option ScopeReference
as_reference none = none
as_reference (some s) = some (exact s)

-- The exact generation that a target names.
abbrev pub exact_scope : Option ScopeReference → Option LifecycleScope
exact_scope (some (exact s)) = some s
exact_scope _ = none

module _ {D : Type 0} where
  -- `_canonical_delivery_tokens`
  unfoldable pub canonical_tokens :
      Handlers D → List (Token D) → Result (RuntimeError D) (List (Token D))
  canonical_tokens hs [] = ok []
  canonical_tokens hs (t ∷ ts) = or_raise (hs.canonical_payload t.payload) non_canonical >>= λ x.
      canonical_tokens hs ts >>= λ rest. ok (record t { payload = x } ∷ rest)

  -- `_delivery_content_text`, as the colors and the texts of the payloads.
  abbrev pub content : Handlers D → List (Token D) → List (Option String × String)
  content hs ts = map (λ (t : Token D). (t.color, hs.payload_text t.payload)) ts

  -- The source, the tokens and the scope of a recorded delivery.
  abbrev pub recorded : Record D → NetPath × List (Token D) × Option ScopeReference
  recorded (external_event_delivered k d) = (d.source, d.tokens, as_reference d.scope)
  recorded (scoped_delivery_dropped d) = (d.source, d.tokens, some (exact d.scope))
  recorded (scoped_delivery_quarantined d) = (d.source, d.tokens, some d.scope)
  recorded _ = ([], [], none)

  abbrev pub is_redelivery :
      Handlers D → NetPath → List (Token D) → Option ScopeReference → Record D → Bool
  is_redelivery hs path delivered target r =
      let (source, tokens, scope) = recorded r in
      source == path && content hs tokens == content hs delivered && same_reference scope target

  -- The answer to a redelivery.
  abbrev pub answer_prior : Instance D → String → Record D → Acknowledgement
  answer_prior s identity (scoped_delivery_dropped d) = dropped identity d.scope
  answer_prior s identity (scoped_delivery_quarantined d) = quarantined identity d.scope
  answer_prior s identity (external_event_delivered k d) =
      if is_none (get s.in_flight k)
      then prior_acknowledgement identity k
      else accepted_delivery d.source d.identity k
  answer_prior s identity _ = prior_acknowledgement identity 0

  abbrev pub delivered_event :
      NetPath
      → List (Token D)
      → String
      → Option LifecycleScope
      → ℕ
      → Delivery D (Option LifecycleScope)
  delivered_event path ts identity scope at = record {
    source = path;
    tokens = ts;
    identity = identity;
    scope = scope;
    instant = at;
  }

  -- Whether the target is a generation that was spent.
  abbrev pub was_spent : Instance D → ScopeReference → Option LifecycleScope
  was_spent s (named n) = none
  was_spent s (exact g) =
      if ltb (or_else (get s.scope_generations g.name) 0) g.generation then none else some g

  -- The record and the answer of a delivery whose scope is not active.
  abbrev pub dispositioned :
      NetPath
      → List (Token D)
      → String
      → ScopeReference
      → ℕ
      → Option LifecycleScope
      → Record D × Acknowledgement
  dispositioned path ts identity target at (some g) = (
    scoped_delivery_dropped
        (record { source = path; tokens = ts; identity = identity; scope = g; instant = at }),
    dropped identity g,
  )
  dispositioned path ts identity target at none = (
    scoped_delivery_quarantined
        (record { source = path; tokens = ts; identity = identity; scope = target; instant = at }),
    quarantined identity target,
  )

  unfoldable pub disposition :
      Handlers D
      → Instance D
      → NetPath
      → List (Token D)
      → String
      → ScopeReference
      → ℕ
      → Result (RuntimeError D) (Instance D × Acknowledgement)
  disposition hs s path ts identity target instant =
      let (r, answer) = dispositioned path ts identity target instant (was_spent s target) in
      writer_records hs (r ∷ []) >>= λ batch. ok (
        record (commit s batch instant) {
          accepted_identities = put s.accepted_identities identity r;
        },
        answer,
      )

  -- The target, where it is not an active generation.
  abbrev pub inactive_target : Instance D → Option ScopeReference → Option ScopeReference
  inactive_target s none = none
  inactive_target s (some (named n)) = some (named n)
  inactive_target s (some (exact g)) =
      if get s.active_scopes g.name == some g then none else some (exact g)

module _ {D : Type 0} ⦃e : Eq D⦄ where
  -- The acceptance itself, and the start of its occurrence.
  unfoldable pub begin_delivery :
      Handlers D
      → Instance D
      → NetPath
      → List (Token D)
      → String
      → Option LifecycleScope
      → Option ℕ
      → Result (RuntimeError D) (Instance D × Acknowledgement)
  begin_delivery hs s path ts identity scope at =
      let b : Binding D = record { transition = path; consumed = []; read = []; delivered = ts } in
      begin_occurrence hs s b at
        (λ k instant. external_event_delivered k (delivered_event path ts identity scope instant))
        none scope
      >>= λ begun. ok (
        record begun.0 {
          accepted_identities = put begun.0.accepted_identities identity (
              external_event_delivered begun.1.id
                (delivered_event path ts identity scope begun.0.watermark));
        },
        accepted_delivery path identity begun.1.id,
      )

  -- What follows once the identity is new.
  unfoldable pub accept_new :
      Handlers D
      → Instance D
      → NetPath
      → List (Token D)
      → String
      → Option ScopeReference
      → Option ℕ
      → Result (RuntimeError D) (Instance D × Acknowledgement)
  accept_new hs s path ts identity target at =
      guard (in_dict path s.net.transitions) (unknown_transition path)
      >> (guard (is_source s.net path) (not_source path) >> elim (inactive_target s target) [
        | some t ↦ disposition hs s path ts identity t (effective s at)
        | none ↦
            guard (not (is_empty (keys_of s.armed path))) (not_armed path)
            >> begin_delivery hs s path ts identity (exact_scope target) at
      ])

  unfoldable pub accept_delivery :
      Handlers D
      → Instance D
      → NetPath
      → List (Token D)
      → String
      → Option ScopeReference
      → Option ℕ
      → Result (RuntimeError D) (Instance D × Acknowledgement)
  accept_delivery hs s path tokens identity target at = do
    check_target target
    guard (not (is_empty tokens)) (empty_delivery path)
    delivered ← canonical_tokens hs tokens
    guard (not (identity == "")) (empty_identity path)
    let fresh = accept_new hs s path delivered identity target at
    elim (get s.accepted_identities identity) [
      | some prior ↦
          guard (is_redelivery hs path delivered target prior) (identity_conflict identity)
          >> ok (s, answer_prior s identity prior)
      | none ↦ fresh
    ]

module _ {D : Type 0} where
  -- `seal`: one close for each armed key, in key order.
  unfoldable pub seal :
      Handlers D → Instance D → NetPath → Option ℕ → Result (RuntimeError D) (Instance D)
  seal hs s path at = do
    guard (in_dict path s.net.transitions) (unknown_transition path)
    guard (is_source s.net path) (not_source path)
    guard (not (is_empty (keys_of s.armed path))) (not_armed path)
    let instant = effective s at
    batch ← writer_records hs (
        map (λ key. delivery_registration_closed none path key instant)
          (sorted_keys (keys_of s.armed path)))
    ok (record (commit s batch instant) { armed = put s.armed path [] })
