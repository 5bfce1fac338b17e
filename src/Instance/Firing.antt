-- ===== src/Instance/Firing.antt =====
-- `begin_firing` and `complete_firing` of src/petrus/impetus/instance/firing.py: the records of a
-- firing's two batches, with the marking that the kernel leaves.
pub mod Replay
pub mod Completion
pub mod Restored
use petrus.Base.{
  ℕ, String, Option, none, some, List, [], ◌∷◌, ◌++◌, map, Eq, flat_map, Result, ok, ◌>>=◌,
}
use petrus.Petrinet.Token.{Token, NetPath, LifecycleScope}
use petrus.Petrinet.Marking.{Marking, MarkingError}
use petrus.Petrinet.Net.{Net}
use petrus.Petrinet.Enabledness.{Selection, Binding}
use petrus.Petrinet.Firing.{BeginEffect, consumed_tokens, read_tokens, ProducedTokens}
use petrus.Petrinet.Firing
use petrus.History.{
  Movement, Record, ActivityRequest, firing_begun, tokens_consumed, tokens_read, tokens_produced,
  delivery_registration_opened, delivery_registration_closed, firing_completed,
}

pub record ActivityInvocation (D : Type 0) : Type 0 where
  pub activity : String
  pub input : D
  pub policy : D
  pub correlation : String
  pub idempotency : String

pub record FiringOccurrence (D : Type 0) : Type 0 where
  pub id : ℕ
  pub binding : Binding D
  pub records : List (Record D)
  pub invocation : Option (ActivityInvocation D)
  pub scope : Option LifecycleScope

pub record FiringOutcome (D : Type 0) : Type 0 where
  pub transition : NetPath
  pub occurrence : ℕ
  pub consumed : List (Token D)
  pub produced : List (NetPath × Token D)
  pub records : List (Record D)

pub record DeliveryRegistration : Type 0 where
  pub source : NetPath
  pub key : String

-- The tokens, the closed and the opened registrations that a handler returns.
pub record HandlerResult (D : Type 0) : Type 0 where
  pub tokens : List (Selection D)
  pub closes : List DeliveryRegistration
  pub opens : List DeliveryRegistration

module _ {D : Type 0} where
  -- A movement that names no queue entries.
  abbrev pub unscoped : NetPath → List (Token D) → ℕ → Movement D
  unscoped p ts at = record { place = p; tokens = ts; entries = []; scope = none; instant = at }

  abbrev pub begin_record : ℕ → ℕ → BeginEffect D → Record D
  begin_record k at (consumed_tokens p ts) = tokens_consumed k (unscoped p ts at)
  begin_record k at (read_tokens p ts) = tokens_read k (unscoped p ts at)

  abbrev pub begin_records : ℕ → ℕ → NetPath → List (BeginEffect D) → List (Record D)
  begin_records k at t effects = firing_begun k t none at ∷ map (begin_record k at) effects

  abbrev pub produced_records : ℕ → ℕ → List (ProducedTokens D) → List (Record D)
  produced_records k at effects =
      map (λ (x : ProducedTokens D). tokens_produced k (unscoped x.place x.tokens at)) effects

  abbrev pub registration_records : ℕ → ℕ → HandlerResult D → List (Record D)
  registration_records k at r =
      map (λ (x : DeliveryRegistration). delivery_registration_closed (some k) x.source x.key at)
        r.closes
      ++ map (λ (x : DeliveryRegistration). delivery_registration_opened (some k) x.source x.key at)
          r.opens

  -- The end batch of a firing.
  abbrev pub end_records :
      ℕ → ℕ → NetPath → HandlerResult D → List (ProducedTokens D) → List (Record D)
  end_records k at t r effects =
      produced_records k at effects ++ (registration_records k at r ++ firing_completed k t at ∷ [])

  unfoldable pub complete_firing :
      Net
      → Marking D
      → FiringOccurrence D
      → HandlerResult D
      → ℕ
      → Marking D × FiringOutcome D × List (Record D)
  complete_firing net m occurrence result at =
      let t = occurrence.binding.transition in
      let (effects, n) = Firing.complete_firing net m t result.tokens in
      let appended = end_records occurrence.id at t result effects in
      (
        n,
        record {
          transition = t;
          occurrence = occurrence.id;
          consumed = flat_map (λ (s : Selection D). s.1) occurrence.binding.consumed;
          produced =
              flat_map (λ (x : ProducedTokens D). map (λ (y : Token D). (x.place, y)) x.tokens)
                effects;
          records = occurrence.records ++ appended;
        },
        appended,
      )

module _ {D : Type 0} ⦃e : Eq D⦄ where
  unfoldable pub begin_firing :
      Marking D → Binding D → ℕ → ℕ → Result (MarkingError D) (Marking D × List (Record D))
  begin_firing m b k at =
      Firing.begin_firing m b >>= λ done. ok (done.1, begin_records k at b.transition done.0)
