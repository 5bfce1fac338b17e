-- ===== src/History/Registrations.antt =====
-- The delivery registrations of src/petrus/impetus/history/__init__.py: `replay_armed`,
-- `replay_accepted_identities` and their validations. That token data is strict JSON is not
-- checked: payloads are a type of their own here.
pub mod Armed
pub mod Accepted
use petrus.Base.{
  ℕ, zero, suc, String, Bool, true, false, ◌&&◌, ◌||◌, not, Option, none, some, List, [], ◌∷◌, ◌++◌,
  ◌==◌, nat_eq, string_eq, option_eq, list_eq, ltb, if◌then◌else◌, Result, ok, err, ◌>>=◌, ◌>>◌,
  guard, fold_result, Dict, get, put, or_else, contains, filter, head?, is_empty,
}
use petrus.Petrinet.Token.{NetPath, LifecycleScope, scope_eq}
use petrus.Petrinet.Net.{is_none}
use petrus.History.{
  Movement, Delivery, Record, instance_created, tokens_initialized, external_event_delivered,
  scoped_delivery_dropped, scoped_delivery_quarantined, delivery_registration_opened,
  delivery_registration_closed, firing_begun, tokens_produced, firing_completed, instant_of,
  occurrence_of,
}

-- Replay divergence.
pub data RegistrationError : Type 0 where
  not_in_batch : ℕ → RegistrationError
  opened_armed closed_unarmed outside_construction not_default other_instant :
      NetPath → String → RegistrationError
  tokens_outside_prefix : RegistrationError
  empty_tokens unarmed_source not_begun accepted_twice : String → RegistrationError

-- A completion batch that is under way: its occurrence, its instant, and the rank of its last record.
pub record Batch : Type 0 where
  pub occurrence : ℕ
  pub instant : ℕ
  pub rank : ℕ

pub record Batches : Type 0 where
  pub begun : Dict ℕ NetPath
  pub active : Option Batch

-- The armed keys of each source, and how far the construction batch has got.
pub record Registrations : Type 0 where
  pub armed : Dict NetPath (List String)
  pub initial_batch : Bool
  pub started : Bool

-- `armed.get(source, set())`
abbrev pub keys_of : Dict NetPath (List String) → NetPath → List String
keys_of armed source = or_else (get armed source) []

-- The conditions on an open that no firing caused.
unfoldable pub check_initial :
    Registrations → ℕ → Option ℕ → NetPath → String → ℕ → Result RegistrationError (Unit {0})
check_initial x initial_instant (some k) source key at = ok tt
check_initial x initial_instant none source key at = do
  guard x.initial_batch (outside_construction source key)
  guard (key == "default") (not_default source key)
  guard (at == initial_instant) (other_instant source key)

module _ {D : Type 0} where
  -- The occurrences that a registration effect is correlated with.
  unfoldable pub effect_occurrences : List (Record D) → List ℕ
  effect_occurrences [] = []
  effect_occurrences (delivery_registration_opened (some k) source key at ∷ rs) =
      k ∷ effect_occurrences rs
  effect_occurrences (delivery_registration_closed (some k) source key at ∷ rs) =
      k ∷ effect_occurrences rs
  effect_occurrences (_ ∷ rs) = effect_occurrences rs

  abbrev pub rank_of : Record D → Option ℕ
  rank_of (tokens_produced k m) = some 0
  rank_of (delivery_registration_closed o source key at) = some 1
  rank_of (delivery_registration_opened o source key at) = some 2
  rank_of _ = none

  -- The `FiringCompleted` that ends the batch.
  abbrev pub ends_batch : Batches → Batch → Record D → Bool
  ends_batch x b (firing_completed k t at) =
      k == b.occurrence && (at == b.instant && get x.begun b.occurrence == some t)
  ends_batch x b _ = false

  -- A record inside a batch.
  unfoldable pub continue_batch : Batches → Batch → Record D → Result RegistrationError Batches
  continue_batch x b r =
      if ends_batch x b r then ok (record x { active = none }) else elim (rank_of r) [
        | none ↦ err (not_in_batch b.occurrence)
        | some rank ↦
            guard
              (occurrence_of r == some b.occurrence
                && (instant_of r == b.instant && not (ltb rank b.rank)))
              (not_in_batch b.occurrence)
            >> ok (record x { active = some (record b { rank = rank }) })
      ]

  abbrev pub with_begun : Batches → Record D → Batches
  with_begun x (firing_begun k t s at) = record x { begun = put x.begun k t }
  with_begun x _ = x

  -- The occurrence and the rank of a record that starts a batch.
  abbrev pub starts_batch : List ℕ → Record D → Option (ℕ × ℕ)
  starts_batch effects (tokens_produced k m) = if contains k effects then some (k, 0) else none
  starts_batch effects (delivery_registration_opened (some k) source key at) = some (k, 2)
  starts_batch effects (delivery_registration_closed (some k) source key at) = some (k, 1)
  starts_batch effects _ = none

  unfoldable pub start_batch : List ℕ → Batches → Record D → Result RegistrationError Batches
  start_batch effects x r = elim (starts_batch effects r) [
    | none ↦ ok (with_begun x r)
    | some (k, rank) ↦
        guard (not (is_none (get x.begun k))) (not_in_batch k)
        >> ok (record x {
          active = some (record { occurrence = k; instant = instant_of r; rank = rank });
        })
  ]

  unfoldable pub batch_step : List ℕ → Batches → Record D → Result RegistrationError Batches
  batch_step effects x r = elim x.active [
    | none ↦ start_batch effects x r
    | some b ↦ continue_batch x b r
  ]

  -- `_validate_correlated_delivery_registration_batches`
  unfoldable pub validate_batches : List (Record D) → Result RegistrationError (Unit {0})
  validate_batches history =
      fold_result (batch_step (effect_occurrences history)) (record { begun = []; active = none })
        history
      >>= λ x. elim x.active [ none ↦ ok tt | some b ↦ err (not_in_batch b.occurrence) ]

  -- `_advance_initial_registration_batch`
  unfoldable pub advance_initial_batch :
      Registrations → Record D → Result RegistrationError Registrations
  advance_initial_batch x (delivery_registration_opened none source key at) =
      ok (record x { started = true })
  advance_initial_batch x (tokens_initialized m) =
      guard (x.initial_batch && not x.started) tokens_outside_prefix >> ok x
  advance_initial_batch x (instance_created i n at) = ok x
  advance_initial_batch x _ = ok (record x { initial_batch = false })

  -- `_apply_delivery_registration`
  unfoldable pub apply_delivery_registration :
      Registrations → ℕ → Record D → Result RegistrationError Registrations
  apply_delivery_registration x initial_instant (delivery_registration_opened o source key at) =
      guard (not (contains key (keys_of x.armed source))) (opened_armed source key)
      >> (check_initial x initial_instant o source key at
          >> ok (record x { armed = put x.armed source (keys_of x.armed source ++ key ∷ []) }))
  apply_delivery_registration x initial_instant (delivery_registration_closed o source key at) =
      guard (contains key (keys_of x.armed source)) (closed_unarmed source key)
      >> ok (record x {
        armed = put x.armed source (filter (λ k. not (k == key)) (keys_of x.armed source));
      })
  apply_delivery_registration x initial_instant _ = ok x

  -- One turn of the loop of `replay_armed`.
  unfoldable pub registration_step :
      ℕ → Registrations → Record D → Result RegistrationError Registrations
  registration_step initial_instant x r =
      advance_initial_batch x r >>= λ y. apply_delivery_registration y initial_instant r

  abbrev pub first_instant : List (Record D) → ℕ
  first_instant [] = 0
  first_instant (r ∷ rs) = instant_of r

  unfoldable pub replay_armed :
      List (Record D) → Result RegistrationError (Dict NetPath (List String))
  replay_armed history =
      validate_batches history
      >> (fold_result (registration_step (first_instant history))
            (record { armed = []; initial_batch = true; started = false }) history
          >>= λ x. ok x.armed)
