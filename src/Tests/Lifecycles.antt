-- ===== src/Tests/Lifecycles.antt =====
-- The theorems on scopes, registrations, deliveries and cancellations, at concrete histories.
use petrus.Base.{
  ◌⊎◌, true, false, any, ℕ, ◌+◌, ◌≤◌, ◌≡◌, refl, String, true, Option, none, some, List, [], ◌∷◌,
  nat_eq, string_eq, list_eq, ok, count, flat_map, All, Dict, get, UniqueKeys,
}
use petrus.Petrinet.Token.{LifecycleScope}
use petrus.History.{
  Record, Delivery, instance_created, scope_opened, scope_reset, external_event_delivered,
  delivery_registration_opened, delivery_registration_closed, firing_begun, firing_completed,
}
use petrus.History.Queues.{range_from}
use petrus.History.Identity.{is_created, replay_instance_identity, replay_instance_identity_lem}
use petrus.History.Scopes.{Scopes, spent, replay_scopes, is_successor}
use petrus.History.Scopes.Generations.{
  opened_under, replay_scopes-opened_under, replay_scopes-active,
}
use petrus.History.Registrations.{replay_armed}
use petrus.History.Registrations.Armed.{armed_once, opens_of, closes_of, replay_armed-opens_of}
use petrus.History.Registrations.Accepted.{
  replay_accepted_identities, deliveries, replay_accepted_identities-deliveries,
}
use petrus.History.Cancellation.{
  cancelled_by, first_cancelled, replay_cancellation_positions, replay_cancellation_positions_lem,
}
use petrus.Tests.{one_one, step}

abbrev generation : ℕ → LifecycleScope
generation n = record { name = "cart"; generation = n }

abbrev reset_history : List (Record ℕ)
reset_history =
    instance_created "order-1" none 5
    ∷ scope_opened (generation 1) 5
    ∷ scope_reset (generation 1) (generation 2) [] (3 ∷ []) 6
    ∷ []

abbrev second_active : Scopes
second_active = record { active = ("cart", generation 2) ∷ []; generations = ("cart", 2) ∷ [] }

reset_history-replays : replay_scopes reset_history ≡ ok second_active
unfolding replay_scopes petrus.Base.fold_result petrus.History.Scopes.scope_step get petrus.Base.put
    petrus.Petrinet.Token.scope_beq
reset_history-replays = refl

replay_scopes-opened_under_example :
    opened_under "cart" reset_history ≡ range_from 1 (spent second_active "cart")
replay_scopes-opened_under_example =
    replay_scopes-opened_under reset_history second_active "cart" (tt, (tt, (refl, tt)))
      reset_history-replays

second-active : get second_active.active "cart" ≡ some (generation 2)
unfolding get
second-active = refl

replay_scopes-active_example :
    ((generation 2).name ≡ "cart")
    × (opened_under "cart" reset_history ≡ range_from 1 (generation 2).generation)
replay_scopes-active_example =
    replay_scopes-active reset_history second_active "cart" (generation 2) (tt, (tt, (refl, tt)))
      reset_history-replays second-active

abbrev third_cancelled : Dict ℕ ℕ
third_cancelled = (3, 3) ∷ []

reset_history-cancels : replay_cancellation_positions reset_history ≡ ok third_cancelled
unfolding replay_cancellation_positions petrus.History.Cancellation.cancellation_loop
    petrus.History.Cancellation.cancel_each get petrus.Base.put
reset_history-cancels = refl

replay_cancellation_positions_lem_example :
    (get third_cancelled 3 ≡ first_cancelled 3 1 reset_history)
    × (count 3 (flat_map cancelled_by reset_history) ≤ 1)
replay_cancellation_positions_lem_example =
    replay_cancellation_positions_lem reset_history third_cancelled 3 reset_history-cancels

-- One delivery to an armed source, whose firing closes the registration.
abbrev order : Delivery ℕ (Option LifecycleScope)
order = record { source = step; tokens = one_one; identity = "evt-1"; scope = none; instant = 6 }

abbrev delivered : List (Record ℕ)
delivered =
    instance_created "order-1" none 5
    ∷ delivery_registration_opened none step "default" 5
    ∷ external_event_delivered 1 order
    ∷ firing_begun 1 step none 6
    ∷ delivery_registration_closed (some 1) step "default" 7
    ∷ firing_completed 1 step 7
    ∷ []

delivered-armed : replay_armed delivered ≡ ok ((step, []) ∷ [])
unfolding replay_armed petrus.History.Registrations.validate_batches petrus.Base.fold_result
    petrus.History.Registrations.batch_step petrus.History.Registrations.start_batch get
    petrus.Base.put petrus.History.Registrations.continue_batch petrus.History.instant_of
    petrus.Base.list_beq petrus.History.Registrations.registration_step
    petrus.History.Registrations.advance_initial_batch
    petrus.History.Registrations.apply_delivery_registration petrus.Base.contains
    petrus.History.Registrations.check_initial petrus.Base.filter
delivered-armed = refl

replay_armed-opens_of_example :
    opens_of step "default" delivered
    ≡ closes_of step "default" delivered + armed_once ((step, []) ∷ []) step "default"
replay_armed-opens_of_example =
    replay_armed-opens_of delivered ((step, []) ∷ []) step "default" delivered-armed

abbrev accepted_order : Dict String (Record ℕ)
accepted_order = ("evt-1", external_event_delivered 1 order) ∷ []

delivered-accepted : replay_accepted_identities delivered ≡ ok accepted_order
unfolding replay_accepted_identities petrus.History.Registrations.validate_batches
    petrus.Base.fold_result petrus.History.Registrations.batch_step
    petrus.History.Registrations.start_batch get petrus.Base.put
    petrus.History.Registrations.continue_batch petrus.History.instant_of petrus.Base.list_beq
    petrus.History.Registrations.Accepted.accept_loop petrus.History.Registrations.registration_step
    petrus.History.Registrations.advance_initial_batch
    petrus.History.Registrations.apply_delivery_registration
    petrus.History.Registrations.Accepted.accept_delivery petrus.Base.contains
    petrus.History.Registrations.check_initial petrus.History.Registrations.Accepted.accept
    petrus.Base.filter petrus.History.Registrations.effect_occurrences petrus.History.occurrence_of
    petrus.Petrinet.Token.scope_beq
delivered-accepted = refl

replay_accepted_identities-deliveries_example :
    (accepted_order ≡ deliveries delivered) × UniqueKeys (deliveries delivered)
replay_accepted_identities-deliveries_example =
    replay_accepted_identities-deliveries delivered accepted_order delivered-accepted

abbrev creation : Option (Record ℕ)
creation = some (instance_created "order-1" none 5)

delivered-identity : replay_instance_identity delivered ≡ ok creation
unfolding replay_instance_identity petrus.History.Identity.identity_loop
delivered-identity = refl

replay_instance_identity_lem_example :
    ((delivered ≡ []) × (creation ≡ none))
    ⊎ ((r : Record ℕ) × (rs : List (Record ℕ)) × (delivered ≡ r ∷ rs)
        × (creation ≡ some r)
        × (is_created r ≡ true)
        × (any is_created rs ≡ false))
replay_instance_identity_lem_example =
    replay_instance_identity_lem delivered creation delivered-identity
