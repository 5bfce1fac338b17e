-- ===== src/Tests/Replays.antt =====
-- The theorems on histories, at a history of one firing.
use petrus.Base.{
  ℕ, ◌+◌, ◌≤◌, ◌<◌, ◌≡◌, ◌↔◌, ◌⊎◌, refl, ap, inl, inr, String, Bool, true, false, Option, none,
  some, List, [], ◌∷◌, ◌++◌, arith, Eq, ◌==◌, nat_eq, list_eq, string_eq, option_eq, ok, count,
  flat_map, In, All, Dict, get, list_beq, fold_result, UniqueKeys, Bool-cases, list_beq_iff,
  or_else,
}
use petrus.Petrinet.Token.{Token, NetPath, LifecycleScope, token_eq}
use petrus.Petrinet.Queue.{tokens}
use petrus.Petrinet.Marking.{Marking, place}
use petrus.History.{
  Record, Movement, Delivery, validate_entries, instance_created, tokens_initialized, scope_opened,
  scope_closed, scope_reset, external_event_delivered, delivery_registration_opened,
  delivery_registration_closed, firing_begun, firing_completed, tokens_consumed, instant_of,
  occurrence_of,
}
use petrus.History.Queues.{
  replay_marking, Projection, empty_projection, replay_step, replay_projection, range_from,
  queue_at,
}
use petrus.History.Queues.WellFormed.{IsWellFormed, replay_projection-IsWellFormed}
use petrus.History.Clock.{
  replay_watermark, replay_next_occurrence, Monotone, replay_watermark_iff, replay_watermark-In,
  replay_next_occurrence_fresh, replay_next_occurrence_attained,
}
use petrus.Instance.Firing.{
  unscoped, begin_firing, complete_firing, FiringOccurrence, HandlerResult,
}
use petrus.Instance.Firing.Restored.{replay_marking-begin_firing, replay_marking-complete_firing}
use petrus.Tests.{black, one_one, start, started, first_place, second_place, step, small_net, moves}

abbrev created : Record ℕ
created = instance_created "order-1" none 5

abbrev initialized : Record ℕ
initialized = tokens_initialized (unscoped first_place (black 1 ∷ black 2 ∷ []) 5)

abbrev one_firing : List (Record ℕ)
one_firing =
    created
    ∷ initialized
    ∷ firing_begun 1 step none 6
    ∷ tokens_consumed 1 (unscoped first_place one_one 6)
    ∷ firing_completed 1 step 7
    ∷ []

abbrev two_queued : Projection ℕ
two_queued = record {
  queues =
      (
        first_place,
        record { token = black 1; instant = 5; identity = some 1; scope = none }
            ∷ record { token = black 2; instant = 5; identity = some 2; scope = none }
            ∷ [],
      )
      ∷ [];
  next_identity = 3;
  spent = 1 ∷ 2 ∷ [];
}

initialized-valid : validate_entries (unscoped first_place (black 1 ∷ black 2 ∷ []) 5) ≡ ok tt
unfolding validate_entries petrus.Base.all petrus.History.is_unique
initialized-valid = refl

initialized-replays : replay_projection (created ∷ initialized ∷ []) ≡ ok two_queued
unfolding replay_projection fold_result replay_step petrus.History.Queues.apply_movement
    petrus.History.Queues.deposit_step petrus.Base.any range_from petrus.Base.contains
    petrus.History.Queues.apply_deposit petrus.History.Queues.deposit_with
    petrus.History.Queues.all_ids petrus.Base.put petrus.History.Queues.deposit_entries
    petrus.Petrinet.Queue.deposit get
initialized-replays = refl

two_queued-IsWellFormed : IsWellFormed two_queued
two_queued-IsWellFormed =
    replay_projection-IsWellFormed (created ∷ initialized ∷ []) two_queued
      (tt, (initialized-valid, tt)) initialized-replays

replay_projection-IsWellFormed_example : IsWellFormed two_queued
replay_projection-IsWellFormed_example =
    replay_projection-IsWellFormed (created ∷ initialized ∷ []) two_queued
      (tt, (initialized-valid, tt)) initialized-replays

two_queued-Simulates : (p : NetPath) → tokens (queue_at two_queued.queues p) ≡ place start p
unfolding place get
two_queued-Simulates p = elim (Bool-cases (first_place == p)) [
  | inl here ↦ rw here refl
  | inr there ↦ rw there refl
]

start-begins :
    begin_firing start (moves 1) 1 6
    ≡ ok (
      started,
      firing_begun 1 step none 6 ∷ tokens_consumed 1 (unscoped first_place one_one 6) ∷ [],
    )
unfolding begin_firing petrus.Petrinet.Firing.begin_firing petrus.Petrinet.Firing.consume_all
    petrus.Petrinet.Marking.consume petrus.Petrinet.Queue.remove petrus.Petrinet.Queue.remove_loop
    petrus.Petrinet.Queue.delete_first get list_beq petrus.Petrinet.Token.token_beq
    petrus.Petrinet.Firing.check_reads petrus.Base.keep petrus.Base.put
start-begins = refl

abbrev first_firing : FiringOccurrence ℕ
first_firing = record { id = 1; binding = moves 1; records = []; invocation = none; scope = none }

abbrev moved_on : HandlerResult ℕ
moved_on = record { tokens = (second_place, one_one) ∷ []; closes = []; opens = [] }

replay_watermark_iff_example :
    (replay_watermark one_firing ≡ ok 7)
    ↔ Monotone 5 (
        initialized
        ∷ firing_begun 1 step none 6
        ∷ tokens_consumed 1 (unscoped first_place one_one 6)
        ∷ firing_completed 1 step 7
        ∷ [])
unfolding instant_of
replay_watermark_iff_example = replay_watermark_iff created (
    initialized
    ∷ firing_begun 1 step none 6
    ∷ tokens_consumed 1 (unscoped first_place one_one 6)
    ∷ firing_completed 1 step 7
    ∷ [])

one_firing-watermark : replay_watermark one_firing ≡ ok 7
unfolding replay_watermark instant_of
one_firing-watermark = refl

replay_watermark-In_example : instant_of created ≤ 7
replay_watermark-In_example =
    replay_watermark-In one_firing 7 created one_firing-watermark (inl refl)

begun-occurrence : occurrence_of {D = ℕ} (firing_begun 1 step none 6) ≡ some 1
unfolding occurrence_of
begun-occurrence = refl

replay_next_occurrence_fresh_example : 1 < replay_next_occurrence one_firing
replay_next_occurrence_fresh_example =
    replay_next_occurrence_fresh one_firing (firing_begun 1 step none 6) 1 (inr (inr (inl refl)))
      begun-occurrence

replay_next_occurrence_attained_example :
    (replay_next_occurrence one_firing ≡ 1)
    ⊎ ((r : Record ℕ) × (k : ℕ) × In r one_firing
        × (occurrence_of r ≡ some k)
        × (replay_next_occurrence one_firing ≡ k + 1))
replay_next_occurrence_attained_example = replay_next_occurrence_attained one_firing

initialized-restores : replay_marking (created ∷ initialized ∷ []) ≡ ok start
unfolding replay_marking petrus.History.Queues.replay_queues replay_projection fold_result
    replay_step petrus.History.Queues.apply_movement petrus.History.Queues.deposit_step
    petrus.Base.any range_from petrus.Base.contains petrus.History.Queues.apply_deposit
    petrus.History.Queues.deposit_with petrus.History.Queues.all_ids
    petrus.History.Queues.marking_of petrus.Petrinet.Marking.marking petrus.Base.keep
    petrus.Base.put petrus.History.Queues.deposit_entries get petrus.Petrinet.Queue.deposit
    petrus.Base.pop list_beq
initialized-restores = refl

replay_marking-begin_firing_example :
    (n' : Marking ℕ) × (replay_marking (
        created
        ∷ initialized
        ∷ firing_begun 1 step none 6
        ∷ tokens_consumed 1 (unscoped first_place one_one 6)
        ∷ [])
      ≡ ok n')
    × ((j : NetPath) → place n' j ≡ place started j)
replay_marking-begin_firing_example =
    replay_marking-begin_firing (created ∷ initialized ∷ []) start started (moves 1) 1 6
      (firing_begun 1 step none 6 ∷ tokens_consumed 1 (unscoped first_place one_one 6) ∷ [])
      initialized-restores start-begins

replay_marking-complete_firing_example :
    (n' : Marking ℕ) × (replay_marking (
        (created ∷ initialized ∷ []) ++ (complete_firing small_net start first_firing moved_on 7).2)
      ≡ ok n')
    × ((j : NetPath)
        → place n' j ≡ place (complete_firing small_net start first_firing moved_on 7).0 j)
replay_marking-complete_firing_example =
    replay_marking-complete_firing small_net (created ∷ initialized ∷ []) start first_firing
      moved_on 7 (tt, (initialized-valid, tt)) initialized-restores
