-- ===== src/Tests/Occurrences.antt =====
-- The theorems on the lifecycle of occurrences, at a history with one binding in flight.
use petrus.Base.{
  ℕ, ◌≡◌, refl, String, Bool, true, false, ◌&&◌, not, Option, none, some, List, [], ◌∷◌, ◌++◌, any,
  nat_eq, ◌==◌, ok, In, All, contains, inl, filter,
}
use petrus.History.{
  Record, instance_created, candidate_selected, firing_begun, tokens_consumed, firing_completed,
}
use petrus.Instance.Firing.{
  unscoped, begin_firing, complete_firing, FiringOccurrence, HandlerResult,
}
use petrus.Instance.Lifecycle.{Lifecycle, sorted_lifecycle}
use petrus.Instance.Lifecycle.Replays.{replay_in_flight}
use petrus.Instance.Lifecycle.Buckets.{Buckets, begins, ends}
use petrus.Instance.Lifecycle.Buckets.Sorted.{sorted_lifecycle-Buckets}
use petrus.Instance.Lifecycle.Coherent.{Coherent, sorted_lifecycle-Coherent}
use petrus.Instance.Lifecycle.Flight.{InFlight, ids, replay_in_flight_lem}
use petrus.Instance.Lifecycle.Resume.{begun_occurrence, replay_in_flight-begin_firing}
use petrus.Instance.Lifecycle.Retire.{replay_in_flight-complete_firing}
use petrus.Tests.{one_one, start, started, first_place, second_place, step, small_net, moves}

abbrev created : List (Record ℕ)
created = instance_created "order-1" none 5 ∷ []

abbrev first_batch : List (Record ℕ)
first_batch = firing_begun 1 step none 6 ∷ tokens_consumed 1 (unscoped first_place one_one 6) ∷ []

abbrev in_flight : FiringOccurrence ℕ
in_flight = begun_occurrence (moves 1) 1 first_batch

abbrev flying : List (Record ℕ)
flying = created ++ candidate_selected 1 step 6 ∷ first_batch

start-begins : begin_firing start (moves 1) 1 6 ≡ ok (started, first_batch)
unfolding begin_firing petrus.Petrinet.Firing.begin_firing petrus.Petrinet.Firing.consume_all
    petrus.Petrinet.Marking.consume petrus.Petrinet.Queue.remove petrus.Petrinet.Queue.remove_loop
    petrus.Petrinet.Queue.delete_first petrus.Base.get petrus.Base.list_beq
    petrus.Petrinet.Token.token_beq petrus.Petrinet.Firing.check_reads petrus.Base.keep
    petrus.Base.put
start-begins = refl

created-replays : replay_in_flight created ≡ ok []
unfolding replay_in_flight sorted_lifecycle petrus.Base.fold_result
    petrus.Instance.Lifecycle.lifecycle_step petrus.Instance.Lifecycle.sort_record
    petrus.Instance.Lifecycle.Replays.rebuild_each
created-replays = refl

replay_in_flight-begin_firing_example : replay_in_flight flying ≡ ok (in_flight ∷ [])
unfolding any petrus.History.occurrence_of
replay_in_flight-begin_firing_example =
    replay_in_flight-begin_firing created [] start started (moves 1) 1 6 first_batch created-replays
      refl start-begins

flying-replays : replay_in_flight flying ≡ ok (in_flight ∷ [])
unfolding any petrus.History.occurrence_of
flying-replays =
    replay_in_flight-begin_firing created [] start started (moves 1) 1 6 first_batch created-replays
      refl start-begins

abbrev moved_on : HandlerResult ℕ
moved_on = record { tokens = (second_place, one_one) ∷ []; closes = []; opens = [] }

replay_in_flight-complete_firing_example :
    replay_in_flight (flying ++ (complete_firing small_net started in_flight moved_on 7).2)
    ≡ ok (filter (λ (p : FiringOccurrence ℕ). not (p.id == 1)) (in_flight ∷ []))
replay_in_flight-complete_firing_example =
    replay_in_flight-complete_firing small_net flying (in_flight ∷ []) started in_flight moved_on 7
      flying-replays (inl refl)

replay_in_flight_lem_example :
    ((k : ℕ)
      → contains k (ids (in_flight ∷ [])) ≡ (any (begins k) flying && not (any (ends k) flying)))
    × All (InFlight flying) (in_flight ∷ [])
replay_in_flight_lem_example = replay_in_flight_lem flying (in_flight ∷ []) flying-replays

abbrev one_begun : Lifecycle ℕ
one_begun = record {
  initiated = (1, (step, [])) ∷ [];
  begun = (1, first_batch) ∷ [];
  ended = [];
  ending = [];
  frozen = [];
  scoped_open = [];
  lifecycle_cancelled = [];
  active_begin = some (1, 6);
  previous = some (tokens_consumed 1 (unscoped first_place one_one 6));
}

flying-sorted : sorted_lifecycle flying ≡ ok one_begun
unfolding sorted_lifecycle petrus.Base.fold_result petrus.Instance.Lifecycle.lifecycle_step
    petrus.Instance.Lifecycle.sort_record petrus.Instance.Lifecycle.initiate petrus.Base.get
    petrus.Instance.Lifecycle.begin petrus.Base.put petrus.Instance.Lifecycle.move
    petrus.Instance.Lifecycle.join_batch contains
flying-sorted = refl

sorted_lifecycle-Buckets_example : Buckets 1 flying one_begun
sorted_lifecycle-Buckets_example = sorted_lifecycle-Buckets 1 flying one_begun flying-sorted

sorted_lifecycle-Coherent_example : Coherent 1 one_begun
sorted_lifecycle-Coherent_example = sorted_lifecycle-Coherent 1 flying one_begun flying-sorted
