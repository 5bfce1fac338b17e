-- ===== src/Tests/Firings.antt =====
-- The theorems on enabledness and firing, at the small net.
use petrus.Base.{
  ℕ, ◌+◌, ◌≤◌, ◌≡◌, refl, inl, inr, true, false, none, List, [], ◌∷◌, ◌++◌, arith, ◌==◌, nat_eq,
  list_eq, string_eq, option_eq, ok, count, get, put, list_beq, keep, filter, flat_map, All,
  or_else, Bool-cases, any,
}
use petrus.Petrinet.Token.{Token, NetPath, token_eq, token_beq}
use petrus.Petrinet.Queue.{remove, remove_loop, delete_first}
use petrus.Petrinet.Marking.{Marking, place, consume}
use petrus.Petrinet.Schema.{admits, is_inhibit}
use petrus.Petrinet.Net.{inputs, outputs}
use petrus.Petrinet.Enabledness.{Binding, Alternative, offer, alternatives}
use petrus.Petrinet.Enabledness.Offers.{IsFor, offer-IsFor}
use petrus.Petrinet.Enabledness.Gathering.{separate}
use petrus.Petrinet.Enabledness.Survey.{candidates}
use petrus.Petrinet.Enabledness.Sound.{IsEnabled, candidates_begin, candidates-IsEnabled}
use petrus.Petrinet.Firing.{
  begin_firing, complete_firing, consumed_effects, read_effects, routed_to, route,
}
use petrus.Petrinet.Firing.Begin.{taken, begin_firing_enough, begin_firing-count}
use petrus.Petrinet.Firing.{ProducedTokens, complete_projected}
use petrus.Petrinet.Path.{Destination, address, spelled, net_path, dotted}
use petrus.Petrinet.Firing.Complete.{effects_at}
use petrus.Petrinet.Firing.Spelled.{projected_to, complete_projected_lem}
use petrus.Petrinet.Firing.Route.{sent, route_lem}
use petrus.Tests.{
  black, one_one, start, started, first_place, second_place, step, input_arc, output_arc, small_net,
  no_implementations, moves,
}

small_net-IsSeparate : (path : NetPath) → separate (inputs small_net path) ≡ true
unfolding inputs get separate any
small_net-IsSeparate path = elim (Bool-cases (step == path)) [
  | inl here ↦ rw here refl
  | inr there ↦ rw there refl
]

start-candidates :
    candidates small_net no_implementations start none [] ≡ ok (moves 1 ∷ moves 2 ∷ [])
unfolding candidates petrus.Petrinet.Enabledness.Survey.survey any
    petrus.Petrinet.Enabledness.Survey.survey_loop petrus.Petrinet.Path.sorted
    petrus.Petrinet.Path.insert_sorted petrus.Petrinet.Enabledness.Survey.survey_transition get
    list_beq petrus.Petrinet.Net.is_source petrus.Petrinet.Enabledness.Survey.gather inputs offer
    petrus.Petrinet.Queue.admitted_by petrus.Petrinet.Enabledness.offer_select
    petrus.Petrinet.Queue.positions_from place petrus.Petrinet.Enabledness.admitted flat_map
    petrus.Petrinet.Enabledness.Survey.anchors_of petrus.Petrinet.Enabledness.Survey.consumed_of
    petrus.Petrinet.Enabledness.Survey.judge petrus.Petrinet.Enabledness.Survey.maturation
    petrus.Petrinet.Enabledness.Survey.read_of petrus.Petrinet.Enabledness.combinations
    petrus.Petrinet.Enabledness.guards_hold petrus.Petrinet.Enabledness.guards_hold_from
    petrus.Petrinet.Enabledness.pick petrus.Petrinet.Enabledness.product admits
start-candidates = refl

candidates_begin_example :
    (n : Marking ℕ) × (begin_firing start (moves 1)
      ≡ ok (consumed_effects (moves 1).consumed ++ read_effects (moves 1).read, n))
    × ((u : Token ℕ) (j : NetPath)
        → count u (place start j) ≡ taken u j (moves 1).consumed + count u (place n j))
candidates_begin_example =
    candidates_begin small_net no_implementations start none [] (moves 1 ∷ moves 2 ∷ []) (moves 1)
      small_net-IsSeparate start-candidates (inl refl)

candidates-IsEnabled_example : IsEnabled small_net no_implementations start none [] (moves 2)
candidates-IsEnabled_example =
    candidates-IsEnabled small_net no_implementations start none [] (moves 1 ∷ moves 2 ∷ [])
      (moves 2) small_net-IsSeparate start-candidates (inr (inl refl))

start_tokens : place start first_place ≡ black 1 ∷ black 2 ∷ []
unfolding place get list_beq
start_tokens = refl

one_one-Covered : (u : Token ℕ) → count u one_one ≤ count u (place start first_place)
unfolding count
one_one-Covered u = rw start_tokens (ground arith)

begin_firing_enough_example :
    (n : Marking ℕ) × (begin_firing start (moves 1)
      ≡ ok (consumed_effects (moves 1).consumed ++ read_effects (moves 1).read, n))
    × ((u : Token ℕ) (j : NetPath)
        → count u (place start j) ≡ taken u j (moves 1).consumed + count u (place n j))
begin_firing_enough_example =
    begin_firing_enough start (moves 1) (one_one-Covered, tt) tt (tt, tt) tt

start-begins : begin_firing start (moves 1) ≡ ok (consumed_effects (moves 1).consumed, started)
unfolding begin_firing petrus.Petrinet.Firing.consume_all consume remove remove_loop delete_first
    get list_beq token_beq petrus.Petrinet.Firing.check_reads keep put
start-begins = refl

begin_firing-count_example :
    count (black 1) (place start first_place)
    ≡ taken (black 1) first_place (moves 1).consumed + count (black 1) (place started first_place)
begin_firing-count_example =
    begin_firing-count start started (moves 1) (consumed_effects (moves 1).consumed) start-begins
      (black 1) first_place

-- The same place, once by its address and once by its text.
abbrev twice : List (Destination × List (Token ℕ))
twice = (address second_place, one_one) ∷ (spelled "b", black 2 ∷ []) ∷ []

abbrev both_there : Marking ℕ
both_there = record {
  queues = (first_place, black 2 ∷ []) ∷ (second_place, black 1 ∷ black 2 ∷ []) ∷ [];
}

abbrev both_reported : List (ProducedTokens ℕ)
both_reported = record { place = second_place; tokens = black 1 ∷ black 2 ∷ [] } ∷ []

started-completes : complete_projected small_net started step twice ≡ ok (both_reported, both_there)
unfolding complete_projected petrus.Petrinet.Firing.destinations net_path any
    petrus.Petrinet.Path.split_dots petrus.Petrinet.Firing.complete_firing
    petrus.Petrinet.Firing.produce petrus.Petrinet.Firing.coalesce petrus.Base.put list_beq filter
    get outputs admits petrus.Petrinet.Marking.deposit petrus.Petrinet.Firing.deposit_all place
    petrus.Base.keep
started-completes = refl

second_place-spells : net_path (spelled (dotted second_place)) ≡ ok second_place
unfolding net_path any petrus.Petrinet.Path.split_dots dotted
second_place-spells = refl

complete_projected_lem_example :
    (place both_there second_place
      ≡ place started second_place
        ++ filter
            (routed_to (outputs small_net step) second_place)
            (projected_to second_place twice))
    × (effects_at second_place both_reported
        ≡ filter
            (routed_to (outputs small_net step) second_place)
            (projected_to second_place twice))
complete_projected_lem_example =
    complete_projected_lem small_net started both_there step twice both_reported second_place
      second_place-spells started-completes

route_lem_example :
    or_else (get (route one_one (output_arc ∷ output_arc ∷ []) []) second_place) []
    ≡ flat_map (sent one_one second_place) (output_arc ∷ output_arc ∷ [])
route_lem_example = route_lem one_one (output_arc ∷ output_arc ∷ []) second_place

abbrev both_tokens : List (Alternative ℕ)
both_tokens =
    record { selection = (first_place, black 1 ∷ []); anchors = [] }
    ∷ record { selection = (first_place, black 2 ∷ []); anchors = [] }
    ∷ []

input_arc-offers :
    offer no_implementations start none none input_arc ≡ ok (alternatives input_arc both_tokens)
unfolding offer petrus.Petrinet.Queue.admitted_by petrus.Petrinet.Enabledness.offer_select
    petrus.Petrinet.Queue.positions_from place get list_beq petrus.Petrinet.Enabledness.admitted
    admits petrus.Petrinet.Enabledness.combinations petrus.Petrinet.Enabledness.pick
input_arc-offers = refl

offer-IsFor_example :
    (input_arc ≡ input_arc)
    × (is_inhibit input_arc.mode ≡ false)
    × All (IsFor start input_arc) both_tokens
offer-IsFor_example =
    offer-IsFor no_implementations start none none input_arc input_arc both_tokens input_arc-offers
