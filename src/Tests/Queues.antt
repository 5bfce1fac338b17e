-- ===== src/Tests/Queues.antt =====
-- The queue and marking theorems at concrete queues.
use petrus.Base.{
  ℕ, suc, ◌+◌, ◌≤◌, ◌<◌, ◌≡◌, ◌↔◌, ◌⊎◌, refl, true, none, some, List, [], ◌∷◌, arith, nat_eq,
  list_eq, string_eq, option_eq, ok, err, count, take, In, get_elem?, head?, get, list_beq, keep,
  put, inl, inr,
}
use petrus.Petrinet.Token.{Token, NetPath, token_eq, token_beq, is_black}
use petrus.Petrinet.Queue.{
  TokenQueue, token_not_present, tokens, by_value, remove, remove_loop, delete_first, admitted_by,
}
use petrus.Petrinet.Queue.Removal.{Removes, remove-iff-Removes, remove_enough, remove_short}
use petrus.Petrinet.Queue.Scan.{Increasing, admitted_by_lem}
use petrus.Petrinet.Marking.{Marking, cannot_consume, place, consume}
use petrus.Petrinet.Marking.Laws.{consume_enough, consume_short}
use petrus.Petrinet.Enabledness.{combinations}
use petrus.Petrinet.Enabledness.Selecting.{head-combinations}
use petrus.Tests.{black, three_entries, two_entries, one_one, start, started, first_place}

remove-iff-Removes_example :
    (remove three_entries one_one [] ≡ ok two_entries)
    ↔ Removes three_entries (by_value one_one) two_entries
remove-iff-Removes_example = remove-iff-Removes three_entries one_one two_entries

one_one-le : (u : Token ℕ) → count u one_one ≤ count u (tokens three_entries)
unfolding count
one_one-le u = ground arith

remove_enough_example :
    (r : TokenQueue ℕ ℕ) × (remove three_entries one_one [] ≡ ok r)
    × ((u : Token ℕ) → count u (tokens three_entries) ≡ count u one_one + count u (tokens r))
remove_enough_example = remove_enough three_entries one_one one_one-le

remove-missing : remove three_entries (black 9 ∷ []) [] ≡ err (token_not_present (black 9))
unfolding remove remove_loop delete_first token_beq
remove-missing = refl

remove_short_example :
    (t : Token ℕ) × (token_not_present (black 9) ≡ token_not_present t)
    × (count t (tokens three_entries) < count t (black 9 ∷ []))
remove_short_example =
    remove_short three_entries (black 9 ∷ []) (token_not_present (black 9)) remove-missing

admitted_by_lem_example :
    (ps : List ℕ) × (admitted_by three_entries (λ t. is_black t) none ≡ ok ps)
    × Increasing 0 ps
    × ((i : ℕ)
        → In i ps
          ↔ ((t : Token ℕ) × (get_elem? (tokens three_entries) i ≡ some t) × (is_black t ≡ true)))
    × ((n : ℕ) → admitted_by three_entries (λ t. is_black t) (some (suc n)) ≡ ok (take (suc n) ps))
admitted_by_lem_example = admitted_by_lem three_entries (λ t. is_black t)

start_tokens : place start first_place ≡ black 1 ∷ black 2 ∷ []
unfolding place get list_beq
start_tokens = refl

start-le : (u : Token ℕ) → count u one_one ≤ count u (place start first_place)
unfolding count
start-le u = rw start_tokens (ground arith)

consume_enough_example :
    (n : Marking ℕ) × (consume start first_place one_one ≡ ok n)
    × ((u : Token ℕ)
        → count u (place start first_place) ≡ count u one_one + count u (place n first_place))
    × ((j : NetPath) → (first_place ≡ j) ⊎ (place n j ≡ place start j))
consume_enough_example = consume_enough start first_place one_one start-le

consume-missing :
    consume start first_place (black 9 ∷ []) ≡ err (cannot_consume (black 9) first_place)
unfolding consume remove remove_loop delete_first get list_beq token_beq
consume-missing = refl

consume_short_example :
    (t : Token ℕ) × (cannot_consume (black 9) first_place ≡ cannot_consume t first_place)
    × (count t (place start first_place) < count t (black 9 ∷ []))
consume_short_example =
    consume_short start first_place (black 9 ∷ []) (cannot_consume (black 9) first_place)
      consume-missing

consume-start : consume start first_place one_one ≡ ok started
unfolding consume remove remove_loop delete_first get list_beq token_beq keep put
consume-start = refl

abbrev three_positions : List ℕ
three_positions = 0 ∷ 1 ∷ 2 ∷ []

abbrev outer_positions : List ℕ
outer_positions = 0 ∷ 2 ∷ []

chosen_positions : In outer_positions (combinations 2 three_positions)
unfolding combinations
chosen_positions = inr (inl refl)

head-combinations_example : head? (combinations 2 three_positions) ≡ some (take 2 three_positions)
head-combinations_example = head-combinations 2 three_positions (omega arith)
