-- ===== src/History/Queues/Spent.antt =====
-- How often an identity stands in the lists of identities that the replay of
-- src/petrus/impetus/history/__init__.py chooses.
use petrus.Base.{
  ℕ, zero, suc, ◌≤◌, ◌<◌, ◌≡◌, refl, inl, inr, true, List, [], ◌∷◌, arith, ◌==◌, nat_eq,
  nat_beq_iff, count, contains-count, Bool-cases, list_eq, string_eq,
}
use petrus.History.{is_unique}
use petrus.History.Queues.{range_from, or_list, next_after, greatest}

pub is_unique-count : (i : ℕ) (is : List ℕ) → is_unique is ≡ true → count i is ≤ 1
unfolding is_unique count
is_unique-count i [] h = omega arith
is_unique-count i (j ∷ is) h =
    ground (arith, is_unique-count i is, contains-count i is, nat_beq_iff j i)

pub count-greatest : (i : ℕ) (is : List ℕ) → greatest is < i → count i is ≡ 0
unfolding count
count-greatest i [] h = refl
count-greatest i (j ∷ is) h = ground (arith, count-greatest i is (omega arith), nat_beq_iff j i)

pub count-range_below : (i n k : ℕ) → i < n → count i (range_from n k) ≡ 0
unfolding range_from count
count-range_below i n zero h = refl
count-range_below i n (suc k) h =
    ground (arith, count-range_below i (suc n) k (omega arith), nat_beq_iff n i)

pub count-range-le : (i n k : ℕ) → count i (range_from n k) ≤ 1
unfolding range_from count
count-range-le i n zero = omega arith
count-range-le i n (suc k) = elim (Bool-cases (n == i)) [
  | inl same ↦
      let at : n ≡ i = (nat_beq_iff n i).0 same in
      rw same (omega (arith, count-range_below i (suc n) k (omega arith)))
  | inr other ↦ rw other (count-range-le i (suc n) k)
]

pub or_list-count :
    (i n k : ℕ) (is : List ℕ) → is_unique is ≡ true → count i (or_list is (range_from n k)) ≤ 1
or_list-count i n k [] u = count-range-le i n k
or_list-count i n k (j ∷ is) u = is_unique-count i (j ∷ is) u

-- What is left of a deposit's choice of identities is the inferred list.
pub or_list-again :
    (is : List ℕ) (n f k : ℕ)
    → or_list is (or_list (or_list is (range_from n k)) (range_from f k))
      ≡ or_list is (range_from n k)
unfolding range_from
or_list-again (i ∷ is) n f k = refl
or_list-again [] n f zero = refl
or_list-again [] n f (suc k) = refl

pub next_after-le : (n : ℕ) (is : List ℕ) → n ≤ next_after n is
next_after-le n [] = omega arith
next_after-le n (i ∷ is) = omega arith

pub count-next_after : (n i : ℕ) (is : List ℕ) → next_after n is ≤ i → count i is ≡ 0
unfolding count
count-next_after n i [] h = refl
count-next_after n i (j ∷ is) h = count-greatest i (j ∷ is) (omega arith)
