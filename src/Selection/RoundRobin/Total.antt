-- ===== src/Selection/RoundRobin/Total.antt =====
-- `RoundRobin.propose` of src/petrus/impetus/selection/__init__.py always proposes for candidates of
-- its ring.
use petrus.Base.{
  ℕ, zero, suc, ◌+◌, ◌-◌, ◌%◌, ◌≤◌, ◌<◌, ◌≡◌, refl, sym, ◌∙◌, ap, inl, inr, true, Option, none,
  some, List, [], ◌∷◌, arith, ◌==◌, nat_eq, string_eq, list_eq, list_beq_iff, ok, get, get_elem?,
  length, contains, Bool-cases, Option-cases, Dict, find?, beq_dec, In,
}
use native.Mathlib.Nat.{mod-lt, mod-eq_of_lt, add-mod_right}
use native.Mathlib.Decide.{dec_le}
use petrus.Petrinet.Token.{NetPath}
use petrus.Petrinet.Enabledness.{Binding}
use petrus.Selection.{SelectionProposal}
use petrus.Selection.RoundRobin.{
  index_of, after, cursor, first_by_transition, proposal, search, propose,
}
use petrus.Selection.RoundRobin.Rotation.{turn, first_of, offered-first_of}

position_of :
    (ring : List NetPath) (t : NetPath)
    → contains t ring ≡ true
    → (i : ℕ) × (i < length ring) × (get_elem? ring i ≡ some t)
unfolding contains
position_of [] t h = cc
position_of (x ∷ ring) t h = elim (Bool-cases (x == t)) [
  | inl same ↦ (0, omega arith, ap some ((list_beq_iff x t).0 same))
  | inr other ↦
      let (i, below, there) = position_of ring t (ground arith) in (suc i, omega arith, there)
]

get_elem?-below :
    (ring : List NetPath) (i : ℕ) → i < length ring → (t : NetPath) × (get_elem? ring i ≡ some t)
get_elem?-below [] i h = absurd (omega arith)
get_elem?-below (x ∷ ring) zero h = (x, refl)
get_elem?-below (x ∷ ring) (suc i) h = get_elem?-below ring i (omega arith)

index_of-contains :
    (ring : List NetPath) (t : NetPath)
    → contains t ring ≡ true
    → (j : ℕ) × (index_of ring t ≡ some j)
unfolding index_of contains
index_of-contains [] t h = cc
index_of-contains (x ∷ ring) t h = elim (Bool-cases (x == t)) [
  | inl same ↦ (0, rw same refl)
  | inr other ↦
      let (j, found) = index_of-contains ring t (ground arith) in (suc j, rw (other, found) refl)
]

get_elem?-contains :
    (ring : List NetPath) (i : ℕ) (t : NetPath) → get_elem? ring i ≡ some t → contains t ring ≡ true
unfolding contains
get_elem?-contains [] i t h = cc
get_elem?-contains (x ∷ ring) zero t h = ground (arith, list_beq_iff x t)
get_elem?-contains (x ∷ ring) (suc i) t h = ground (arith, get_elem?-contains ring i t h)

-- Every position of a ring has its turn within one round.
offset_of : (at i n : ℕ) → at < n → i < n → (offset : ℕ) × (offset < n) × ((at + offset) % n ≡ i)
offset_of at i n h k = elim (dec_le at i) [
  | yes below ↦
      let same : at + (i - at) ≡ i = omega arith in (i - at, omega arith, rw same (mod-eq_of_lt k))
  | no above ↦
      let same : at + (i + n - at) ≡ i + n = omega arith in
      (i + n - at, omega arith, rw same (add-mod_right i n ∙ mod-eq_of_lt k))
]

module _ {D : Type 0} where
  first_of-In :
      (bs : List (Binding D)) (b : Binding D)
      → In b bs
      → (c : Binding D) × (first_of bs b.transition ≡ some c)
  unfolding find?
  first_of-In [] b m = absurd m
  first_of-In (x ∷ bs) b m = elim (Bool-cases (x.transition == b.transition)) [
    | inl same ↦ (x, rw same refl)
    | inr other ↦ elim m [
      | inl e ↦
          let paths : x.transition ≡ b.transition = sym (ap (λ (y : Binding D). y.transition) e) in
          absurd (ground (arith, list_beq_iff x.transition b.transition))
      | inr later ↦ let (c, found) = first_of-In bs b later in (c, rw other found)
    ]
  ]

  search_skips :
      (ring : List NetPath) (state : Option ℕ) (d : Dict NetPath (Binding D)) (at offset turns : ℕ)
      (u : NetPath)
      → turn ring at offset ≡ some u
      → get d u ≡ none
      → search ring state d at offset (suc turns) ≡ search ring state d at (suc offset) turns
  unfolding search
  search_skips ring state d at offset turns u now skip = rw (now, search) (rw skip refl)

  search_offers :
      (ring : List NetPath) (state : Option ℕ) (d : Dict NetPath (Binding D)) (at offset turns : ℕ)
      (u : NetPath) (c : Binding D) (j : ℕ)
      → turn ring at offset ≡ some u
      → get d u ≡ some c
      → index_of ring u ≡ some j
      → (p : SelectionProposal D (Option ℕ)) × (search ring state d at offset (suc turns)
          ≡ ok (some p))
  unfolding search
  search_offers ring state d at offset turns u c j now offered found = (
    record { binding = c; prior_state = state; next_state = some (after ring j) },
    rw (now, search) (rw offered (rw (found, proposal) refl)),
  )

  -- A turn that comes, and whose transition is offered, ends the search with a proposal.
  search-proposes :
      (ring : List NetPath) (state : Option ℕ) (d : Dict NetPath (Binding D))
      (at offset turns stop : ℕ) (t : NetPath) (b : Binding D)
      → at < length ring
      → offset ≤ stop
      → stop < offset + turns
      → turn ring at stop ≡ some t
      → get d t ≡ some b
      → (p : SelectionProposal D (Option ℕ)) × (search ring state d at offset turns ≡ ok (some p))
  unfolding search
  search-proposes ring state d at offset zero stop t b h lo hi here there = absurd (omega arith)
  search-proposes ring state d at offset (suc turns) stop t b h lo hi here there =
      let (u, now) =
        get_elem?-below ring ((at + offset) % length ring) (mod-lt (at + offset) (omega arith)) in
      let (j, found) =
        index_of-contains ring u (get_elem?-contains ring ((at + offset) % length ring) u now) in
      elim (Option-cases (get d u)) [
        | inr (c, offered) ↦ search_offers ring state d at offset turns u c j now offered found
        | inl skip ↦
            let later : suc offset ≤ stop = elim (beq_dec stop offset) [
              | yes first ↦ absurd (ground (arith, now, here, skip, there, first))
              | no other ↦ omega (arith, other)
            ] in
            let (p, rest) =
              search-proposes ring state d at (suc offset) turns stop t b h later (omega arith) here
                there in
            (p, search_skips ring state d at offset turns u now skip ∙ rest)
      ]

  -- With a cursor inside the ring, the round robin proposes a candidate, and raises no error, whenever
  -- one of the candidates is of a transition in its ring.
  pub propose-total :
      (ring : List NetPath) (bs : List (Binding D)) (b : Binding D) (state : Option ℕ) (at : ℕ)
      → cursor state (length ring) ≡ ok at
      → at < length ring
      → In b bs
      → contains b.transition ring ≡ true
      → (p : SelectionProposal D (Option ℕ)) × (propose ring bs state ≡ ok (some p))
  unfolding propose
  propose-total ring [] b state at c h here inside = absurd here
  propose-total ring (x ∷ bs) b state at c h here inside =
      let (i, below, there) = position_of ring b.transition inside in
      let (offset, within, arrives) = offset_of at i (length ring) h below in
      let (first, found) = first_of-In (x ∷ bs) b here in
      let (p, proposed) =
        search-proposes ring state (first_by_transition [] (x ∷ bs)) at 0 (length ring) offset
          b.transition first h (omega arith) (omega arith) (ap (get_elem? ring) arrives ∙ there)
          (offered-first_of (x ∷ bs) b.transition ∙ found) in
      (p, rw c proposed)
