-- ===== src/Selection/RoundRobin/Rotation.antt =====
-- Which transition `RoundRobin.propose` of src/petrus/impetus/selection/__init__.py picks.
use petrus.Base.{
  ℕ, zero, suc, ◌+◌, ◌%◌, ◌≤◌, ◌<◌, ◌≡◌, refl, ap, sym, ◌∙◌, inl, inr, Option, none, some, List, [],
  ◌∷◌, arith, ◌==◌, nat_eq, string_eq, list_eq, list_beq_iff, if◌then◌else◌, ok, Dict, get, put,
  get-put, get_elem?, length, find?, beq_dec, fun_ext, subst, Option-cases,
}
use petrus.Petrinet.Token.{NetPath}
use petrus.Petrinet.Net.{is_none}
use petrus.Petrinet.Enabledness.{Binding}
use petrus.Selection.{SelectionProposal}
use petrus.Selection.RoundRobin.{
  index_of, after, cursor, fold_committed, first_by_transition, proposal, search, propose,
}

-- The transition that stands the given number of turns after the cursor.
abbrev pub turn : List NetPath → ℕ → ℕ → Option NetPath
turn ring at offset = get_elem? ring ((at + offset) % length ring)

module _ {D : Type 0} where
  -- The first candidate of a transition.
  abbrev pub first_of : List (Binding D) → NetPath → Option (Binding D)
  first_of bs t = find? (λ (b : Binding D). b.transition == t) bs

  first_by_transition-get :
      (d : Dict NetPath (Binding D)) (bs : List (Binding D)) (t : NetPath)
      → get (first_by_transition d bs) t ≡ elim (get d t) [ none ↦ first_of bs t | some b ↦ some b ]
  unfolding first_by_transition find?
  first_by_transition-get d [] t = elim (Option-cases (get d t)) [
    | inl gone ↦ ground arith
    | inr (b, there) ↦ ground arith
  ]
  first_by_transition-get d (b ∷ bs) t =
      let next = if is_none (get d b.transition) then put d b.transition b else d in
      ground (
        arith,
        first_by_transition-get next bs t,
        get-put d b.transition t b,
        list_beq_iff b.transition t,
      )

  -- A search from an offset proposes for the first turn whose transition is offered.
  abbrev pub IsNext :
      List NetPath
      → Option ℕ
      → (NetPath → Option (Binding D))
      → ℕ
      → ℕ
      → SelectionProposal D (Option ℕ)
      → Type 0
  IsNext ring state offered at offset p =
      (stop : ℕ) × (offset ≤ stop)
      × ((i : ℕ)
          → offset ≤ i
          → i < stop
          → (t : NetPath) → turn ring at i ≡ some t
          → offered t ≡ none)
      × (turn ring at stop ≡ some p.binding.transition)
      × (offered p.binding.transition ≡ some p.binding)
      × (p.prior_state ≡ state)
      × (fold_committed ring p.binding.transition ≡ ok p.next_state)

  proposal-IsNext :
      (ring : List NetPath) (state : Option ℕ) (offered : NetPath → Option (Binding D))
      (at offset : ℕ) (b : Binding D) (p : SelectionProposal D (Option ℕ))
      → turn ring at offset ≡ some b.transition
      → offered b.transition ≡ some b
      → proposal ring state b.transition b ≡ ok (some p)
      → IsNext ring state offered at offset p
  unfolding fold_committed
  proposal-IsNext ring state offered at offset b p here there h =
      elim (Option-cases (index_of ring b.transition)) [
        | inl outside ↦ absurd (ground arith)
        | inr (i, found) ↦
            let same : record { binding = b; prior_state = state; next_state = some (after ring i) }
                ≡ p =
              ground arith in
            rw (← same) (
              offset,
              omega arith,
              λ j lo hi. absurd (omega arith),
              here,
              there,
              refl,
              rw (found, fold_committed) refl,
            )
      ]

  search-IsNext :
      (ring : List NetPath) (state : Option ℕ) (d : Dict NetPath (Binding D)) (at offset turns : ℕ)
      (p : SelectionProposal D (Option ℕ))
      → ((t : NetPath) (b : Binding D) → get d t ≡ some b → b.transition ≡ t)
      → search ring state d at offset turns ≡ ok (some p)
      → IsNext ring state (get d) at offset p
  unfolding search
  search-IsNext ring state d at offset zero p named h = cc
  search-IsNext ring state d at offset (suc turns) p named h =
      elim (Option-cases (turn ring at offset)) [
        | inl gone ↦ absurd (ground arith)
        | inr (t, here) ↦ elim (Option-cases (get d t)) [
          | inl skip ↦
              let (stop, later, quiet, here', there', kept, folded) =
                search-IsNext ring state d at (suc offset) turns p named (ground arith) in
              (
                stop,
                omega arith,
                λ i lo hi u e. elim (beq_dec i offset) [
                  | yes first ↦ ground (arith, here, e, skip, first)
                  | no beyond ↦ quiet i (omega arith) hi u e
                ],
                here',
                there',
                kept,
                folded,
              )
          | inr (b, there) ↦
              let at_b : b.transition ≡ t = named t b there in
              proposal-IsNext ring state (get d) at offset b p (here ∙ ap some (sym at_b))
                (ap (get d) at_b ∙ there) (ap (λ u. proposal ring state u b) at_b ∙ ground arith)
        ]
      ]

  first_of-transition :
      (bs : List (Binding D)) (t : NetPath) (b : Binding D)
      → first_of bs t ≡ some b
      → b.transition ≡ t
  unfolding find?
  first_of-transition [] t b h = cc
  first_of-transition (x ∷ bs) t b h =
      ground (arith, first_of-transition bs t b, list_beq_iff x.transition t)

  pub offered-first_of :
      (bs : List (Binding D)) (t : NetPath) → get (first_by_transition [] bs) t ≡ first_of bs t
  unfolding get
  offered-first_of bs t = first_by_transition-get [] bs t

  -- What the round robin proposes is the first candidate of the first transition, in ring order from
  -- the cursor on, that has a candidate at all; the state it carries is the one that committing that
  -- transition folds to.
  pub propose-IsNext :
      (ring : List NetPath) (bs : List (Binding D)) (state : Option ℕ) (at : ℕ)
      (p : SelectionProposal D (Option ℕ))
      → cursor state (length ring) ≡ ok at
      → propose ring bs state ≡ ok (some p)
      → IsNext ring state (first_of bs) at 0 p
  unfolding propose
  propose-IsNext ring [] state at p c h = cc
  propose-IsNext ring (b ∷ bs) state at p c h =
      let d = first_by_transition [] (b ∷ bs) in
      let offered : get d ≡ first_of (b ∷ bs) = fun_ext (offered-first_of (b ∷ bs)) in
      subst (λ f. IsNext ring state f at 0 p) offered
        (search-IsNext ring state d at 0 (length ring) p
          (λ t x e. first_of-transition (b ∷ bs) t x (sym (offered-first_of (b ∷ bs) t) ∙ e))
          (ground arith))
