-- ===== src/Selection/RoundRobin.antt =====
-- `RoundRobin` of src/petrus/impetus/selection/__init__.py, over the ring of its transitions; its
-- state is `none` at first.
pub mod Rotation
pub mod Total
use petrus.Base.{
  ℕ, zero, suc, ◌+◌, ◌%◌, ◌≡◌, refl, ap, sym, ◌∙◌, inl, inr, Bool, true, false, not, Option, none,
  some, List, [], ◌∷◌, ◌++◌, arith, Eq, ◌==◌, nat_eq, string_eq, list_eq, if◌then◌else◌, ltb,
  Result, ok, err, ◌>>=◌, ◌>>◌, guard, Dict, get, put, contains, get_elem?, length, is_empty, find?,
}
use petrus.Petrinet.Token.{NetPath}
use petrus.Petrinet.Net.{is_none}
use petrus.Petrinet.Enabledness.{Binding}
use petrus.Selection.{
  SelectionError, SelectionProposal, SelectionPolicy, invalid_ring, invalid_state, outside_ring,
}

-- `xs.index(a)`
unfoldable pub index_of {ℓ} : {A : Type ℓ} ⦃e : Eq A⦄ → List A → A → Option ℕ
index_of [] a = none
index_of (x ∷ xs) a =
    let rest = index_of xs a in
    if x == a then some 0 else elim rest [ none ↦ none | some i ↦ some (suc i) ]

unfoldable pub is_ring : List NetPath → Bool
is_ring [] = true
is_ring (t ∷ ts) = if contains t ts then false else is_ring ts

-- `RoundRobin.__init__`
unfoldable pub build : List NetPath → Result SelectionError (List NetPath)
build ring =
    guard (not (is_empty ring)) invalid_ring >> (guard (is_ring ring) invalid_ring >> ok ring)

-- `_cursor`, and 0 for no state
unfoldable pub cursor : Option ℕ → ℕ → Result SelectionError ℕ
cursor none size = ok 0
cursor (some c) size = guard (ltb c size) invalid_state >> ok c

-- `(index + 1) % len(transitions)`
abbrev pub after : List NetPath → ℕ → ℕ
after ring i = suc i % length ring

unfoldable pub fold_committed : List NetPath → NetPath → Result SelectionError (Option ℕ)
fold_committed ring t = elim (index_of ring t) [
  | none ↦ err outside_ring
  | some i ↦ ok (some (after ring i))
]

module _ {D : Type 0} where
  -- The loop with `setdefault`.
  unfoldable pub first_by_transition :
      Dict NetPath (Binding D) → List (Binding D) → Dict NetPath (Binding D)
  first_by_transition d [] = d
  first_by_transition d (b ∷ bs) =
      first_by_transition (if is_none (get d b.transition) then put d b.transition b else d) bs

  abbrev pub proposal :
      List NetPath
      → Option ℕ
      → NetPath
      → Binding D
      → Result SelectionError (Option (SelectionProposal D (Option ℕ)))
  proposal ring state t b = elim (index_of ring t) [
    | none ↦ err outside_ring
    | some i ↦
        ok (some (record { binding = b; prior_state = state; next_state = some (after ring i) }))
  ]

  -- `for offset in range(len(transitions))`, with the number of turns that are left.
  unfoldable pub search :
      List NetPath
      → Option ℕ
      → Dict NetPath (Binding D)
      → ℕ
      → ℕ
      → ℕ
      → Result SelectionError (Option (SelectionProposal D (Option ℕ)))
  search ring state offered at offset zero = err outside_ring
  search ring state offered at offset (suc turns) =
      let rest = search ring state offered at (suc offset) turns in
      elim (get_elem? ring ((at + offset) % length ring)) [
        | none ↦ err outside_ring
        | some t ↦ elim (get offered t) [ none ↦ rest | some b ↦ proposal ring state t b ]
      ]

  unfoldable pub propose :
      List NetPath
      → List (Binding D)
      → Option ℕ
      → Result SelectionError (Option (SelectionProposal D (Option ℕ)))
  propose ring [] state = ok none
  propose ring (b ∷ bs) state = cursor state (length ring) >>= λ at.
      search ring state (first_by_transition [] (b ∷ bs)) at 0 (length ring)

abbrev pub round_robin : {D : Type 0} → List NetPath → SelectionPolicy D (Option ℕ)
round_robin ring = record { propose = propose ring; fold_committed = λ s t. fold_committed ring t }
