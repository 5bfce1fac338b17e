-- ===== src/Petrinet/Enabledness/Fits.antt =====
-- A binding that takes one offered alternative at each input arc, arc by arc, in place of the cross
-- product of src/petrus/impetus/petrinet/enabledness.py.
use petrus.Base.{
  ℕ, ◌≡◌, inl, inr, true, false, Option, some, List, [], ◌∷◌, ◌++◌, arith, Eq, Option-cases,
  Result-cases, Bool-cases, All, All-lookup, In, ok, Dict, list_eq, string_eq,
}
use petrus.Petrinet.Token.{NetPath}
use petrus.Petrinet.Marking.{Marking}
use petrus.Petrinet.Schema.{is_consume, Arc}
use petrus.Petrinet.Net.{Net}
use petrus.Petrinet.Enabledness.{Implementations, Alternative, Selection, satisfied, alternatives}
use petrus.Petrinet.Enabledness.Offers.{IsFor, offer-IsFor}
use petrus.Petrinet.Enabledness.Gathering.{asks, Offer-cases}
use petrus.Petrinet.Enabledness.Choosing.{Chosen}
use petrus.Petrinet.Enabledness.Survey.{
  Answer, filter_uri, gather, consumed_of, read_of, anchors_of,
}

module _ {D : Type 0} ⦃e : Eq D⦄ (net : Net) (impl : Implementations D) (m : Marking D)
    (anchors : Option (Dict NetPath (List ℕ))) where
  -- The inputs, in order, with the consumed selections, the read selections and the entry instants of
  -- the alternatives taken at them: an arc that offers nothing is satisfied, and one that offers gives
  -- one of its alternatives, which is at hand, to the consumed or to the read selections.
  pub data Fits : List (ℕ × Arc) → List (Selection D) → List (Selection D) → List ℕ → Type 0 where
    at_end : Fits [] [] [] []
    clears :
        (x : ℕ × Arc) (ins : List (ℕ × Arc)) (cs rs : List (Selection D)) (is : List ℕ)
        → asks net impl m anchors x ≡ ok satisfied
        → Fits ins cs rs is
        → Fits (x ∷ ins) cs rs is
    consumes :
        (x : ℕ × Arc) (xs : List (Alternative D)) (a : Alternative D) (ins : List (ℕ × Arc))
        (cs rs : List (Selection D)) (is : List ℕ)
        → asks net impl m anchors x ≡ ok (alternatives x.1 xs)
        → In a xs
        → IsFor m x.1 a
        → is_consume x.1.mode ≡ true
        → Fits ins cs rs is
        → Fits (x ∷ ins) (a.selection ∷ cs) rs (a.anchors ++ is)
    reads :
        (x : ℕ × Arc) (xs : List (Alternative D)) (a : Alternative D) (ins : List (ℕ × Arc))
        (cs rs : List (Selection D)) (is : List ℕ)
        → asks net impl m anchors x ≡ ok (alternatives x.1 xs)
        → In a xs
        → IsFor m x.1 a
        → is_consume x.1.mode ≡ false
        → Fits ins cs rs is
        → Fits (x ∷ ins) cs (a.selection ∷ rs) (a.anchors ++ is)

  answered-Fits :
      (x : ℕ × Arc) (xs : List (Alternative D)) (a : Alternative D) (ins : List (ℕ × Arc))
      (answers : List (Answer D)) (choice : List (Alternative D))
      → asks net impl m anchors x ≡ ok (alternatives x.1 xs)
      → In a xs
      → IsFor m x.1 a
      → Fits ins (consumed_of answers choice) (read_of answers choice) (anchors_of choice)
      → Fits
          (x ∷ ins)
          (consumed_of ((x.1, xs) ∷ answers) (a ∷ choice))
          (read_of ((x.1, xs) ∷ answers) (a ∷ choice))
          (anchors_of (a ∷ choice))
  unfolding consumed_of read_of anchors_of
  answered-Fits x xs a ins answers choice offered here good rest =
      elim (Bool-cases (is_consume x.1.mode)) [
        | inl takes ↦ rw takes (
            consumes x xs a ins (consumed_of answers choice) (read_of answers choice)
              (anchors_of choice) offered here good takes rest)
        | inr leaves ↦ rw leaves (
            reads x xs a ins (consumed_of answers choice) (read_of answers choice)
              (anchors_of choice) offered here good leaves rest)
      ]

  offered-Fits :
      (x : ℕ × Arc) (xs : List (Alternative D)) (ins : List (ℕ × Arc)) (later : List (Answer D))
      (choice : List (Alternative D))
      → asks net impl m anchors x ≡ ok (alternatives x.1 xs)
      → All (IsFor m x.1) xs
      → ((c : List (Alternative D))
          → Chosen later c
          → Fits ins (consumed_of later c) (read_of later c) (anchors_of c))
      → Chosen ((x.1, xs) ∷ later) choice
      → Fits
          (x ∷ ins)
          (consumed_of ((x.1, xs) ∷ later) choice)
          (read_of ((x.1, xs) ∷ later) choice)
          (anchors_of choice)
  offered-Fits x xs ins later [] offered good rest chosen = absurd chosen
  offered-Fits x xs ins later (a ∷ choice) offered good rest chosen =
      answered-Fits x xs a ins later choice offered chosen.0
        (All-lookup (IsFor m x.1) xs good a chosen.0) (rest choice chosen.1)

  -- What the survey gathers and chooses fits.
  pub gather-Fits :
      (ins : List (ℕ × Arc)) (answers : List (Answer D)) (choice : List (Alternative D))
      → gather net impl m anchors ins ≡ ok (some answers)
      → Chosen answers choice
      → Fits ins (consumed_of answers choice) (read_of answers choice) (anchors_of choice)
  unfolding gather consumed_of read_of anchors_of
  gather-Fits [] [] [] h chosen = at_end
  gather-Fits [] [] (x ∷ choice) h chosen = absurd chosen
  gather-Fits [] (b ∷ answers) choice h chosen = cc
  gather-Fits (x ∷ ins) answers choice h chosen = elim (Result-cases (asks net impl m anchors x)) [
    | inr (y, raised) ↦ absurd (ground arith)
    | inl (o, offered) ↦ elim (Offer-cases o) [
      | inl vetoed ↦ absurd (ground arith)
      | inr (inl free) ↦
          clears x ins (consumed_of answers choice) (read_of answers choice) (anchors_of choice)
            (ground arith) (gather-Fits ins answers choice (ground arith) chosen)
      | inr (inr (arc, xs, gives)) ↦ elim (Result-cases (gather net impl m anchors ins)) [
        | inr (y, raised) ↦ absurd (ground arith)
        | inl (more, gathered) ↦ elim (Option-cases more) [
          | inl no_more ↦ absurd (ground arith)
          | inr (later, some_more) ↦
              let (same, _, good) =
                offer-IsFor impl m anchors (filter_uri net x) x.1 arc xs (ground arith) in
              let all_of : answers ≡ (x.1, xs) ∷ later = ground arith in
              rw all_of (
                offered-Fits x xs ins later choice (ground arith) good
                  (λ c. gather-Fits ins later c (ground arith)) (rw (← all_of) chosen))
        ]
      ]
    ]
  ]
