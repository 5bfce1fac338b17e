-- ===== src/Petrinet/Enabledness/Gathering.antt =====
-- The answers that the loop over the input arcs gathers, and the choices among them
-- (src/petrus/impetus/petrinet/enabledness.py).
use petrus.Base.{
  ℕ, ◌≡◌, ◌≢◌, refl, ◌⊎◌, inl, inr, true, false, Bool, ◌&&◌, ◌||◌, not, Option, some, List, [], ◌∷◌,
  arith, Eq, ◌==◌, any, Option-cases, Result-cases, All, Result, ok, Dict, list_eq, string_eq,
  list_beq_iff,
}
use petrus.Petrinet.Token.{NetPath}
use petrus.Petrinet.Marking.{Marking}
use petrus.Petrinet.Schema.{is_consume, is_inhibit, Arc}
use petrus.Petrinet.Net.{Net}
use petrus.Petrinet.Enabledness.{
  Implementations, SurveyError, Alternative, Offer, veto, satisfied, alternatives, offer,
}
use petrus.Petrinet.Enabledness.Offers.{IsFor, offer-IsFor}
use petrus.Petrinet.Enabledness.Survey.{Answer, filter_uri, gather}

-- Two input arcs that would take from the same queue: one consumes, the other consumes or reads.
unfoldable pub clash : Arc → Arc → Bool
clash a b =
    a.source == b.source
    && ((is_consume a.mode || is_consume b.mode)
        && (not (is_inhibit a.mode) && not (is_inhibit b.mode)))

pub clash-ne :
    (a b : Arc)
    → clash a b ≡ false
    → (is_consume a.mode || is_consume b.mode) ≡ true
    → is_inhibit a.mode ≡ false
    → is_inhibit b.mode ≡ false
    → a.source ≢ b.source
unfolding clash
clash-ne a b free takes f g same = ground (arith, list_beq_iff a.source b.source)

-- No two input arcs of a transition clash.
unfoldable pub separate : List (ℕ × Arc) → Bool
separate [] = true
separate (x ∷ rest) = not (any (λ (y : ℕ × Arc). clash x.1 y.1) rest) && separate rest

module _ {D : Type 0} ⦃e : Eq D⦄ where
  -- The answers of arcs that do not clash, each with alternatives that are at hand.
  abbrev pub AreSound : Marking D → List (Answer D) → Type 0
  AreSound m [] = Unit
  AreSound m (a ∷ rest) =
      (is_inhibit a.0.mode ≡ false)
      × All (IsFor m a.0) a.1
      × All (λ (b : Answer D). clash a.0 b.0 ≡ false) rest
      × AreSound m rest

  pub Offer-cases :
      (o : Offer D)
      → (o ≡ veto)
        ⊎ ((o ≡ satisfied)
            ⊎ ((arc : Arc) × (xs : List (Alternative D)) × (o ≡ alternatives arc xs)))
  Offer-cases veto = inl refl
  Offer-cases satisfied = inr (inl refl)
  Offer-cases (alternatives arc xs) = inr (inr (arc, xs, refl))

module _ {D : Type 0} ⦃e : Eq D⦄ (net : Net) (impl : Implementations D) (m : Marking D)
    (anchors : Option (Dict NetPath (List ℕ))) where
  abbrev pub asks : ℕ × Arc → Result (SurveyError D) (Offer D)
  asks x = offer impl m anchors (filter_uri net x) x.1

  -- A loop over the inputs that no arc vetoed.
  pub data Gathers : List (ℕ × Arc) → List (Answer D) → Type 0 where
    done : Gathers [] []
    pass :
        (x : ℕ × Arc) (ins : List (ℕ × Arc)) (answers : List (Answer D))
        → Gathers ins answers
        → Gathers (x ∷ ins) answers
    answer :
        (x : ℕ × Arc) (xs : List (Alternative D)) (ins : List (ℕ × Arc)) (answers : List (Answer D))
        → asks x ≡ ok (alternatives x.1 xs)
        → Gathers ins answers
        → Gathers (x ∷ ins) ((x.1, xs) ∷ answers)

  pub gather-Gathers :
      (ins : List (ℕ × Arc)) (answers : List (Answer D))
      → gather net impl m anchors ins ≡ ok (some answers)
      → Gathers ins answers
  unfolding gather
  gather-Gathers [] answers h = let same : answers ≡ [] = ground arith in rw same done
  gather-Gathers (x ∷ ins) answers h = elim (Result-cases (asks x)) [
    | inr (y, raised) ↦ absurd (ground arith)
    | inl (o, offered) ↦ elim (Offer-cases o) [
      | inl vetoed ↦ absurd (ground arith)
      | inr (inl free) ↦ pass x ins answers (gather-Gathers ins answers (ground arith))
      | inr (inr (arc, xs, chosen)) ↦ elim (Result-cases (gather net impl m anchors ins)) [
        | inr (y, raised) ↦ absurd (ground arith)
        | inl (more, gathered) ↦ elim (Option-cases more) [
          | inl no_more ↦ absurd (ground arith)
          | inr (rs, some_more) ↦
              let (same, _, _) =
                offer-IsFor impl m anchors (filter_uri net x) x.1 arc xs (ground arith) in
              let all_of : answers ≡ (x.1, xs) ∷ rs = ground arith in
              rw all_of (answer x xs ins rs (ground arith) (gather-Gathers ins rs (ground arith)))
        ]
      ]
    ]
  ]

  -- What no input satisfies, no answering arc satisfies.
  Gathers-avoids :
      (p : Arc → Bool) (ins : List (ℕ × Arc)) (answers : List (Answer D))
      → Gathers ins answers
      → any (λ (y : ℕ × Arc). p y.1) ins ≡ false
      → All (λ (b : Answer D). p b.0 ≡ false) answers
  unfolding any
  Gathers-avoids p _ _ done h = tt
  Gathers-avoids p _ _ (pass x ins answers g) h = Gathers-avoids p ins answers g (ground arith)
  Gathers-avoids p _ _ (answer x xs ins answers offered g) h =
      (ground arith, Gathers-avoids p ins answers g (ground arith))

  pub Gathers-AreSound :
      (ins : List (ℕ × Arc)) (answers : List (Answer D))
      → Gathers ins answers
      → separate ins ≡ true
      → AreSound m answers
  unfolding separate
  Gathers-AreSound _ _ done h = tt
  Gathers-AreSound _ _ (pass x ins answers g) h = Gathers-AreSound ins answers g (ground arith)
  Gathers-AreSound _ _ (answer x xs ins answers offered g) h =
      let (_, selects, good) = offer-IsFor impl m anchors (filter_uri net x) x.1 x.1 xs offered in
      (
        selects,
        good,
        Gathers-avoids (clash x.1) ins answers g (ground arith),
        Gathers-AreSound ins answers g (ground arith),
      )
