-- ===== src/Selection/Strategies.antt =====
-- `First` and `Priority` of src/petrus/impetus/selection/__init__.py.
use petrus.Base.{
  ◌≡◌, refl, ap, sym, ◌∙◌, inl, inr, true, false, Option, none, some, List, [], ◌∷◌, ◌++◌,
  string_eq, list_eq, if◌then◌else◌, ok, Dict, get, or_else, ℤ, pos, int_ltb, int_ltb_below,
  int_not_below, int_ltb_above, int_ltb_irrefl, append-nil, append_assoc, All, All-append,
  Bool-cases,
}
use petrus.Petrinet.Token.{NetPath}
use petrus.Petrinet.Enabledness.{Binding}
use petrus.Selection.{SelectionProposal, SelectionPolicy}

-- A policy that keeps its state.
abbrev pub stay : {D S : Type 0} → S → Binding D → SelectionProposal D S
stay s b = record { binding = b; prior_state = s; next_state = s }

abbrev pub propose_first : {D S : Type 0} → List (Binding D) → S → Option (SelectionProposal D S)
propose_first [] s = none
propose_first (b ∷ bs) s = some (stay s b)

abbrev pub first : {D S : Type 0} → SelectionPolicy D S
first = record { propose = λ bs s. ok (propose_first bs s); fold_committed = λ s t. ok s }

-- `max(xs, key=key)`: the first of the greatest.
unfoldable pub max_by : {A : Type 0} → (A → ℤ) → A → List A → A
max_by key best [] = best
max_by key best (x ∷ xs) = max_by key (if int_ltb (key best) (key x) then x else best) xs

abbrev pub priority_of : {D : Type 0} → Dict NetPath ℤ → Binding D → ℤ
priority_of priorities b = or_else (get priorities b.transition) (pos 0)

unfoldable pub propose_priority :
    {D S : Type 0} → Dict NetPath ℤ → List (Binding D) → S → Option (SelectionProposal D S)
propose_priority priorities [] s = none
propose_priority priorities (b ∷ bs) s = some (stay s (max_by (priority_of priorities) b bs))

abbrev pub priority : {D S : Type 0} → Dict NetPath ℤ → SelectionPolicy D S
priority priorities = record {
  propose = λ bs s. ok (propose_priority priorities bs s);
  fold_committed = λ s t. ok s;
}

module _ {A : Type 0} (key : A → ℤ) where
  -- The first of the greatest keys.
  abbrev pub IsFirstGreatest : A → List A → Type 0
  IsFirstGreatest a xs =
      (before : List A) × (after : List A) × (xs ≡ before ++ a ∷ after)
      × All (λ x. int_ltb (key x) (key a) ≡ true) before
      × All (λ x. int_ltb (key a) (key x) ≡ false) after

  max_by-ge : (best : A) (xs : List A) → int_ltb (key (max_by key best xs)) (key best) ≡ false
  unfolding max_by
  max_by-ge best [] = int_ltb_irrefl (key best)
  max_by-ge best (x ∷ xs) = elim (Bool-cases (int_ltb (key best) (key x))) [
    | inl lower ↦
        rw lower (int_not_below (key best) (key x) (key (max_by key x xs)) lower (max_by-ge x xs))
    | inr kept ↦ rw kept (max_by-ge best xs)
  ]

  max_by-below :
      (a best : A) (xs : List A)
      → int_ltb (key best) (key a) ≡ true
      → All (λ x. int_ltb (key best) (key x) ≡ false) xs
      → All (λ x. int_ltb (key x) (key a) ≡ true) xs
  max_by-below a best [] h k = tt
  max_by-below a best (x ∷ xs) h k =
      (int_ltb_above (key best) (key a) (key x) h k.0, max_by-below a best xs h k.1)

  max_by-scanned :
      (best : A) (seen xs : List A)
      → All (λ x. int_ltb (key best) (key x) ≡ false) seen
      → IsFirstGreatest (max_by key best xs) (best ∷ seen ++ xs)
  unfolding max_by
  max_by-scanned best seen [] h = ([], seen, ap (◌∷◌ best) (append-nil seen), tt, h)
  max_by-scanned best seen (x ∷ xs) h = elim (Bool-cases (int_ltb (key best) (key x))) [
    | inl lower ↦
        let r = max_by key x xs in
        let (before, after, split, below, fine) = max_by-scanned x [] xs tt in
        let under = int_ltb_below (key best) (key x) (key r) lower (max_by-ge x xs) in
        rw lower (
          best ∷ seen ++ before,
          after,
          ap (λ l. best ∷ seen ++ l) split
              ∙ ap (◌∷◌ best) (sym (append_assoc seen before (r ∷ after))),
          (
            under,
            All-append (λ y. int_ltb (key y) (key r) ≡ true) seen before
                (max_by-below r best seen under h) below,
          ),
          fine,
        )
    | inr kept ↦
        let (before, after, split, below, fine) =
          max_by-scanned best (seen ++ x ∷ []) xs
            (All-append (λ y. int_ltb (key best) (key y) ≡ false) seen (x ∷ []) h (kept, tt)) in
        rw kept
          (before, after, ap (◌∷◌ best) (sym (append_assoc seen (x ∷ []) xs)) ∙ split, below, fine)
  ]

module _ {D S : Type 0} where
  -- Of any candidates at all, the priority strategy proposes one and keeps its state: every candidate
  -- before it has a strictly lower priority, and none after it has a higher one.
  pub propose_priority_lem :
      (priorities : Dict NetPath ℤ) (b : Binding D) (bs : List (Binding D)) (s : S)
      → (p : SelectionProposal D S) × (propose_priority priorities (b ∷ bs) s ≡ some p)
        × (p.prior_state ≡ s)
        × (p.next_state ≡ s)
        × IsFirstGreatest (priority_of priorities) p.binding (b ∷ bs)
  unfolding propose_priority
  propose_priority_lem priorities b bs s = (
    stay s (max_by (priority_of priorities) b bs),
    refl,
    refl,
    refl,
    max_by-scanned (priority_of priorities) b [] bs tt,
  )
