-- ===== src/Petrinet/Enabledness/Offers.antt =====
-- What `offer` of src/petrus/impetus/petrinet/enabledness.py answers.
use petrus.Base.{
  ℕ, ◌≤◌, ◌<◌, ◌≡◌, refl, inl, inr, false, Option, none, some, List, arith, Eq, ltb, length,
  Bool-cases, Result-cases, All, All-In, Result, ok, Dict, list_eq, string_eq,
}
use petrus.Petrinet.Token.{Token, NetPath, token_eq}
use petrus.Petrinet.Queue.{QueueError, time_blind, admitted_by}
use petrus.Petrinet.Queue.Scan.{Increasing, admitted_by_lem}
use petrus.Petrinet.Marking.{Marking, place}
use petrus.Petrinet.Schema.{ArcMode, consume, read, inhibit, is_inhibit, Arc}
use petrus.Petrinet.Net.{ArcUri}
use petrus.Petrinet.Firing.Begin.{Covered}
use petrus.Petrinet.Enabledness.{
  Implementations, Alternative, veto, alternatives, combinations, admitted, alternatives_at,
  check_instants, instants_at, offer_inhibit, offer_select, offer,
}
use petrus.Petrinet.Enabledness.Selecting.{In-map, combinations-Increasing, count-pick-le}

module _ {D : Type 0} ⦃e : Eq D⦄ where
  -- An alternative of an arc: it selects from the arc's place, and what it selects is there.
  pub record IsFor (m : Marking D) (arc : Arc) (x : Alternative D) : Type 0 where
    pub source : x.selection.0 ≡ arc.source
    pub covered : Covered m x.selection

  -- The scan that an arc makes of its place, without a limit.
  abbrev pub scan :
      Implementations D → Marking D → Option ArcUri → Arc → Result (QueueError D) (List ℕ)
  scan impl m identity arc =
      admitted_by (time_blind (place m arc.source)) (admitted impl arc identity) none

  alternatives_at-IsFor :
      (m : Marking D) (arc : Arc) (instants : Option (List ℕ)) (ps : List ℕ)
      → Increasing 0 ps
      → All
          (IsFor m arc)
          (alternatives_at arc.source (place m arc.source) instants (combinations arc.weight ps))
  alternatives_at-IsFor m arc instants ps up = All-In (IsFor m arc) _ λ x k.
      let (c, l, same) = In-map _ x (combinations arc.weight ps) k in
      let sorted = (combinations-Increasing arc.weight 0 ps c up l).0 in
      rw same
        (record { source = refl; covered = λ u. count-pick-le u (place m arc.source) c sorted })

  -- The alternatives are those of the combinations of the admitted positions, of which there are
  -- enough.
  offer_select-eq :
      (m : Marking D) (arc arc' : Arc) (instants : Option (List ℕ)) (ps : List ℕ)
      (xs : List (Alternative D))
      → offer_select arc (place m arc.source) instants ps ≡ ok (alternatives arc' xs)
      → (arc' ≡ arc)
        × (xs
            ≡ alternatives_at arc.source (place m arc.source) instants (combinations arc.weight ps))
        × (arc.weight ≤ length ps)
  unfolding offer_select
  offer_select-eq m arc arc' instants ps xs h = elim (Bool-cases (ltb (length ps) arc.weight)) [
    | inl few ↦ absurd (ground arith)
    | inr enough ↦ elim (Result-cases (check_instants {D = D} arc ps instants)) [
      | inl (_, aligned) ↦ (ground arith, ground arith, ground arith)
      | inr (x, raised) ↦ absurd (ground arith)
    ]
  ]

  -- A veto of a consume or read arc means that too few tokens are admitted.
  offer_select-veto :
      (arc : Arc) (queue : List (Token D)) (instants : Option (List ℕ)) (ps : List ℕ)
      → offer_select arc queue instants ps ≡ ok veto
      → length ps < arc.weight
  unfolding offer_select
  offer_select-veto arc queue instants ps h = elim (Bool-cases (ltb (length ps) arc.weight)) [
    | inl few ↦ ground arith
    | inr enough ↦ elim (Result-cases (check_instants {D = D} arc ps instants)) [
      | inl (_, aligned) ↦ absurd (ground arith)
      | inr (x, raised) ↦ absurd (ground arith)
    ]
  ]

  -- An offer of alternatives comes from a scan that found enough positions.
  offer_cases :
      (impl : Implementations D) (m : Marking D) (anchors : Option (Dict NetPath (List ℕ)))
      (identity : Option ArcUri) (arc arc' : Arc) (xs : List (Alternative D)) (ps : List ℕ)
      → scan impl m identity arc ≡ ok ps
      → offer impl m anchors identity arc ≡ ok (alternatives arc' xs)
      → (is_inhibit arc.mode ≡ false)
        × (offer_select arc (place m arc.source) (instants_at anchors arc.source) ps
            ≡ ok (alternatives arc' xs))
  unfolding offer offer_inhibit
  offer_cases impl m anchors identity arc arc' xs ps scanned h = by_mode arc.mode refl
    where
      by_mode :
          (mode : ArcMode)
          → arc.mode ≡ mode
          → (is_inhibit arc.mode ≡ false)
            × (offer_select arc (place m arc.source) (instants_at anchors arc.source) ps
                ≡ ok (alternatives arc' xs))
      by_mode inhibit is =
          elim (Result-cases (
            admitted_by (time_blind (place m arc.source)) (admitted impl arc identity)
              (some arc.weight))) [
                | inl (qs, found) ↦ absurd (ground arith)
                | inr (x, raised) ↦ absurd (ground arith)
              ]
      by_mode consume is = (ground arith, ground arith)
      by_mode read is = (ground arith, ground arith)

  -- Every alternative that an arc offers selects from its place tokens that are there, as often as it
  -- selects them; only consume and read arcs offer alternatives.
  pub offer-IsFor :
      (impl : Implementations D) (m : Marking D) (anchors : Option (Dict NetPath (List ℕ)))
      (identity : Option ArcUri) (arc arc' : Arc) (xs : List (Alternative D))
      → offer impl m anchors identity arc ≡ ok (alternatives arc' xs)
      → (arc' ≡ arc) × (is_inhibit arc.mode ≡ false) × All (IsFor m arc) xs
  offer-IsFor impl m anchors identity arc arc' xs h =
      let (ps, scanned, up, _, _) =
        admitted_by_lem (time_blind (place m arc.source)) (admitted impl arc identity) in
      let (selects, offered) = offer_cases impl m anchors identity arc arc' xs ps scanned h in
      let (same, all_xs, _) =
        offer_select-eq m arc arc' (instants_at anchors arc.source) ps xs offered in
      (
        same,
        selects,
        rw all_xs (alternatives_at-IsFor m arc (instants_at anchors arc.source) ps up),
      )
