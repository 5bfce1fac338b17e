-- ===== src/Petrinet/Enabledness.antt =====
-- src/petrus/impetus/petrinet/enabledness.py: which transitions can fire, and with which tokens.
-- The implementations that the binding layer resolves are arguments: a filter or a guard gives a
-- Boolean, or `none` where it raises.
pub mod Survey
pub mod Timing
pub mod Fits
pub mod Gathering
pub mod Choosing
pub mod Begins
pub mod Sound
pub mod Offers
pub mod Selecting
use petrus.Base.{
  ℕ, zero, suc, ◌+◌, ◌≡◌, String, Bool, true, false, ◌&&◌, not, Option, none, some, List, [], ◌∷◌,
  ◌++◌, map, Eq, ◌==◌, string_eq, list_eq, if◌then◌else◌, Result, ok, err, ◌>>=◌, ◌>>◌, guard,
  map_err, length, get_elem?, flat_map, any, Dict, get, or_else, ltb, leb, max, is_empty,
}
use petrus.Petrinet.Token.{Token, NetPath}
use petrus.Petrinet.Queue.{TokenQueue, QueueError, time_blind, tokens, admitted_by}
use petrus.Petrinet.Marking.{Marking, place}
use petrus.Petrinet.Schema.{
  ArcMode, consume, read, inhibit, is_consume, FilterDeclaration, GuardDeclaration, Timer, delay,
  until, is_delay, Arc, Transition, admits,
}
use petrus.Petrinet.Net.{Net, ArcUri, inputs, is_source}

abbrev pub Selection : Type 0 → Type 0
Selection D = NetPath × List (Token D)

pub record Binding (D : Type 0) : Type 0 where
  pub transition : NetPath
  pub consumed : List (Selection D)
  pub read : List (Selection D)
  pub delivered : List (Token D)

-- The mapping of implementations, by canonical identity and by declaration. The runtime validates
-- that each declaration has one before an instance runs.
pub record Implementations (D : Type 0) : Type 0 where
  pub filter_at : ArcUri → Option (Token D → Option Bool)
  pub filter_of : FilterDeclaration → Token D → Option Bool
  pub guard_at : NetPath → ℕ → Option (Binding D → Option Bool)
  pub guard_of : GuardDeclaration → Binding D → Option Bool

pub data SurveyError (D : Type 0) : Type 0 where
  clock_required : SurveyError D
  misaligned_instants : NetPath → SurveyError D
  anchor_required : SurveyError D
  scan_error : QueueError D → SurveyError D

-- One way an arc can select, with the entry instants of the selected tokens.
pub record Alternative (D : Type 0) : Type 0 where
  pub selection : Selection D
  pub anchors : List ℕ

pub data Offer (D : Type 0) : Type 0 where
  veto : Offer D
  satisfied : Offer D
  alternatives : Arc → List (Alternative D) → Offer D

-- `itertools.combinations(xs, n)`: lexicographic in the positions.
unfoldable pub combinations {ℓ} : {A : Type ℓ} → ℕ → List A → List (List A)
combinations zero xs = [] ∷ []
combinations (suc n) [] = []
combinations (suc n) (x ∷ xs) = map (λ c. x ∷ c) (combinations n xs) ++ combinations (suc n) xs

-- `itertools.product(*xss)`: the first list varies slowest.
unfoldable pub product {ℓ} : {A : Type ℓ} → List (List A) → List (List A)
product [] = [] ∷ []
product (xs ∷ xss) = let rest = product xss in flat_map (λ x. map (λ c. x ∷ c) rest) xs

-- `tuple(queue[i] for i in positions)`, for positions within the queue.
unfoldable pub pick {ℓ} : {A : Type ℓ} → List A → List ℕ → List A
pick xs [] = []
pick xs (i ∷ is) = elim (get_elem? xs i) [ none ↦ pick xs is | some x ↦ x ∷ pick xs is ]

-- `xs[-1]`
abbrev pub last_or {ℓ} : {A : Type ℓ} → A → List A → A
last_or a [] = a
last_or a (x ∷ xs) = last_or x xs

-- A filter or a guard that raises does not admit.
abbrev pub holds : Option Bool → Bool
holds none = false
holds (some b) = b

-- `anchors.get(arc.source, ()) if anchors is not None else None`
abbrev pub instants_at : Option (Dict NetPath (List ℕ)) → NetPath → Option (List ℕ)
instants_at none source = none
instants_at (some anchors) source = some (or_else (get anchors source) [])

module _ {D : Type 0} where
  -- `filters[identity] if identity in filters else filters[arc.filter]`
  filter_implementation :
      Implementations D → Option ArcUri → FilterDeclaration → Token D → Option Bool
  filter_implementation impl none f = impl.filter_of f
  filter_implementation impl (some uri) f = or_else (impl.filter_at uri) (impl.filter_of f)

  unfoldable pub admitted : Implementations D → Arc → Option ArcUri → Token D → Bool
  unfolding filter_implementation
  admitted impl arc identity t = if not (admits arc t) then false else elim arc.filter [
    | none ↦ true
    | some f ↦ holds (filter_implementation impl identity f t)
  ]

  abbrev pub alternatives_at :
      NetPath → List (Token D) → Option (List ℕ) → List (List ℕ) → List (Alternative D)
  alternatives_at source queue instants combos =
      map
        (λ c. record {
          selection = (source, pick queue c);
          anchors = elim instants [ none ↦ [] | some is ↦ pick is c ];
        })
        combos

  -- The entry instants must reach the last admitted position.
  abbrev pub check_instants : Arc → List ℕ → Option (List ℕ) → Result (SurveyError D) (Unit {0})
  check_instants arc positions none = ok tt
  check_instants arc positions (some is) =
      guard (ltb (last_or 0 positions) (length is)) (misaligned_instants arc.source)

  unfoldable pub offer_inhibit : Arc → List ℕ → Offer D
  offer_inhibit arc positions = if leb arc.weight (length positions) then veto else satisfied

  unfoldable pub offer_select :
      Arc → List (Token D) → Option (List ℕ) → List ℕ → Result (SurveyError D) (Offer D)
  offer_select arc queue instants positions =
      if ltb (length positions) arc.weight then ok veto else do
        check_instants arc positions instants
        ok (
            alternatives arc
              (alternatives_at arc.source queue instants (combinations arc.weight positions)))

  unfoldable pub offer :
      Implementations D
      → Marking D
      → Option (Dict NetPath (List ℕ))
      → Option ArcUri
      → Arc
      → Result (SurveyError D) (Offer D)
  offer impl marking anchors identity arc =
      let queue = place marking arc.source in
      let scan = λ (limit : Option ℕ).
        map_err scan_error (admitted_by (time_blind queue) (admitted impl arc identity) limit) in
      elim arc.mode [
        | inhibit ↦ scan (some arc.weight) >>= λ positions. ok (offer_inhibit arc positions)
        | _ ↦ scan none >>= λ positions.
            offer_select arc queue (instants_at anchors arc.source) positions
      ]

  -- The tokens that a firing forwards, and those that guards see.
  pub forwarded : Binding D → List (Token D)
  forwarded b = flat_map (λ (s : Selection D). s.1) b.consumed ++ b.delivered

  pub peeked : Binding D → List (Token D)
  peeked b = forwarded b ++ flat_map (λ (s : Selection D). s.1) b.read

  -- The conjunction of the guards from position `n` on; a guard that raises does not hold.
  unfoldable pub guards_hold_from :
      Implementations D → NetPath → ℕ → List GuardDeclaration → Binding D → Bool
  guards_hold_from impl path n [] b = true
  guards_hold_from impl path n (g ∷ gs) b =
      let rest = guards_hold_from impl path (suc n) gs b in
      if holds (or_else (impl.guard_at path n) (impl.guard_of g) b) then rest else false

  unfoldable pub guards_hold : Implementations D → Transition → Binding D → Bool
  unfolding guards_hold_from
  guards_hold impl t b = guards_hold_from impl b.transition 0 t.guards b
