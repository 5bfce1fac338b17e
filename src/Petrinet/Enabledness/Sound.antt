-- ===== src/Petrinet/Enabledness/Sound.antt =====
-- What `candidates` of src/petrus/impetus/petrinet/enabledness.py promises of a binding.
use petrus.Base.{
  ℕ, ◌+◌, ◌≡◌, refl, inl, inr, true, false, ◌&&◌, Option, none, some, List, [], ◌∷◌, ◌++◌, arith,
  Eq, if◌then◌else◌, any, count, Bool-cases, Option-cases, Result-cases, All, All-append, All-In,
  All-lookup, In, ok, Dict, get, keys, list_eq, string_eq,
}
use petrus.Petrinet.Token.{Token, NetPath, token_eq}
use petrus.Petrinet.Path.{sorted}
use petrus.Petrinet.Marking.{Marking, place}
use petrus.Petrinet.Schema.{is_delay, Transition}
use petrus.Petrinet.Net.{enumerate, Net, inputs, is_source, is_none}
use petrus.Petrinet.Firing.{begin_firing, consumed_effects, read_effects}
use petrus.Petrinet.Firing.Begin.{taken, begin_firing_enough}
use petrus.Petrinet.Enabledness.{Binding, Implementations, Alternative, guards_hold}
use petrus.Petrinet.Enabledness.Gathering.{separate, gather-Gathers, Gathers-AreSound}
use petrus.Petrinet.Enabledness.Choosing.{product-Chosen}
use petrus.Petrinet.Enabledness.Survey.{
  Answer, Found, gather, anchors_of, binding_of, maturation, youngest, is_mature, record_maturity,
  judge, choices, survey_transition, survey_loop, survey, candidates, needs_clock,
}
use petrus.Petrinet.Enabledness.Timing.{HasMatured, Holds, maturation-HasMatured, guards_hold-Holds}
use petrus.Petrinet.Enabledness.Fits.{Fits, gather-Fits}
use petrus.Petrinet.Enabledness.Begins.{CanBegin, choice-CanBegin}

-- An enabled binding: of a transition with inputs, none of which vetoes at the marking, with one of
-- the alternatives that each of them offers there, each of whose guards holds over it, and each of
-- whose timers has matured by the watermark: a date has come, and a delay has gone by since every one
-- of the entry instants that the alternatives carry. These are asked for only if there is a delay.
pub record IsEnabled {D : Type 0} ⦃e : Eq D⦄ (net : Net) (impl : Implementations D) (m : Marking D)
    (watermark : Option ℕ) (instants : Dict NetPath (List ℕ)) (b : Binding D) : Type 0 where
  pub transition : Transition
  pub known : get net.transitions b.transition ≡ some transition
  pub fed : is_source net b.transition ≡ false
  pub guarded : All (Holds impl b) (enumerate 0 transition.guards)
  pub entered : List ℕ
  pub fits :
      Fits net impl m
        (if any is_delay transition.timers then some instants else none)
        (inputs net b.transition)
        b.consumed
        b.read
        entered
  pub matured : All (HasMatured entered watermark) transition.timers
  pub undelivered : b.delivered ≡ []

module _ {D : Type 0} ⦃e : Eq D⦄ (net : Net) (impl : Implementations D) (m : Marking D)
    (watermark : Option ℕ) where
  -- What is proved of each candidate.
  abbrev pub Good : Dict NetPath (List ℕ) → Binding D → Type 0
  Good instants b = IsEnabled net impl m watermark instants b × CanBegin m b

  abbrev GoodChoice : NetPath → List (Answer D) → List (Alternative D) → Type 0
  GoodChoice path answers c = In c (choices answers) × CanBegin m (binding_of path answers c)

  record_maturity-Good :
      (instants : Dict NetPath (List ℕ)) (b : Binding D) (mature : Option ℕ) (found : Found D)
      → All (Good instants) found.enabled
      → (is_mature mature watermark ≡ true → Good instants b)
      → All (Good instants) (record_maturity b mature watermark found).enabled
  record_maturity-Good instants b mature found good at =
      elim (Bool-cases (is_mature mature watermark)) [
        | inl now ↦ rw now (All-append (Good instants) found.enabled (b ∷ []) good (at now, tt))
        | inr later ↦ rw later good
      ]

  judge-Good :
      (instants : Dict NetPath (List ℕ)) (path : NetPath) (t : Transition)
      (answers : List (Answer D)) (cs : List (List (Alternative D))) (found result : Found D)
      → get net.transitions path ≡ some t
      → is_source net path ≡ false
      → gather net impl m (if any is_delay t.timers then some instants else none) (inputs net path)
        ≡ ok (some answers)
      → All (GoodChoice path answers) cs
      → All (Good instants) found.enabled
      → judge impl path t answers watermark cs found ≡ ok result
      → All (Good instants) result.enabled
  unfolding judge
  judge-Good instants path t answers [] found result known fed gathered can good h =
      let same : found ≡ result = ground arith in rw (← same) good
  judge-Good instants path t answers (c ∷ cs) found result known fed gathered can good h =
      elim (Bool-cases (guards_hold impl t (binding_of path answers c))) [
        | inr skipped ↦
            judge-Good instants path t answers cs found result known fed gathered can.1 good
              (ground arith)
        | inl holds ↦ elim (Result-cases (maturation {D = D} t.timers (youngest (anchors_of c)))) [
          | inr (x, raised) ↦ absurd (ground arith)
          | inl (mature, matures) ↦
              judge-Good instants path t answers cs
                (record_maturity (binding_of path answers c) mature watermark found) result known
                fed gathered can.1
                (record_maturity-Good instants (binding_of path answers c) mature found good (λ now.
                  (
                    record {
                      transition = t;
                      known = known;
                      fed = fed;
                      guarded = guards_hold-Holds impl (binding_of path answers c) t holds;
                      entered = anchors_of c;
                      fits =
                          gather-Fits net impl m
                            (if any is_delay t.timers then some instants else none)
                            (inputs net path) answers c gathered (product-Chosen answers c can.0.0);
                      matured =
                          maturation-HasMatured D (anchors_of c) watermark t.timers mature matures
                            now;
                      undelivered = refl;
                    },
                    can.0.1,
                  )))
                (ground arith)
        ]
      ]

  -- The inputs of a transition whose arcs do not clash.
  abbrev pub IsSeparate : Type 0
  IsSeparate = (path : NetPath) → separate (inputs net path) ≡ true

  survey_transition-Good :
      (instants : Dict NetPath (List ℕ)) (path : NetPath) (found result : Found D)
      → separate (inputs net path) ≡ true
      → All (Good instants) found.enabled
      → survey_transition net impl m watermark instants path found ≡ ok result
      → All (Good instants) result.enabled
  unfolding survey_transition
  survey_transition-Good instants path found result apart good h =
      elim (Option-cases (get net.transitions path)) [
        | inl unknown ↦ let same : found ≡ result = ground arith in rw (← same) good
        | inr (t, known) ↦ elim (Bool-cases (is_source net path)) [
          | inl source ↦ let same : found ≡ result = ground arith in rw (← same) good
          | inr fed ↦ surveyed t known fed
        ]
      ]
    where
      surveyed :
          (t : Transition)
          → get net.transitions path ≡ some t
          → is_source net path ≡ false
          → All (Good instants) result.enabled
      surveyed t known fed =
          let anchors : Option (Dict NetPath (List ℕ)) =
            if any is_delay t.timers then some instants else none in
          elim (Result-cases (gather net impl m anchors (inputs net path))) [
            | inr (x, raised) ↦ absurd (ground arith)
            | inl (more, gathered) ↦ elim (Option-cases more) [
              | inl vetoed ↦ let same : found ≡ result = ground arith in rw (← same) good
              | inr (answers, offered) ↦
                  let sound =
                    Gathers-AreSound net impl m anchors (inputs net path) answers
                      (gather-Gathers net impl m anchors (inputs net path) answers (ground arith))
                      apart in
                  judge-Good instants path t answers (choices answers) found result known fed
                    (ground arith)
                    (All-In (GoodChoice path answers) (choices answers) (λ c k.
                      (k, choice-CanBegin m path answers c sound (product-Chosen answers c k))))
                    good (ground arith)
            ]
          ]

  survey_loop-Good :
      (instants : Dict NetPath (List ℕ)) (paths : List NetPath) (found result : Found D)
      → IsSeparate
      → All (Good instants) found.enabled
      → survey_loop net impl m watermark instants paths found ≡ ok result
      → All (Good instants) result.enabled
  unfolding survey_loop
  survey_loop-Good instants [] found result apart good h =
      let same : found ≡ result = ground arith in rw (← same) good
  survey_loop-Good instants (p ∷ ps) found result apart good h =
      elim (Result-cases (survey_transition net impl m watermark instants p found)) [
        | inr (x, raised) ↦ absurd (ground arith)
        | inl (found', step) ↦
            survey_loop-Good instants ps found' result apart
              (survey_transition-Good instants p found found' (apart p) good step) (ground arith)
      ]

  survey-Good :
      (instants : Dict NetPath (List ℕ)) (result : Found D)
      → IsSeparate
      → survey net impl m watermark instants ≡ ok result
      → All (Good instants) result.enabled
  unfolding survey
  survey-Good instants result apart h =
      elim (Bool-cases (is_none watermark && any (needs_clock net) net.transitions)) [
        | inl refused ↦ absurd (ground arith)
        | inr clocked ↦
            survey_loop-Good instants (sorted (keys net.transitions))
              (record { enabled = []; pending = [] }) result apart tt (ground arith)
      ]

  -- In a net whose input arcs do not clash, every candidate is an enabled binding, and is covered by
  -- the marking at pairwise different places.
  pub candidates-Good :
      (instants : Dict NetPath (List ℕ)) (bs : List (Binding D))
      → IsSeparate
      → candidates net impl m watermark instants ≡ ok bs
      → All (Good instants) bs
  unfolding candidates
  candidates-Good instants bs apart h = elim (Result-cases (survey net impl m watermark instants)) [
    | inr (x, raised) ↦ absurd (ground arith)
    | inl (found, surveyed) ↦
        let same : found.enabled ≡ bs = ground arith in
        rw (← same) (survey-Good instants found apart surveyed)
  ]

  -- In a net none of whose transitions has clashing input arcs, the firing of every candidate begins
  -- without an error, its effects are the consumed selections and then the read ones, and every place
  -- loses exactly the tokens that the candidate consumes there.
  pub candidates_begin :
      (instants : Dict NetPath (List ℕ)) (bs : List (Binding D)) (b : Binding D)
      → IsSeparate
      → candidates net impl m watermark instants ≡ ok bs
      → In b bs
      → (n : Marking D) × (begin_firing m b
          ≡ ok (consumed_effects b.consumed ++ read_effects b.read, n))
        × ((u : Token D) (j : NetPath)
            → count u (place m j) ≡ taken u j b.consumed + count u (place n j))
  candidates_begin instants bs b apart h here =
      let can = (All-lookup (Good instants) bs (candidates-Good instants bs apart h) b here).1 in
      begin_firing_enough m b can.consumed can.reads can.apart can.disjoint

  -- In a net none of whose transitions has clashing input arcs, every candidate consumes and reads, in
  -- the order of the input arcs of its transition, one of the alternatives that each of them offers at
  -- the marking, and no other arc vetoes it; each guard of the transition holds over it; and each of
  -- its timers has matured by the watermark: a date has come, and a delay has gone by since every entry
  -- instant that the chosen alternatives carry.
  pub candidates-IsEnabled :
      (instants : Dict NetPath (List ℕ)) (bs : List (Binding D)) (b : Binding D)
      → IsSeparate
      → candidates net impl m watermark instants ≡ ok bs
      → In b bs
      → IsEnabled net impl m watermark instants b
  candidates-IsEnabled instants bs b apart h here =
      (All-lookup (Good instants) bs (candidates-Good instants bs apart h) b here).0
