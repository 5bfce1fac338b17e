-- ===== src/Petrinet/Net.antt =====
-- `Net` of src/petrus/impetus/petrinet/schema.py: construction, validation and the indices.
use petrus.Base.{
  ℕ, suc, ◌+◌, String, Bool, true, false, ◌&&◌, ◌||◌, not, Option, none, some, List, [], ◌∷◌, ◌++◌,
  ◌==◌, string_eq, nat_eq, list_eq, pair_eq, option_eq, if◌then◌else◌, Result, ok, err, ◌>>=◌, ◌>>◌,
  guard, fold_result, any, length, is_empty, Dict, get, put, keys, or_else, ltb,
}
use petrus.Petrinet.Token.{NetPath}
use petrus.Petrinet.Schema.{
  is_consume, is_inhibit, is_delay, Arc, Place, Transition, SchemaError, bad_completion, bad_name,
  duplicate_place, duplicate_transition, name_collision, bad_endpoints, color_conflict,
  mode_on_output, filter_on_output, no_consume_input, source_guards, source_timers, no_anchor,
  is_symbol, is_color,
}

pub data CompletionDeclaration : Type 0 where
  symbol : String → CompletionDeclaration
  cel : String → CompletionDeclaration

-- The address of a part of a net, before it is encoded as text.
pub record ArcUri : Type 0 where
  pub source : NetPath
  pub target : NetPath
  pub occurrence : Option ℕ

pub record Net : Type 0 where
  pub completion : Option CompletionDeclaration
  pub name : Option String
  pub places : Dict NetPath Place
  pub transitions : Dict NetPath Transition
  pub arcs : List Arc
  pub arc_uris : List ArcUri
  pub input_index : Dict NetPath (List (ℕ × Arc))
  pub output_index : Dict NetPath (List Arc)

abbrev pub is_none {ℓ} : {A : Type ℓ} → Option A → Bool
is_none none = true
is_none (some a) = false

abbrev pub in_dict {ℓ} : {V : Type ℓ} → NetPath → Dict NetPath V → Bool
in_dict k d = elim (get d k) [ none ↦ false | some v ↦ true ]

-- `{x.path: x for x in xs}`
unfoldable pub by_path : {V : Type 0} → (V → NetPath) → List V → Dict NetPath V → Dict NetPath V
by_path path [] d = d
by_path path (x ∷ xs) d = by_path path xs (put d (path x) x)

-- `elif arc.source in transition_map and arc.target in place_map`
target_place : Dict NetPath Place → Dict NetPath Transition → Arc → Result SchemaError Place
target_place places transitions a = elim (get places a.target) [
  | some p ↦ if in_dict a.source transitions then ok p else err bad_endpoints
  | none ↦ err bad_endpoints
]

-- The place at one end of an arc, with a transition at the other.
unfoldable pub place_of :
    Dict NetPath Place → Dict NetPath Transition → Arc → Result SchemaError Place
unfolding target_place
place_of places transitions a = elim (get places a.source) [
  | some p ↦ if in_dict a.target transitions then ok p else target_place places transitions a
  | none ↦ target_place places transitions a
]

-- The color of an arc: its own, or else its place's.
unfoldable pub resolve_color : Place → Arc → Result SchemaError Arc
resolve_color p a = elim p.color [
  | none ↦ ok a
  | some c ↦ elim a.color [
    | none ↦ ok (record a { color = some c })
    | some d ↦ if c == d then ok a else err color_conflict
  ]
]

unfoldable pub resolve_place_colors :
    Dict NetPath Place → Dict NetPath Transition → List Arc → Result SchemaError (List Arc)
resolve_place_colors places transitions [] = ok []
resolve_place_colors places transitions (a ∷ rest) = do
  p ← place_of places transitions a
  b ← resolve_color p a
  bs ← resolve_place_colors places transitions rest
  ok (b ∷ bs)

abbrev pub ends : Arc → NetPath × NetPath
ends a = (a.source, a.target)

-- `pair_counts`
unfoldable pub count_pairs : List Arc → Dict (NetPath × NetPath) ℕ → Dict (NetPath × NetPath) ℕ
count_pairs [] d = d
count_pairs (a ∷ rest) d = count_pairs rest (put d (ends a) (or_else (get d (ends a)) 0 + 1))

-- The loop that numbers the arcs of a pair, where the pair has more than one.
unfoldable pub number_arcs :
    Dict (NetPath × NetPath) ℕ → List Arc → Dict (NetPath × NetPath) ℕ → List ArcUri
number_arcs pair_counts [] positions = []
number_arcs pair_counts (a ∷ rest) positions =
    let position = or_else (get positions (ends a)) 0 in
    let shared = ltb 1 (or_else (get pair_counts (ends a)) 0) in
    let uri : ArcUri = record {
      source = a.source;
      target = a.target;
      occurrence = if shared then some position else none;
    } in
    uri ∷ number_arcs pair_counts rest (put positions (ends a) (position + 1))

abbrev pub extend : {A : Type 0} → Dict NetPath (List A) → NetPath → A → Dict NetPath (List A)
extend d k a = put d k (or_else (get d k) [] ++ a ∷ [])

pub record Indices : Type 0 where
  pub inputs : Dict NetPath (List (ℕ × Arc))
  pub outputs : Dict NetPath (List Arc)

-- One turn of the loop that sorts the arcs into the input and the output index.
unfoldable pub index_arc :
    Dict NetPath Place → Dict NetPath Transition → Indices → ℕ × Arc → Result SchemaError Indices
index_arc places transitions ix (position, a) =
    if in_dict a.source places && in_dict a.target transitions
    then ok (record ix { inputs = extend ix.inputs a.target (position, a) })
    else do
      guard (is_consume a.mode) mode_on_output
      guard (is_none a.filter) filter_on_output
      ok (record ix { outputs = extend ix.outputs a.source a })

abbrev pub has_handler : Option Transition → Bool
has_handler none = false
has_handler (some t) = not (is_none t.handler)

-- `enumerate(arcs)`
unfoldable pub enumerate {ℓ} : {A : Type ℓ} → ℕ → List A → List (ℕ × A)
enumerate n [] = []
enumerate n (x ∷ xs) = (n, x) ∷ enumerate (suc n) xs

-- A transition with inputs has a handler, or consumes.
unfoldable pub check_consumes :
    Dict NetPath Transition → NetPath × List (ℕ × Arc) → Result SchemaError (Unit {0})
check_consumes transitions (path, arcs) =
    guard (has_handler (get transitions path) || any (λ (p : ℕ × Arc). is_consume p.1.mode) arcs)
      no_consume_input

-- Guards and timers need inputs, and a delay an input that is no inhibitor.
unfoldable pub check_enabledness :
    Dict NetPath (List (ℕ × Arc)) → NetPath × Transition → Result SchemaError (Unit {0})
check_enabledness inputs (path, t) =
    let arcs = or_else (get inputs path) [] in
    do
      guard (in_dict path inputs || is_empty t.guards) source_guards
      guard (in_dict path inputs || is_empty t.timers) source_timers
      guard (not (any is_delay t.timers) || any (λ (p : ℕ × Arc). not (is_inhibit p.1.mode)) arcs)
          no_anchor

-- `for x in xs: check(x)`
unfoldable pub check_all {ℓ} :
    {A : Type ℓ} → (A → Result SchemaError (Unit {0})) → List A → Result SchemaError (Unit {0})
check_all check [] = ok tt
check_all check (x ∷ xs) = do check x; check_all check xs

check_completion : Option CompletionDeclaration → Result SchemaError (Unit {0})
check_completion (some (CompletionDeclaration.symbol s)) = guard (is_symbol s) bad_completion
check_completion _ = ok tt

-- `Net.__init__`
unfoldable pub build :
    List Place
    → List Transition
    → List Arc
    → Option CompletionDeclaration
    → Option String
    → Result SchemaError Net
unfolding check_completion
build places transitions arcs completion name = do
  check_completion completion
  guard (is_color name) bad_name
  let place_map = by_path (λ (p : Place). p.path) places []
  let transition_map = by_path (λ (t : Transition). t.path) transitions []
  guard (length place_map == length places) duplicate_place
  guard (length transition_map == length transitions) duplicate_transition
  guard (not (any (λ k. in_dict k transition_map) (keys place_map))) name_collision
  resolved ← resolve_place_colors place_map transition_map arcs
  ix ←
      fold_result (index_arc place_map transition_map) (record { inputs = []; outputs = [] })
        (enumerate 0 resolved)
  check_all (check_consumes transition_map) ix.inputs
  check_all (check_enabledness ix.inputs) transition_map
  ok (record {
    completion = completion;
    name = name;
    places = place_map;
    transitions = transition_map;
    arcs = resolved;
    arc_uris = number_arcs (count_pairs resolved []) resolved [];
    input_index = ix.inputs;
    output_index = ix.outputs;
  })

-- `inputs`, `input_positions` and `outputs`
unfoldable pub inputs : Net → NetPath → List (ℕ × Arc)
inputs n t = or_else (get n.input_index t) []

unfoldable pub outputs : Net → NetPath → List Arc
outputs n t = or_else (get n.output_index t) []

-- A transition with no input arcs.
unfoldable pub is_source : Net → NetPath → Bool
is_source n t = not (in_dict t n.input_index)
