-- ===== src/Petrinet/Firing/Route.antt =====
-- What `route` of src/petrus/impetus/petrinet/routing.py sends to each place.
use petrus.Base.{
  ◌≡◌, sym, List, [], ◌∷◌, ◌++◌, arith, ◌==◌, list_eq, string_eq, list_beq_iff, if◌then◌else◌, Dict,
  get, put, or_else, get-put, filter, flat_map, is_empty, append_assoc, append-nil,
}
use petrus.Petrinet.Token.{Token, NetPath}
use petrus.Petrinet.Schema.{Arc, admits}
use petrus.Petrinet.Firing.{route}

module _ {D : Type 0} where
  -- What one arc sends to a place.
  abbrev pub sent : List (Token D) → NetPath → Arc → List (Token D)
  sent ts j a = if a.target == j then filter (admits a) ts else []

  route-from :
      (ts : List (Token D)) (arcs : List Arc) (d : Dict NetPath (List (Token D))) (j : NetPath)
      → or_else (get (route ts arcs d) j) [] ≡ or_else (get d j) [] ++ flat_map (sent ts j) arcs
  unfolding route flat_map
  route-from ts [] d j = sym (append-nil (or_else (get d j) []))
  route-from ts (a ∷ arcs) d j =
      let admitted = filter (admits a) ts in
      let more = put d a.target (or_else (get d a.target) [] ++ admitted) in
      let next = if is_empty admitted then d else more in
      ground (
        arith,
        route-from ts arcs next j,
        get-put d a.target j (or_else (get d a.target) [] ++ admitted),
        list_beq_iff a.target j,
        append_assoc (or_else (get d j) []) (sent ts j a) (flat_map (sent ts j) arcs),
        append-nil (or_else (get d j) []),
      )

  -- Routing sends to each place, arc by arc in the order of the arcs, the tokens that the arc to it
  -- admits, in their order.
  pub route_lem :
      (ts : List (Token D)) (arcs : List Arc) (j : NetPath)
      → or_else (get (route ts arcs []) j) [] ≡ flat_map (sent ts j) arcs
  unfolding get
  route_lem ts arcs j = route-from ts arcs [] j
