-- ===== src/Petrinet/Firing/Spelled.antt =====
-- What `complete_firing` of src/petrus/impetus/petrinet/firing.py deposits, however a handler spells
-- the destinations.
use petrus.Base.{
  ◌≡◌, refl, sym, ap, ◌∙◌, inl, inr, Bool, List, [], ◌∷◌, ◌++◌, arith, ◌==◌, list_eq, string_eq,
  if◌then◌else◌, ok, Result-cases, filter,
}
use petrus.Petrinet.Token.{Token, NetPath}
use petrus.Petrinet.Path.{Destination, address, spelled, net_path, dotted}
use petrus.Petrinet.Path.Spelling.{net_path-dotted}
use petrus.Petrinet.Marking.{Marking, place}
use petrus.Petrinet.Net.{Net, outputs}
use petrus.Petrinet.Enabledness.{Selection}
use petrus.Petrinet.Firing.{
  ProducedTokens, routed_to, complete_firing, destinations, complete_projected,
}
use petrus.Petrinet.Firing.Complete.{listed_at, effects_at, complete_firing_lem}

-- Whether a destination is the address, or its dotted text.
abbrev pub names : NetPath → Destination → Bool
names j (address p) = p == j
names j (spelled s) = s == dotted j

names-net_path :
    (j : NetPath) (d : Destination) (p : NetPath)
    → net_path (spelled (dotted j)) ≡ ok j
    → net_path d ≡ ok p
    → (p == j) ≡ names j d
unfolding net_path
names-net_path j (address q) p proper made = let same : q ≡ p = ground arith in rw same refl
names-net_path j (spelled s) p proper made = net_path-dotted s p j made proper

module _ {D : Type 0} where
  -- All tokens that are projected to a place, under any spelling, in order.
  unfoldable pub projected_to : NetPath → List (Destination × List (Token D)) → List (Token D)
  projected_to j [] = []
  projected_to j ((d, ts) ∷ rest) = (if names j d then ts else []) ++ projected_to j rest

  listed_at-destinations :
      (j : NetPath) (projected : List (Destination × List (Token D))) (entries : List (Selection D))
      → net_path (spelled (dotted j)) ≡ ok j
      → destinations projected ≡ ok entries
      → listed_at j entries ≡ projected_to j projected
  unfolding destinations projected_to listed_at
  listed_at-destinations j [] entries proper h =
      let same : entries ≡ [] = ground arith in rw same refl
  listed_at-destinations j ((d, ts) ∷ rest) entries proper h = elim (Result-cases (net_path d)) [
    | inr (x, raised) ↦ absurd (ground arith)
    | inl (p, made) ↦ elim (Result-cases (destinations rest)) [
      | inr (x, raised) ↦ absurd (ground arith)
      | inl (more, spelled_out) ↦
          let same : entries ≡ (p, ts) ∷ more = ground arith in
          rw
            (
              same,
              names-net_path j d p proper made,
              listed_at-destinations j rest more proper spelled_out,
            )
            refl
    ]
  ]

  -- Whenever completing a firing returns, it has appended to each place whose address is one that a
  -- text can spell, in order, exactly the tokens projected to it (under its address or under its
  -- dotted text) that an output arc to it admits; nothing else at that place has changed, and the
  -- effects there are the same tokens.
  pub complete_projected_lem :
      (net : Net) (m n : Marking D) (transition : NetPath)
      (projected : List (Destination × List (Token D))) (effects : List (ProducedTokens D))
      (j : NetPath)
      → net_path (spelled (dotted j)) ≡ ok j
      → complete_projected net m transition projected ≡ ok (effects, n)
      → (place n j
          ≡ place m j ++ filter (routed_to (outputs net transition) j) (projected_to j projected))
        × (effects_at j effects
            ≡ filter (routed_to (outputs net transition) j) (projected_to j projected))
  unfolding complete_projected
  complete_projected_lem net m n transition projected effects j proper h =
      elim (Result-cases (destinations projected)) [
        | inr (x, raised) ↦ absurd (ground arith)
        | inl (entries, made) ↦
            let done : complete_firing net m transition entries ≡ (effects, n) = ground arith in
            let (placed, reported) = complete_firing_lem net m transition entries j in
            let listed = listed_at-destinations j projected entries proper made in
            (
              ap (λ r. place r.1 j) (sym done) ∙ rw (← listed) placed,
              ap (λ r. effects_at j r.0) (sym done) ∙ rw (← listed) reported,
            )
      ]
