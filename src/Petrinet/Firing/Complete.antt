-- ===== src/Petrinet/Firing/Complete.antt =====
-- What `complete_firing` of src/petrus/impetus/petrinet/firing.py and `route` of routing.py deposit.
use petrus.Base.{
  ◌≡◌, refl, ap, sym, ◌∙◌, inl, inr, none, List, [], ◌∷◌, ◌++◌, arith, ◌==◌, list_eq, string_eq,
  list_beq_iff, if◌then◌else◌, Bool-cases, Dict, get, put, or_else, get-put, UniqueKeys,
  put-UniqueKeys, filter, filter-append, append_assoc, append-nil,
}
use petrus.Petrinet.Token.{Token, NetPath}
use petrus.Petrinet.Marking.{Marking, place, deposit}
use petrus.Petrinet.Marking.Laws.{place-deposit}
use petrus.Petrinet.Schema.{Arc}
use petrus.Petrinet.Net.{Net, outputs}
use petrus.Petrinet.Enabledness.{Selection}
use petrus.Petrinet.Firing.{
  ProducedTokens, coalesce, routed_to, deposit_all, with_effect, produce, complete_firing,
}

module _ {D : Type 0} where
  -- All tokens that are listed for a place, in order.
  unfoldable pub listed_at : NetPath → List (Selection D) → List (Token D)
  listed_at j [] = []
  listed_at j ((p, ts) ∷ rest) = (if p == j then ts else []) ++ listed_at j rest

  pub effects_at : NetPath → List (ProducedTokens D) → List (Token D)
  effects_at j [] = []
  effects_at j (x ∷ rest) = (if x.place == j then x.tokens else []) ++ effects_at j rest

  listed_at-absent :
      (j : NetPath) (d : Dict NetPath (List (Token D))) → get d j ≡ none → listed_at j d ≡ []
  unfolding listed_at get
  listed_at-absent j [] h = refl
  listed_at-absent j ((p, ts) ∷ d) h = ground (arith, listed_at-absent j d)

  listed_at-get :
      (j : NetPath) (d : Dict NetPath (List (Token D)))
      → UniqueKeys d
      → listed_at j d ≡ or_else (get d j) []
  unfolding listed_at get
  listed_at-get j [] u = refl
  listed_at-get j ((p, ts) ∷ d) u = elim (Bool-cases (p == j)) [
    | inl here ↦ ground (arith, list_beq_iff p j, listed_at-absent j d, u.0, append-nil ts)
    | inr there ↦ ground (arith, listed_at-get j d u.1)
  ]

  coalesce-listed_at :
      (j : NetPath) (ss : List (Selection D)) (d : Dict NetPath (List (Token D)))
      → UniqueKeys d
      → listed_at j (coalesce ss d) ≡ listed_at j d ++ listed_at j ss
  unfolding coalesce listed_at
  coalesce-listed_at j [] d u = sym (append-nil (listed_at j d))
  coalesce-listed_at j ((p, ts) ∷ rest) d u =
      let d' = put d p (or_else (get d p) [] ++ ts) in
      let u' = put-UniqueKeys d p (or_else (get d p) [] ++ ts) u in
      let later = coalesce-listed_at j rest d' u' in
      ground (
        arith,
        later,
        listed_at-get j d' u',
        listed_at-get j d u,
        get-put d p j (or_else (get d p) [] ++ ts),
        list_beq_iff p j,
        append_assoc (listed_at j d) (if p == j then ts else []) (listed_at j rest),
        append-nil (or_else (get d j) []),
      )

  pub place-deposit_all :
      (j p : NetPath) (ts : List (Token D)) (m : Marking D)
      → place (deposit_all m p ts) j ≡ place m j ++ (if p == j then ts else [])
  unfolding deposit_all
  place-deposit_all j p [] m = ground (arith, append-nil (place m j))
  place-deposit_all j p (t ∷ ts) m = ground (
    arith,
    place-deposit_all j p ts (deposit m p t),
    place-deposit m p j t,
    list_beq_iff p j,
    append_assoc (place m j) (t ∷ []) ts,
    append-nil (place m j),
  )

  with_effect-marking :
      (p : NetPath) (ds : List (Token D)) (r : List (ProducedTokens D) × Marking D)
      → (with_effect p ds r).1 ≡ r.1
  with_effect-marking p [] r = refl
  with_effect-marking p (t ∷ ts) (effects, n) = refl

  effects_at-with_effect :
      (j p : NetPath) (ds : List (Token D)) (r : List (ProducedTokens D) × Marking D)
      → effects_at j (with_effect p ds r).0 ≡ (if p == j then ds else []) ++ effects_at j r.0
  unfolding effects_at
  effects_at-with_effect j p [] r = ground arith
  effects_at-with_effect j p (t ∷ ts) (effects, n) = refl

  filter-if :
      (arcs : List Arc) (p j : NetPath) (ts : List (Token D))
      → filter (routed_to arcs j) (if p == j then ts else [])
        ≡ (if p == j then filter (routed_to arcs p) ts else [])
  unfolding filter
  filter-if arcs p j ts = elim (Bool-cases (p == j)) [
    | inl same ↦ let e : p ≡ j = (list_beq_iff p j).0 same in rw same (rw e refl)
    | inr other ↦ rw other refl
  ]

  produce-place :
      (arcs : List Arc) (j : NetPath) (entries : List (Selection D)) (m : Marking D)
      → (place (produce arcs entries m).1 j
          ≡ place m j ++ filter (routed_to arcs j) (listed_at j entries))
        × (effects_at j (produce arcs entries m).0
            ≡ filter (routed_to arcs j) (listed_at j entries))
  unfolding produce listed_at effects_at filter
  produce-place arcs j [] m = (sym (append-nil (place m j)), refl)
  produce-place arcs j ((p, ts) ∷ rest) m =
      let ds = filter (routed_to arcs p) ts in
      let r = produce arcs rest (deposit_all m p ds) in
      let ih = produce-place arcs j rest (deposit_all m p ds) in
      let split = filter-append (routed_to arcs j) (if p == j then ts else []) (listed_at j rest) in
      (
        ap (λ (n : Marking D). place n j) (with_effect-marking p ds r)
            ∙ cc (
              ih.0,
              place-deposit_all j p ds m,
              split,
              filter-if arcs p j ts,
              append_assoc (place m j) (if p == j then ds else [])
                  (filter (routed_to arcs j) (listed_at j rest)),
            ),
        cc (effects_at-with_effect j p ds r, ih.1, split, filter-if arcs p j ts),
      )

  -- From the canonical destinations on, completing a firing appends to each place, in order, exactly
  -- the tokens listed for it that an output arc to it admits, changes nothing else, and reports the
  -- same tokens as its effects.
  pub complete_firing_lem :
      (net : Net) (m : Marking D) (transition : NetPath) (projected : List (Selection D))
      (j : NetPath)
      → (place (complete_firing net m transition projected).1 j
          ≡ place m j ++ filter (routed_to (outputs net transition) j) (listed_at j projected))
        × (effects_at j (complete_firing net m transition projected).0
            ≡ filter (routed_to (outputs net transition) j) (listed_at j projected))
  unfolding complete_firing listed_at
  complete_firing_lem net m transition projected j =
      rw (← coalesce-listed_at j projected [] tt)
        (produce-place (outputs net transition) j (coalesce projected []) m)
