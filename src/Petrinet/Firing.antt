-- ===== src/Petrinet/Firing.antt =====
-- src/petrus/impetus/petrinet/firing.py and routing.py: the token movements of a firing.
pub mod Begin
pub mod Complete
pub mod Spelled
pub mod Route
use petrus.Base.{
  Bool, Option, none, some, List, [], ◌∷◌, ◌++◌, Eq, list_eq, string_eq, if◌then◌else◌, Result, ok,
  err, ◌>>=◌, map_err, Dict, get, put, or_else, filter, any, is_empty, ◌&&◌, ◌==◌,
}
use petrus.Petrinet.Token.{Token, NetPath}
use petrus.Petrinet.Path.{Destination, PathError, net_path}
use petrus.Petrinet.Queue.{time_blind, remove}
use petrus.Petrinet.Marking.{Marking, MarkingError, place, consume, deposit, read_error}
use petrus.Petrinet.Schema.{Arc, admits}
use petrus.Petrinet.Net.{Net, outputs}
use petrus.Petrinet.Enabledness.{Selection, Binding}

-- `ConsumedTokens` and `ReadTokens`.
pub data BeginEffect (D : Type 0) : Type 0 where
  consumed_tokens : NetPath → List (Token D) → BeginEffect D
  read_tokens : NetPath → List (Token D) → BeginEffect D

pub record ProducedTokens (D : Type 0) : Type 0 where
  pub place : NetPath
  pub tokens : List (Token D)

module _ {D : Type 0} where
  abbrev pub consumed_effects : List (Selection D) → List (BeginEffect D)
  consumed_effects [] = []
  consumed_effects ((p, ts) ∷ rest) = consumed_tokens p ts ∷ consumed_effects rest

  abbrev pub read_effects : List (Selection D) → List (BeginEffect D)
  read_effects [] = []
  read_effects ((p, ts) ∷ rest) = read_tokens p ts ∷ read_effects rest

module _ {D : Type 0} ⦃e : Eq D⦄ where
  unfoldable pub consume_all : Marking D → List (Selection D) → Result (MarkingError D) (Marking D)
  consume_all m [] = ok m
  consume_all m ((p, ts) ∷ rest) = consume m p ts >>= λ n. consume_all n rest

  -- The tokens of each read must be there; nothing is removed.
  unfoldable pub check_reads : Marking D → List (Selection D) → Result (MarkingError D) (Unit {0})
  check_reads m [] = ok tt
  check_reads m ((p, ts) ∷ rest) =
      map_err (read_error p) (remove (time_blind (place m p)) ts []) >>= λ _. check_reads m rest

  -- The consumes are applied before the reads are validated.
  unfoldable pub begin_firing :
      Marking D → Binding D → Result (MarkingError D) (List (BeginEffect D) × Marking D)
  begin_firing m b = consume_all m b.consumed >>= λ n.
      check_reads n b.read >>= λ _. ok (consumed_effects b.consumed ++ read_effects b.read, n)

module _ {D : Type 0} where
  -- The projected tokens by place, in the order in which the places are first named.
  unfoldable pub coalesce :
      List (Selection D) → Dict NetPath (List (Token D)) → Dict NetPath (List (Token D))
  coalesce [] emitted = emitted
  coalesce ((p, ts) ∷ rest) emitted =
      coalesce rest (put emitted p (or_else (get emitted p) [] ++ ts))

  -- Whether an output arc to the place admits the token.
  abbrev pub routed_to : List Arc → NetPath → Token D → Bool
  routed_to arcs p t = any (λ (a : Arc). a.target == p && admits a t) arcs

  unfoldable pub deposit_all : Marking D → NetPath → List (Token D) → Marking D
  deposit_all m p [] = m
  deposit_all m p (t ∷ ts) = deposit_all (deposit m p t) p ts

  -- `if not deposited: continue`, and the effect otherwise.
  abbrev pub with_effect :
      NetPath
      → List (Token D)
      → List (ProducedTokens D) × Marking D
      → List (ProducedTokens D) × Marking D
  with_effect p [] r = r
  with_effect p (t ∷ ts) (effects, n) = (record { place = p; tokens = t ∷ ts } ∷ effects, n)

  -- The loop over the emitted places; a place that receives nothing has no effect.
  unfoldable pub produce :
      List Arc → List (Selection D) → Marking D → List (ProducedTokens D) × Marking D
  produce arcs [] m = ([], m)
  produce arcs ((p, ts) ∷ rest) m =
      let deposited = filter (routed_to arcs p) ts in
      with_effect p deposited (produce arcs rest (deposit_all m p deposited))

  -- From the canonical destinations on.
  unfoldable pub complete_firing :
      Net → Marking D → NetPath → List (Selection D) → List (ProducedTokens D) × Marking D
  complete_firing net m transition projected =
      produce (outputs net transition) (coalesce projected []) m

  -- `NetPath(destination)` of each key.
  unfoldable pub destinations :
      List (Destination × List (Token D)) → Result PathError (List (Selection D))
  destinations [] = ok []
  destinations ((d, ts) ∷ rest) =
      net_path d >>= λ p. destinations rest >>= λ entries. ok ((p, ts) ∷ entries)

  -- `complete_firing`, on destinations as a handler spells them. A spelling that is no address raises
  -- before any effect.
  unfoldable pub complete_projected :
      Net
      → Marking D
      → NetPath
      → List (Destination × List (Token D))
      → Result PathError (List (ProducedTokens D) × Marking D)
  complete_projected net m transition projected =
      destinations projected >>= λ entries. ok (complete_firing net m transition entries)

  -- `route` of routing.py: each token to every output arc that admits it.
  unfoldable pub route :
      List (Token D) → List Arc → Dict NetPath (List (Token D)) → Dict NetPath (List (Token D))
  route ts [] routed = routed
  route ts (a ∷ arcs) routed =
      let admitted = filter (admits a) ts in
      let more = put routed a.target (or_else (get routed a.target) [] ++ admitted) in
      route ts arcs (if is_empty admitted then routed else more)
