-- ===== src/Petrinet/Marking.antt =====
-- `Marking` of src/petrus/impetus/petrinet/marking.py: the queues of the non-empty places.
pub mod Laws
use petrus.Base.{
  ℕ, Bool, Option, none, List, [], ◌∷◌, ◌++◌, map, Eq, not, Result, ok, err, ◌>>=◌, map_err, Dict,
  get, put, pop, keep, or_else, is_empty, if◌then◌else◌, length, list_eq, string_eq,
}
use petrus.Petrinet.Token.{Token, NetPath}
use petrus.Petrinet.Queue.{
  TokenQueue, QueueError, token_not_present, identity_count, identity_not_present,
  limit_not_positive, time_blind, tokens, remove,
}

abbrev pub Queues : Type 0 → Type 0
Queues D = Dict NetPath (List (Token D))

pub record Marking (D : Type 0) : Type 0 where
  pub queues : Queues D

-- The `ValueError`s of the marking and of the firing that moves it.
pub data MarkingError (D : Type 0) : Type 0 where
  cannot_consume : Token D → NetPath → MarkingError D
  cannot_read : Token D → NetPath → MarkingError D
  queue_error : QueueError D → MarkingError D

module _ {D : Type 0} where
  -- The constructor drops the empty places.
  unfoldable pub marking : Queues D → Marking D
  marking queues = record { queues = keep (λ q. not (is_empty q)) queues }

  unfoldable pub place : Marking D → NetPath → List (Token D)
  place m path = or_else (get m.queues path) []

  unfoldable pub deposit : Marking D → NetPath → Token D → Marking D
  unfolding marking place
  deposit m path token = marking (put m.queues path (place m path ++ token ∷ []))

  -- `if remaining: queues[path] = remaining.tokens else: queues.pop(path, None)`
  abbrev pub store : Queues D → NetPath → List (Token D) → Queues D
  store queues path remaining =
      if is_empty remaining then pop queues path else put queues path remaining

  -- `TokenNotPresent` is raised anew in the marking's own words.
  abbrev pub consume_error : NetPath → QueueError D → MarkingError D
  consume_error path (token_not_present t) = cannot_consume t path
  consume_error path identity_count = queue_error identity_count
  consume_error path (identity_not_present i) = queue_error (identity_not_present i)
  consume_error path limit_not_positive = queue_error limit_not_positive

  abbrev pub read_error : NetPath → QueueError D → MarkingError D
  read_error path (token_not_present t) = cannot_read t path
  read_error path identity_count = queue_error identity_count
  read_error path (identity_not_present i) = queue_error (identity_not_present i)
  read_error path limit_not_positive = queue_error limit_not_positive

  pub counts : Marking D → Dict NetPath ℕ
  counts m = map (λ (p : NetPath × List (Token D)). (p.0, length p.1)) m.queues

module _ {D : Type 0} ⦃e : Eq D⦄ where
  unfoldable pub consume :
      Marking D → NetPath → List (Token D) → Result (MarkingError D) (Marking D)
  unfolding marking place
  consume m path ts =
      map_err (consume_error path) (remove (time_blind (place m path)) ts []) >>= λ remaining.
      ok (marking (store m.queues path (tokens remaining)))
