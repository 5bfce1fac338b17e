-- ===== src/Petrinet/Queue.antt =====
-- `TokenQueue` of src/petrus/impetus/petrinet/marking.py: its four aligned tuples are one list of
-- entries. `I` is the type of entry instants: `Unit` for a time-blind queue.
pub mod Removal
pub mod Scan
use petrus.Base.{
  ℕ, zero, suc, Bool, ◌&&◌, Option, none, some, List, [], ◌∷◌, ◌++◌, map, Eq, ◌==◌, nat_eq,
  option_eq, if◌then◌else◌, Result, ok, err, ◌>>=◌, or_raise, length, find?,
}
use mathlib.Core.Option
use petrus.Petrinet.Token.{Token, LifecycleScope, token_eq}

pub record Entry (D I : Type 0) : Type 0 where
  pub token : Token D
  pub instant : I
  pub identity : Option ℕ
  pub scope : Option LifecycleScope

abbrev pub TokenQueue : Type 0 → Type 0 → Type 0
TokenQueue D I = List (Entry D I)

-- The exceptions that the queue raises: `TokenNotPresent` and the three `ValueError`s.
pub data QueueError (D : Type 0) : Type 0 where
  token_not_present : Token D → QueueError D
  identity_count : QueueError D
  identity_not_present : ℕ → QueueError D
  limit_not_positive : QueueError D

-- `next(position of a match, None)` with `del remaining[position]`; `none` if there is no match.
unfoldable pub delete_first {ℓ} : {A : Type ℓ} → (A → Bool) → List A → Option (List A)
delete_first p [] = none
delete_first p (x ∷ xs) =
    let rest = Option.map (λ ys. x ∷ ys) (delete_first p xs) in if p x then some xs else rest

module _ {D I : Type 0} where
  abbrev pub tokens : TokenQueue D I → List (Token D)
  tokens q = map (λ x. x.token) q

  abbrev pub instants : TokenQueue D I → List I
  instants q = map (λ x. x.instant) q

  abbrev pub identities : TokenQueue D I → List (Option ℕ)
  identities q = map (λ x. x.identity) q

  abbrev pub scopes : TokenQueue D I → List (Option LifecycleScope)
  scopes q = map (λ x. x.scope) q

  unfoldable pub deposit :
      TokenQueue D I → Token D → I → Option ℕ → Option LifecycleScope → TokenQueue D I
  deposit q token instant identity scope = q ++ entry ∷ []
    where
      entry : Entry D I
      entry = record { token = token; instant = instant; identity = identity; scope = scope }

  -- Drops the front-most entry with each identity.
  unfoldable pub discard : TokenQueue D I → List ℕ → Result (QueueError D) (TokenQueue D I)
  discard q [] = ok q
  discard q (i ∷ is) =
      or_raise (delete_first (λ x. x.identity == some i) q) (identity_not_present i) >>= λ rest.
      discard rest is

  -- The positions, counted from `n`, of the tokens that `admits` accepts.
  unfoldable pub positions_from : (Token D → Bool) → ℕ → TokenQueue D I → List ℕ
  positions_from admits n [] = []
  positions_from admits n (x ∷ q) =
      let rest = positions_from admits (suc n) q in if admits x.token then n ∷ rest else rest

  -- The loop of `admitted_by` with a limit: it breaks when `limit` positions are found.
  unfoldable pub positions_upto : (Token D → Bool) → ℕ → ℕ → TokenQueue D I → List ℕ
  positions_upto admits limit n [] = []
  positions_upto admits zero n (x ∷ q) = []
  positions_upto admits (suc limit) n (x ∷ q) =
      let found = n ∷ positions_upto admits limit (suc n) q in
      let others = positions_upto admits (suc limit) (suc n) q in
      if admits x.token then found else others

  unfoldable pub admitted_by :
      TokenQueue D I → (Token D → Bool) → Option ℕ → Result (QueueError D) (List ℕ)
  admitted_by q admits none = ok (positions_from admits 0 q)
  admitted_by q admits (some zero) = err limit_not_positive
  admitted_by q admits (some (suc n)) = ok (positions_upto admits (suc n) 0 q)

-- A queue over the token half alone.
abbrev pub time_blind : {D : Type 0} → List (Token D) → TokenQueue D (Unit {0})
time_blind ts = map (λ t. record { token = t; instant = tt; identity = none; scope = none }) ts

-- What a removal asks for: a token, and its identity where identities are named.
abbrev pub by_value : {D : Type 0} → List (Token D) → List (Token D × Option ℕ)
by_value ts = map (λ t. (t, none)) ts

abbrev pub by_identity : {D : Type 0} → List (Token D) → List ℕ → List (Token D × Option ℕ)
by_identity [] is = []
by_identity (t ∷ ts) [] = []
by_identity (t ∷ ts) (i ∷ is) = (t, some i) ∷ by_identity ts is

module _ {D I : Type 0} ⦃e : Eq D⦄ where
  -- The test of the scan; `none` is a removal that names no identities.
  abbrev pub is_match : Token D → Option ℕ → Entry D I → Bool
  is_match token none x = x.token == token
  is_match token (some i) x = x.token == token && x.identity == some i

  unfoldable pub remove_loop :
      TokenQueue D I → List (Token D × Option ℕ) → Result (QueueError D) (TokenQueue D I)
  remove_loop q [] = ok q
  remove_loop q ((t, i) ∷ rs) =
      or_raise (delete_first (is_match t i) q) (token_not_present t) >>= λ rest. remove_loop rest rs

  unfoldable pub remove :
      TokenQueue D I → List (Token D) → List ℕ → Result (QueueError D) (TokenQueue D I)
  remove q ts [] = remove_loop q (by_value ts)
  remove q ts (i ∷ is) =
      if length (i ∷ is) == length ts
      then remove_loop q (by_identity ts (i ∷ is))
      else err identity_count

  -- `_identities` and `_scopes` of the front-most equal occurrences that a binding selects.
  pub selected :
      TokenQueue D I
      → List (Token D)
      → Result (QueueError D) (List (Option ℕ × Option LifecycleScope))
  selected q [] = ok []
  selected q (t ∷ ts) = or_raise (find? (is_match t none) q) (token_not_present t) >>= λ x.
      or_raise (delete_first (is_match t none) q) (token_not_present t) >>= λ rest.
      selected rest ts >>= λ more. ok ((x.identity, x.scope) ∷ more)
