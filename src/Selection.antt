-- ===== src/Selection.antt =====
-- src/petrus/impetus/selection/__init__.py: the proposal of one enabled binding. A policy's state is
-- a type of its own; an invalid argument is an error.
pub mod Strategies
pub mod RoundRobin
pub mod Pipeline
use petrus.Base.{
  ℕ, zero, suc, ◌+◌, ◌%◌, Bool, true, false, not, Option, none, some, List, [], ◌∷◌, ◌++◌, Eq, ◌==◌,
  nat_eq, string_eq, list_eq, if◌then◌else◌, ltb, Result, ok, err, ◌>>=◌, ◌>>◌, guard, fold_result,
  Dict, get, put, or_else, contains, filter, all, get_elem?, length, is_empty, ℤ, pos, int_ltb,
}
use petrus.Petrinet.Token.{NetPath}
use petrus.Petrinet.Net.{is_none}
use petrus.Petrinet.Enabledness.{Binding}
use petrus.History.{Record, candidate_selected, firing_begun}

pub data SelectionError : Type 0 where
  invalid_ring invalid_state outside_ring outside_admitted other_prior_state : SelectionError
  duplicate_selected duplicate_begun : ℕ → SelectionError
  selected_but_began : ℕ → NetPath → NetPath → SelectionError

pub record SelectionProposal (D S : Type 0) : Type 0 where
  pub binding : Binding D
  pub prior_state : S
  pub next_state : S

pub record SelectionPolicy (D S : Type 0) : Type 0 where
  pub propose : List (Binding D) → S → Result SelectionError (Option (SelectionProposal D S))
  pub fold_committed : S → NetPath → Result SelectionError S

-- `selected` and `begun` of `fold_history`.
pub record Boundaries : Type 0 where
  pub selected : Dict ℕ NetPath
  pub begun : Dict ℕ (List NetPath)

-- The loop over the records.
unfoldable pub boundary_step :
    {D : Type 0} → Boundaries → Record D → Result SelectionError Boundaries
boundary_step x (candidate_selected k t at) =
    guard (is_none (get x.selected k)) (duplicate_selected k)
    >> ok (record x { selected = put x.selected k t })
boundary_step x (firing_begun k t s at) =
    ok (record x { begun = put x.begun k (or_else (get x.begun k) [] ++ t ∷ []) })
boundary_step x _ = ok x

-- What one selection does to the policy's state, by the begins of its occurrence.
abbrev pub fold_selected :
    {D S : Type 0} → SelectionPolicy D S → S → ℕ → NetPath → List NetPath → Result SelectionError S
fold_selected policy s k t [] = ok s
fold_selected policy s k t (b ∷ []) =
    guard (b == t) (selected_but_began k t b) >> policy.fold_committed s t
fold_selected policy s k t (b ∷ c ∷ bs) = err (duplicate_begun k)

-- The loop over the selections.
unfoldable pub fold_selections :
    {D S : Type 0}
    → SelectionPolicy D S
    → Dict ℕ (List NetPath)
    → S
    → Dict ℕ NetPath
    → Result SelectionError S
fold_selections policy begun s [] = ok s
fold_selections policy begun s ((k, t) ∷ rest) =
    fold_selected policy s k t (or_else (get begun k) []) >>= λ s'.
    fold_selections policy begun s' rest

unfoldable pub fold_history :
    {D S : Type 0} → SelectionPolicy D S → S → List (Record D) → Result SelectionError S
fold_history policy s history =
    fold_result boundary_step (record { selected = []; begun = [] }) history >>= λ x.
    fold_selections policy x.begun s x.selected
