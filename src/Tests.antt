-- ===== src/Tests.antt =====
-- Concrete inputs at which the theorems apply: a net that moves a token from `a` to `b`, its marking,
-- and a history of one firing.
pub mod Queues
pub mod Firings
pub mod Replays
pub mod Lifecycles
pub mod Selections
pub mod Occurrences
pub mod Runtimes
use petrus.Base.{ℕ, Option, none, some, List, [], ◌∷◌, Bool, true}
use petrus.Petrinet.Token.{Token, NetPath}
use petrus.Petrinet.Queue.{Entry, TokenQueue}
use petrus.Petrinet.Marking.{Marking}
use petrus.Petrinet.Schema.{Arc, Place, Transition, ArcMode}
use petrus.Petrinet.Net.{Net}
use petrus.Petrinet.Enabledness.{Binding, Implementations}

abbrev pub black : ℕ → Token ℕ
black n = record { color = none; payload = n }

abbrev pub entered : ℕ → ℕ → ℕ → Entry ℕ ℕ
entered n at i = record { token = black n; instant = at; identity = some i; scope = none }

abbrev pub first_place : NetPath
first_place = "a" ∷ []

abbrev pub second_place : NetPath
second_place = "b" ∷ []

abbrev pub step : NetPath
step = "t" ∷ []

abbrev pub three_entries : TokenQueue ℕ ℕ
three_entries = entered 1 5 1 ∷ entered 2 6 2 ∷ entered 1 7 3 ∷ []

abbrev pub two_entries : TokenQueue ℕ ℕ
two_entries = entered 2 6 2 ∷ entered 1 7 3 ∷ []

abbrev pub one_one : List (Token ℕ)
one_one = black 1 ∷ []

abbrev pub start : Marking ℕ
start = record { queues = (first_place, black 1 ∷ black 2 ∷ []) ∷ [] }

abbrev pub started : Marking ℕ
started = record { queues = (first_place, black 2 ∷ []) ∷ [] }

abbrev pub input_arc : Arc
input_arc = record {
  source = first_place;
  target = step;
  mode = ArcMode.consume;
  weight = 1;
  color = none;
  filter = none;
}

abbrev pub output_arc : Arc
output_arc = record {
  source = step;
  target = second_place;
  mode = ArcMode.consume;
  weight = 1;
  color = none;
  filter = none;
}

abbrev pub step_transition : Transition
step_transition = record { path = step; handler = none; guards = []; timers = [] }

abbrev pub small_net : Net
small_net = record {
  completion = none;
  name = none;
  places =
      (first_place, record { path = first_place; color = none })
      ∷ (second_place, record { path = second_place; color = none })
      ∷ [];
  transitions = (step, step_transition) ∷ [];
  arcs = input_arc ∷ output_arc ∷ [];
  arc_uris =
      record { source = first_place; target = step; occurrence = none }
      ∷ record { source = step; target = second_place; occurrence = none }
      ∷ [];
  input_index = (step, (0, input_arc) ∷ []) ∷ [];
  output_index = (step, output_arc ∷ []) ∷ [];
}

abbrev pub no_implementations : Implementations ℕ
no_implementations = record {
  filter_at = λ u. none;
  filter_of = λ f t. none;
  guard_at = λ p i. none;
  guard_of = λ g b. none;
}

abbrev pub moves : ℕ → Binding ℕ
moves n = record {
  transition = step;
  consumed = (first_place, black n ∷ []) ∷ [];
  read = [];
  delivered = [];
}
