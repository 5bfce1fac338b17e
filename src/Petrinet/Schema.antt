-- ===== src/Petrinet/Schema.antt =====
-- The declarations of src/petrus/impetus/petrinet/schema.py, and the checks that their constructors
-- make. Instants and durations are the naturals: the logical epochs, which start at 0.
use text.Mathlib.Text.{starts_with}
use petrus.Base.{
  ℕ, String, Bool, true, false, ◌&&◌, ◌||◌, not, Option, none, some, List, [], ◌∷◌, ◌==◌, string_eq,
  option_eq, ltb, Result, ok, ◌>>◌, guard, contains,
}
use petrus.Petrinet.Token.{Token, NetPath, Color}

pub data ArcMode : Type 0 where
  consume read inhibit : ArcMode

abbrev pub is_consume : ArcMode → Bool
is_consume consume = true
is_consume _ = false

abbrev pub is_inhibit : ArcMode → Bool
is_inhibit inhibit = true
is_inhibit _ = false

-- A named symbol, an inline CEL expression, or an anonymous behavior.
pub data FilterDeclaration : Type 0 where
  symbol : String → FilterDeclaration
  cel : String → FilterDeclaration

pub data HandlerDeclaration : Type 0 where
  symbol : String → HandlerDeclaration
  anonymous : HandlerDeclaration

pub data GuardDeclaration : Type 0 where
  symbol : String → GuardDeclaration
  cel : String → GuardDeclaration
  anonymous : GuardDeclaration

-- `Delay` and `Until`.
pub data Timer : Type 0 where
  delay : ℕ → Timer
  until : ℕ → Timer

abbrev pub is_delay : Timer → Bool
is_delay (delay d) = true
is_delay (until i) = false

pub record Arc : Type 0 where
  pub source : NetPath
  pub target : NetPath
  pub mode : ArcMode
  pub weight : ℕ
  pub color : Option Color
  pub filter : Option FilterDeclaration

pub record Place : Type 0 where
  pub path : NetPath
  pub color : Option Color

pub record Transition : Type 0 where
  pub path : NetPath
  pub handler : Option HandlerDeclaration
  pub guards : List GuardDeclaration
  pub timers : List Timer

-- The `ValueError`s of the declarations and of the net's construction.
pub data SchemaError : Type 0 where
  bad_weight bad_color bad_filter bad_handler bad_guard bad_cel duplicate_guard : SchemaError
  bad_completion bad_name duplicate_place duplicate_transition name_collision : SchemaError
  bad_endpoints color_conflict mode_on_output filter_on_output : SchemaError
  no_consume_input source_guards source_timers no_anchor : SchemaError

-- A symbol is non-empty and does not start with '$'.
pub is_symbol : String → Bool
is_symbol s = not (s == "") && not (starts_with s "$")

pub is_color : Option Color → Bool
is_color none = true
is_color (some c) = not (c == "")

check_filter : Option FilterDeclaration → Result SchemaError (Unit {0})
check_filter none = ok tt
check_filter (some (FilterDeclaration.symbol s)) = guard (is_symbol s) bad_filter
check_filter (some (FilterDeclaration.cel x)) = guard (not (x == "")) bad_cel

-- `Arc.__post_init__`; the type of a mode is its declaration.
unfoldable pub check_arc : Arc → Result SchemaError (Unit {0})
unfolding check_filter is_color
check_arc a = do
  guard (ltb 0 a.weight) bad_weight
  guard (is_color a.color) bad_color
  check_filter a.filter

pub check_place : Place → Result SchemaError (Unit {0})
check_place p = guard (is_color p.color) bad_color

-- The loop over the guards, with the named guards that it has met.
unfoldable pub check_guards : List GuardDeclaration → List String → Result SchemaError (Unit {0})
check_guards [] named = ok tt
check_guards (GuardDeclaration.symbol s ∷ gs) named = do
  guard (is_symbol s) bad_guard
  guard (not (contains s named)) duplicate_guard
  check_guards gs (s ∷ named)
check_guards (GuardDeclaration.cel x ∷ gs) named = do
  guard (not (x == "")) bad_cel
  check_guards gs named
check_guards (GuardDeclaration.anonymous ∷ gs) named = check_guards gs named

check_handler : Option HandlerDeclaration → Result SchemaError (Unit {0})
check_handler (some (HandlerDeclaration.symbol s)) = guard (is_symbol s) bad_handler
check_handler _ = ok tt

-- `Transition.__post_init__`
unfoldable pub check_transition : Transition → Result SchemaError (Unit {0})
unfolding check_handler
check_transition t = do check_handler t.handler; check_guards t.guards []

module _ {D : Type 0} where
  -- The nominal color match: an untyped arc admits any token, a typed arc its color only.
  unfoldable pub admits : Arc → Token D → Bool
  admits a t = a.color == none || a.color == t.color
