-- ===== src/History.antt =====
-- The records of src/petrus/impetus/history/__init__.py. What replay never inspects (an activity's
-- input, policy, result and failure) is carried as data of the payload type.
pub mod Queues
pub mod Clock
pub mod Identity
pub mod Cancellation
pub mod Registrations
pub mod Scopes
use petrus.Base.{
  ℕ, String, Bool, true, ◌&&◌, ◌||◌, not, Option, none, some, List, [], ◌∷◌, ◌==◌, nat_eq, ltb,
  contains, all, length, is_empty, Result, ok, guard, ◌>>=◌, ◌>>◌,
}
use petrus.Petrinet.Net.{is_none}
use petrus.Petrinet.Token.{Token, NetPath, LifecycleScope}

-- Tokens that enter or leave a place, or are read there.
pub record Movement (D : Type 0) : Type 0 where
  pub place : NetPath
  pub tokens : List (Token D)
  pub entries : List ℕ
  pub scope : Option LifecycleScope
  pub instant : ℕ

-- The delivery of an external event to a source transition; `S` is how its scope is given.
pub record Delivery (D S : Type 0) : Type 0 where
  pub source : NetPath
  pub tokens : List (Token D)
  pub identity : String
  pub scope : S
  pub instant : ℕ

pub record ActivityRequest (D : Type 0) : Type 0 where
  pub transition : NetPath
  pub activity : String
  pub input : D
  pub policy : D
  pub correlation : String
  pub idempotency : String
  pub scope : Option LifecycleScope
  pub instant : ℕ

-- A quarantined delivery names an exact generation, or only a scope's name.
pub data ScopeReference : Type 0 where
  exact : LifecycleScope → ScopeReference
  named : String → ScopeReference

-- Where a record belongs to a firing, its occurrence id comes first; its instant comes last.
pub data Record (D : Type 0) : Type 0 where
  instance_created : String → Option String → ℕ → Record D
  tokens_initialized : Movement D → Record D
  scope_opened : LifecycleScope → ℕ → Record D
  -- the scope, the discarded queue entries and the cancelled occurrences
  scope_closed : LifecycleScope → List ℕ → List ℕ → ℕ → Record D
  -- the closed and the opened scope, the discarded entries and the cancelled occurrences
  scope_reset : LifecycleScope → LifecycleScope → List ℕ → List ℕ → ℕ → Record D
  candidate_selected : ℕ → NetPath → ℕ → Record D
  external_event_delivered : ℕ → Delivery D (Option LifecycleScope) → Record D
  scoped_delivery_dropped : Delivery D LifecycleScope → Record D
  scoped_delivery_quarantined : Delivery D ScopeReference → Record D
  delivery_registration_opened : Option ℕ → NetPath → String → ℕ → Record D
  delivery_registration_closed : Option ℕ → NetPath → String → ℕ → Record D
  timer_matured : ℕ → ℕ → Record D
  firing_begun : ℕ → NetPath → Option LifecycleScope → ℕ → Record D
  tokens_consumed : ℕ → Movement D → Record D
  tokens_read : ℕ → Movement D → Record D
  activity_requested : ℕ → ActivityRequest D → Record D
  activity_completed : ℕ → NetPath → D → ℕ → Record D
  activity_terminal_quarantined : ℕ → NetPath → D → LifecycleScope → ℕ → Record D
  tokens_produced : ℕ → Movement D → Record D
  firing_completed : ℕ → NetPath → ℕ → Record D
  activity_failed : ℕ → NetPath → D → ℕ → Record D
  firing_failed : ℕ → NetPath → String → ℕ → Record D

pub data EntriesError : Type 0 where
  entry_per_token entry_not_positive entries_not_unique entries_without_scope : EntriesError

-- No identity stands twice.
unfoldable pub is_unique : List ℕ → Bool
is_unique [] = true
is_unique (i ∷ is) = not (contains i is) && is_unique is

module _ {D : Type 0} where
  -- `record.instant`
  unfoldable pub instant_of : Record D → ℕ
  instant_of (instance_created i n at) = at
  instant_of (tokens_initialized m) = m.instant
  instant_of (scope_opened s at) = at
  instant_of (scope_closed s d c at) = at
  instant_of (scope_reset s o d c at) = at
  instant_of (candidate_selected k t at) = at
  instant_of (external_event_delivered k d) = d.instant
  instant_of (scoped_delivery_dropped d) = d.instant
  instant_of (scoped_delivery_quarantined d) = d.instant
  instant_of (delivery_registration_opened k s n at) = at
  instant_of (delivery_registration_closed k s n at) = at
  instant_of (timer_matured m at) = at
  instant_of (firing_begun k t s at) = at
  instant_of (tokens_consumed k m) = m.instant
  instant_of (tokens_read k m) = m.instant
  instant_of (activity_requested k r) = r.instant
  instant_of (activity_completed k t r at) = at
  instant_of (activity_terminal_quarantined k t o s at) = at
  instant_of (tokens_produced k m) = m.instant
  instant_of (firing_completed k t at) = at
  instant_of (activity_failed k t f at) = at
  instant_of (firing_failed k t x at) = at

  -- `record.occurrence`; `none` too for the categories that carry none.
  unfoldable pub occurrence_of : Record D → Option ℕ
  occurrence_of (instance_created i n at) = none
  occurrence_of (tokens_initialized m) = none
  occurrence_of (scope_opened s at) = none
  occurrence_of (scope_closed s d c at) = none
  occurrence_of (scope_reset s o d c at) = none
  occurrence_of (candidate_selected k t at) = some k
  occurrence_of (external_event_delivered k d) = some k
  occurrence_of (scoped_delivery_dropped d) = none
  occurrence_of (scoped_delivery_quarantined d) = none
  occurrence_of (delivery_registration_opened k s n at) = k
  occurrence_of (delivery_registration_closed k s n at) = k
  occurrence_of (timer_matured m at) = none
  occurrence_of (firing_begun k t s at) = some k
  occurrence_of (tokens_consumed k m) = some k
  occurrence_of (tokens_read k m) = some k
  occurrence_of (activity_requested k r) = some k
  occurrence_of (activity_completed k t r at) = some k
  occurrence_of (activity_terminal_quarantined k t o s at) = some k
  occurrence_of (tokens_produced k m) = some k
  occurrence_of (firing_completed k t at) = some k
  occurrence_of (activity_failed k t f at) = some k
  occurrence_of (firing_failed k t x at) = some k

  -- `_validate_entries`, which the records of token movements call when they are made.
  unfoldable pub validate_entries : Movement D → Result EntriesError (Unit {0})
  validate_entries m = do
    guard (is_empty m.entries || length m.entries == length m.tokens) entry_per_token
    guard (all (λ i. ltb 0 i) m.entries) entry_not_positive
    guard (is_unique m.entries) entries_not_unique
    guard (is_none m.scope || length m.entries == length m.tokens) entry_per_token
    guard (is_empty m.entries || not (is_none m.scope)) entries_without_scope
