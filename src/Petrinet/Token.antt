-- ===== src/Petrinet/Token.antt =====
-- `Token` of src/petrus/impetus/petrinet/marking.py, `LifecycleScope` of
-- src/petrus/impetus/scope.py and `NetPath` of src/petrus/impetus/petrinet/schema.py.
-- A token's data is a type of its own: the kernel only ever compares it.
use petrus.Base.{
  ℕ, String, ◌≡◌, ◌↔◌, Bool, true, ◌&&◌, Option, none, List, arith, Eq, ◌==◌, string_eq, nat_eq,
  option_eq,
}

-- The segments of a dotted address.
abbrev pub NetPath : Type 0
NetPath = List String

-- A nominal color name.
abbrev pub Color : Type 0
Color = String

pub record LifecycleScope : Type 0 where
  pub name : String
  pub generation : ℕ

pub record Token (D : Type 0) : Type 0 where
  pub color : Option Color
  pub payload : D

pub is_black : {D : Type 0} → Token D → Bool
is_black t = t.color == none

unfoldable pub scope_beq : LifecycleScope → LifecycleScope → Bool
scope_beq a b = a.name == b.name && a.generation == b.generation

pub scope_beq_iff : (a b : LifecycleScope) → (scope_beq a b ≡ true) ↔ (a ≡ b)
unfolding scope_beq
scope_beq_iff a b = (
  λ h. ground (arith, string_eq.beq_iff a.name b.name, nat_eq.beq_iff a.generation b.generation),
  λ h. ground (arith, string_eq.beq_iff a.name b.name, nat_eq.beq_iff a.generation b.generation),
)

instance abbrev pub scope_eq : Eq LifecycleScope
scope_eq = record { beq = scope_beq; beq_iff = scope_beq_iff }

module _ {D : Type 0} ⦃e : Eq D⦄ where
  unfoldable pub token_beq : Token D → Token D → Bool
  token_beq a b = a.color == b.color && a.payload == b.payload

  pub token_beq_iff : (a b : Token D) → (token_beq a b ≡ true) ↔ (a ≡ b)
  unfolding token_beq
  token_beq_iff a b = (
    λ h.
        ground
          (arith, (option_eq {A = Color}).beq_iff a.color b.color, e.beq_iff a.payload b.payload),
    λ h.
        ground
          (arith, (option_eq {A = Color}).beq_iff a.color b.color, e.beq_iff a.payload b.payload),
  )

instance abbrev pub token_eq : {D : Type 0} ⦃e : Eq D⦄ → Eq (Token D)
token_eq = record { beq = token_beq; beq_iff = token_beq_iff }
