-- ===== src/History/Identity.antt =====
-- `replay_instance_identity` of src/petrus/impetus/history/__init__.py.
use petrus.Base.{
  ℕ, zero, suc, ◌≡◌, refl, ◌⊎◌, inl, inr, Bool, true, false, ◌||◌, not, Option, none, some, List,
  [], ◌∷◌, arith, Result, ok, ◌>>=◌, ◌>>◌, guard, any, is_empty, Bool-cases, Result-cases,
}
use petrus.Petrinet.Net.{is_none}
use petrus.History.{Record, instance_created}

-- Replay divergence.
pub data IdentityError : Type 0 where
  created_late : ℕ → IdentityError
  not_created : IdentityError

module _ {D : Type 0} where
  abbrev pub is_created : Record D → Bool
  is_created (instance_created i n at) = true
  is_created _ = false

  -- The loop, at a position and with the identity found so far.
  unfoldable pub identity_loop :
      ℕ → Option (Record D) → List (Record D) → Result IdentityError (Option (Record D))
  identity_loop position identity [] = ok identity
  identity_loop zero identity (r ∷ rs) = elim (is_created r) [
    | true ↦ identity_loop 1 (some r) rs
    | false ↦ identity_loop 1 identity rs
  ]
  identity_loop (suc position) identity (r ∷ rs) =
      guard (not (is_created r)) (created_late (suc position))
      >> identity_loop (suc (suc position)) identity rs

  unfoldable pub replay_instance_identity :
      List (Record D) → Result IdentityError (Option (Record D))
  replay_instance_identity history = identity_loop 0 none history >>= λ identity.
      guard (is_empty history || not (is_none identity)) not_created >> ok identity

  identity_loop-later :
      (position : ℕ) (identity x : Option (Record D)) (rs : List (Record D))
      → identity_loop (suc position) identity rs ≡ ok x
      → (identity ≡ x) × (any is_created rs ≡ false)
  unfolding identity_loop any
  identity_loop-later position identity x [] h = (ground arith, refl)
  identity_loop-later position identity x (r ∷ rs) h =
      let (same, quiet) = identity_loop-later (suc position) identity x rs (ground arith) in
      (same, ground arith)

  -- A history that replays to an identity is empty and gives none, or its first record, and no later
  -- one, is the creation of the instance, and gives it.
  pub replay_instance_identity_lem :
      (history : List (Record D)) (x : Option (Record D))
      → replay_instance_identity history ≡ ok x
      → ((history ≡ []) × (x ≡ none))
        ⊎ ((r : Record D) × (rs : List (Record D)) × (history ≡ r ∷ rs)
            × (x ≡ some r)
            × (is_created r ≡ true)
            × (any is_created rs ≡ false))
  unfolding replay_instance_identity identity_loop
  replay_instance_identity_lem [] x h = inl (refl, ground arith)
  replay_instance_identity_lem (r ∷ rs) x h = elim (Bool-cases (is_created r)) [
    | inl created ↦ elim (Result-cases (identity_loop 1 (some r) rs)) [
      | inr (e, raised) ↦ absurd (ground arith)
      | inl (y, done) ↦
          let (same, quiet) = identity_loop-later 0 (some r) y rs done in
          inr (r, rs, refl, ground arith, created, quiet)
    ]
    | inr other ↦ elim (Result-cases (identity_loop 1 none rs)) [
      | inr (e, raised) ↦ absurd (ground arith)
      | inl (y, done) ↦
          let (same, quiet) = identity_loop-later 0 none y rs done in absurd (ground arith)
    ]
  ]
