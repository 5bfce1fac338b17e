-- ===== src/History/Clock.antt =====
-- `replay_watermark` and `replay_next_occurrence` of src/petrus/impetus/history/__init__.py.
use petrus.Base.{
  ℕ, ◌+◌, ◌≤◌, ◌<◌, ◌≡◌, refl, ap, sym, ◌∙◌, ◌⊎◌, inl, inr, none, some, List, [], ◌∷◌, arith,
  if◌then◌else◌, ltb, max, Result, ok, err, In, Option-cases, ◌↔◌,
}
use native.Mathlib.Decide.{dec_le}
use petrus.History.{Record, instant_of, occurrence_of}

pub data ClockError : Type 0 where
  steps_backwards : ℕ → ℕ → ClockError
  empty_history : ClockError

module _ {D : Type 0} where
  -- The loop, once a first record has set the watermark.
  unfoldable pub watermark_from : ℕ → List (Record D) → Result ClockError ℕ
  watermark_from w [] = ok w
  watermark_from w (r ∷ rs) =
      let rest = watermark_from (instant_of r) rs in
      if ltb (instant_of r) w then err (steps_backwards (instant_of r) w) else rest

  unfoldable pub replay_watermark : List (Record D) → Result ClockError ℕ
  unfolding watermark_from
  replay_watermark [] = err empty_history
  replay_watermark (r ∷ rs) = watermark_from (instant_of r) rs

  -- `max(spent occurrences, default=0)`
  unfoldable pub greatest_occurrence : List (Record D) → ℕ
  greatest_occurrence [] = 0
  greatest_occurrence (r ∷ rs) =
      let rest = greatest_occurrence rs in
      elim (occurrence_of r) [ none ↦ rest | some k ↦ max k rest ]

  unfoldable pub replay_next_occurrence : List (Record D) → ℕ
  unfolding greatest_occurrence
  replay_next_occurrence history = greatest_occurrence history + 1

  -- Instants that never step back.
  abbrev pub Monotone : ℕ → List (Record D) → Type 0
  Monotone w [] = Unit
  Monotone w (r ∷ rs) = (w ≤ instant_of r) × Monotone (instant_of r) rs

  abbrev pub last_instant : ℕ → List (Record D) → ℕ
  last_instant w [] = w
  last_instant w (r ∷ rs) = last_instant (instant_of r) rs

  watermark_from_ok :
      (w : ℕ) (rs : List (Record D)) → Monotone w rs → watermark_from w rs ≡ ok (last_instant w rs)
  unfolding watermark_from
  watermark_from_ok w [] h = refl
  watermark_from_ok w (r ∷ rs) h = ground (arith, watermark_from_ok (instant_of r) rs h.1)

  watermark_from-Monotone :
      (w x : ℕ) (rs : List (Record D)) → watermark_from w rs ≡ ok x → Monotone w rs
  unfolding watermark_from
  watermark_from-Monotone w x [] h = tt
  watermark_from-Monotone w x (r ∷ rs) h =
      (ground arith, watermark_from-Monotone (instant_of r) x rs (ground arith))

  last_instant-le : (w : ℕ) (rs : List (Record D)) → Monotone w rs → w ≤ last_instant w rs
  last_instant-le w [] h = omega arith
  last_instant-le w (r ∷ rs) h = omega (arith, last_instant-le (instant_of r) rs h.1)

  last_instant-In :
      (w : ℕ) (rs : List (Record D)) (r : Record D)
      → Monotone w rs
      → In r rs
      → instant_of r ≤ last_instant w rs
  last_instant-In w [] r h m = absurd m
  last_instant-In w (x ∷ rs) r h (inl e) = rw e (last_instant-le (instant_of x) rs h.1)
  last_instant-In w (x ∷ rs) r h (inr m) = last_instant-In (instant_of x) rs r h.1 m

  -- A non-empty history proves the instant of its last record as its watermark exactly when its
  -- instants never step back.
  pub replay_watermark_iff :
      (r : Record D) (rs : List (Record D))
      → (replay_watermark (r ∷ rs) ≡ ok (last_instant (instant_of r) rs))
        ↔ Monotone (instant_of r) rs
  unfolding replay_watermark
  replay_watermark_iff r rs = (
    watermark_from-Monotone (instant_of r) (last_instant (instant_of r) rs) rs,
    watermark_from_ok (instant_of r) rs,
  )

  -- The watermark that a history proves is at or after the instant of every record in it.
  pub replay_watermark-In :
      (history : List (Record D)) (w : ℕ) (x : Record D)
      → replay_watermark history ≡ ok w
      → In x history
      → instant_of x ≤ w
  unfolding replay_watermark
  replay_watermark-In [] w x h m = absurd m
  replay_watermark-In (r ∷ rs) w x h m =
      let mono = watermark_from-Monotone (instant_of r) w rs h in
      let is_last = watermark_from_ok (instant_of r) rs mono in
      let same : last_instant (instant_of r) rs ≡ w = ground arith in
      rw (← same) (elim m [
        | inl e ↦ rw e (last_instant-le (instant_of r) rs mono)
        | inr k ↦ last_instant-In (instant_of r) rs x mono k
      ])

  -- The next occurrence id is greater than every id that a record carries.
  pub replay_next_occurrence_fresh :
      (history : List (Record D)) (r : Record D) (k : ℕ)
      → In r history
      → occurrence_of r ≡ some k
      → k < replay_next_occurrence history
  unfolding replay_next_occurrence
  replay_next_occurrence_fresh [] r k m h = absurd m
  replay_next_occurrence_fresh (x ∷ rs) r k (inl e) h =
      let same : occurrence_of x ≡ some k = ap occurrence_of (sym e) ∙ h in
      rw (same, greatest_occurrence) (omega arith)
  replay_next_occurrence_fresh (x ∷ rs) r k (inr m) h =
      ground (arith, replay_next_occurrence_fresh rs r k m h)

  -- The next occurrence id is 1, or one past an id that some record carries.
  pub replay_next_occurrence_attained :
      (history : List (Record D))
      → (replay_next_occurrence history ≡ 1)
        ⊎ ((r : Record D) × (k : ℕ) × In r history
            × (occurrence_of r ≡ some k)
            × (replay_next_occurrence history ≡ k + 1))
  unfolding replay_next_occurrence
  replay_next_occurrence_attained [] = inl refl
  replay_next_occurrence_attained (x ∷ rs) = elim (Option-cases (occurrence_of x)) [
    | inl no_id ↦ rw (no_id, greatest_occurrence) (later (replay_next_occurrence_attained rs))
    | inr (k, id) ↦ elim (dec_le k (greatest_occurrence rs)) [
      | yes below ↦
          let same : max k (greatest_occurrence rs) ≡ greatest_occurrence rs = omega arith in
          rw (id, greatest_occurrence) (rw same (later (replay_next_occurrence_attained rs)))
      | no above ↦ inr (x, k, inl refl, id, rw (id, greatest_occurrence) (omega arith))
    ]
  ]
    where
      later :
          (greatest_occurrence rs + 1 ≡ 1)
            ⊎ ((r : Record D) × (k : ℕ) × In r rs
                × (occurrence_of r ≡ some k)
                × (greatest_occurrence rs + 1 ≡ k + 1))
          → (greatest_occurrence rs + 1 ≡ 1)
            ⊎ ((r : Record D) × (k : ℕ) × In r (x ∷ rs)
                × (occurrence_of r ≡ some k)
                × (greatest_occurrence rs + 1 ≡ k + 1))
      later (inl e) = inl e
      later (inr (r, k, m, o, e)) = inr (r, k, inr m, o, e)
