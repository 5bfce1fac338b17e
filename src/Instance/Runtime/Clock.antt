-- ===== src/Instance/Runtime/Clock.antt =====
-- What every operation of an `Instance` (src/petrus/impetus/instance/__init__.py) does to its history
-- and its watermark.
pub mod Commits
pub mod Ends
pub mod Reports
pub mod Doors
pub mod Reached
use petrus.Base.{
  ℕ, ◌+◌, ◌≤◌, ◌≡◌, refl, sym, ap, ◌∙◌, Option, none, some, List, [], ◌∷◌, ◌++◌, arith, All, max,
  append_assoc, append-nil,
}
use petrus.History.{Record, instant_of}
use petrus.History.Clock.{Monotone, last_instant}
use petrus.Instance.Runtime.{Instance, effective}

module _ {D : Type 0} where
  -- Records that never step back, from one instant to another.
  abbrev pub Ticks : ℕ → List (Record D) → ℕ → Type 0
  Ticks w batch v = Monotone w batch × (last_instant w batch ≡ v)

  pub Ticks-append :
      (w v u : ℕ) (xs ys : List (Record D)) → Ticks w xs v → Ticks v ys u → Ticks w (xs ++ ys) u
  Ticks-append w v u [] ys (m, l) t = rw l t
  Ticks-append w v u (x ∷ xs) ys ((low, m), l) t =
      let (m', l') = Ticks-append (instant_of x) v u xs ys (m, l) t in ((low, m'), l')

  abbrev pub At : ℕ → Record D → Type 0
  At v r = instant_of r ≡ v

  -- A batch at one instant.
  pub Ticks-At :
      (w v : ℕ) (r : Record D) (rs : List (Record D))
      → w ≤ v
      → All (At v) (r ∷ rs)
      → Ticks w (r ∷ rs) v
  Ticks-At w v r [] low (here, rest) = ((omega arith, tt), here)
  Ticks-At w v r (x ∷ xs) low (here, rest) =
      let (m, l) = Ticks-At v v x xs (omega arith) rest in ((omega arith, rw here m), l)

  -- A state after which the history is longer, by records from the one watermark to the other.
  pub record Advances (s t : Instance D) : Type 0 where
    pub batch : List (Record D)
    pub history : t.history ≡ s.history ++ batch
    pub ticks : Ticks s.watermark batch t.watermark

  pub Advances-refl : (s : Instance D) → Advances s s
  Advances-refl s = record { batch = []; history = sym (append-nil s.history); ticks = (tt, refl) }

  pub Advances-trans : (s t u : Instance D) → Advances s t → Advances t u → Advances s u
  Advances-trans s t u x y = record {
    batch = x.batch ++ y.batch;
    history = y.history ∙ ap (λ h. h ++ y.batch) x.history ∙ append_assoc s.history x.batch y.batch;
    ticks = Ticks-append s.watermark t.watermark u.watermark x.batch y.batch x.ticks y.ticks;
  }

  pub effective-le : (s : Instance D) (at : Option ℕ) → s.watermark ≤ effective s at
  effective-le s none = omega arith
  effective-le s (some at) = omega arith

  -- The commit of a batch at the effective instant.
  pub commit-Advances :
      (s t : Instance D) (at : Option ℕ) (r : Record D) (rs : List (Record D))
      → All (At (effective s at)) (r ∷ rs)
      → t.history ≡ s.history ++ (r ∷ rs)
      → t.watermark ≡ effective s at
      → Advances s t
  commit-Advances s t at r rs here grown moved = record {
    batch = r ∷ rs;
    history = grown;
    ticks = rw moved (Ticks-At s.watermark (effective s at) r rs (effective-le s at) here);
  }
