-- ===== src/Petrinet/Enabledness/Timing.antt =====
-- When the guards and the timers of a transition let a binding through, in
-- src/petrus/impetus/petrinet/enabledness.py, said without the order in which they are evaluated.
use petrus.Base.{
  ℕ, suc, ◌+◌, ◌≤◌, ◌≡◌, refl, inl, inr, true, false, Option, none, some, List, [], ◌∷◌, arith,
  Option-cases, Result-cases, All, ok, is_empty, max, or_else,
}
use petrus.Petrinet.Schema.{GuardDeclaration, Timer, delay, until, Transition}
use petrus.Petrinet.Net.{enumerate}
use petrus.Petrinet.Enabledness.{Binding, Implementations, guards_hold, guards_hold_from, holds}
use petrus.Petrinet.Enabledness.Survey.{timer_instant, latest, maturation, youngest, is_mature}

-- A timer has matured by a watermark: it waits for an instant that is past, or for a time that has
-- gone by since the entry of each token, of which there is one.
abbrev pub HasMatured : List ℕ → Option ℕ → Timer → Type 0
HasMatured anchors none timer = ⊥
HasMatured anchors (some w) (until i) = i ≤ w
HasMatured anchors (some w) (delay d) = (is_empty anchors ≡ false) × All (λ a. a + d ≤ w) anchors

-- The guard at a position holds over a binding.
abbrev pub Holds : {D : Type 0} → Implementations D → Binding D → ℕ × GuardDeclaration → Type 0
Holds impl b (n, g) = holds (or_else (impl.guard_at b.transition n) (impl.guard_of g) b) ≡ true

youngest-All :
    (w d : ℕ) (anchors : List ℕ) (a : ℕ)
    → youngest anchors ≡ some a
    → a + d ≤ w
    → All (λ b. b + d ≤ w) anchors
unfolding youngest
youngest-All w d [] a h below = tt
youngest-All w d (b ∷ anchors) a h below = elim (Option-cases (youngest anchors)) [
  | inl alone ↦ (ground arith, alone_All anchors alone)
  | inr (c, found) ↦ (ground arith, youngest-All w d anchors c found (ground arith))
]
  where
    alone_All : (anchors : List ℕ) → youngest anchors ≡ none → All (λ b. b + d ≤ w) anchors
    alone_All [] alone = tt
    alone_All (b ∷ anchors) alone = elim (Option-cases (youngest anchors)) [
      | inl _ ↦ absurd (ground arith)
      | inr (c, found) ↦ absurd (ground arith)
    ]

youngest_fed : (anchors : List ℕ) (a : ℕ) → youngest anchors ≡ some a → is_empty anchors ≡ false
unfolding youngest
youngest_fed [] a h = absurd cc
youngest_fed (b ∷ anchors) a h = refl

timer_instant-HasMatured :
    (D : Type 0) (anchors : List ℕ) (w n : ℕ) (t : Timer)
    → timer_instant {D = D} (youngest anchors) t ≡ ok n
    → n ≤ w
    → HasMatured anchors (some w) t
timer_instant-HasMatured D anchors w n (until i) h below = ground arith
timer_instant-HasMatured D anchors w n (delay d) h below = elim (Option-cases (youngest anchors)) [
  | inl missing ↦ absurd (ground arith)
  | inr (a, found) ↦ (youngest_fed anchors a found, youngest-All w d anchors a found (ground arith))
]

latest-HasMatured :
    (D : Type 0) (anchors : List ℕ) (w m : ℕ) (ts : List Timer) (r : Option ℕ)
    → latest {D = D} (youngest anchors) m ts ≡ ok r
    → is_mature r (some w) ≡ true
    → (m ≤ w) × All (HasMatured anchors (some w)) ts
unfolding latest
latest-HasMatured D anchors w m [] r h mature = (ground arith, tt)
latest-HasMatured D anchors w m (t ∷ ts) r h mature =
    elim (Result-cases (timer_instant {D = D} (youngest anchors) t)) [
      | inr (x, raised) ↦ absurd (ground arith)
      | inl (n, at) ↦
          let (below, rest) = latest-HasMatured D anchors w (max m n) ts r (ground arith) mature in
          (ground arith, (timer_instant-HasMatured D anchors w n t at (ground arith), rest))
    ]

-- Without a watermark no timer is found mature.
latest_unclocked :
    (D : Type 0) (anchor : Option ℕ) (m : ℕ) (ts : List Timer) (r : Option ℕ)
    → latest {D = D} anchor m ts ≡ ok r
    → is_mature r none ≡ false
unfolding latest
latest_unclocked D anchor m [] r h = let same : some m ≡ r = ground arith in rw (← same) refl
latest_unclocked D anchor m (t ∷ ts) r h = elim (Result-cases (timer_instant {D = D} anchor t)) [
  | inr (x, raised) ↦ absurd (ground arith)
  | inl (n, at) ↦ latest_unclocked D anchor (max m n) ts r (ground arith)
]

-- Where the maturity that the survey computes from the youngest anchor is reached, every timer has
-- matured for each of the anchors.
pub maturation-HasMatured :
    (D : Type 0) (anchors : List ℕ) (watermark : Option ℕ) (ts : List Timer) (r : Option ℕ)
    → maturation {D = D} ts (youngest anchors) ≡ ok r
    → is_mature r watermark ≡ true
    → All (HasMatured anchors watermark) ts
unfolding maturation
maturation-HasMatured D anchors watermark [] r h mature = tt
maturation-HasMatured D anchors none (t ∷ ts) r h mature =
    elim (Result-cases (timer_instant {D = D} (youngest anchors) t)) [
      | inr (x, raised) ↦ absurd (ground arith)
      | inl (n, at) ↦
          absurd (ground (arith, latest_unclocked D (youngest anchors) n ts r (ground arith)))
    ]
maturation-HasMatured D anchors (some w) (t ∷ ts) r h mature =
    elim (Result-cases (timer_instant {D = D} (youngest anchors) t)) [
      | inr (x, raised) ↦ absurd (ground arith)
      | inl (n, at) ↦
          let (below, rest) = latest-HasMatured D anchors w n ts r (ground arith) mature in
          (timer_instant-HasMatured D anchors w n t at below, rest)
    ]

module _ {D : Type 0} (impl : Implementations D) (b : Binding D) where
  guards_hold_from-Holds :
      (n : ℕ) (gs : List GuardDeclaration)
      → guards_hold_from impl b.transition n gs b ≡ true
      → All (Holds impl b) (enumerate n gs)
  unfolding guards_hold_from enumerate
  guards_hold_from-Holds n [] h = tt
  guards_hold_from-Holds n (g ∷ gs) h =
      (ground arith, guards_hold_from-Holds (suc n) gs (ground arith))

  pub guards_hold-Holds :
      (t : Transition) → guards_hold impl t b ≡ true → All (Holds impl b) (enumerate 0 t.guards)
  unfolding guards_hold
  guards_hold-Holds t h = guards_hold_from-Holds 0 t.guards h
