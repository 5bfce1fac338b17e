-- ===== src/Instance/Runtime/Clock/Reached.antt =====
-- Every state that the operations of an `Instance` (src/petrus/impetus/instance/__init__.py) reach
-- from its construction.
use petrus.Base.{
  Result, ℕ, ◌≡◌, refl, sym, ap, ◌∙◌, inl, inr, String, Option, List, [], ◌∷◌, ◌++◌, arith, Eq, ok,
  Result-cases, All, All-append, All-map,
}
use petrus.Petrinet.Token.{Token, NetPath}
use petrus.Petrinet.Net.{Net}
use petrus.Petrinet.Marking.{Marking}
use petrus.Petrinet.Enabledness.{Binding, Implementations}
use petrus.History.{Record, ScopeReference, instant_of, instance_created}
use petrus.History.Clock.{replay_watermark, replay_watermark_iff}
use petrus.Instance.Firing.{FiringOccurrence, FiringOutcome, HandlerResult}
use petrus.Instance.Runtime.{RuntimeError, Instance, Handlers, writer_records}
use petrus.Instance.Runtime.Scopes.Mirror.{ScopeStep}
use petrus.Instance.Runtime.Beginning.{begin, apply_all}
use petrus.Instance.Runtime.Activities.{
  TerminalDisposition, record_activity_completion, record_activity_failure,
}
use petrus.Instance.Runtime.Completing.{commit_completion, fail}
use petrus.Instance.Runtime.Delivering.{Acknowledgement, accept_delivery, seal}
use petrus.Instance.Runtime.Driving.{
  wake, construct, check_initial_tokens, initial_batch, initial_records, opening_records,
  source_transitions,
}
use petrus.Instance.Runtime.Clock.{
  At, Ticks, Ticks-At, Ticks-append, Advances, Advances-refl, Advances-trans,
}
use petrus.Instance.Runtime.Clock.Commits.{writer_records-eq-ok}
use petrus.Instance.Runtime.Clock.Ends.{commit_completion-Advances}
use petrus.Instance.Runtime.Clock.Reports.{record_terminal-Advances, fail-Advances}
use petrus.Instance.Runtime.Clock.Doors.{
  ScopeStep-Advances, begin-Advances, accept_delivery-Advances, wake-Advances, seal-Advances,
}

module _ {D : Type 0} ⦃e : Eq D⦄ ⦃same : Eq (FiringOccurrence D)⦄ (hs : Handlers D)
    (impl : Implementations D) where
  -- One operation that returns, or a failure that was recorded in part and raised.
  pub data Step : Instance D → Instance D → Type 0 where
    scoping : {s t : Instance D} → ScopeStep hs s t → Step s t
    beginning :
        {s t : Instance D} (b : Binding D) (at : Option ℕ) (o : FiringOccurrence D)
        → begin hs s b at ≡ ok (t, o)
        → Step s t
    completing :
        {s t : Instance D} (o : FiringOccurrence D) (r : Option (HandlerResult D)) (at : Option ℕ)
        (f : FiringOutcome D)
        → commit_completion hs s o r at ≡ ok (t, f)
        → Step s t
    failing :
        {s t : Instance D} (o : FiringOccurrence D) (failure : D) (at : Option ℕ)
        (r : Result (RuntimeError D) (Unit {0}))
        → fail hs s o failure at ≡ (t, r)
        → Step s t
    reporting :
        {s t : Instance D} (o : FiringOccurrence D) (result : D) (at : Option ℕ)
        (d : TerminalDisposition)
        → record_activity_completion hs s o result at ≡ ok (t, d)
        → Step s t
    reporting_failure :
        {s t : Instance D} (o : FiringOccurrence D) (failure : D) (at : Option ℕ)
        (d : TerminalDisposition)
        → record_activity_failure hs s o failure at ≡ ok (t, d)
        → Step s t
    delivering :
        {s t : Instance D} (path : NetPath) (ts : List (Token D)) (identity : String)
        (target : Option ScopeReference) (at : Option ℕ) (a : Acknowledgement)
        → accept_delivery hs s path ts identity target at ≡ ok (t, a)
        → Step s t
    sealing :
        {s t : Instance D} (path : NetPath) (at : Option ℕ) → seal hs s path at ≡ ok t → Step s t
    waking :
        {s t : Instance D} (at : ℕ) (r : Option (Record D))
        → wake hs impl s at ≡ ok (t, r)
        → Step s t

  Step-Advances : (s t : Instance D) → Step s t → Advances s t
  unfolding record_activity_completion record_activity_failure
  Step-Advances s t (scoping x) = ScopeStep-Advances hs s t x
  Step-Advances s t (beginning b at o h) = begin-Advances hs s t b at o h
  Step-Advances s t (completing o r at f h) = commit_completion-Advances hs s t o r at f h
  Step-Advances s t (failing o failure at r h) = fail-Advances hs s t o failure at r h
  Step-Advances s t (reporting o result at d h) = record_terminal-Advances hs s t o _ at d h
  Step-Advances s t (reporting_failure o failure at d h) =
      record_terminal-Advances hs s t o _ at d h
  Step-Advances s t (delivering path ts identity target at a h) =
      accept_delivery-Advances hs s t path ts identity target at a h
  Step-Advances s t (sealing path at h) = seal-Advances hs s t path at h
  Step-Advances s t (waking at r h) = wake-Advances hs impl s t at r h

  -- Runs of operations.
  pub data Run : Instance D → Instance D → Type 0 where
    here : {s : Instance D} → Run s s
    later : {s t u : Instance D} → Run s t → Step t u → Run s u

  Run-Advances : {s t : Instance D} → Run s t → Advances s t
  Run-Advances {s} here = Advances-refl s
  Run-Advances {s} (later {t} {u} run x) =
      Advances-trans s t u (Run-Advances run) (Step-Advances t u x)

  initial-At :
      (net : Net) (m : Marking D) (at : ℕ) (identity : String)
      → All (At at) (initial_batch net m at identity)
  unfolding initial_batch instant_of
  initial-At net m at identity = (
    refl,
    All-append (At at) _ _ (All-map (At at) _ m.queues (λ x. refl))
        (All-map (At at) _ (source_transitions net) (λ x. refl)),
  )

  -- The history and the clock of a new instance.
  constructed :
      (net : Net) (m : Marking D) (at : ℕ) (identity : String) (s : Instance D)
      → construct hs net m at identity ≡ ok s
      → (s.history ≡ initial_batch net m at identity) × (s.watermark ≡ at)
  unfolding construct
  constructed net m at identity s h = elim (Result-cases (check_initial_tokens net m.queues)) [
    | inr (x, raised) ↦ absurd (ground arith)
    | inl (u, checked) ↦ elim (Result-cases (writer_records hs (initial_batch net m at identity))) [
      | inr (x, raised) ↦ absurd (ground arith)
      | inl (batch, written) ↦ elim (Result-cases (apply_all [] batch)) [
        | inr (x, raised) ↦ absurd (ground arith)
        | inl (queues, moved) ↦
            let whole = writer_records-eq-ok hs (initial_batch net m at identity) batch written in
            (ground arith ∙ sym whole, ground arith)
      ]
    ]
  ]

  -- In every state that a run of operations reaches from a new instance, the records of the
  -- construction stand first, and the history proves the live watermark: its instants never step
  -- back, and the last one is the watermark.
  pub Run-replay_watermark :
      (net : Net) (m : Marking D) (at : ℕ) (identity : String) (s t : Instance D)
      → construct hs net m at identity ≡ ok s
      → Run s t
      → (replay_watermark t.history ≡ ok t.watermark)
        × ((batch : List (Record D)) × (t.history ≡ initial_batch net m at identity ++ batch))
  unfolding initial_batch instant_of
  Run-replay_watermark net m at identity s t h run =
      let a = Run-Advances run in
      let (first, clock) = constructed net m at identity s h in
      let rest = initial_records at m.queues ++ opening_records at (source_transitions net) in
      let created : Record D = instance_created identity net.name at in
      let (mono, last) =
        Ticks-append at at t.watermark rest a.batch
          (tail_ticks at rest (initial-At net m at identity).1) (rw (← clock) a.ticks) in
      let whole : t.history ≡ created ∷ (rest ++ a.batch) =
        a.history ∙ ap (λ hs. hs ++ a.batch) first in
      (
        rw whole ((replay_watermark_iff created (rest ++ a.batch)).1 mono ∙ ap ok last),
        (a.batch, whole),
      )
    where
      tail_ticks : (v : ℕ) (rs : List (Record D)) → All (At v) rs → Ticks v rs v
      tail_ticks v [] stamped = (tt, refl)
      tail_ticks v (r ∷ rs) stamped = Ticks-At v v r rs (omega arith) stamped
