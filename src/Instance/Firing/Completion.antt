-- ===== src/Instance/Firing/Completion.antt =====
-- The end batch of `complete_firing` of src/petrus/impetus/instance/firing.py replays to the marking
-- that the kernel's `complete_firing` left.
use petrus.Base.{
  ℕ, zero, suc, ◌≤◌, ◌≡◌, refl, ap, sym, ◌∙◌, false, Option, none, some, List, [], ◌∷◌, ◌++◌, map,
  arith, Eq, nat_eq, list_eq, string_eq, list_beq_iff, count-contains, ok, length, any, count,
  contains, fold_result, fold_result-append, get-put, map-append, append-nil, append_assoc, all,
  filter,
}
use petrus.Petrinet.Token.{Token, NetPath, LifecycleScope}
use petrus.Petrinet.Queue.{TokenQueue, tokens, deposit}
use petrus.Petrinet.Marking.{Marking, place}
use petrus.Petrinet.Schema.{Arc}
use petrus.Petrinet.Net.{Net, outputs}
use petrus.Petrinet.Enabledness.{Selection}
use petrus.Petrinet.Firing.{ProducedTokens, deposit_all, produce, with_effect, coalesce, routed_to}
use petrus.Petrinet.Firing
use petrus.Petrinet.Firing.Complete.{place-deposit_all}
use petrus.History.{
  validate_entries, is_unique, firing_completed, delivery_registration_closed,
  delivery_registration_opened,
}
use petrus.History.Queues.{
  Projection, queue_at, apply_movement, replay_step, range_from, all_ids, deposit_entries,
  deposit_step, deposit_with, apply_deposit, next_queue_identity,
}
use petrus.History.Queues.Spent.{or_list-again}
use petrus.History.Queues.WellFormed.{
  IsWellFormed, deposited, deposit_step_cases, deposited-IsWellFormed,
}
use petrus.Instance.Firing.{
  unscoped, produced_records, registration_records, complete_firing, FiringOccurrence,
  HandlerResult, DeliveryRegistration,
}
use petrus.Instance.Firing.Replay.{Simulates}

length-range_from : (n k : ℕ) → length (range_from n k) ≡ k
unfolding range_from
length-range_from n zero = refl
length-range_from n (suc k) = ap suc (length-range_from (suc n) k)

-- No identity of a range that starts above all of `xs` is in it.
any-range_from :
    (xs : List ℕ) (n k : ℕ)
    → ((i : ℕ) → n ≤ i → count i xs ≡ 0)
    → any (λ i. contains i xs) (range_from n k) ≡ false
unfolding range_from any
any-range_from xs n zero above = refl
any-range_from xs n (suc k) above = ground (
  arith,
  above n (omega arith),
  count-contains n xs,
  any-range_from xs (suc n) k (λ i h. above i (omega arith)),
)

module _ {D : Type 0} where
  tokens-deposit_entries :
      (q : TokenQueue D ℕ) (ts : List (Token D)) (is : List ℕ) (s : Option LifecycleScope) (at : ℕ)
      → length is ≡ length ts
      → tokens (deposit_entries q ts is s at) ≡ tokens q ++ ts
  unfolding deposit_entries deposit
  tokens-deposit_entries q [] is s at h = sym (append-nil (tokens q))
  tokens-deposit_entries q (t ∷ ts) [] s at h = absurd (omega arith)
  tokens-deposit_entries q (t ∷ ts) (i ∷ is) s at h =
      tokens-deposit_entries (deposit q t at (some i) s) ts is s at (omega arith)
      ∙ rw map-append (append_assoc (tokens q) (t ∷ []) ts)

  -- A deposit that names no entries always replays.
  deposit_step-unscoped :
      (p : Projection D) (j : NetPath) (ts : List (Token D)) (at : ℕ)
      → IsWellFormed p
      → deposit_step p (unscoped j ts at) ≡ ok (deposited p (unscoped j ts at))
  unfolding deposit_step apply_deposit deposit_with
  deposit_step-unscoped p j ts at w =
      let again = or_list-again [] p.next_identity (next_queue_identity p.queues) (length ts) in
      ground (
        arith,
        again,
        length-range_from p.next_identity (length ts),
        any-range_from p.spent p.next_identity (length ts) w.fresh,
        any-range_from (all_ids p.queues) p.next_identity (length ts)
            (λ i h. omega (arith, w.fresh i h, w.queued i)),
      )

  unscoped-IsWellFormed :
      (p : Projection D) (j : NetPath) (ts : List (Token D)) (at : ℕ)
      → IsWellFormed p
      → IsWellFormed (deposited p (unscoped j ts at))
  unfolding validate_entries deposit_step all is_unique
  unscoped-IsWellFormed p j ts at w =
      let done = deposit_step-unscoped p j ts at w in
      deposited-IsWellFormed p (unscoped j ts at) refl
        (deposit_step_cases p (deposited p (unscoped j ts at)) (unscoped j ts at) done).0
        (length-range_from p.next_identity (length ts)) w

  deposited-Simulates :
      (p : Projection D) (m : Marking D) (j : NetPath) (ts : List (Token D)) (at : ℕ)
      → Simulates p.queues m
      → Simulates (deposited p (unscoped j ts at)).queues (deposit_all m j ts)
  deposited-Simulates p m j ts at sim i = ground (
    arith,
    sim i,
    sim j,
    list_beq_iff j i,
    get-put p.queues j i
        (deposit_entries (queue_at p.queues j) ts (range_from p.next_identity (length ts)) none at),
    tokens-deposit_entries (queue_at p.queues j) ts (range_from p.next_identity (length ts)) none at
        (length-range_from p.next_identity (length ts)),
    place-deposit_all i j ts m,
    append-nil (place m i),
  )

  -- The marking after the deposits of a list of effects.
  abbrev deposit_effects : Marking D → List (ProducedTokens D) → Marking D
  deposit_effects m [] = m
  deposit_effects m (x ∷ xs) = deposit_effects (deposit_all m x.place x.tokens) xs

  deposit-with_effect :
      (j : NetPath) (ts : List (Token D)) (r : List (ProducedTokens D) × Marking D) (m : Marking D)
      → r.1 ≡ deposit_effects (deposit_all m j ts) r.0
      → (with_effect j ts r).1 ≡ deposit_effects m (with_effect j ts r).0
  unfolding deposit_all
  deposit-with_effect j [] r m h = h
  deposit-with_effect j (t ∷ ts) (effects, n) m h = h

  produce-effects :
      (arcs : List Arc) (es : List (Selection D)) (m : Marking D)
      → (produce arcs es m).1 ≡ deposit_effects m (produce arcs es m).0
  unfolding produce
  produce-effects arcs [] m = refl
  produce-effects arcs ((j, ts) ∷ rest) m =
      let ds = filter (routed_to arcs j) ts in
      deposit-with_effect j ds (produce arcs rest (deposit_all m j ds)) m
        (produce-effects arcs rest (deposit_all m j ds))

module _ {D : Type 0} ⦃e : Eq D⦄ where
  fold-produced :
      (p : Projection D) (m : Marking D) (effects : List (ProducedTokens D)) (k at : ℕ)
      → IsWellFormed p
      → Simulates p.queues m
      → (p' : Projection D) × (fold_result replay_step p (produced_records k at effects) ≡ ok p')
        × Simulates p'.queues (deposit_effects m effects)
        × IsWellFormed p'
  unfolding fold_result replay_step
  fold-produced p m [] k at w sim = (p, refl, sim, w)
  fold-produced p m (x ∷ xs) k at w sim =
      let moved = unscoped x.place x.tokens at in
      let again = deposit_step-unscoped p x.place x.tokens at w in
      let (p', steps, sim', w') =
        fold-produced (deposited p moved) (deposit_all m x.place x.tokens) xs k at
          (unscoped-IsWellFormed p x.place x.tokens at w)
          (deposited-Simulates p m x.place x.tokens at sim) in
      (p', rw again steps, sim', w')

  -- Neither the registrations nor the completion move a token.
  fold-opened :
      (p : Projection D) (k at : ℕ) (t : NetPath) (opens : List DeliveryRegistration)
      → fold_result replay_step p (
          map
            (λ (x : DeliveryRegistration). delivery_registration_opened (some k) x.source x.key at)
            opens
          ++ firing_completed k t at ∷ [])
        ≡ ok p
  unfolding fold_result replay_step apply_movement
  fold-opened p k at t [] = refl
  fold-opened p k at t (x ∷ xs) = fold-opened p k at t xs

  fold-registrations :
      (p : Projection D) (k at : ℕ) (t : NetPath) (closes opens : List DeliveryRegistration)
      → fold_result replay_step p (
          (map
              (λ (x : DeliveryRegistration).
                delivery_registration_closed (some k) x.source x.key at)
              closes
            ++ map
                (λ (x : DeliveryRegistration).
                  delivery_registration_opened (some k) x.source x.key at)
                opens)
          ++ firing_completed k t at ∷ [])
        ≡ ok p
  unfolding fold_result replay_step apply_movement
  fold-registrations p k at t [] opens = fold-opened p k at t opens
  fold-registrations p k at t (x ∷ xs) opens = fold-registrations p k at t xs opens

  -- Where the replayed queues hold, place by place, the tokens of a marking, and no identity from the
  -- next one on is spent, the end batch of a completed firing replays without an error and leaves
  -- queues that hold the tokens of the marking that the completion returns.
  pub complete_firing-Simulates :
      (net : Net) (p : Projection D) (m : Marking D) (o : FiringOccurrence D) (r : HandlerResult D)
      (at : ℕ)
      → IsWellFormed p
      → Simulates p.queues m
      → (p' : Projection D) × (fold_result replay_step p (complete_firing net m o r at).2 ≡ ok p')
        × Simulates p'.queues (complete_firing net m o r at).0
        × IsWellFormed p'
  unfolding complete_firing Firing.complete_firing
  complete_firing-Simulates net p m o r at w sim =
      let t = o.binding.transition in
      let result = Firing.complete_firing net m t r.tokens in
      let (p', steps, sim', w') = fold-produced p m result.0 o.id at w sim in
      (
        p',
        fold_result-append replay_step p p' (produced_records o.id at result.0)
              (registration_records o.id at r ++ firing_completed o.id t at ∷ []) steps
            ∙ fold-registrations p' o.id at t r.closes r.opens,
        rw (produce-effects (outputs net t) (coalesce r.tokens []) m) sim',
        w',
      )
