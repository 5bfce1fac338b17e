-- ===== src/History/Scopes/Generations.antt =====
-- The generations that `replay_scopes` of src/petrus/impetus/history/__init__.py accepts.
use petrus.Base.{
  ℕ, zero, suc, ◌+◌, ◌≡◌, refl, ap, sym, ◌∙◌, inl, inr, String, true, Option, none, some, List, [],
  ◌∷◌, ◌++◌, arith, ◌==◌, nat_eq, nat_beq_iff, string_eq, option_eq, option_beq_iff, if◌then◌else◌,
  ok, fold_result, get, pop, get-put, get-pop, Result-cases, All, append_assoc, append-nil,
}
use petrus.Petrinet.Token.{LifecycleScope, scope_eq}
use petrus.History.{
  Record, tokens_initialized, scope_opened, scope_closed, scope_reset, external_event_delivered,
  scoped_delivery_dropped, scoped_delivery_quarantined, firing_begun, tokens_consumed, tokens_read,
  activity_requested, tokens_produced,
}
use petrus.History.Queues.{range_from}
use petrus.History.Scopes.{
  Scopes, spent, is_active, activate, require_active, is_successor, scope_step, replay_scopes,
}

-- A reset opens the next generation of the name it closes.
abbrev pub ResetsNext : {D : Type 0} → Record D → Type 0
ResetsNext (scope_reset closed opened discarded cancelled at) = is_successor closed opened ≡ true
ResetsNext _ = Unit

-- An active generation carries the name it is found under, and is the greatest one spent.
abbrev pub IsCurrent : Scopes → Type 0
IsCurrent x =
    (n : String) (s : LifecycleScope)
    → get x.active n ≡ some s
    → (s.name ≡ n) × (spent x n ≡ s.generation)

range_from-snoc : (n k : ℕ) → range_from n (suc k) ≡ range_from n k ++ (n + k) ∷ []
unfolding range_from
range_from-snoc n zero = ap (λ i. i ∷ []) (omega arith)
range_from-snoc n (suc k) =
    ap (◌∷◌ n) (range_from-snoc (suc n) k ∙ ap (λ i. range_from (suc n) k ++ i ∷ []) (the_sum n k))
  where
    the_sum : (a b : ℕ) → suc a + b ≡ a + suc b
    the_sum a b = omega arith

is_active-get :
    (x : Scopes) (s : LifecycleScope) → is_active x s ≡ true → get x.active s.name ≡ some s
is_active-get x s h = (option_beq_iff (get x.active s.name) (some s)).0 h

activate-IsCurrent : (x : Scopes) (s : LifecycleScope) → IsCurrent x → IsCurrent (activate x s)
activate-IsCurrent x s c n t h = ground (
  arith,
  get-put x.active s.name n s,
  get-put x.generations s.name n s.generation,
  string_eq.beq_iff s.name n,
  c n t,
)

pop-IsCurrent :
    (x : Scopes) (m : String) → IsCurrent x → IsCurrent (record x { active = pop x.active m })
pop-IsCurrent x m c n t h = ground (arith, get-pop x.active m n, string_eq.beq_iff m n, c n t)

activate-Advances :
    (x : Scopes) (s : LifecycleScope) (n : String)
    → s.generation ≡ spent x s.name + 1
    → range_from 1 (spent (activate x s) n)
      ≡ range_from 1 (spent x n) ++ ((if s.name == n then s.generation ∷ [] else []) ++ [])
activate-Advances x s n next = ground (
  arith,
  get-put x.generations s.name n s.generation,
  string_eq.beq_iff s.name n,
  range_from-snoc 1 (spent x n),
  append-nil (range_from 1 (spent x n)),
  append-nil (s.generation ∷ []),
)

quiet-Advances :
    (x x' : Scopes)
    → x ≡ x'
    → IsCurrent x
    → IsCurrent x' × ((n : String) → range_from 1 (spent x' n) ≡ range_from 1 (spent x n) ++ [])
quiet-Advances x x' same c =
    (rw (← same) c, λ n. rw (← same) (sym (append-nil (range_from 1 (spent x n)))))

require_active-same :
    (x x' : Scopes) (s : Option LifecycleScope) → require_active x s ≡ ok x' → x ≡ x'
unfolding require_active
require_active-same x x' none h = ground arith
require_active-same x x' (some s) h = ground arith

module _ {D : Type 0} where
  -- The generations of a name that a history opens, in order.
  pub opened_under : String → List (Record D) → List ℕ
  opened_under n [] = []
  opened_under n (scope_opened s at ∷ rs) =
      (if s.name == n then s.generation ∷ [] else []) ++ opened_under n rs
  opened_under n (scope_reset closed opened discarded cancelled at ∷ rs) =
      (if opened.name == n then opened.generation ∷ [] else []) ++ opened_under n rs
  opened_under n (_ ∷ rs) = opened_under n rs

  -- What one step does to the generations of a name.
  abbrev Advances : Scopes → Scopes → Record D → Type 0
  Advances x x' r =
      IsCurrent x'
      × ((n : String)
          → range_from 1 (spent x' n) ≡ range_from 1 (spent x n) ++ opened_under n (r ∷ []))

  scope_step-Advances :
      (x x' : Scopes) (r : Record D)
      → ResetsNext r
      → scope_step x r ≡ ok x'
      → IsCurrent x
      → Advances x x' r
  unfolding scope_step opened_under
  scope_step-Advances x x' (scope_opened s at) v h c =
      let same : activate x s ≡ x' = ground arith in
      let next : s.generation ≡ spent x s.name + 1 =
        ground (arith, nat_beq_iff s.generation (spent x s.name + 1)) in
      rw (← same) (activate-IsCurrent x s c, λ n. activate-Advances x s n next)
  scope_step-Advances x x' (scope_reset closed opened discarded cancelled at) v h c =
      let same : activate x opened ≡ x' = ground arith in
      let there : get x.active closed.name ≡ some closed = is_active-get x closed (ground arith) in
      let next : opened.generation ≡ spent x opened.name + 1 = ground (
        arith,
        v,
        (c closed.name closed there).1,
        string_eq.beq_iff opened.name closed.name,
        nat_beq_iff opened.generation (closed.generation + 1),
      ) in
      rw (← same) (activate-IsCurrent x opened c, λ n. activate-Advances x opened n next)
  scope_step-Advances x x' (scope_closed s discarded cancelled at) v h c =
      let same : record x { active = pop x.active s.name } ≡ x' = ground arith in
      rw (← same) (pop-IsCurrent x s.name c, λ n. sym (append-nil (range_from 1 (spent x n))))
  scope_step-Advances x x' (scoped_delivery_dropped d) v h c = quiet-Advances x x' (ground arith) c
  scope_step-Advances x x' (scoped_delivery_quarantined d) v h c =
      quiet-Advances x x' (ground arith) c
  scope_step-Advances x x' (tokens_initialized m) v h c =
      quiet-Advances x x' (require_active-same x x' m.scope h) c
  scope_step-Advances x x' (external_event_delivered k d) v h c =
      quiet-Advances x x' (require_active-same x x' d.scope h) c
  scope_step-Advances x x' (firing_begun k t s at) v h c =
      quiet-Advances x x' (require_active-same x x' s h) c
  scope_step-Advances x x' (tokens_consumed k m) v h c =
      quiet-Advances x x' (require_active-same x x' m.scope h) c
  scope_step-Advances x x' (tokens_read k m) v h c =
      quiet-Advances x x' (require_active-same x x' m.scope h) c
  scope_step-Advances x x' (activity_requested k q) v h c =
      quiet-Advances x x' (require_active-same x x' q.scope h) c
  scope_step-Advances x x' (tokens_produced k m) v h c =
      quiet-Advances x x' (require_active-same x x' m.scope h) c
  scope_step-Advances x x' _ v h c = quiet-Advances x x' (ground arith) c

  opened_under-cons :
      (n : String) (r : Record D) (rs : List (Record D))
      → opened_under n (r ∷ rs) ≡ opened_under n (r ∷ []) ++ opened_under n rs
  unfolding opened_under
  opened_under-cons n (scope_opened s at) rs = ground arith
  opened_under-cons n (scope_reset closed opened discarded cancelled at) rs = ground arith
  opened_under-cons n _ rs = refl

  fold-Advances :
      (x x' : Scopes) (history : List (Record D))
      → All ResetsNext history
      → fold_result scope_step x history ≡ ok x'
      → IsCurrent x
      → IsCurrent x'
        × ((n : String)
            → range_from 1 (spent x' n) ≡ range_from 1 (spent x n) ++ opened_under n history)
  unfolding fold_result opened_under
  fold-Advances x x' [] v h c = quiet-Advances x x' (ground arith) c
  fold-Advances x x' (r ∷ rs) v h c = elim (Result-cases (scope_step x r)) [
    | inr (e, raised) ↦ absurd (ground arith)
    | inl (y, step) ↦
        let (cy, first) = scope_step-Advances x y r v.0 step c in
        let (cx, rest) = fold-Advances y x' rs v.1 (ground arith) cy in
        (
          cx,
          λ n.
              rest n
              ∙ ap (λ l. l ++ opened_under n rs) (first n)
              ∙ append_assoc (range_from 1 (spent x n)) (opened_under n (r ∷ []))
                  (opened_under n rs)
              ∙ ap (λ l. range_from 1 (spent x n) ++ l) (sym (opened_under-cons n r rs)),
        )
  ]

  replay_scopes_cases :
      (history : List (Record D)) (x : Scopes)
      → All ResetsNext history
      → replay_scopes history ≡ ok x
      → IsCurrent x × ((n : String) → range_from 1 (spent x n) ≡ opened_under n history)
  unfolding replay_scopes get range_from
  replay_scopes_cases history x v h =
      fold-Advances (record { active = []; generations = [] }) x history v h (λ n s p. cc)

  -- A history whose resets each open the next generation of the name they close, and that replays,
  -- has opened the generations 1, 2, … of each name in order, each once, up to the greatest one that
  -- the replay counts as spent.
  pub replay_scopes-opened_under :
      (history : List (Record D)) (x : Scopes) (n : String)
      → All ResetsNext history
      → replay_scopes history ≡ ok x
      → opened_under n history ≡ range_from 1 (spent x n)
  replay_scopes-opened_under history x n v h = sym ((replay_scopes_cases history x v h).1 n)

  -- After the replay of a history whose resets each open the next generation of the name they close,
  -- an active generation stands under its own name, and the history has opened the generations of
  -- that name from 1 up to exactly this one.
  pub replay_scopes-active :
      (history : List (Record D)) (x : Scopes) (n : String) (s : LifecycleScope)
      → All ResetsNext history
      → replay_scopes history ≡ ok x
      → get x.active n ≡ some s
      → (s.name ≡ n) × (opened_under n history ≡ range_from 1 s.generation)
  replay_scopes-active history x n s v h a =
      let (under, last) = (replay_scopes_cases history x v h).0 n s a in
      (under, rw (← last) (replay_scopes-opened_under history x n v h))
