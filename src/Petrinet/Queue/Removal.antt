-- ===== src/Petrinet/Queue/Removal.antt =====
-- What `TokenQueue.remove` of src/petrus/impetus/petrinet/marking.py takes, and when it raises.
use petrus.Base.{
  ℕ, suc, ◌+◌, ◌≤◌, ◌<◌, ◌≡◌, ◌↔◌, refl, ap, inl, inr, true, false, Bool, Option, none, some, List,
  [], ◌∷◌, ◌++◌, arith, Eq, ◌==◌, if◌then◌else◌, ok, err, map_ok, any, count, Bool-cases,
  Option-cases,
}
use mathlib.Core.Option
use petrus.Petrinet.Token.{Token, token_eq, token_beq_iff}
use petrus.Petrinet.Queue.{
  Entry, TokenQueue, QueueError, token_not_present, tokens, time_blind, delete_first, is_match,
  remove_loop, by_value, remove,
}

module _ {D I : Type 0} ⦃e : Eq D⦄ where
  -- The queue after one match is taken, described without the scan: what stands before the
  -- front-most match, and what stands behind it.
  pub data Removes : TokenQueue D I → List (Token D × Option ℕ) → TokenQueue D I → Type 0 where
    done : (q r : TokenQueue D I) → q ≡ r → Removes q [] r
    take_front :
        (before after : TokenQueue D I) (x : Entry D I) (t : Token D) (i : Option ℕ)
        (q r : TokenQueue D I) (rs : List (Token D × Option ℕ))
        → q ≡ before ++ x ∷ after
        → any (is_match t i) before ≡ false
        → is_match t i x ≡ true
        → Removes (before ++ after) rs r
        → Removes q ((t, i) ∷ rs) r

  Split : (Entry D I → Bool) → TokenQueue D I → TokenQueue D I → Type 0
  Split p q r =
      (before : TokenQueue D I) × (x : Entry D I) × (after : TokenQueue D I) × (q
        ≡ before ++ x ∷ after)
      × (r ≡ before ++ after)
      × (any p before ≡ false)
      × (p x ≡ true)

  delete_first-Split :
      (p : Entry D I → Bool) (q r : TokenQueue D I) → delete_first p q ≡ some r → Split p q r
  unfolding delete_first Split any
  delete_first-Split p [] r h = cc
  delete_first-Split p (x ∷ q) r h = elim (Bool-cases (p x)) [
    | inl hit ↦ ([], x, q, refl, ground arith, refl, hit)
    | inr skip ↦ elim (Option-cases (delete_first p q)) [
      | inl none_left ↦ absurd (ground arith)
      | inr (ys, found) ↦
          let (before, y, after, split, rest, passed, hit) = delete_first-Split p q ys found in
          (x ∷ before, y, after, ap (◌∷◌ x) split, ground arith, ground arith, hit)
    ]
  ]

  Removes-remove_loop :
      (q : TokenQueue D I) (rs : List (Token D × Option ℕ)) (r : TokenQueue D I)
      → remove_loop q rs ≡ ok r
      → Removes q rs r
  unfolding remove_loop Split
  Removes-remove_loop q [] r h = done q r (ground arith)
  Removes-remove_loop q ((t, i) ∷ rs) r h = elim (Option-cases (delete_first (is_match t i) q)) [
    | inl none_left ↦ absurd (ground arith)
    | inr (ys, found) ↦
        let (before, x, after, split, rest, passed, hit) =
          delete_first-Split (is_match t i) q ys found in
        take_front before after x t i q r rs split passed hit
          (rw (← rest) (Removes-remove_loop ys rs r (ground arith)))
  ]

  -- A match that stands behind a prefix without one is what the scan takes.
  delete_first-front :
      (p : Entry D I → Bool) (before : TokenQueue D I) (x : Entry D I) (after : TokenQueue D I)
      → any p before ≡ false
      → p x ≡ true
      → delete_first p (before ++ x ∷ after) ≡ some (before ++ after)
  unfolding delete_first any
  delete_first-front p [] x after skip hit = rw hit
  delete_first-front p (y ∷ before) x after skip hit =
      ground (arith, delete_first-front p before x after)

  remove_loop-Removes :
      (q : TokenQueue D I) (rs : List (Token D × Option ℕ)) (r : TokenQueue D I)
      → Removes q rs r
      → remove_loop q rs ≡ ok r
  unfolding remove_loop
  remove_loop-Removes q [] r (done _ _ p) = ap ok p
  remove_loop-Removes q ((t, i) ∷ rs) r (take_front before after x _ _ _ _ _ split skip hit rest) =
      rw (split, delete_first-front (is_match t i) before x after skip hit)
        (remove_loop-Removes (before ++ after) rs r rest)

  -- How often a value is left: one less for the value that was taken.
  delete_first-count :
      (t u : Token D) (q r : TokenQueue D I)
      → delete_first (is_match t none) q ≡ some r
      → count u (tokens q) ≡ (if t == u then suc (count u (tokens r)) else count u (tokens r))
  unfolding delete_first count
  delete_first-count t u [] r h = cc
  delete_first-count t u (x ∷ q) r h = elim (Option-cases (delete_first (is_match t none) q)) [
    | inl none_left ↦ ground (arith, token_beq_iff x.token t)
    | inr (ys, found) ↦ ground (
      arith,
      delete_first-count t u q ys,
      token_beq_iff x.token t,
      token_beq_iff x.token u,
      token_beq_iff t u,
    )
  ]

  delete_first-absent :
      (t : Token D) (q : TokenQueue D I)
      → delete_first (is_match t none) q ≡ none
      → count t (tokens q) ≡ 0
  unfolding delete_first count
  delete_first-absent t [] h = refl
  delete_first-absent t (x ∷ q) h = ground (arith, delete_first-absent t q)

  -- Reading the removals' counts together: what was there is what was taken and what is left.
  pub remove_loop-count :
      (u : Token D) (q : TokenQueue D I) (ts : List (Token D)) (r : TokenQueue D I)
      → remove_loop q (by_value ts) ≡ ok r
      → count u (tokens q) ≡ count u ts + count u (tokens r)
  unfolding remove_loop count
  remove_loop-count u q [] r h = ground arith
  remove_loop-count u q (t ∷ ts) r h = elim (Option-cases (delete_first (is_match t none) q)) [
    | inl none_left ↦ absurd (ground arith)
    | inr (ys, found) ↦
        ground (arith, delete_first-count t u q ys found, remove_loop-count u ys ts r)
  ]

  pub remove_loop_enough :
      (q : TokenQueue D I) (ts : List (Token D))
      → ((u : Token D) → count u ts ≤ count u (tokens q))
      → (r : TokenQueue D I) × (remove_loop q (by_value ts) ≡ ok r)
  unfolding remove_loop count
  remove_loop_enough q [] enough = (q, refl)
  remove_loop_enough q (t ∷ ts) enough = elim (Option-cases (delete_first (is_match t none) q)) [
    | inl none_left ↦ absurd (ground (arith, enough t, delete_first-absent t q, token_beq_iff t t))
    | inr (ys, found) ↦ rw found (
        remove_loop_enough ys ts (λ u. ground (arith, enough u, delete_first-count t u q ys found)))
  ]

  -- The token that a refusal names is the one there is too little of.
  pub remove_loop_short :
      (q : TokenQueue D I) (ts : List (Token D)) (x : QueueError D)
      → remove_loop q (by_value ts) ≡ err x
      → (t : Token D) × (x ≡ token_not_present t) × (count t (tokens q) < count t ts)
  unfolding remove_loop count
  remove_loop_short q [] x h = cc
  remove_loop_short q (t ∷ ts) x h = elim (Option-cases (delete_first (is_match t none) q)) [
    | inl none_left ↦ (t, ground arith, ground (arith, delete_first-absent t q, token_beq_iff t t))
    | inr (ys, found) ↦
        let (u, named, short) = remove_loop_short ys ts x (ground arith) in
        (u, named, ground (arith, delete_first-count t u q ys found))
  ]

  -- A removal looks at the token half only.
  delete_first-time_blind :
      (t : Token D) (q : TokenQueue D I)
      → delete_first (is_match t none) (time_blind (tokens q))
        ≡ Option.map (λ r. time_blind (tokens r)) (delete_first (is_match t none) q)
  unfolding delete_first
  delete_first-time_blind t [] = refl
  delete_first-time_blind t (x ∷ q) = ground (arith, delete_first-time_blind t q)

  pub remove_loop-time_blind :
      (q : TokenQueue D I) (ts : List (Token D))
      → remove_loop (time_blind (tokens q)) (by_value ts)
        ≡ map_ok (λ r. time_blind (tokens r)) (remove_loop q (by_value ts))
  unfolding remove_loop
  remove_loop-time_blind q [] = refl
  remove_loop-time_blind q (t ∷ ts) =
      rw (delete_first-time_blind t q) (elim (Option-cases (delete_first (is_match t none) q)) [
        | inl none_left ↦ rw none_left refl
        | inr (ys, found) ↦ rw found (remove_loop-time_blind ys ts)
      ])

  -- A removal by value succeeds exactly when, for each request in order, the front-most equal
  -- entry of what is left is taken, and the result is what is left at the end.
  pub remove-iff-Removes :
      (q : TokenQueue D I) (ts : List (Token D)) (r : TokenQueue D I)
      → (remove q ts [] ≡ ok r) ↔ Removes q (by_value ts) r
  unfolding remove
  remove-iff-Removes q ts r =
      (Removes-remove_loop q (by_value ts) r, remove_loop-Removes q (by_value ts) r)

  -- A removal by value succeeds when the queue holds each requested value at least as often as it is
  -- requested, and then exactly the requested tokens are gone, counted with multiplicity.
  pub remove_enough :
      (q : TokenQueue D I) (ts : List (Token D))
      → ((u : Token D) → count u ts ≤ count u (tokens q))
      → (r : TokenQueue D I) × (remove q ts [] ≡ ok r)
        × ((u : Token D) → count u (tokens q) ≡ count u ts + count u (tokens r))
  unfolding remove
  remove_enough q ts enough =
      let (r, removed) = remove_loop_enough q ts enough in
      (r, removed, λ u. remove_loop-count u q ts r removed)

  -- A removal by value that raises names a token that is requested more often than the queue holds it.
  pub remove_short :
      (q : TokenQueue D I) (ts : List (Token D)) (x : QueueError D)
      → remove q ts [] ≡ err x
      → (t : Token D) × (x ≡ token_not_present t) × (count t (tokens q) < count t ts)
  unfolding remove
  remove_short q ts x h = remove_loop_short q ts x h

  -- Removal by value commutes with forgetting instants, identities and scopes.
  pub remove-time_blind :
      (q : TokenQueue D I) (ts : List (Token D))
      → remove (time_blind (tokens q)) ts [] ≡ map_ok (λ r. time_blind (tokens r)) (remove q ts [])
  unfolding remove
  remove-time_blind q ts = remove_loop-time_blind q ts

  -- Whatever a removal by value leaves, the counts add up.
  pub remove-count :
      (q : TokenQueue D I) (ts : List (Token D)) (r : TokenQueue D I)
      → remove q ts [] ≡ ok r
      → (u : Token D) → count u (tokens q) ≡ count u ts + count u (tokens r)
  unfolding remove
  remove-count q ts r h u = remove_loop-count u q ts r h
