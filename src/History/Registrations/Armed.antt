-- ===== src/History/Registrations/Armed.antt =====
-- What `replay_armed` of src/petrus/impetus/history/__init__.py counts.
use petrus.Base.{
  ℕ, ◌+◌, ◌≡◌, refl, inl, inr, String, true, false, ◌&&◌, not, none, List, [], ◌∷◌, ◌++◌, arith,
  ◌==◌, nat_eq, string_eq, list_eq, list_beq_iff, if◌then◌else◌, ok, fold_result, Dict, get,
  get-put, Result-cases, contains, contains-append, filter,
}
use petrus.Petrinet.Token.{NetPath}
use petrus.History.{
  Record, instance_created, tokens_initialized, delivery_registration_opened,
  delivery_registration_closed,
}
use petrus.History.Registrations.{
  Registrations, keys_of, validate_batches, advance_initial_batch, check_initial,
  apply_delivery_registration, registration_step, first_instant, replay_armed,
}

-- 1 for a key that is armed at the source.
abbrev pub armed_once : Dict NetPath (List String) → NetPath → String → ℕ
armed_once armed source key = if contains key (keys_of armed source) then 1 else 0

contains-filter :
    (k key : String) (xs : List String)
    → contains k (filter (λ x. not (x == key)) xs) ≡ (contains k xs && not (k == key))
unfolding contains filter
contains-filter k key [] = refl
contains-filter k key (x ∷ xs) = ground (
  arith,
  contains-filter k key xs,
  string_eq.beq_iff x key,
  string_eq.beq_iff k key,
  string_eq.beq_iff x k,
)

module _ {D : Type 0} where
  -- How often a history opens, and closes, a key of a source.
  pub opens_of : NetPath → String → List (Record D) → ℕ
  opens_of source key [] = 0
  opens_of source key (delivery_registration_opened o j k at ∷ rs) =
      (if j == source && k == key then 1 else 0) + opens_of source key rs
  opens_of source key (_ ∷ rs) = opens_of source key rs

  pub closes_of : NetPath → String → List (Record D) → ℕ
  closes_of source key [] = 0
  closes_of source key (delivery_registration_closed o j k at ∷ rs) =
      (if j == source && k == key then 1 else 0) + closes_of source key rs
  closes_of source key (_ ∷ rs) = closes_of source key rs

  -- One step adds what it opens and takes away what it closes.
  abbrev Balances : Dict NetPath (List String) → Dict NetPath (List String) → Record D → Type 0
  Balances d d' r =
      (source : NetPath) (key : String)
      → armed_once d source key + opens_of source key (r ∷ [])
        ≡ armed_once d' source key + closes_of source key (r ∷ [])

  advance-armed :
      (x y : Registrations) (r : Record D) → advance_initial_batch x r ≡ ok y → x.armed ≡ y.armed
  unfolding advance_initial_batch
  advance-armed x y (delivery_registration_opened none source key at) h = ground arith
  advance-armed x y (tokens_initialized m) h = ground arith
  advance-armed x y (instance_created i n at) h = ground arith
  advance-armed x y _ h = ground arith

  apply-Balances :
      (x y : Registrations) (i : ℕ) (r : Record D)
      → apply_delivery_registration x i r ≡ ok y
      → Balances x.armed y.armed r
  unfolding apply_delivery_registration opens_of closes_of contains
  apply-Balances x y i (delivery_registration_opened o j k at) h source key =
      elim (Result-cases (check_initial x i o j k at)) [
        | inr (e, raised) ↦ absurd (ground arith)
        | inl (u, fine) ↦ ground (
          arith,
          get-put x.armed j source (keys_of x.armed j ++ k ∷ []),
          contains-append key (keys_of x.armed j) (k ∷ []),
          list_beq_iff j source,
          string_eq.beq_iff k key,
        )
      ]
  apply-Balances x y i (delivery_registration_closed o j k at) h source key = ground (
    arith,
    get-put x.armed j source (filter (λ z. not (z == k)) (keys_of x.armed j)),
    contains-filter key k (keys_of x.armed j),
    list_beq_iff j source,
    string_eq.beq_iff k key,
    string_eq.beq_iff key k,
  )
  apply-Balances x y i _ h source key = let same : x ≡ y = ground arith in rw same refl

  step-Balances :
      (x y : Registrations) (i : ℕ) (r : Record D)
      → registration_step i x r ≡ ok y
      → Balances x.armed y.armed r
  unfolding registration_step
  step-Balances x y i r h = elim (Result-cases (advance_initial_batch x r)) [
    | inr (e, raised) ↦ absurd (ground arith)
    | inl (z, advanced) ↦
        let same : x.armed ≡ z.armed = advance-armed x z r advanced in
        rw same (apply-Balances z y i r (ground arith))
  ]

  opens_of-cons :
      (source : NetPath) (key : String) (r : Record D) (rs : List (Record D))
      → opens_of source key (r ∷ rs) ≡ opens_of source key (r ∷ []) + opens_of source key rs
  unfolding opens_of
  opens_of-cons source key (delivery_registration_opened o j k at) rs = omega arith
  opens_of-cons source key _ rs = omega arith

  closes_of-cons :
      (source : NetPath) (key : String) (r : Record D) (rs : List (Record D))
      → closes_of source key (r ∷ rs) ≡ closes_of source key (r ∷ []) + closes_of source key rs
  unfolding closes_of
  closes_of-cons source key (delivery_registration_closed o j k at) rs = omega arith
  closes_of-cons source key _ rs = omega arith

  fold-Balances :
      (x y : Registrations) (i : ℕ) (history : List (Record D)) (source : NetPath) (key : String)
      → fold_result (registration_step i) x history ≡ ok y
      → armed_once x.armed source key + opens_of source key history
        ≡ armed_once y.armed source key + closes_of source key history
  unfolding fold_result registration_step opens_of closes_of
  fold-Balances x y i [] source key h = let same : x ≡ y = ground arith in rw same refl
  fold-Balances x y i (r ∷ rs) source key h = elim (Result-cases (registration_step i x r)) [
    | inr (e, raised) ↦ absurd (ground arith)
    | inl (z, step) ↦ omega (
      arith,
      step-Balances x z i r step source key,
      fold-Balances z y i rs source key (ground arith),
      opens_of-cons source key r rs,
      closes_of-cons source key r rs,
    )
  ]

  -- After a replay, every key of every source has been opened as often as it has been closed, and
  -- once more where it is armed.
  pub replay_armed-opens_of :
      (history : List (Record D)) (armed : Dict NetPath (List String)) (source : NetPath)
      (key : String)
      → replay_armed history ≡ ok armed
      → opens_of source key history ≡ closes_of source key history + armed_once armed source key
  unfolding replay_armed get contains
  replay_armed-opens_of history armed source key h =
      let start : Registrations = record { armed = []; initial_batch = true; started = false } in
      elim (Result-cases (validate_batches history)) [
        | inr (e, raised) ↦ absurd (ground arith)
        | inl (u, valid) ↦
            elim (Result-cases
              (fold_result (registration_step (first_instant history)) start history)) [
                | inr (e, raised) ↦ absurd (ground arith)
                | inl (y, done) ↦
                    let same : y.armed ≡ armed = ground arith in
                    rw (← same) (
                      omega (
                        arith,
                        fold-Balances start y (first_instant history) history source key done,
                      ))
              ]
      ]
