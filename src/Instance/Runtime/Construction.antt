-- ===== src/Instance/Runtime/Construction.antt =====
-- `_validate_replayed_initialization` and `_validate_construction_batch` of
-- src/petrus/impetus/instance/__init__.py: what a resumed history must start with, against what the
-- constructor writes.
use petrus.Base.{
  ℕ, ◌≡◌, refl, sym, ap, ◌∙◌, inl, inr, String, Bool, true, false, ◌&&◌, not, none, List, [], ◌∷◌,
  ◌++◌, map, arith, Eq, ◌==◌, nat_eq, string_eq, list_eq, option_eq, pair_eq, Result, ok, err,
  ◌>>=◌, ◌>>◌, guard, Bool-cases, get, append-nil, append_assoc, any, all, contains,
  contains-append, is_empty, All, Dict, UniqueKeys, beq_refl, beq_sym, nat_beq_iff, ◌↔◌,
}
use petrus.Petrinet.Token.{Token, NetPath}
use petrus.Petrinet.Net.{Net, in_dict, is_none}
use petrus.Petrinet.Marking.{Marking}
use petrus.History.{
  Movement, Record, instance_created, tokens_initialized, delivery_registration_opened,
}
use petrus.Instance.Runtime.Driving.{
  initial_tokens_valid, check_initial_tokens, source_transitions, initial_batch, initial_records,
  opening_records,
}

-- Replay divergence.
pub data ConstructionError : Type 0 where
  creation_missing registrations_differ initialized_late : ConstructionError
  unknown_place initialized_twice no_tokens other_instant carries_entries other_color
        initialized_after_sources :
      NetPath → ConstructionError

-- A source registration: its source, its key and its instant.
abbrev pub Opening : Type 0
Opening = (NetPath × String) × ℕ

instance abbrev pub opening_eq : Eq Opening
opening_eq = pair_eq

abbrev pub expected_openings : Net → ℕ → List Opening
expected_openings net at = map (λ source. ((source, "default"), at)) (source_transitions net)

module _ {D : Type 0} where
  -- `_validate_replayed_initialization`
  unfoldable pub validate_initialization :
      Net → ℕ → List NetPath → Movement D → Result ConstructionError (Unit {0})
  validate_initialization net at initialized m = do
    guard (in_dict m.place net.places) (unknown_place m.place)
    guard (not (contains m.place initialized)) (initialized_twice m.place)
    guard (not (is_empty m.tokens)) (no_tokens m.place)
    guard (m.instant == at) (other_instant m.place)
    guard (is_empty m.entries && is_none m.scope) (carries_entries m.place)
    guard (initial_tokens_valid net m.place m.tokens) (other_color m.place)

  abbrev pub is_initialization : Record D → Bool
  is_initialization (tokens_initialized m) = true
  is_initialization _ = false

  -- The loop, from the first source registration on.
  unfoldable pub registrations_loop :
      List Opening → List (Record D) → Result ConstructionError (List Opening)
  registrations_loop opened [] = ok opened
  registrations_loop opened (delivery_registration_opened none source key at ∷ rs) =
      registrations_loop (opened ++ ((source, key), at) ∷ []) rs
  registrations_loop opened (tokens_initialized m ∷ rs) = err (initialized_after_sources m.place)
  registrations_loop opened (_ ∷ rs) =
      guard (not (any is_initialization rs)) initialized_late >> ok opened

  -- The loop, before any source registration.
  unfoldable pub construction_loop :
      Net → ℕ → List NetPath → List (Record D) → Result ConstructionError (List Opening)
  construction_loop net at initialized [] = ok []
  construction_loop net at initialized (tokens_initialized m ∷ rs) =
      validate_initialization net at initialized m
      >> construction_loop net at (initialized ++ m.place ∷ []) rs
  construction_loop net at initialized (delivery_registration_opened none source key i ∷ rs) =
      registrations_loop (((source, key), i) ∷ []) rs
  construction_loop net at initialized (_ ∷ rs) =
      guard (not (any is_initialization rs)) initialized_late >> ok []

  -- `_validate_construction_batch`; the identity is the record that starts the history.
  unfoldable pub validate_construction_batch :
      Net → List (Record D) → Result ConstructionError (Unit {0})
  validate_construction_batch net (instance_created i n at ∷ rs) =
      construction_loop net at [] rs >>= λ opened.
      guard (opened == expected_openings net at) registrations_differ
  validate_construction_batch net _ = err creation_missing

openings :
    (D : Type 0) (at : ℕ) (before : List Opening) (sources : List NetPath)
    → registrations_loop before (opening_records {D = D} at sources)
      ≡ ok (before ++ map (λ source. ((source, "default"), at)) sources)
unfolding registrations_loop
openings D at before [] = ap ok (sym (append-nil before))
openings D at before (p ∷ ps) =
    openings D at (before ++ ((p, "default"), at) ∷ []) ps
    ∙ ap ok (append_assoc before (((p, "default"), at) ∷ []) _)

all_openings :
    (D : Type 0) (net : Net) (at : ℕ) (initialized : List NetPath) (sources : List NetPath)
    → construction_loop net at initialized (opening_records {D = D} at sources)
      ≡ ok (map (λ source. ((source, "default"), at)) sources)
unfolding construction_loop
all_openings D net at initialized [] = refl
all_openings D net at initialized (p ∷ ps) = openings D at (((p, "default"), at) ∷ []) ps

-- Whether the loop accepts the records, with the expected openings.
abbrev accepts : Net → ℕ → Result ConstructionError (List Opening) → Bool
accepts net at (ok opened) = opened == expected_openings net at
accepts net at (err x) = false

module _ {D : Type 0} where
  -- Every place of the marking is declared by the net.
  abbrev pub declares : Net → Dict NetPath (List (Token D)) → Bool
  declares net queues = all (λ (x : NetPath × List (Token D)). in_dict x.0 net.places) queues

  -- The places that hold no tokens, or that were initialized before.
  abbrev Fresh : List NetPath → Dict NetPath (List (Token D)) → Type 0
  Fresh initialized queues =
      All
        (λ (x : NetPath × List (Token D)).
          (contains x.0 initialized ≡ false) × (is_empty x.1 ≡ false))
        queues

  later-Fresh :
      (initialized : List NetPath) (p : NetPath) (queues : Dict NetPath (List (Token D)))
      → get queues p ≡ none
      → Fresh initialized queues
      → Fresh (initialized ++ p ∷ []) queues
  unfolding get contains
  later-Fresh initialized p [] absent f = tt
  later-Fresh initialized p ((q, ts) ∷ rest) absent f = (
    (ground (arith, contains-append q initialized (p ∷ []), f.0.0, beq_sym p q), f.0.1),
    later-Fresh initialized p rest (ground arith) f.1,
  )

  -- The initialization of a place that the constructor has checked.
  validated :
      (net : Net) (at : ℕ) (initialized : List NetPath) (m : Movement D)
      → contains m.place initialized ≡ false
      → is_empty m.tokens ≡ false
      → m.instant ≡ at
      → (is_empty m.entries && is_none m.scope) ≡ true
      → initial_tokens_valid net m.place m.tokens ≡ true
      → validate_initialization net at initialized m
        ≡ guard (in_dict m.place net.places) (unknown_place m.place)
  unfolding validate_initialization
  validated net at initialized m new some_token now bare colored =
      ground (arith, nat_beq_iff m.instant at)

  loop_declares :
      (net : Net) (at : ℕ) (initialized : List NetPath) (queues : Dict NetPath (List (Token D)))
      → UniqueKeys queues
      → Fresh initialized queues
      → check_initial_tokens {D = D} net queues ≡ ok tt
      → accepts net at (
          construction_loop net at initialized
            (initial_records at queues ++ opening_records at (source_transitions net)))
        ≡ declares net queues
  unfolding construction_loop check_initial_tokens all registrations_loop
  loop_declares net at initialized [] u f h =
      rw (all_openings D net at initialized (source_transitions net))
        (beq_refl (expected_openings net at))
  loop_declares net at initialized ((p, ts) ∷ rest) u f h =
      let m : Movement D = record {
        place = p;
        tokens = ts;
        entries = [];
        scope = none;
        instant = at;
      } in
      let v = validated net at initialized m f.0.0 f.0.1 refl refl (ground arith) in
      let tail =
        loop_declares net at (initialized ++ p ∷ []) rest u.1
          (later-Fresh initialized p rest u.0 f.1) (ground arith) in
      elim (Bool-cases (in_dict p net.places)) [
        | inl declared ↦ rw (v, declared) tail
        | inr foreign ↦ rw (v, foreign) refl
      ]

  start-Fresh :
      (queues : Dict NetPath (List (Token D)))
      → All (λ (x : NetPath × List (Token D)). is_empty x.1 ≡ false) queues
      → Fresh [] queues
  unfolding contains
  start-Fresh [] h = tt
  start-Fresh (x ∷ rest) h = ((refl, h.0), start-Fresh rest h.1)

  -- The batch that the constructor writes, for a marking whose places are distinct and not empty and
  -- whose tokens it accepts, passes the check that a resume makes of it exactly when the net declares
  -- every place of the marking.
  pub validate_construction_batch-initial_batch :
      (net : Net) (m : Marking D) (at : ℕ) (identity : String)
      → UniqueKeys m.queues
      → All (λ (x : NetPath × List (Token D)). is_empty x.1 ≡ false) m.queues
      → check_initial_tokens {D = D} net m.queues ≡ ok tt
      → (validate_construction_batch net (initial_batch net m at identity) ≡ ok tt)
        ↔ (declares net m.queues ≡ true)
  unfolding validate_construction_batch initial_batch
  validate_construction_batch-initial_batch net m at identity u some_tokens colored =
      let loop =
        construction_loop net at []
          (initial_records at m.queues ++ opening_records at (source_transitions net)) in
      let decided = loop_declares net at [] m.queues u (start-Fresh m.queues some_tokens) colored in
      (
        λ accepted. sym decided ∙ was_accepted net at loop accepted,
        λ declared. is_accepted net at loop (decided ∙ declared),
      )
    where
      was_accepted :
          (net : Net) (at : ℕ) (r : Result ConstructionError (List Opening))
          → (r >>= λ opened. guard (opened == expected_openings net at) registrations_differ)
            ≡ ok tt
          → accepts net at r ≡ true
      was_accepted net at (ok opened) h = ground arith
      was_accepted net at (err x) h = cc

      is_accepted :
          (net : Net) (at : ℕ) (r : Result ConstructionError (List Opening))
          → accepts net at r ≡ true
          → (r >>= λ opened. guard (opened == expected_openings net at) registrations_differ)
            ≡ ok tt
      is_accepted net at (ok opened) h = ground arith
      is_accepted net at (err x) h = cc
