-- ===== src/Tests/Runtimes.antt =====
-- The theorems on the running instance, at an instance of the net of one transition.
use petrus.Base.{
  ℕ, ◌≡◌, ◌↔◌, refl, String, Bool, true, false, Option, none, some, List, [], ◌∷◌, ◌++◌, Eq,
  beq_dec, discrete_eq, beq_refl, nat_eq, string_eq, option_eq, if◌then◌else◌, Result, ok, err, All,
  UniqueKeys, ◌==◌, all,
}
use petrus.Petrinet.Token.{Token, NetPath, LifecycleScope}
use petrus.Petrinet.Schema.{Arc}
use petrus.Petrinet.Net.{Net}
use petrus.History.{
  Record, ScopeReference, exact, instance_created, scope_opened, scope_closed,
  scoped_delivery_quarantined,
}
use petrus.History.Clock.{replay_watermark}
use petrus.Instance.Firing.{FiringOutcome, FiringOccurrence}
use petrus.Instance.Lifecycle.{completed, failed}
use petrus.Instance.Runtime.{
  activity, Instance, Handlers, Handler, projection, RuntimeError, conflicting_terminal,
}
use petrus.Instance.Runtime.Scopes.{open_scope, close_scope, ScopeClosure}
use petrus.Instance.Runtime.Scopes.Mirror.{Mirrors, opening, closing, ScopeStep-Mirrors}
use petrus.Instance.Runtime.Activities.{record_terminal, answers, accepted, acknowledged}
use petrus.Instance.Runtime.Delivering.{Acknowledgement, quarantined, accept_delivery}
use petrus.Instance.Runtime.Driving.{construct, initial_batch, check_initial_tokens}
use petrus.Instance.Runtime.Clock.Reached.{here, later, scoping, Run-replay_watermark}
use petrus.Instance.Runtime.Completing.{commit_completion}
use petrus.Instance.Runtime.Repeats.Reports.{completing, record_terminal_repeated}
use petrus.Instance.Runtime.Repeats.Deliveries.{accept_delivery_repeated}
use petrus.Instance.Runtime.Construction.{
  validate_construction_batch, declares, validate_construction_batch-initial_batch,
}
use petrus.Tests.{
  black, one_one, start, first_place, second_place, step, small_net, moves, no_implementations,
}

instance occurrence_eq : Eq (FiringOccurrence ℕ)
occurrence_eq =
    let string_discrete : Discrete String = beq_dec in
    let nat_discrete : Discrete ℕ = beq_dec in discrete_eq (hlevel (string_discrete, nat_discrete))

-- A handler that moves nothing, with payloads that are their own canonical form.
abbrev handlers : Handlers ℕ
handlers = record {
  bound_handler =
      λ p. projection (λ b arcs. some (record { tokens = []; closes = []; opens = [] }));
  canonical_payload = some;
  is_canonical = λ x. true;
  payload_text = λ x. "";
  failure_text = λ x. "";
  failure_error = λ x. "failed";
  terminal_outcome = λ x. 0;
}

abbrev entry : ℕ → ℕ → petrus.Petrinet.Queue.Entry ℕ ℕ
entry n i = record { token = black n; instant = 5; identity = some i; scope = none }

abbrev fresh : Instance ℕ
fresh = record {
  net = small_net;
  history = initial_batch small_net start 5 "order-1";
  watermark = 5;
  queues = (first_place, entry 1 1 ∷ entry 2 2 ∷ []) ∷ [];
  armed = [];
  next_occurrence = 1;
  next_entry = 3;
  in_flight = [];
  activity_occurrences = [];
  cancelled = [];
  frozen_results = [];
  terminal_activity = [];
  quarantined_activity = [];
  accepted_identities = [];
  active_scopes = [];
  scope_generations = [];
}

fresh-constructed : construct handlers small_net start 5 "order-1" ≡ ok fresh
unfolding construct check_initial_tokens petrus.Instance.Runtime.Driving.initial_tokens_valid
    petrus.Base.get petrus.Base.list_beq petrus.Instance.Runtime.writer_records all initial_batch
    petrus.Instance.Runtime.is_writable petrus.Instance.Runtime.Driving.source_transitions
    petrus.Petrinet.Path.sorted petrus.Base.filter petrus.Petrinet.Net.is_source
    petrus.Instance.Runtime.Beginning.apply_all petrus.Base.fold_result
    petrus.History.Queues.apply_movement petrus.History.Queues.apply_deposit
    petrus.History.Queues.deposit_with petrus.Base.put petrus.Base.any petrus.Base.contains
    petrus.History.Queues.all_ids petrus.History.Queues.apply_consume
    petrus.History.Queues.apply_scope_cleanup petrus.History.Queues.cleanup_loop
    petrus.History.Queues.deposit_entries petrus.History.Queues.known_ids
    petrus.History.Queues.next_queue_identity petrus.History.Queues.range_from
    petrus.Petrinet.Path.dotted petrus.Petrinet.Path.insert_sorted petrus.Petrinet.Path.text_leb
    petrus.Petrinet.Queue.delete_first petrus.Petrinet.Queue.deposit petrus.Petrinet.Queue.discard
    petrus.Petrinet.Queue.remove petrus.Petrinet.Queue.remove_loop petrus.Petrinet.Token.scope_beq
    petrus.Petrinet.Token.token_beq petrus.History.validate_entries petrus.History.is_unique
fresh-constructed = refl

abbrev cart : LifecycleScope
cart = record { name = "cart"; generation = 1 }

abbrev scoped : Instance ℕ
scoped = record fresh {
  history = fresh.history ++ scope_opened cart 7 ∷ [];
  watermark = 7;
  active_scopes = ("cart", cart) ∷ [];
  scope_generations = ("cart", 1) ∷ [];
}

fresh-opens : open_scope handlers fresh "cart" (some 7) ≡ ok (scoped, cart)
unfolding open_scope petrus.Base.get petrus.Instance.Runtime.writer_records all
    petrus.Instance.Runtime.is_writable petrus.Base.put
fresh-opens = refl

-- The close comes with an instant before the watermark, which stands.
abbrev unscoped_again : Instance ℕ
unscoped_again = record scoped {
  history = scoped.history ++ scope_closed cart [] [] 7 ∷ [];
  active_scopes = [];
}

abbrev nothing_closed : ScopeClosure
nothing_closed = record { scope = cart; discarded = []; cancelled = [] }

scoped-closes : close_scope handlers scoped cart (some 6) ≡ ok (unscoped_again, nothing_closed)
unfolding close_scope petrus.Instance.Runtime.Scopes.scope_closure petrus.Base.get
    petrus.Petrinet.Token.scope_beq petrus.Base.filter
    petrus.Instance.Runtime.Scopes.projection_pending petrus.Instance.Runtime.writer_records all
    petrus.Instance.Runtime.is_writable petrus.Instance.Runtime.Scopes.scope_entries
    petrus.Base.flat_map petrus.History.Queues.known_ids
    petrus.Instance.Runtime.Scopes.apply_scope_terminal petrus.History.Queues.apply_movement
    petrus.History.Queues.apply_scope_cleanup petrus.History.Queues.cleanup_loop
    petrus.Petrinet.Queue.discard petrus.Base.contains petrus.Base.pop petrus.Base.put
    petrus.Base.list_beq petrus.Base.any petrus.History.Queues.all_ids
    petrus.History.Queues.apply_consume petrus.History.Queues.apply_deposit
    petrus.History.Queues.deposit_entries petrus.History.Queues.deposit_with
    petrus.History.Queues.next_queue_identity petrus.History.Queues.range_from
    petrus.Instance.Runtime.Scopes.cancel_all petrus.Petrinet.Queue.delete_first
    petrus.Petrinet.Queue.deposit petrus.Petrinet.Queue.remove petrus.Petrinet.Queue.remove_loop
    petrus.Petrinet.Token.token_beq petrus.History.is_unique
scoped-closes = refl

Run-replay_watermark_example :
    (replay_watermark unscoped_again.history ≡ ok 7)
    × ((batch : List (Record ℕ)) × (unscoped_again.history
          ≡ initial_batch small_net start 5 "order-1" ++ batch))
Run-replay_watermark_example =
    Run-replay_watermark handlers no_implementations small_net start 5 "order-1" fresh
      unscoped_again fresh-constructed
      (later (later here (scoping (opening "cart" (some 7) cart fresh-opens)))
        (scoping (closing cart (some 6) nothing_closed scoped-closes)))

fresh-Mirrors : Mirrors fresh.history fresh
unfolding initial_batch petrus.History.Scopes.replay_scopes petrus.Base.fold_result
    petrus.History.Scopes.scope_step petrus.History.Scopes.require_active
    petrus.Instance.Runtime.Driving.source_transitions petrus.Petrinet.Path.sorted
    petrus.Base.filter petrus.Petrinet.Net.is_source petrus.Base.get petrus.Base.list_beq
fresh-Mirrors = record {
  scopes = record { active = []; generations = [] };
  replayed = refl;
  active = λ n. refl;
  generations = λ n. refl;
}

ScopeStep-Mirrors_example : Mirrors scoped.history scoped
ScopeStep-Mirrors_example =
    ScopeStep-Mirrors handlers fresh scoped (opening "cart" (some 7) cart fresh-opens) fresh-Mirrors

-- An activity in flight, and its first report.
abbrev working : FiringOccurrence ℕ
working = record {
  id = 1;
  binding = moves 1;
  records = [];
  invocation =
      some
        (record { activity = "pack"; input = 0; policy = 0; correlation = "a"; idempotency = "b" });
  scope = none;
}

abbrev busy : Instance ℕ
busy = record fresh { in_flight = (1, working) ∷ []; next_occurrence = 2 }

abbrev reported : Instance ℕ
reported = record busy {
  history = busy.history ++ petrus.History.activity_completed 1 step 4 6 ∷ [];
  watermark = 6;
  frozen_results = (1, completed 4) ∷ [];
}

-- A handler of activities that moves nothing.
abbrev packers : Handlers ℕ
packers = record handlers {
  bound_handler = λ p. activity (record {
    prepare = λ b. none;
    project = λ b x. some (record { tokens = []; closes = []; opens = [] });
    project_failure = none;
  });
}

busy-reports :
    record_terminal packers busy working (ok (completed 4)) (some 6) ≡ ok (reported, accepted)
unfolding record_terminal petrus.Instance.Runtime.ensure_in_flight petrus.Base.get initial_batch
    petrus.Instance.Runtime.writer_records all petrus.Instance.Runtime.is_writable petrus.Base.put
busy-reports = rw (beq_refl (some working)) refl

abbrev packed : FiringOutcome ℕ
packed = record {
  transition = step;
  occurrence = 1;
  consumed = one_one;
  produced = [];
  records = petrus.History.firing_completed 1 step 7 ∷ [];
}

-- The state after the completion of the activity's occurrence.
abbrev ended : Instance ℕ
ended = record reported {
  history = reported.history ++ petrus.History.firing_completed 1 step 7 ∷ [];
  watermark = 7;
  in_flight = [];
  frozen_results = [];
  terminal_activity = (1, completed 4) ∷ [];
}

reported-completes : commit_completion packers reported working none (some 7) ≡ ok (ended, packed)
unfolding commit_completion petrus.Instance.Runtime.ensure_in_flight petrus.Base.get
    petrus.Instance.Runtime.Completing.projected_result
    petrus.Instance.Runtime.Completing.armed_after petrus.Instance.Runtime.Completing.check_effects
    petrus.Instance.Runtime.Completing.apply_closes petrus.Instance.Runtime.Completing.apply_opens
    petrus.Instance.Runtime.writer_records all petrus.Instance.Runtime.Completing.produced_movements
    petrus.Petrinet.Firing.complete_firing petrus.Petrinet.Firing.produce
    petrus.Petrinet.Firing.coalesce petrus.Instance.Runtime.is_writable
    petrus.Instance.Runtime.Completing.apply_produced petrus.Base.pop petrus.Base.put
    petrus.Base.flat_map
reported-completes = rw (beq_refl (some working)) refl

record_terminal_repeated_example : record_terminal packers ended working (ok (failed 4)) none ≡ (
    if answers packers (completed 4) (failed 4)
    then ok (ended, acknowledged)
    else err (conflicting_terminal 1))
record_terminal_repeated_example =
    record_terminal_repeated packers busy reported ended working (completed 4) (failed 4) (some 6)
      none busy-reports (completing none (some 7) packed reported-completes)

-- A net with a source, to which a delivery names a generation that was never opened.
abbrev source_arc : Arc
source_arc = petrus.Tests.output_arc

abbrev source_net : Net
source_net = record small_net { input_index = []; arcs = source_arc ∷ [] }

abbrev listening : Instance ℕ
listening = record fresh { net = source_net; armed = (step, "default" ∷ []) ∷ [] }

abbrev early : Record ℕ
early = scoped_delivery_quarantined (record {
  source = step;
  tokens = one_one;
  identity = "evt-1";
  scope = exact cart;
  instant = 6;
})

abbrev held : Instance ℕ
held = record listening {
  history = listening.history ++ early ∷ [];
  watermark = 6;
  accepted_identities = ("evt-1", early) ∷ [];
}

listening-holds :
    accept_delivery handlers listening step one_one "evt-1" (some (exact cart)) (some 6)
    ≡ ok (held, quarantined "evt-1" (exact cart))
unfolding accept_delivery petrus.Instance.Runtime.Delivering.canonical_tokens petrus.Base.get
    petrus.Instance.Runtime.Delivering.accept_new petrus.Base.list_beq petrus.Petrinet.Net.is_source
    petrus.Instance.Runtime.Delivering.disposition petrus.Instance.Runtime.writer_records all
    petrus.Instance.Runtime.is_writable petrus.Base.put
listening-holds = refl

accept_delivery_repeated_example :
    accept_delivery handlers held step one_one "evt-1" (some (exact cart)) (some 9)
    ≡ ok (held, quarantined "evt-1" (exact cart))
accept_delivery_repeated_example =
    accept_delivery_repeated handlers listening held step one_one "evt-1" (some (exact cart))
      (some 6) (some 9) (quarantined "evt-1" (exact cart)) listening-holds

start-checks : check_initial_tokens {D = ℕ} small_net start.queues ≡ ok tt
unfolding check_initial_tokens petrus.Instance.Runtime.Driving.initial_tokens_valid petrus.Base.get
    petrus.Base.list_beq
start-checks = refl

validate_construction_batch-initial_batch_example :
    (validate_construction_batch {D = ℕ} small_net (initial_batch small_net start 5 "order-1")
      ≡ ok tt)
    ↔ (declares {D = ℕ} small_net start.queues ≡ true)
unfolding petrus.Base.get
validate_construction_batch-initial_batch_example =
    validate_construction_batch-initial_batch small_net start 5 "order-1" (refl, tt) (refl, tt)
      start-checks
