-- ===== src/Lib.antt =====
-- The net kernel of Petrus, the history that it is replayed from, and the instance that runs it.
--
-- Petrus runs processes as colored Petri nets. A net is declared and validated once
-- (src/petrus/impetus/petrinet/schema.py). A marking holds a queue of tokens at each place
-- (petrinet/marking.py). Enabledness (petrinet/enabledness.py) surveys a marking for the bindings
-- that can fire, a selection policy (selection/__init__.py) proposes one of them, and the firing
-- (petrinet/firing.py, instance/firing.py) consumes, and later deposits, its tokens. Whatever
-- happens is appended to the history (history/__init__.py), from which marking, clock, identities,
-- scopes and registrations are replayed. All paths here are below src/petrus/impetus.
--
-- - Base: the Boolean tests, equality, lists, dicts in insertion order, integers and the results of
--   calls that may raise, which the other modules share.
-- - Petrinet/Token, Queue, Marking: `Token`, `TokenQueue`, `Marking`; LifecycleScope of scope.py.
--   Queue/Removal and Queue/Scan prove what removal and the scan of a queue do, Marking/Laws what
--   that means for a marking.
-- - Petrinet/Schema, Net, Path: the declarations with their validation, and `Net.__init__` as `build`.
-- - Petrinet/Enabledness: `offer`, `admitted`, `guards_hold`; Enabledness/Survey: `_survey`,
--   `candidates`, `next_maturation`, `maturation`, `selection`. Selecting, Offers, Gathering,
--   Choosing, Fits, Timing and Sound follow a binding from the scan of a queue to the candidate list.
-- - Petrinet/Firing: `begin_firing`, `complete_firing`, `route`; Begin, Complete and Route prove them,
--   and Spelled does for destinations as a handler spells them. Path/Spelling: `NetPath` undoes `str`.
-- - History: the records; History/Queues: `apply_movement`, the fold of the queues and its
--   projections; Clock, Identity, Scopes, Registrations, Cancellation: the other replays.
-- - Instance/Firing: `begin_firing` and `complete_firing` of instance/firing.py with the records of
--   their batches; Replay, Completion and Restored relate them to the
--   replay of those records.
-- - Instance/Lifecycle: `_sorted_lifecycle` of instance/firing.py, its cases one function each;
--   Lifecycle/Replays: the projections that rebuild occurrences from its buckets. Steps inverts the
--   cases; Buckets, Coherent, Keys and Flight prove what the buckets and the occurrences are.
--   Beginnings and Endings follow a begin batch and an end batch through the fold, Resume and Retire
--   through the rebuilding.
-- - Instance/Activity: `replay_terminal_activity`, `replay_quarantined_activity`, `replay_cancelled`.
-- - Instance/Runtime: the class `Instance` of instance/__init__.py, an operation taking the state and
--   giving the next one. Scopes: `open_scope`, `close_scope`, `reset_scope`; Beginning: `begin` and
--   `_begin_occurrence`; Activities: the reports of activities; Completing: `_commit_completion`,
--   `_armed_after`, `fail`; Delivering: `accept_delivery`, `seal`; Driving: `__init__`, the status,
--   `wake`, `_execute`, `step`; Construction: `_validate_construction_batch`. Scopes/Mirror, Clock and
--   Repeats prove them.
-- - Selection: the policies `First`, `Priority`, `RoundRobin`, `SelectionPipeline`, `fold_history`.
-- - Tests: each theorem at a concrete input.
--
-- The data of a token is a type of its own with an equality, as the kernel only compares it; what
-- replay does not inspect of an activity is carried as data of that type too. Instants and durations
-- are natural numbers, as logical epochs are. A call that may raise gives a `Result`, whose errors
-- name the messages of the source. Implementations of guards and filters are arguments; they give
-- `none` where they raise. That each declared one is there is checked by the runtime before an
-- instance runs, so the lookup error is not modelled; nor are warnings. A dict is an association list
-- in insertion order, a set of keys a list. Type tests on arguments are the types of the model. Every
-- loop is a structural recursion; the search of the round robin counts the turns that are left, one
-- for each transition of its ring, and ends as the source does when they run out.
--
-- An instance's store is the list of its records, to which every append commits; an operation that
-- raises gives an error and no state, except `fail`, `_execute` and `step`, which give the state they
-- leave. A handler's result names its destinations by their addresses; `complete_projected` is the
-- kernel's own conversion of them.
-- The bound handlers and the JSON forms of payloads are arguments. The decimal digits of an occurrence
-- identity are found on fuel, one more than the number, which has fewer digits than that.
--
-- Not modelled: `resume` with its validations of replayed occurrences,
-- `complete_delivery`, `run`, refusals by the store, telemetry, the binding layer, codecs and stores of
-- the history, the authoring DSL and documents, and everything outside impetus (engine, fabric,
-- processes, motus, agenticus), most of which is input and output.
pub mod Base
pub mod Petrinet
pub mod History
pub mod Instance
pub mod Selection
pub mod Tests
