-- ===== src/Lib.antt =====
-- The harness of "wasted": the Python program (harness/wasted_harness) that watches a game through
-- a bridge, decides what its protagonist does, and records the show in a database.
--
-- Which file models which part:
--   Base, Base/Tests, Base/Lists, Base/Sort, Base/Rounding: Boolean tests, lists, a stable sort by
--     a key, and `round`
--   Budget/Pricing, Budget/Governor: ModelPricing, Pricing, cost_usd, cost_of_usage and BudgetGovernor of
--     harness/wasted_harness/budget.py. `record` is record_spend, the property `level` read_level.
--   Events/Entry: _coalesce_stats, _runs and _drop_stale_predictions of harness/wasted_harness/events.py
--   Events/Writer: SupabaseWriter._write_entries; Events/Queue: the queue file (_enqueue and
--     _trim_queue_if_oversized); Events/State: the buffer operations, flush and _flush_once
--   Activities/Picker, Activities/Runner: ActivityPicker and ActivityRunner of
--     harness/wasted_harness/behavior/activities.py
--   Tasks: the task types of harness/wasted_harness/bridge_client.py, actions and positions
--   Navigation: navigate_to of harness/wasted_harness/behavior/navigation.py
--   Planner/State, Planner/Blocks, Planner/Trip, Planner/Update: DayPlanner of
--     harness/wasted_harness/behavior/planner.py, method by method
--   Predictions/Window, Predictions/BaseRate: Window and MeasuredRate of
--     harness/wasted_harness/predictions/catalog.py, and RollingBaseRate of
--     harness/wasted_harness/predictions/baserate.py
--   Predictions/Generator/Config, /Choice, /Ask: PredictionGenerator of
--     harness/wasted_harness/predictions/generator.py, whose `generate` is generate with its tests,
--     ranks and row; Predictions/Ticker: PredictionTicker of harness/wasted_harness/predictions/ticker.py
--   Wheel/Owner, Wheel/Arbiter: MOVEMENT_OWNER_TABLE and MovementWheel of
--     harness/wasted_harness/behavior/vehicle.py, with the movement gate of _execute_action (post) and
--     the opening of a tick (open_tick) of harness/wasted_harness/main.py
--   Operator/Queue: OperatorQueue and Directive of harness/wasted_harness/operator.py;
--     Operator/Apply: blocking_reason there, and _reflex_act, _apply_operator,
--     _apply_one_operator_directive and _operator_choice of harness/wasted_harness/main.py
--   Recovery/Bridge, Recovery/Backoff, Recovery/Times, Recovery/Cleared, Recovery/Stall,
--     Recovery/Idle: BridgeDownTracker, GameRestartDetector, ApiBackoff, ClearedByGameBackoff,
--     TaskStallDetector (its feed), StrandedEscalator and IdleBreaker of harness/wasted_harness/behavior/recovery.py
--   Totals/Seed, Totals/Lifetime: summarise_lifetime_seed and LifetimeTotals of
--     harness/wasted_harness/totals.py, with the decimals that the file keeps; the file is what can be
--     read back from it. The published hours are those of _heartbeat of harness/wasted_harness/main.py
-- The other files of a directory hold what is proved of these, and each Tests file runs them on
-- concrete data.
--
-- How the parts interact: the main loop feeds every snapshot of the bridge to the planner and to the
-- activity runner, posts the action that one of them returns and binds the id that the bridge answers
-- to the one that asked; every event that they return goes through the writer, and from there to the
-- base rate; the cost of every call of a model goes to the governor, whose ledger
-- the totals keep over a restart. Whatever moves him asks the wheel first: the operator's directives,
-- which an HTTP thread queues and the loop drains once a tick, are applied through it. The generator
-- takes its rates from the base rate.
--
-- Conventions: a method is a function from the state to the state and its answer. What the program
-- reads from outside (the clock, random draws, whether a file could be written, the server's answers)
-- is an argument. A method that reads the clock more than once takes each reading; the exceptions, which
-- take one, are a tick of the planner with all that it calls, a look of the idle breaker, and the runs
-- of predictions of one flush. Moments are in milliseconds, money in pico-dollars, lengths in
-- centimetres and weights in fractions that are written where they are used. The rounding of
-- floating-point arithmetic is not modelled. A `round` that a modelled method applies to what it stores,
-- publishes or records is modelled; log lines are not.
-- Names, ids and texts that are only compared are numbers. An exception is `none`. Locks are not
-- modelled: a method is one step, as the lock makes it.
--
-- Loops are recursions on the list that they run over, but for two. The chunks of a run are sent on
-- fuel that is the number of rows, of which each round takes one at least. The base rate walks back
-- from now on fuel that is more than the reading of the clock, and each round goes back by one
-- millisecond at least; that this fuel is enough is part of what is stated of it.
--
-- Not modelled: the commentary, the mission follower, the roam engine, the survival ladder and the
-- reflexes of a driver; the sentences that the notes compose and the operator's
-- status document; the calls of the model service, the bridge's HTTP client, screen, pad, overlay
-- and streaming, and the main loop but for the functions named above, which are I/O; the game's side
-- in C#, the site and the database.
pub mod Activities
pub mod Base
pub mod Budget
pub mod Events
pub mod Navigation
pub mod Operator
pub mod Planner
pub mod Predictions
pub mod Recovery
pub mod Tasks
pub mod Totals
pub mod Wheel
