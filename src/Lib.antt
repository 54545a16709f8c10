-- ===== src/Lib.antt =====
-- The deterministic parts of the Trading_AI_Pipeline repository: the Python code that decides,
-- without a language model, what is stored, sent and woken up.
--
-- Output: the durable outbox of the Session 5 renderers (output/project_a). Output/Stamp models
-- the datetimes and `utc_z` of output/project_a/models.py; Output/Rows the tables of MIGRATION_SQL
-- in output/project_a/store.py and the value types of models.py; Output/Outbox one file per
-- transaction of `OutboxStore`: Create (create_thesis_and_deliveries and the queries), Claim,
-- Finish, Recover (recover_abandoned), Admin (manual_reset, resolve_uncertain, record_operation),
-- Outcome (append_outcome). Output/Outbox/RowStep is the abstract machine of one delivery,
-- Output/Outbox/Refines relates the transactions to it, and Output/Outbox/Store is the store as a
-- transition system whose steps are the transactions that commit; Output/Outbox/Store/Held, with
-- Kept, is about its runs in which no step gives one claimed delivery back. Output/Dispatcher is
-- `Dispatcher.dispatch` of output/project_a/dispatcher.py, over the outbox, and
-- Output/Dispatcher/Operator holds dispatch_setup and reconcile_uncertain.
--
-- In the outbox a transaction is a function from the tables to a result and the tables, or an
-- error; an error rolls back. A table is a list of rows, newest first, and a query finds a row by
-- its key; ORDER BY is modelled where it decides (the latest outcome), and elsewhere rows stand in
-- the order of the table. A time is a number of seconds since year 1 and a number of microseconds;
-- the text that the tables hold keeps its first 19 characters as the number of seconds, which
-- orders the same way as those characters. A date out of the range of datetime is OverflowError.
-- Documents are canonical JSON text. SHA-256 is a parameter of the model (Digest), and so are the
-- renderers. A broken primary or unique key is sqlite3.IntegrityError. Canonical JSON and the
-- parser of ISO texts are a parameter of the outcome history (Library), whose numbers are whole.
-- Left out are the columns `shadow` and `dry_run`, which a CHECK holds at 1, the migration of the
-- schema, and the status sync of Notion.
--
-- Gates: the gates of gates/, one file each. Prices, moves and indicator values are whole numbers
-- of a common unit in place of floats, upper and lower case are those of ASCII, and texts that
-- only explain a verdict (reason, display, colour) are left out.
--
-- Ingest: the wake decision of ingest/trigger.py. Ingest/Trigger holds the alerts and the windows,
-- Ingest/Trigger/Mrf the rule of the mean-reversion fade, and Ingest/Trigger/Wake the other rules,
-- the cooldown and `should_wake`. JSON objects are records of the keys that the rules read, and a
-- timestamp is the microseconds that it was parsed to, or none; every `datetime.now` of one
-- decision is the same instant, and a reason is a constructor in place of a text.
--
-- Ingest/Service is ProjectAIngestService of ingest/project_a/service.py over the tables of
-- ingest/project_a/database.py, for events of version 0.2. Lifecycle is the transition table of
-- ingest/project_a/state.py, Rows the tables, the events and the results, Validate the checks of a
-- document, Commit _commit_validated, with its INSERT statements, _processing and _dead_letter in
-- Commit/Writes, Receive `receive`, and Outbox the calls of the worker that hands setups on. Step
-- is the service as a transition system, whose steps are these calls; Frames walks once through
-- every write, for any relation on the tables that the writes respect, and Setups, History,
-- Redelivery, Settled and Retries use it. Deliveries, and Gates with Dispatch, are about single
-- calls, and Handover and Retries are about a row of the outbox from its claims on.
--
-- A call of the service that raises outside its own handlers is `none`, which rolls the
-- transaction back; the first transaction of `receive`, which stores the raw bytes, stays. The
-- exceptions of the libraries that `receive` does not handle are values of the model: `raising`
-- for json.loads and for the validation of the contract, `recordable` for ids that cannot be
-- encoded, and `renders` for the canonical JSON of an event and of its evidence; the document of
-- an outbox row, which holds parts of an event that renders, is taken to render too. Reading the
-- bytes, JSON and the schema of the contract are a parameter (Reader), and so are SHA-256 (Hashes)
-- and the ids from uuid4 (Ids). Numbers of a payload and of the settings are whole numbers of a
-- common unit; `occurred_at` is its text, which orders the events of a setup, with the time that
-- the text is parsed to, which the checks of the clock read. Left out are texts that only explain
-- a rejection (detail), the source metadata, the column schema_version, `receive_v1` with its
-- tables, health, metrics and replay.
--
-- ProjectA: the compiler of project_a/make_sense.py, in ProjectA/MakeSense. Values that the
-- compiler only compares with constants are these constants or another value; the facts that are
-- copied into the request, and the digests, are left out.
--
-- ProjectA/Numeric is NumericMarketState of project_a/numeric_state.py: Events holds
-- CanonicalEvent and the parts of the state, Distance liquidity_distance, View what `_rebuild`
-- computes, Select the choice of the level to track, Fold one round of the loop and `_rebuild`,
-- and Ingest `ingest`, save_history and load_history. Queries holds expansion_before and
-- tracked_level. Rollback, Replay (with Reached, Order, Histories and Scanners), Arrival, Newest,
-- Zones and Tracking (with Keys) are about them. Decimals are whole numbers of a common unit;
-- _divide_decimal and the rounding of the context of decimal, to 28 digits, are a parameter
-- (Decimals). base64 is a parameter (Codec). parse_numeric_event is not modelled: it is any
-- function from a payload to an event or an exception (Parser), and an event is given as it
-- returns it, with the payload that it keeps. A time is its _time_key; the symbol, feed, time
-- frame and bar time of an expansion event are one text, and its five quality facts another.
-- Histories stand newest first, and the dictionary of events is a list with one event for a
-- producer key, whose hash canonical_event_id is. Left out: the pairing of scanner events with
-- expansions, RenkoState, which is computed from the stages and the last Renko event that the view
-- holds, the observations by family, and the snapshot.
--
-- Analyze: the swing pivots of analyze/swing_pivots.py (Analyze/Pivots) and the zigzag and
-- classification of analyze/structure_state.py (Analyze/Structure), with prices as whole numbers
-- and the threshold as an argument. Publish/Dedupe is `should_push` of publish/dedupe.py, and
-- Precheck/Prefilter is `decide` of precheck/prefilter.py.
--
-- Stories: the analysis store of project_a_analysis/store.py under the keys of
-- project_a_analysis/schema.py. Stories/Rows holds the tables and the transactions, Stories/Tables
-- the INSERT statements with the keys that they must keep, Stories/Audit the hash chain, whose
-- documents are kept with their keys sorted, as canonical_json writes them, Stories/Memory what is
-- remembered of a story, Stories/Enqueue enqueue_analysis_trigger, Stories/Capture the leases of
-- the capture (pending_capture_jobs, claim_capture_job, capture_failure, record_capture),
-- Stories/Work claim_next, load_job_bundle, begin_provider_attempt and technical_failure, and
-- Stories/Complete complete, close_story and heartbeat. Stories/Step is the store as a transition
-- system over these calls; Stories/Frames shows once, for any relation that every write respects
-- under its guard, that it holds between the ends of every run, and Stories/Chain, History,
-- Closing and Numbering use it. Stories/Claims, Leases, Failures and Finishing are about single
-- calls.
--
-- In the analysis store `utc_z` keeps whole milliseconds at a fixed width, so a rendered time is a
-- number of milliseconds. SHA-256 over canonical JSON is a parameter (Hashes), and so are the JSON
-- schema of a Grade with the renderings of a big picture (GradeLibrary) and the two checks of
-- captured evidence (Checks: CapturedEvidence.validate, which reads image files, and
-- _validate_capture_results). A lease token is an argument, since it comes from os.urandom; a
-- confidence is counted in ten-thousandths; the columns that a CHECK holds at one value, the
-- process id and the raw response hash are left out.
--
-- There is no loop on fuel: every loop of the source that is modelled runs over a list, and is
-- structural recursion.
pub mod Analyze
pub mod Base
pub mod Gates
pub mod Ingest
pub mod Output
pub mod Precheck
pub mod ProjectA
pub mod Publish
pub mod Stories
