-- ===== src/Lib.antt =====
-- HuntLoop looks for job listings at a list of employers, filters and scores them, and keeps them
-- in a tracker; a feedback loop proposes changes of the criteria. This library models the parts of
-- its Python code that decide what is stored, and proves what they keep to.
--
-- How the parts interact. A run of discovery is a row of the table runs. A thread creates it
-- (graph/build.py), keeps a lease for it alive, and finishes it (graph/nodes.py); the API starts
-- and stops runs (api/routers/runs.py), the scheduler starts them (scheduler/jobs.py), and both
-- first sweep up runs whose process has died or whose stop is overdue (db/run_liveness.py). All
-- write through db/repository.py, and all can do so at any time. Inside a run each employer's
-- listings go through the filters, a cheap and an expensive model call under a spend cap, and the
-- aggregation (scoring/), and are written to jobs (discovery/write.py).
--
-- Files, with the code that each models (paths below src/huntloop):
-- Base and Base/*: shared names, lists, times. A time is a number of microseconds.
-- Models: db/models.py, the rows of runs and settings. A table is a list of rows, a session is the
-- tables that it sees, and a commit is a function on them.
-- Settings, Runs: db/repository.py and db/upsert.py. Result has the ValueError of a secret key.
-- Liveness: db/run_liveness.py. Env holds the clock, the two windows and the date formatter. Sweep
-- is the argument that both sweeps share; Reconcile and Grace apply it.
-- Stop: graph/cancellation.py and the two stop gates of graph/nodes.py.
-- RunsApi: api/routers/runs.py, list_runs, trigger_run and stop_run.
-- Schedule: scheduler/jobs.py; the cron trigger of APScheduler is a parameter, and what is
-- documented of a daily one is the record IsDaily.
-- Lifecycle: every writer of run rows as a step between stores, and Reach, any sequence of steps.
-- Preserves says what a write must not do, Writes shows it of each writer, Terminal of all
-- sequences.
-- Scoring: Filters (scoring/filters.py), Compensation (compare_to_floor of
-- discovery/normalize/compensation.py), Flags (scoring/flags.py), Aggregate
-- (scoring/aggregate.py), Spend (scoring/spend_cap.py and pricing/table.py) with Threads (the
-- tracker shared by threads), Pipeline (scoring/pipeline.py with triage.py and dimensions.py).
-- Graph: Batch (_score_batch of graph/nodes.py) and Results (run_status and finalize_run).
-- Criteria: criteria/loader.py and loop/apply.py, versions and the decision on a proposal; Leaf is
-- the assignment of one leaf of a payload.
-- Jobs: discovery/write.py and the job part of db/repository.py.
-- Fetching: UrlGuard (fetching/url_guard.py), the guard on URLs that a user gives.
-- Registry: registry/probe.py and the probes of registry/resolve.py. Guesses (guess_slugs),
-- Signatures (registry/signatures.py), Resolve (the three tiers of resolve_employer), Companies
-- (CompanyRepository of db/repository.py and persist_resolution), Companies/Staleness
-- (registry/staleness.py). The limit of twelve probes in a call is that of the source.
-- CompaniesApi: api/routers/companies.py (Patch is patch_company, Resolving the resolutions), and
-- the background thread of api/background.py that ends a resolution.
-- Discovery: discovery/dedup.py, write_batch of discovery/write.py and _dedupe_within_batch of
-- graph/nodes.py.
-- Loop: the feedback loop. Loop (loop/types.py), Signals (loop/signals.py), Detect with its tracks
-- Weights, Flags and Repeats, and Gate (loop/detect.py), Tiers and Effect
-- (loop/predicted_effect.py), Rationale (loop/rationale.py), Generate (loop/generate.py) and
-- Narrate (its calls of the two before). The pass reads signals of stored histories, turns them
-- into candidates, gates them, compares them with the stored proposals, and adds pending ones,
-- which Criteria decides on.
-- Examples: concrete stores, listings and criteria to which the theorems are applied.
--
-- Conventions. All loops are over lists, so that no fuel is needed; the power of two by which a
-- quotient keeps to 53 bits is looked for below the 60th, which is enough for half a hundredth of
-- a day. Texts that are only shown are constructors with the values that they name. Amounts of
-- money are whole numbers of the smallest unit that the column keeps. What comes from outside is a
-- parameter: date formatting (of which RoundTrips states that it is read back as written), regular
-- expressions, the answers of the model service, the validation of a payload by pydantic, UUIDs,
-- the parsing of URLs and addresses, the pages and boards that are fetched. A fetch of a board
-- answers by the number of the fetches before it. A text that the source tests by a regular
-- expression is given with its matches.
--
-- Not modelled: network access, crawling and the adapters of job boards, the graph library with
-- the threads of its fan-out and the stages of process_employer, the recomputation of the scores
-- of a backlog, the routers that only read and format rows, the settings and configuration files,
-- prompts, the client of the model service, the command line, credentials and the web interface.
-- Locations and pay are taken as normalized.
pub mod Base
pub mod Loop
pub mod Models
pub mod Settings
pub mod Runs
pub mod Liveness
pub mod Stop
pub mod RunsApi
pub mod Fetching
pub mod Registry
pub mod CompaniesApi
pub mod Discovery
pub mod Schedule
pub mod Lifecycle
pub mod Scoring
pub mod Graph
pub mod Criteria
pub mod Jobs
pub mod Examples
