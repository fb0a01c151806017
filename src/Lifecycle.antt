-- ===== src/Lifecycle.antt =====
-- The life of the rows of `runs` in the presence of every writer: the discovery thread
-- (src/huntloop/graph/build.py and src/huntloop/graph/nodes.py), its heartbeat, the API endpoints and the
-- scheduler, each of which commits its own session. A step is one such commit, and any order of steps
-- is possible.
pub mod Preserves
pub mod Writes
pub mod Terminal
use huntloop.Base.{ℕ, String, ◌≡◌, Bool, false, Option, none, some, List}
use huntloop.Base.Clock.{Time}
use huntloop.Models.{
  RunTrigger, RunStatus, failed, stopped, is_running, Counters, zero_counters, Db,
}
use huntloop.Settings.{Result, ok, ◌>>=◌}
use huntloop.Runs
use huntloop.Runs.{Finish, start, add, finish_if_running}
use huntloop.Liveness.{
  Env, record_run_heartbeat, clear_run_lease, reconcile_stale_runs, finalize_grace_expired_stops,
}
use huntloop.Stop.{request_stop, clear_stop_request}
use huntloop.RunsApi.{StopReply, list_runs, trigger_run, stop_run}
use huntloop.Schedule.{execute_scheduled_run}

-- What `SpendTracker` has of a run.
pub record Ledger : Type 0 where
  pub tokens_in : ℕ
  pub tokens_out : ℕ
  pub spent_usd : ℕ

abbrev aborted_counters : Ledger → Counters
aborted_counters l = record zero_counters {
  tokens_in = l.tokens_in;
  tokens_out = l.tokens_out;
  cost_usd = l.spent_usd;
}

abbrev aborted : RunStatus → String → Ledger → Finish
aborted status reason l = record {
  status = status;
  counters = aborted_counters l;
  error_summary = some reason;
}

-- `run_discovery`, the commit that creates the row with its lease.
unfoldable pub begin_run : Env → String → RunTrigger → Db → Result Db
begin_run env id trigger db = record_run_heartbeat env id none (add (start id trigger env.clock) db)

-- The handler of `RunStoppedByUser`.
unfoldable pub end_stopped : Env → String → Ledger → Db → Db
end_stopped env id l db =
    let f = aborted stopped "stopped by user request" l in
    clear_run_lease id (clear_stop_request (some id) (finish_if_running id f env.clock db).0)

-- The handler of every other exception; `reason` is "run aborted: .." with the exception.
unfoldable pub end_aborted : Env → String → String → Ledger → Db → Db
end_aborted env id reason l db =
    clear_run_lease id (finish_if_running id (aborted failed reason l) env.clock db).0

-- `_clear_run_artifacts`, after the last employer.
unfoldable pub clear_run_artifacts : String → Db → Db
clear_run_artifacts id db = clear_run_lease id (clear_stop_request (some id) db)

-- One commit. A new row has a UUID that no row has; the row of a finished run is written by
-- `finalize_run`, whose status is one that `run_status` gives.
pub data Step : Db → Db → Type 0 where
  begins :
      (env : Env) (id : String) (trigger : RunTrigger) (db db' : Db)
      → Runs.get id db.runs ≡ none
      → begin_run env id trigger db ≡ ok db'
      → Step db db'
  beats :
      (env : Env) (id : String) (now : Option Time) (db db' : Db)
      → record_run_heartbeat env id now db ≡ ok db'
      → Step db db'
  finalizes :
      (env : Env) (id : String) (f : Finish) (db : Db)
      → is_running f.status ≡ false
      → Step db (finish_if_running id f env.clock db).0
  clears : (id : String) (db : Db) → Step db (clear_run_artifacts id db)
  stops : (env : Env) (id : String) (l : Ledger) (db : Db) → Step db (end_stopped env id l db)
  aborts :
      (env : Env) (id reason : String) (l : Ledger) (db : Db)
      → Step db (end_aborted env id reason l db)
  lists : (env : Env) (limit : ℕ) (db : Db) → Step db (list_runs env limit db).0
  triggers : (env : Env) (db : Db) → Step db (trigger_run env db).0
  requests :
      (env : Env) (id : String) (db db' : Db) (reply : StopReply)
      → stop_run env id db ≡ ok (db', reply)
      → Step db db'
  fires :
      (env : Env) (next_fire_time : Time → Option Time) (id : String) (now : Option Time) (db : Db)
      → Runs.get id db.runs ≡ none
      → Step db (execute_scheduled_run env next_fire_time id now db).0

-- Any number of commits.
pub data Reach : Db → Db → Type 0 where
  here : (db : Db) → Reach db db
  after : {a b c : Db} → Reach a b → Step b c → Reach a c
