-- ===== src/Liveness.antt =====
-- src/huntloop/db/run_liveness.py: leases, stale-run reconciliation and the grace sweep. The session
-- is the pair of tables that it sees. A `for` loop over the rows that a SELECT returned goes through
-- the list of those rows, and threads the tables.
pub mod Keys
mod Rows
mod Sweep
pub mod Reconcile
pub mod Grace
pub use Keys.{
  lease_key, stop_request_key, stop_requested_at_key, lease_key_iff, stop_requested_at_key_iff,
  lease-ne-stop_request, lease-ne-stop_requested_at, stop_requested_at-ne-stop_request,
}
use huntloop.Base.{
  ℕ, String, Bool, true, false, Option, none, some, List, [], ◌∷◌, ◌++◌, if◌then◌else◌, ◌<>◌,
  or_default, select, str_eq, not,
}
use huntloop.Base.Clock.{Time, Iso, within}
use huntloop.Models.{
  RunStatus, failed, stopped, is_running, zero_counters, Run, Json, null, text, other, Setting, Db,
}
use huntloop.Settings
use huntloop.Settings.{Result, ok, ◌>>=◌}
use huntloop.Runs
use huntloop.Runs.{Finish, finish_if_running}

-- What an operation reads of its surroundings: the date formatter, `datetime.now(UTC)` and the two
-- configured windows, in seconds. All readings of the clock in one operation agree.
pub record Env : Type 0 where
  pub iso : Iso
  pub clock : Time
  pub run_stale_after_seconds : ℕ
  pub run_stop_grace_seconds : ℕ

abbrev pub interrupted_run_reason_prefix : String
interrupted_run_reason_prefix = "run interrupted: the process ended before the run completed"

abbrev pub stopped_stale_reason : String
stopped_stale_reason = "stopped: the run was no longer active (its process had already ended)"

abbrev pub grace_expired_stop_reason : String
grace_expired_stop_reason =
    "stopped: the run did not reach its next safe boundary within the stop grace period"

-- The deletion of a row of `settings`, in `clear_run_lease` and `_delete_setting`.
unfoldable pub delete_setting : String → Db → Db
delete_setting key db = record db { settings = Settings.delete key db.settings }

unfoldable pub clear_run_lease : String → Db → Db
unfolding delete_setting
clear_run_lease run_id db = delete_setting (lease_key run_id) db

-- `for run in runs`, where a round reads and writes the tables and may append to the result.
unfoldable pub for_each : (Run → Db → Db × List String) → List Run → Db → Db × List String
for_each body [] db = (db, [])
for_each body (run ∷ rest) db =
    let (db', here) = body run db in
    let (db'', later) = for_each body rest db' in (db'', here ++ later)

-- `settings.get_value(STOP_REQUEST_SETTING_KEY) == str(run.id)`
unfoldable pub names : String → Json → Bool
names run_id (text s) = str_eq s run_id
names run_id null = false
names run_id (other _) = false

-- SELECT .. WHERE status = 'running'
unfoldable pub running_runs : Db → List Run
running_runs db = select (λ r. is_running r.status) db.runs

abbrev pub grace_finish : Finish
grace_finish = record {
  status = stopped;
  counters = zero_counters;
  error_summary = some grace_expired_stop_reason;
}

-- The marker is deleted only when it still names this run.
unfoldable pub clear_marker_of : String → Db → Db
unfolding delete_setting
clear_marker_of run_id db =
    if names run_id (Settings.get_value stop_request_key db.settings)
    then delete_setting stop_request_key db
    else db

-- The last lines of a round, after `finish_if_running`.
unfoldable pub close_expired : Run → Db × Option Run → Db × List String
unfolding clear_run_lease clear_marker_of
close_expired run (db, none) = (db, [])
close_expired run (db, some _) =
    let db' = delete_setting (stop_requested_at_key run.id) (clear_run_lease run.id db) in
    (clear_marker_of run.id db', run.id ∷ [])

module _ (env : Env) where
  -- `_parse_timestamp`
  unfoldable pub parse_timestamp : Json → Option Time
  parse_timestamp (text raw) = env.iso.parse raw
  parse_timestamp null = none
  parse_timestamp (other _) = none

  unfoldable pub record_run_heartbeat : String → Option Time → Db → Result Db
  record_run_heartbeat run_id now db = do
    settings ←
        Settings.set_value (lease_key run_id) (text (env.iso.format (or_default now env.clock)))
          db.settings
    ok (record db { settings = settings })

  unfoldable pub lease_timestamp : List Setting → Run → Time
  unfolding parse_timestamp
  lease_timestamp settings run =
      or_default (parse_timestamp (Settings.get_value (lease_key run.id) settings)) run.started_at

  unfoldable pub run_is_live : List Setting → Run → Option Time → Option ℕ → Bool
  run_is_live settings run now stale_after_seconds =
      if is_running run.status
      then within (or_default now env.clock) (lease_timestamp settings run)
          (or_default stale_after_seconds env.run_stale_after_seconds)
      else false

  abbrev pub stale_finish : RunStatus → String → Finish
  stale_finish status reason = record {
    status = status;
    counters = zero_counters;
    error_summary = some reason;
  }

  unfoldable pub finalize_stale_run : Run → RunStatus → String → Db → Db × Option Run
  unfolding clear_run_lease
  finalize_stale_run run status reason db =
      let (db', finished) = finish_if_running run.id (stale_finish status reason) env.clock db in
      (clear_run_lease run.id db', finished)

  abbrev pub interrupted_reason : List Setting → Run → String
  interrupted_reason settings run =
      interrupted_run_reason_prefix
      <> (" (last seen " <> (env.iso.format (lease_timestamp settings run) <> ")"))

  module _ (now : Option Time) where
    -- One round of the loop of `reconcile_stale_runs`: the tables, and what is added to `finalized`.
    unfoldable pub reconcile_one : Option ℕ → Run → Db → Db × List String
    unfolding finalize_stale_run
    reconcile_one stale_after_seconds run db =
        if run_is_live db.settings run now stale_after_seconds
        then (db, [])
        else (let reason = interrupted_reason db.settings run in
            ((finalize_stale_run run failed reason db).0, run.id ∷ []))

    unfoldable pub reconcile_stale_runs : Option ℕ → Db → Db × List String
    unfolding running_runs
    reconcile_stale_runs stale_after_seconds db =
        for_each (reconcile_one stale_after_seconds) (running_runs db) db

    -- Whether the round goes on to finish the run.
    unfoldable pub is_expired : ℕ → Option Time → Bool
    is_expired threshold none = false
    is_expired threshold (some requested_at) =
        not (within (or_default now env.clock) requested_at threshold)

    unfoldable pub grace_one : ℕ → Run → Db → Db × List String
    unfolding close_expired is_expired
    grace_one threshold run db =
        let key = stop_requested_at_key run.id in
        if is_expired threshold (parse_timestamp (Settings.get_value key db.settings))
        then close_expired run (finish_if_running run.id grace_finish env.clock db)
        else (db, [])

    unfoldable pub finalize_grace_expired_stops : Option ℕ → Db → Db × List String
    unfolding running_runs
    finalize_grace_expired_stops grace_seconds db =
        for_each (grace_one (or_default grace_seconds env.run_stop_grace_seconds)) (running_runs db)
          db
