-- ===== src/Schedule.antt =====
-- src/huntloop/scheduler/jobs.py: what a scheduled fire does before it hands over to the run itself.
pub mod Laws
use huntloop.Base.{
  String, Bool, Option, none, some, ◌<>◌, ◌+◌, ◌-◌, ◌*◌, if◌then◌else◌, or_default, ltb, ◌||◌,
}
use huntloop.Base.Clock.{Time, day, microseconds}
use huntloop.Models.{RunTrigger, scheduled, catch_up, skipped, zero_counters, Run, Db}
use huntloop.Runs.{Finish, start, add, finish}
use huntloop.Liveness.{Env, reconcile_stale_runs, finalize_grace_expired_stops}
use huntloop.RunsApi.{find_run_in_progress}

abbrev pub catchup_skew : Time
catchup_skew = 600 * microseconds

abbrev late : Time → Option Time → RunTrigger
late now none = scheduled
late now (some previous) =
    if ltb now previous
    then scheduled
    else if ltb (previous + catchup_skew) now
    then catch_up
    else scheduled

-- `get_next_fire_time` of the cron trigger is APScheduler's: the first occurrence at or after a time.
unfoldable pub classify_trigger : (Time → Option Time) → Time → RunTrigger
classify_trigger next_fire_time now = late now (next_fire_time (now - day + 1))

unfoldable pub record_skipped_run : String → RunTrigger → String → Time → Db → Db
record_skipped_run id trigger reason clock db =
    (finish id (record { status = skipped; counters = zero_counters; error_summary = some reason })
      clock (add (start id trigger clock) db)).0

-- What a fire does: it leaves a skipped row behind, or goes on to `run_discovery`.
pub data Fire : Type 0 where
  skip : Run → Fire
  discover : RunTrigger → Fire

module _ (env : Env) where
  abbrev pub skip_reason : Run → String
  skip_reason run =
      "skipped: a previous run was still in progress (run "
      <> (run.id <> (", started " <> (env.iso.format run.started_at <> ")")))

  abbrev gate : String → RunTrigger → Db → Option Run → Db × Fire
  gate id trigger db none = (db, discover trigger)
  gate id trigger db (some run) =
      (record_skipped_run id trigger (skip_reason run) env.clock db, skip run)

  -- `id` is the UUID that a skipped row would get.
  unfoldable pub execute_scheduled_run :
      (Time → Option Time) → String → Option Time → Db → Db × Fire
  unfolding record_skipped_run
  execute_scheduled_run next_fire_time id now db =
      let trigger = classify_trigger next_fire_time (or_default now env.clock) in
      let db1 = (reconcile_stale_runs env now none db).0 in
      let db2 = (finalize_grace_expired_stops env now none db1).0 in
      gate id trigger db2 (find_run_in_progress db2)
