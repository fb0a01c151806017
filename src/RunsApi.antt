-- ===== src/RunsApi.antt =====
-- src/huntloop/api/routers/runs.py: the endpoints that start, stop and list runs. A response is
-- data; the status codes stand beside its constructors.
pub mod Guard
pub mod StopLaws
use huntloop.Base.{ℕ, String, Bool, Option, none, some, List, if◌then◌else◌, find}
use huntloop.Models.{RunStatus, stopped, is_running, Run, Db}
use huntloop.Settings.{Result, ok, ◌>>=◌}
use huntloop.Runs
use huntloop.Runs.{list_recent}
use huntloop.Liveness.{
  Env, run_is_live, finalize_stale_run, stopped_stale_reason, reconcile_stale_runs,
  finalize_grace_expired_stops,
}
use huntloop.Stop.{request_stop, clear_stop_request}

-- src/huntloop/scheduler/jobs.py: SELECT .. WHERE status = 'running' LIMIT 1
unfoldable pub find_run_in_progress : Db → Option Run
find_run_in_progress db = find (λ r. is_running r.status) db.runs

pub data TriggerReply : Type 0 where
  accepted : TriggerReply  -- 202; the background thread is started
  in_progress : Run → TriggerReply  -- 409

pub data StopReply : Type 0 where
  not_found : StopReply  -- 404
  already_finished : RunStatus → StopReply  -- 409
  stopped_now : StopReply  -- 200
  stop_requested : StopReply  -- 202

abbrev trigger_reply : Option Run → TriggerReply
trigger_reply none = accepted
trigger_reply (some run) = in_progress run

module _ (env : Env) where
  -- The two sweeps that every gate makes first.
  unfoldable pub settle : Db → Db
  settle db =
      (finalize_grace_expired_stops env none none (reconcile_stale_runs env none none db).0).0

  unfoldable pub list_runs : ℕ → Db → Db × List Run
  unfolding settle
  list_runs limit db = let db' = settle db in (db', list_recent limit db')

  unfoldable pub trigger_run : Db → Db × TriggerReply
  unfolding settle find_run_in_progress
  trigger_run db = let db' = settle db in (db', trigger_reply (find_run_in_progress db'))

  abbrev stop_running : String → Run → Db → Result (Db × StopReply)
  stop_running run_id run db =
      if run_is_live env db.settings run none none
      then (do db' ← request_stop env run_id none db; ok (db', stop_requested))
      else (let (db', _) = finalize_stale_run env run stopped stopped_stale_reason db in
          ok (clear_stop_request (some run_id) db', stopped_now))

  abbrev stop_found : String → Option Run → Db → Result (Db × StopReply)
  stop_found run_id none db = ok (db, not_found)
  stop_found run_id (some run) db =
      if is_running run.status
      then stop_running run_id run db
      else ok (db, already_finished run.status)

  unfoldable pub stop_run : String → Db → Result (Db × StopReply)
  stop_run run_id db = stop_found run_id (Runs.get run_id db.runs) db
