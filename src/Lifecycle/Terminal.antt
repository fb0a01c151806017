-- ===== src/Lifecycle/Terminal.antt =====
-- Every commit keeps the table of runs well formed, and no order of commits changes a terminal row.
use huntloop.Base.{String, ◌≡◌, refl, false, some}
use huntloop.Models.{is_running, Run, Db}
use huntloop.Runs
use huntloop.Runs.{Finish, start, add, apply_finish, finish, finish_if_running}
use huntloop.Liveness.{delete_setting, clear_run_lease}
use huntloop.Runs.Laws.{get_id}
use huntloop.Stop.{clear_stop_request}
use huntloop.RunsApi.{list_runs, trigger_run}
use huntloop.Lifecycle.{
  Step, begins, beats, finalizes, clears, stops, aborts, lists, triggers, requests, fires, Reach,
  here, after, end_stopped, end_aborted, clear_run_artifacts,
}
use huntloop.Lifecycle.Preserves.{
  Safe, WellFormed, Safe-same_runs, Safe-trans, Safe-finish_if_running,
}
use huntloop.Lifecycle.Writes.{
  record_run_heartbeat-runs, settle-Safe, stop_run-Safe, begin_run-Safe, execute_scheduled_run-Safe,
}

Step-Safe : {a b : Db} → Step a b → Safe a b
unfolding end_stopped end_aborted clear_run_artifacts clear_run_lease delete_setting
    clear_stop_request list_runs trigger_run
Step-Safe (begins env id trigger db db' fresh h) = begin_run-Safe env id trigger db db' fresh h
Step-Safe (beats env id now db db' h) =
    Safe-same_runs db db' (record_run_heartbeat-runs env id now db db' h)
Step-Safe (finalizes env id f db e) = Safe-finish_if_running id f env.clock db e
Step-Safe (clears id db) = Safe-same_runs db _ refl
Step-Safe (stops env id l db) =
    Safe-trans (Safe-finish_if_running id _ env.clock db refl) (Safe-same_runs _ _ refl)
Step-Safe (aborts env id reason l db) =
    Safe-trans (Safe-finish_if_running id _ env.clock db refl) (Safe-same_runs _ _ refl)
Step-Safe (lists env limit db) = settle-Safe env db
Step-Safe (triggers env db) = settle-Safe env db
Step-Safe (requests env id db db' reply h) = stop_run-Safe env id db db' reply h
Step-Safe (fires env next_fire_time id now db fresh) =
    execute_scheduled_run-Safe env next_fire_time id now db fresh

Reach-Safe : {a b : Db} → Reach a b → Safe a b
Reach-Safe (here db) = Safe-same_runs db db refl
Reach-Safe (after reached step) = Safe-trans (Reach-Safe reached) (Step-Safe step)

-- Whatever commits of whatever writers follow, in any order: a row that is terminal stays as it is.
pub Reach-terminal_row :
    (a b : Db) (id : String) (r : Run)
    → Reach a b
    → Runs.get id a.runs ≡ some r
    → is_running r.status ≡ false
    → Runs.get id b.runs ≡ some r
Reach-terminal_row a b id r reached h ended =
    let (r', found, k) = (Reach-Safe reached).keeps id r h in rw (found, k.same_terminal ended)

-- Whatever commits follow, a row stays in the table, under its id, with its trigger and its start.
pub Reach-row_stays :
    (a b : Db) (id : String) (r : Run)
    → Reach a b
    → Runs.get id a.runs ≡ some r
    → (r' : Run) × (Runs.get id b.runs ≡ some r')
      × (r'.id ≡ id)
      × (r'.trigger ≡ r.trigger)
      × (r'.started_at ≡ r.started_at)
Reach-row_stays a b id r reached h =
    let (r', found, k) = (Reach-Safe reached).keeps id r h in
    (r', found, get_id id b.runs r' found, k.same_trigger, k.same_start)

-- The commits keep ids distinct, and every row with an end exactly when it is not running.
pub Reach-WellFormed : (a b : Db) → Reach a b → WellFormed a → WellFormed b
Reach-WellFormed a b reached w = (Reach-Safe reached).well_formed w
