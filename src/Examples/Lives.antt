-- ===== src/Examples/Lives.antt =====
-- The runs of the sample store under the sweeps, the trigger endpoint and a sequence of commits.
use huntloop.Base.{◌↔◌, ◌*◌, ◌≡◌, refl, true, false, none, some}
use huntloop.Base.Clock.{microseconds}
use huntloop.Models.{manual, Run}
use huntloop.Settings
use huntloop.Runs
use huntloop.Runs.{Finish, finish_if_running, apply_finish}
use huntloop.Liveness.{
  reconcile_stale_runs, finalize_grace_expired_stops, running_runs, run_is_live, for_each,
  reconcile_one, lease_timestamp, parse_timestamp, finalize_stale_run, clear_run_lease,
  delete_setting, grace_one, is_expired, close_expired, clear_marker_of,
}
use huntloop.Liveness.Reconcile.{reconcile_stale_runs_row, interrupted}
use huntloop.Liveness.Grace.{finalize_grace_expired_stops_row, stopped_by_grace, is_overdue, window}
use huntloop.RunsApi.{trigger_run, in_progress, accepted, find_run_in_progress, settle}
use huntloop.RunsApi.Guard.{trigger_run-refused_live, trigger_run-accepted_iff, Obstructs}
use huntloop.Lifecycle.{Reach, here, after, triggers}
use huntloop.Lifecycle.Preserves.{WellFormed}
use huntloop.Lifecycle.Terminal.{Reach-terminal_row, Reach-row_stays, Reach-WellFormed}
use huntloop.Examples.Store.{
  env, live, dead, done, two_runs, three_runs, two_runs-Distinct, three_runs-Distinct,
}

-- One commit of the trigger endpoint.
one_commit : Reach two_runs (trigger_run env two_runs).0
one_commit = after (here two_runs) (triggers env two_runs)

Reach-terminal_row_example : Runs.get "done" (trigger_run env two_runs).0.runs ≡ some done
unfolding Runs.get
Reach-terminal_row_example =
    Reach-terminal_row two_runs (trigger_run env two_runs).0 "done" done one_commit refl refl

Reach-row_stays_example :
    (r : Run) × (Runs.get "dead" (trigger_run env two_runs).0.runs ≡ some r)
    × (r.id ≡ "dead")
    × (r.trigger ≡ manual)
    × (r.started_at ≡ 2 * microseconds)
unfolding Runs.get
Reach-row_stays_example =
    Reach-row_stays two_runs (trigger_run env two_runs).0 "dead" dead one_commit refl

Reach-WellFormed_example : WellFormed (trigger_run env two_runs).0
Reach-WellFormed_example =
    Reach-WellFormed two_runs (trigger_run env two_runs).0 one_commit
      (two_runs-Distinct, (refl, (refl, tt)))

reconcile_stale_runs_row_example :
    Runs.get "dead" (reconcile_stale_runs env none none three_runs).0.runs
    ≡ some (interrupted env none none three_runs dead)
unfolding Runs.get
reconcile_stale_runs_row_example =
    reconcile_stale_runs_row env none none three_runs "dead" dead three_runs-Distinct refl

finalize_grace_expired_stops_row_example :
    Runs.get "live" (finalize_grace_expired_stops env none none three_runs).0.runs
    ≡ some (stopped_by_grace env none (window env none none) three_runs live)
unfolding Runs.get
finalize_grace_expired_stops_row_example =
    finalize_grace_expired_stops_row env none none three_runs "live" live three_runs-Distinct refl

live_in_progress : (trigger_run env three_runs).1 ≡ in_progress live
unfolding trigger_run settle find_run_in_progress reconcile_stale_runs finalize_grace_expired_stops
    running_runs for_each reconcile_one run_is_live lease_timestamp parse_timestamp
    finalize_stale_run finish_if_running apply_finish clear_run_lease delete_setting grace_one
    is_expired close_expired clear_marker_of Runs.get Runs.put Settings.get Settings.get_value
    Settings.delete
live_in_progress = refl

trigger_run-refused_live_example :
    (Runs.get "live" three_runs.runs ≡ some live)
    × (run_is_live env three_runs.settings live none none ≡ true)
    × (is_overdue env none
          (window env none none)
          (reconcile_stale_runs env none none three_runs).0
          live
        ≡ false)
trigger_run-refused_live_example =
    trigger_run-refused_live env three_runs live three_runs-Distinct live_in_progress

dead_is_no_obstacle : (trigger_run env two_runs).1 ≡ accepted
unfolding trigger_run settle find_run_in_progress reconcile_stale_runs finalize_grace_expired_stops
    running_runs for_each reconcile_one run_is_live lease_timestamp parse_timestamp
    finalize_stale_run finish_if_running apply_finish clear_run_lease delete_setting grace_one
    is_expired close_expired clear_marker_of Runs.get Runs.put Settings.get Settings.get_value
    Settings.delete
dead_is_no_obstacle = refl

trigger_run-accepted_iff_example :
    ((trigger_run env two_runs).1 ≡ accepted) ↔ ((y : Run) → Obstructs env two_runs y → ⊥)
trigger_run-accepted_iff_example = trigger_run-accepted_iff env two_runs two_runs-Distinct
