-- ===== src/Lifecycle/Writes.antt =====
-- Each commit, one writer at a time, is within what a write of the tables must not exceed.
use huntloop.Base.{
  ℕ, List, String, ◌≡◌, refl, false, Option, none, some, Bool-cases, Option-cases, inl, inr, arith,
  sym, subst, ◌∙◌, or_default, eq_refl,
}
use huntloop.Base.Clock.{Time}
use huntloop.Models.{
  RunTrigger, RunStatus, failed, stopped, skipped, is_running, zero_counters, Run, Db, text,
  Setting,
}
use huntloop.Settings
use huntloop.Settings.{Result, ok, raise, ◌>>=◌}
use huntloop.Settings.Laws.{>>=-eq-ok}
use huntloop.Runs
use huntloop.Runs.{Finish, start, add, apply_finish, finish, finish_if_running}
use huntloop.Liveness.{
  Env, delete_setting, clear_run_lease, clear_marker_of, close_expired, record_run_heartbeat,
  finalize_stale_run, reconcile_one, reconcile_stale_runs, running_runs, grace_one, grace_finish,
  finalize_grace_expired_stops, run_is_live, is_expired, parse_timestamp, stop_requested_at_key,
  stop_request_key, lease_key, stopped_stale_reason,
}
use huntloop.Runs.Ids.{ids, get-of_ids}
use huntloop.Liveness.Reconcile.{ids-reconcile_stale_runs}
use huntloop.Liveness.Grace.{ids-finalize_grace_expired_stops}
use huntloop.Stop.{request_stop, clear_stop_request}
use huntloop.RunsApi.{StopReply, settle, stop_run, find_run_in_progress}
use huntloop.Schedule.{record_skipped_run, execute_scheduled_run}
use huntloop.Lifecycle.{begin_run}
use huntloop.Lifecycle.Preserves.{
  Safe, Safe-same_runs, Safe-trans, Safe-finish_if_running, Safe-for_each, Safe-add,
}

pub record_run_heartbeat-runs :
    (env : Env) (id : String) (now : Option Time) (db db' : Db)
    → record_run_heartbeat env id now db ≡ ok db'
    → db'.runs ≡ db.runs
unfolding record_run_heartbeat Settings.set_value
record_run_heartbeat-runs env id now db db' h =
    let (s, set, e) =
      >>=-eq-ok
        (Settings.set_value (lease_key id) (text (env.iso.format (or_default now env.clock)))
          db.settings)
        (λ settings. ok (record db { settings = settings })) h in
    ground (arith, e)

request_stop-runs :
    (env : Env) (id : String) (now : Option Time) (db db' : Db)
    → request_stop env id now db ≡ ok db'
    → db'.runs ≡ db.runs
unfolding request_stop
request_stop-runs env id now db db' h =
    let (m, marked, k) =
      >>=-eq-ok (Settings.set_value stop_request_key (text id) db.settings)
        (λ marked. stamp marked >>= (λ settings. ok (record db { settings = settings }))) h in
    let (s, set, e) = >>=-eq-ok (stamp m) (λ settings. ok (record db { settings = settings })) k in
    ground (arith, e)
  where
    stamp : List Setting → Result (List Setting)
    stamp =
        Settings.set_value (stop_requested_at_key id)
          (text (env.iso.format (or_default now env.clock)))

clear_stop_request-runs : (id : Option String) (db : Db) → (clear_stop_request id db).runs ≡ db.runs
unfolding clear_stop_request delete_setting
clear_stop_request-runs none db = refl
clear_stop_request-runs (some id) db = refl

finalize_stale_run-Safe :
    (env : Env) (r : Run) (status : RunStatus) (reason : String) (db : Db)
    → is_running status ≡ false
    → Safe db (finalize_stale_run env r status reason db).0
unfolding finalize_stale_run clear_run_lease delete_setting
finalize_stale_run-Safe env r status reason db e =
    Safe-trans (Safe-finish_if_running r.id _ env.clock db e) (Safe-same_runs _ _ refl)

reconcile_stale_runs-Safe :
    (env : Env) (now : Option Time) (threshold : Option ℕ) (db : Db)
    → Safe db (reconcile_stale_runs env now threshold db).0
unfolding reconcile_stale_runs reconcile_one
reconcile_stale_runs-Safe env now threshold db =
    Safe-for_each (reconcile_one env now threshold) (running_runs db) db round
  where
    round : (r : Run) (d : Db) → Safe d (reconcile_one env now threshold r d).0
    round r d = elim (Bool-cases (run_is_live env d.settings r now threshold)) [
      | inl live ↦ rw live (Safe-same_runs d d refl)
      | inr dead ↦ rw dead (finalize_stale_run-Safe env r failed _ d refl)
    ]

close_expired-runs : (r : Run) (out : Db × Option Run) → (close_expired r out).0.runs ≡ out.0.runs
unfolding close_expired clear_run_lease delete_setting clear_marker_of
close_expired-runs r (db, none) = refl
close_expired-runs r (db, some x) = ground arith

finalize_grace_expired_stops-Safe :
    (env : Env) (now : Option Time) (grace : Option ℕ) (db : Db)
    → Safe db (finalize_grace_expired_stops env now grace db).0
unfolding finalize_grace_expired_stops grace_one
finalize_grace_expired_stops-Safe env now grace db =
    Safe-for_each (grace_one env now seconds) (running_runs db) db round
  where
    seconds : ℕ
    seconds = or_default grace env.run_stop_grace_seconds

    finishes : (r : Run) (d : Db) → Db × Option Run
    finishes r d = finish_if_running r.id grace_finish env.clock d

    round : (r : Run) (d : Db) → Safe d (grace_one env now seconds r d).0
    round r d =
        elim (Bool-cases (
          is_expired env now seconds
            (parse_timestamp env (Settings.get_value (stop_requested_at_key r.id) d.settings)))) [
              | inl e ↦ rw e (
                  Safe-trans (Safe-finish_if_running r.id grace_finish env.clock d refl)
                    (Safe-same_runs _ _ (close_expired-runs r (finishes r d))))
              | inr e ↦ rw e (Safe-same_runs d d refl)
            ]

pub settle-Safe : (env : Env) (db : Db) → Safe db (settle env db)
unfolding settle
settle-Safe env db =
    Safe-trans (reconcile_stale_runs-Safe env none none db)
      (finalize_grace_expired_stops-Safe env none none _)

pub stop_run-Safe :
    (env : Env) (id : String) (db db' : Db) (reply : StopReply)
    → stop_run env id db ≡ ok (db', reply)
    → Safe db db'
unfolding stop_run
stop_run-Safe env id db db' reply h = elim (Option-cases (Runs.get id db.runs)) [
  | inl absent ↦ Safe-same_runs db db' (ground arith)
  | inr (r, found) ↦ elim (Bool-cases (is_running r.status)) [
    | inr ended ↦ Safe-same_runs db db' (ground arith)
    | inl running ↦ elim (Bool-cases (run_is_live env db.settings r none none)) [
      | inl live ↦
          let h1 = rw (found, running, live) at h in
          let (d, asked, e) = >>=-eq-ok (request_stop env id none db) _ h1 in
          Safe-same_runs db db'
            (let w = request_stop-runs env id none db d asked in ground (arith, e, w))
      | inr stale ↦
          let d = (finalize_stale_run env r stopped stopped_stale_reason db).0 in
          let same : clear_stop_request (some id) d ≡ db' = ground arith in
          subst (Safe db) same (
            Safe-trans (finalize_stale_run-Safe env r stopped stopped_stale_reason db refl)
              (Safe-same_runs d _ (clear_stop_request-runs (some id) d)))
    ]
  ]
]

pub begin_run-Safe :
    (env : Env) (id : String) (trigger : RunTrigger) (db db' : Db)
    → Runs.get id db.runs ≡ none
    → begin_run env id trigger db ≡ ok db'
    → Safe db db'
unfolding begin_run start
begin_run-Safe env id trigger db db' fresh h =
    Safe-trans (Safe-add (start id trigger env.clock) db fresh refl)
      (Safe-same_runs _ db' (record_run_heartbeat-runs env id none _ db' h))

record_skipped_run-Safe :
    (id : String) (trigger : RunTrigger) (reason : String) (clock : Time) (db : Db)
    → Runs.get id db.runs ≡ none
    → Safe db (record_skipped_run id trigger reason clock db)
unfolding record_skipped_run start finish add apply_finish Runs.get Runs.put
record_skipped_run-Safe id trigger reason clock db fresh =
    subst (Safe db) (sym written) (Safe-add skipped_row db fresh refl)
  where
    skipped_row : Run
    skipped_row = apply_finish f clock (start id trigger clock)
      where
        f : Finish
        f = record { status = skipped; counters = zero_counters; error_summary = some reason }

    written : record_skipped_run id trigger reason clock db ≡ add skipped_row db
    written = ground (arith, eq_refl id)

pub execute_scheduled_run-Safe :
    (env : Env) (next_fire_time : Time → Option Time) (id : String) (now : Option Time) (db : Db)
    → Runs.get id db.runs ≡ none
    → Safe db (execute_scheduled_run env next_fire_time id now db).0
unfolding execute_scheduled_run
execute_scheduled_run-Safe env next_fire_time id now db fresh =
    elim (Option-cases (find_run_in_progress d2)) [
      | inl idle ↦ rw idle swept
      | inr (r, busy) ↦
          rw busy (Safe-trans swept (record_skipped_run-Safe id _ _ env.clock d2 fresh2))
    ]
  where
    d1 : Db
    d1 = (reconcile_stale_runs env now none db).0

    d2 : Db
    d2 = (finalize_grace_expired_stops env now none d1).0

    swept : Safe db d2
    swept =
        Safe-trans (reconcile_stale_runs-Safe env now none db)
          (finalize_grace_expired_stops-Safe env now none d1)

    same_ids : ids db.runs ≡ ids d2.runs
    same_ids = sym (
        ids-finalize_grace_expired_stops env now none d1 ∙ ids-reconcile_stale_runs env now none db)

    fresh2 : Runs.get id d2.runs ≡ none
    fresh2 = elim (Option-cases (Runs.get id d2.runs)) [
      | inl absent ↦ absent
      | inr (y, found) ↦
          let (x, before) = get-of_ids id db.runs d2.runs y same_ids found in
          absurd (ground (arith, before, fresh))
    ]
