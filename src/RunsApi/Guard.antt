-- ===== src/RunsApi/Guard.antt =====
-- The overlap guard of POST /api/runs, behind the two sweeps.
use huntloop.Base.{
  String, ◌≡◌, sym, true, false, none, some, List, [], ◌∷◌, All, find, arith, Bool-cases,
  Option-cases, inl, inr, ◌↔◌, refl,
}
use huntloop.Models.{is_running, Run, Db}
use huntloop.Runs
use huntloop.Runs.{apply_finish}
use huntloop.Runs.Ids.{Distinct, Distinct-of_ids, get-of_ids, get-find, All-get}
use huntloop.Liveness.{Env, run_is_live, reconcile_stale_runs, finalize_grace_expired_stops}
use huntloop.Liveness.Reconcile.{reconcile_stale_runs_row, ids-reconcile_stale_runs}
use huntloop.Liveness.Grace.{
  is_overdue, window, finalize_grace_expired_stops_row, ids-finalize_grace_expired_stops,
}
use huntloop.RunsApi.{accepted, in_progress, settle, trigger_run, find_run_in_progress}

module _ (env : Env) where
  -- A row that is still running after reconciliation was a live row, and is as it was.
  running_after_reconcile :
      (db : Db) (j : String) (y : Run)
      → Distinct db.runs
      → Runs.get j (reconcile_stale_runs env none none db).0.runs ≡ some y
      → is_running y.status ≡ true
      → (Runs.get j db.runs ≡ some y) × (run_is_live env db.settings y none none ≡ true)
  unfolding apply_finish
  running_after_reconcile db j y d h running =
      let db1 = (reconcile_stale_runs env none none db).0 in
      let (x, found) =
        get-of_ids j db.runs db1.runs y (sym (ids-reconcile_stale_runs env none none db)) h in
      ground (arith, reconcile_stale_runs_row env none none db j x d found)

  -- A row that is still running after the grace sweep was running and not overdue before it.
  running_after_grace :
      (db : Db) (j : String) (y : Run)
      → Distinct db.runs
      → Runs.get j (finalize_grace_expired_stops env none none db).0.runs ≡ some y
      → is_running y.status ≡ true
      → (Runs.get j db.runs ≡ some y) × (is_overdue env none (window env none none) db y ≡ false)
  unfolding apply_finish
  running_after_grace db j y d h running =
      let db1 = (finalize_grace_expired_stops env none none db).0 in
      let (x, found) =
        get-of_ids j db.runs db1.runs y (sym (ids-finalize_grace_expired_stops env none none db))
          h in
      ground (arith, finalize_grace_expired_stops_row env none none db j x d found)

  -- A run that stands in the way: running and live, with no stop that is overdue.
  abbrev pub Obstructs : Db → Run → Type 0
  Obstructs db y =
      (Runs.get y.id db.runs ≡ some y)
      × (is_running y.status ≡ true)
      × (run_is_live env db.settings y none none ≡ true)
      × (is_overdue env none (window env none none) (reconcile_stale_runs env none none db).0 y
          ≡ false)

  trigger_run-obstructed :
      (db : Db) (y : Run)
      → Distinct db.runs
      → (trigger_run env db).1 ≡ in_progress y
      → Obstructs db y
  unfolding trigger_run
  trigger_run-obstructed db y d h =
      let db1 = (reconcile_stale_runs env none none db).0 in
      let db2 = (finalize_grace_expired_stops env none none db1).0 in
      let d1 =
        Distinct-of_ids db.runs db1.runs (sym (ids-reconcile_stale_runs env none none db)) d in
      let d2 =
        Distinct-of_ids db1.runs db2.runs (sym (ids-finalize_grace_expired_stops env none none db1))
          d1 in
      let hit : find (λ r. is_running r.status) db2.runs ≡ some y = ground arith in
      let (row2, running) = get-find (λ r. is_running r.status) db2.runs y d2 hit in
      let (row1, waiting) = running_after_grace db1 y.id y d1 row2 running in
      let (row, live) = running_after_reconcile db y.id y d row1 running in
      (row, running, live, waiting)

  -- With distinct ids, a trigger is refused only because of a run that is running and live in the store as it stood, and
  -- whose stop, if one was asked for, is still inside its grace window: neither a dead run nor an
  -- overdue stop blocks the next run.
  pub trigger_run-refused_live :
      (db : Db) (y : Run)
      → Distinct db.runs
      → (trigger_run env db).1 ≡ in_progress y
      → (Runs.get y.id db.runs ≡ some y)
        × (run_is_live env db.settings y none none ≡ true)
        × (is_overdue env none (window env none none) (reconcile_stale_runs env none none db).0 y
            ≡ false)
  trigger_run-refused_live db y d h =
      let (row, running, live, waiting) = trigger_run-obstructed db y d h in (row, live, waiting)

  none-running_of_find :
      (l : List Run)
      → find (λ r. is_running r.status) l ≡ none
      → All (λ r. is_running r.status ≡ false) l
  none-running_of_find [] h = tt
  none-running_of_find (r ∷ l) h = elim (Bool-cases (is_running r.status)) [
    | inl e ↦ absurd (ground arith)
    | inr e ↦ (e, none-running_of_find l (ground arith))
  ]

  Obstructs-settle :
      (db : Db) (y : Run)
      → Distinct db.runs
      → Obstructs db y
      → Runs.get y.id (settle env db).runs ≡ some y
  unfolding settle
  Obstructs-settle db y d (here, running, live, waiting) =
      let db1 = (reconcile_stale_runs env none none db).0 in
      let kept : Runs.get y.id db1.runs ≡ some y =
        ground (arith, reconcile_stale_runs_row env none none db y.id y d here, running, live) in
      let d1 =
        Distinct-of_ids db.runs db1.runs (sym (ids-reconcile_stale_runs env none none db)) d in
      ground
        (arith, finalize_grace_expired_stops_row env none none db1 y.id y d1 kept, running, waiting)

  -- With distinct ids, a trigger is accepted exactly when no run of the store is running and live with its
  -- stop, if any, inside the grace window.
  pub trigger_run-accepted_iff :
      (db : Db)
      → Distinct db.runs
      → ((trigger_run env db).1 ≡ accepted) ↔ ((y : Run) → Obstructs db y → ⊥)
  unfolding trigger_run find_run_in_progress
  trigger_run-accepted_iff db d = (
    (λ h y o.
        let free : find (λ r. is_running r.status) (settle env db).runs ≡ none =
          ground (arith, h) in
        let idle : is_running y.status ≡ false =
          All-get _ y.id (settle env db).runs y (Obstructs-settle db y d o)
            (none-running_of_find (settle env db).runs free) in
        absurd (ground (arith, o.1, idle))),
    (λ h. elim (Option-cases (find (λ r. is_running r.status) (settle env db).runs)) [
      | inl free ↦ rw free refl
      | inr (y, hit) ↦ absurd (h y (trigger_run-obstructed db y d (rw hit refl)))
    ]),
  )
