-- ===== src/Liveness/Reconcile.antt =====
-- `reconcile_stale_runs`, row by row.
use huntloop.Base.{
  ℕ, String, ◌≡◌, ◌≢◌, sym, ◌∙◌, Bool, true, Option, some, List, [], ◌∷◌, not, map, select,
  if◌then◌else◌, eq_iff, eq_refl, arith, Bool-cases, inl, inr,
}
use huntloop.Base.Clock.{Time}
use huntloop.Models.{RunStatus, failed, is_running, Run, Setting, Db}
use huntloop.Settings
use huntloop.Settings.Laws.{get_value-delete}
use huntloop.Runs
use huntloop.Runs.{apply_finish, finish_if_running}
use huntloop.Runs.Laws.{get-finish_if_running, get-finish_if_running_ne, settings-finish_if_running}
use huntloop.Liveness.{
  Env, lease_key, lease_key_iff, lease_timestamp, run_is_live, stale_finish, finalize_stale_run,
  interrupted_reason, reconcile_one, running_runs, reconcile_stale_runs,
}
use huntloop.Runs.Ids.{Distinct, ids, ids-finish_if_running}
use huntloop.Liveness.Sweep.{ids-for_each, Rule, sweep_row, sweep_reported}

-- Deleting the lease of one run does not touch that of another.
lease-delete :
    (a b : String) (settings : List Setting)
    → b ≢ a
    → Settings.get_value (lease_key b) (Settings.delete (lease_key a) settings)
      ≡ Settings.get_value (lease_key b) settings
lease-delete a b settings ne = ground (
  arith,
  get_value-delete (lease_key a) (lease_key b) settings,
  eq_iff (lease_key a) (lease_key b),
  lease_key_iff a b,
  λ (e : a ≡ b). ne (sym e),
)

module _ (env : Env) where
  settings-finalize_stale_run :
      (r : Run) (status : RunStatus) (reason : String) (db : Db)
      → (finalize_stale_run env r status reason db).0.settings
        ≡ Settings.delete (lease_key r.id) db.settings
  unfolding finalize_stale_run
  settings-finalize_stale_run r status reason db =
      rw (settings-finish_if_running r.id (stale_finish env status reason) env.clock db)

  module _ (now : Option Time) (threshold : Option ℕ) where
    abbrev pub is_stale : Db → Run → Bool
    is_stale db r = not (run_is_live env db.settings r now threshold)

    -- What reconciliation makes of a stale row.
    abbrev pub interrupted : Db → Run → Run
    interrupted db r =
        if is_stale db r
        then apply_finish (stale_finish env failed (interrupted_reason env db.settings r)) env.clock
            r
        else r

    lease_timestamp_stable :
        (r s : Run) (db : Db)
        → s.id ≢ r.id
        → lease_timestamp env (reconcile_one env now threshold r db).0.settings s
          ≡ lease_timestamp env db.settings s
    unfolding lease_timestamp reconcile_one
    lease_timestamp_stable r s db ne =
        elim (Bool-cases (run_is_live env db.settings r now threshold)) [
          | inl e ↦ rw e
          | inr e ↦
              rw e (rw settings-finalize_stale_run (rw (lease-delete r.id s.id db.settings ne)))
        ]

    live_stable :
        (r s : Run) (db : Db)
        → s.id ≢ r.id
        → run_is_live env (reconcile_one env now threshold r db).0.settings s now threshold
          ≡ run_is_live env db.settings s now threshold
    unfolding run_is_live
    live_stable r s db ne = rw (lease_timestamp_stable r s db ne)

    reconcile_other_row :
        (r : Run) (db : Db) (j : String)
        → r.id ≢ j
        → Runs.get j (reconcile_one env now threshold r db).0.runs ≡ Runs.get j db.runs
    unfolding reconcile_one finalize_stale_run
    reconcile_other_row r db j ne =
        elim (Bool-cases (run_is_live env db.settings r now threshold)) [
          | inl e ↦ rw e
          | inr e ↦ rw e (get-finish_if_running_ne r.id j _ env.clock db ne)
        ]

    reconcile_own_row :
        (r : Run) (db : Db)
        → Runs.get r.id db.runs ≡ some r
        → is_running r.status ≡ true
        → Runs.get r.id (reconcile_one env now threshold r db).0.runs ≡ some (interrupted db r)
    unfolding reconcile_one finalize_stale_run
    reconcile_own_row r db h running =
        elim (Bool-cases (run_is_live env db.settings r now threshold)) [
          | inl e ↦ rw e h
          | inr e ↦ rw e (
              get-finish_if_running r.id r.id
                (stale_finish env failed (interrupted_reason env db.settings r)) env.clock db r h
              ∙ rw (eq_refl r.id, running))
        ]

    reconcile_reported :
        (r : Run) (db : Db)
        → (reconcile_one env now threshold r db).1 ≡ (if is_stale db r then r.id ∷ [] else [])
    unfolding reconcile_one
    reconcile_reported r db = elim (Bool-cases (run_is_live env db.settings r now threshold)) [
      | inl e ↦ rw e
      | inr e ↦ rw e
    ]

    reconcile_Rule : Rule (reconcile_one env now threshold) interrupted is_stale
    reconcile_Rule = record {
      other_row = reconcile_other_row;
      own_row = reconcile_own_row;
      becomes_stable = λ r s db ne. rw (live_stable r s db ne, lease_timestamp_stable r s db ne);
      reported = λ r db _ _. reconcile_reported r db;
      hit_stable = λ r s db ne. rw (live_stable r s db ne);
    }

    -- In a table with distinct ids, reconciliation finalizes exactly the running rows that are not live, each as FAILED with the
    -- reason that names when it was last seen; live rows and terminal rows are left as they were.
    pub reconcile_stale_runs_row :
        (db : Db) (j : String) (x : Run)
        → Distinct db.runs
        → Runs.get j db.runs ≡ some x
        → Runs.get j (reconcile_stale_runs env now threshold db).0.runs
          ≡ some (if is_running x.status then interrupted db x else x)
    unfolding reconcile_stale_runs
    reconcile_stale_runs_row db j x d h = sweep_row reconcile_Rule db j x d h

    -- With distinct ids, the ids returned are those of the running rows that were not live, in table order.
    pub reconcile_stale_runs_reported :
        (db : Db)
        → Distinct db.runs
        → (reconcile_stale_runs env now threshold db).1
          ≡ map (λ r. r.id) (select (is_stale db) (running_runs db))
    unfolding reconcile_stale_runs
    reconcile_stale_runs_reported db d = sweep_reported reconcile_Rule db d

    reconcile_one-ids :
        (r : Run) (db : Db) → ids (reconcile_one env now threshold r db).0.runs ≡ ids db.runs
    unfolding reconcile_one finalize_stale_run
    reconcile_one-ids r db = elim (Bool-cases (run_is_live env db.settings r now threshold)) [
      | inl e ↦ rw e
      | inr e ↦ rw e (ids-finish_if_running r.id _ env.clock db)
    ]

    pub ids-reconcile_stale_runs :
        (db : Db) → ids (reconcile_stale_runs env now threshold db).0.runs ≡ ids db.runs
    unfolding reconcile_stale_runs
    ids-reconcile_stale_runs db =
        ids-for_each (reconcile_one env now threshold) (running_runs db) db reconcile_one-ids
