-- ===== src/Liveness/Grace.antt =====
-- `finalize_grace_expired_stops`, row by row, and the marker rows that it clears.
use huntloop.Base.{
  ℕ, String, ◌≡◌, ◌≢◌, refl, sym, ◌∙◌, ap, Bool, true, false, Option, none, some, [], ◌∷◌, map,
  select, if◌then◌else◌, or_default, eq_iff, eq_refl, arith, Bool-cases, inl, inr,
}
use huntloop.Base.Clock.{Time}
use huntloop.Models.{is_running, Run, Db}
use huntloop.Settings
use huntloop.Settings.Laws.{get_value-delete}
use huntloop.Runs
use huntloop.Runs.{apply_finish, finish_if_running, put}
use huntloop.Runs.Laws.{
  get-finish_if_running, get-finish_if_running_ne, finish_if_running_found,
  settings-finish_if_running,
}
use huntloop.Liveness.{
  Env, lease_key, stop_requested_at_key, stop_request_key, stop_requested_at_key_iff,
  lease-ne-stop_requested_at, stop_requested_at-ne-stop_request, close_expired, is_expired,
  parse_timestamp, grace_finish, grace_one, running_runs, finalize_grace_expired_stops,
}
use huntloop.Runs.Ids.{Distinct, ids, ids-finish_if_running}
use huntloop.Liveness.Sweep.{ids-for_each, Rule, sweep_row, sweep_reported}

-- Closing a run writes no row, and deletes marker rows only.
runs-close_expired :
    (r : Run) (db : Db) (o : Option Run) → (close_expired r (db, o)).0.runs ≡ db.runs
unfolding close_expired
runs-close_expired r db none = refl
runs-close_expired r db (some _) = ground arith

requested_at-close_expired :
    (r : Run) (id : String) (db : Db) (o : Option Run)
    → id ≢ r.id
    → Settings.get_value (stop_requested_at_key id) (close_expired r (db, o)).0.settings
      ≡ Settings.get_value (stop_requested_at_key id) db.settings
unfolding close_expired
requested_at-close_expired r id db none ne = refl
requested_at-close_expired r id db (some _) ne =
    let key = stop_requested_at_key id in
    let l1 = Settings.delete (lease_key r.id) db.settings in
    let l2 = Settings.delete (stop_requested_at_key r.id) l1 in
    ground (
      arith,
      get_value-delete (lease_key r.id) key db.settings,
      get_value-delete (stop_requested_at_key r.id) key l1,
      get_value-delete stop_request_key key l2,
      eq_iff (lease_key r.id) key,
      eq_iff (stop_requested_at_key r.id) key,
      eq_iff stop_request_key key,
      stop_requested_at_key_iff r.id id,
      lease-ne-stop_requested_at r.id id,
      λ (e : stop_request_key ≡ stop_requested_at_key id).
          stop_requested_at-ne-stop_request id (sym e),
      λ (e : r.id ≡ id). ne (sym e),
    )

module _ (env : Env) (now : Option Time) (threshold : ℕ) where
  -- A stop was requested for the run, longer ago than the window.
  abbrev pub is_overdue : Db → Run → Bool
  is_overdue db r =
      is_expired env now threshold
        (parse_timestamp env (Settings.get_value (stop_requested_at_key r.id) db.settings))

  abbrev pub stopped_by_grace : Db → Run → Run
  stopped_by_grace db r = if is_overdue db r then apply_finish grace_finish env.clock r else r

  grace_one_kept :
      (r : Run) (db : Db) → is_overdue db r ≡ false → grace_one env now threshold r db ≡ (db, [])
  unfolding grace_one
  grace_one_kept r db h = rw h

  grace_one_expired :
      (r : Run) (db : Db)
      → is_overdue db r ≡ true
      → grace_one env now threshold r db
        ≡ close_expired r (finish_if_running r.id grace_finish env.clock db)
  unfolding grace_one
  grace_one_expired r db h = rw h

  grace_other_row :
      (r : Run) (db : Db) (j : String)
      → r.id ≢ j
      → Runs.get j (grace_one env now threshold r db).0.runs ≡ Runs.get j db.runs
  grace_other_row r db j ne = elim (Bool-cases (is_overdue db r)) [
    | inl e ↦
        let (db', o) = finish_if_running r.id grace_finish env.clock db in
        rw (grace_one_expired r db e, runs-close_expired r db' o)
          (get-finish_if_running_ne r.id j grace_finish env.clock db ne)
    | inr e ↦ rw (grace_one_kept r db e)
  ]

  grace_own_row :
      (r : Run) (db : Db)
      → Runs.get r.id db.runs ≡ some r
      → is_running r.status ≡ true
      → Runs.get r.id (grace_one env now threshold r db).0.runs ≡ some (stopped_by_grace db r)
  grace_own_row r db h running = elim (Bool-cases (is_overdue db r)) [
    | inl e ↦
        let (db', o) = finish_if_running r.id grace_finish env.clock db in
        rw (grace_one_expired r db e, e, runs-close_expired r db' o)
          (get-finish_if_running r.id r.id grace_finish env.clock db r h
            ∙ rw (eq_refl r.id, running))
    | inr e ↦ rw (grace_one_kept r db e, e) h
  ]

  requested_at_stable :
      (r s : Run) (db : Db)
      → s.id ≢ r.id
      → Settings.get_value
          (stop_requested_at_key s.id)
          (grace_one env now threshold r db).0.settings
        ≡ Settings.get_value (stop_requested_at_key s.id) db.settings
  requested_at_stable r s db ne = elim (Bool-cases (is_overdue db r)) [
    | inl e ↦
        let (db', o) = finish_if_running r.id grace_finish env.clock db in
        rw (grace_one_expired r db e, requested_at-close_expired r s.id db' o ne)
          (ap (Settings.get_value (stop_requested_at_key s.id))
            (settings-finish_if_running r.id grace_finish env.clock db))
    | inr e ↦ rw (grace_one_kept r db e)
  ]

  grace_reported :
      (r : Run) (db : Db)
      → Runs.get r.id db.runs ≡ some r
      → is_running r.status ≡ true
      → (grace_one env now threshold r db).1 ≡ (if is_overdue db r then r.id ∷ [] else [])
  unfolding close_expired
  grace_reported r db h running = elim (Bool-cases (is_overdue db r)) [
    | inl e ↦ rw (
      grace_one_expired r db e,
      e,
      finish_if_running_found r.id grace_finish env.clock db r h running,
    )
    | inr e ↦ rw (grace_one_kept r db e, e)
  ]

  grace_Rule : Rule (grace_one env now threshold) stopped_by_grace is_overdue
  grace_Rule = record {
    other_row = grace_other_row;
    own_row = grace_own_row;
    becomes_stable = λ r s db ne. rw (requested_at_stable r s db ne);
    reported = grace_reported;
    hit_stable = λ r s db ne. rw (requested_at_stable r s db ne);
  }

module _ (env : Env) (now : Option Time) (grace_seconds : Option ℕ) where
  abbrev pub window : ℕ
  window = or_default grace_seconds env.run_stop_grace_seconds

  -- In a table with distinct ids, the sweep finalizes exactly the running rows whose stop was requested longer ago than the grace
  -- window, each as STOPPED with the grace reason; every other row is left as it was.
  pub finalize_grace_expired_stops_row :
      (db : Db) (j : String) (x : Run)
      → Distinct db.runs
      → Runs.get j db.runs ≡ some x
      → Runs.get j (finalize_grace_expired_stops env now grace_seconds db).0.runs
        ≡ some (if is_running x.status then stopped_by_grace env now window db x else x)
  unfolding finalize_grace_expired_stops
  finalize_grace_expired_stops_row db j x d h = sweep_row (grace_Rule env now window) db j x d h

  pub finalize_grace_expired_stops_reported :
      (db : Db)
      → Distinct db.runs
      → (finalize_grace_expired_stops env now grace_seconds db).1
        ≡ map (λ r. r.id) (select (is_overdue env now window db) (running_runs db))
  unfolding finalize_grace_expired_stops
  finalize_grace_expired_stops_reported db d = sweep_reported (grace_Rule env now window) db d

  grace_one-ids : (r : Run) (db : Db) → ids (grace_one env now window r db).0.runs ≡ ids db.runs
  grace_one-ids r db = elim (Bool-cases (is_overdue env now window db r)) [
    | inl e ↦
        let (db', o) = finish_if_running r.id grace_finish env.clock db in
        rw (grace_one_expired env now window r db e, runs-close_expired r db' o)
          (ids-finish_if_running r.id grace_finish env.clock db)
    | inr e ↦ rw (grace_one_kept env now window r db e)
  ]

  pub ids-finalize_grace_expired_stops :
      (db : Db) → ids (finalize_grace_expired_stops env now grace_seconds db).0.runs ≡ ids db.runs
  unfolding finalize_grace_expired_stops
  ids-finalize_grace_expired_stops db =
      ids-for_each (grace_one env now window) (running_runs db) db grace_one-ids
