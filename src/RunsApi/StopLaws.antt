-- ===== src/RunsApi/StopLaws.antt =====
-- POST /api/runs/{run_id}/stop: what the run's own thread and the grace sweep make of each reply.
use huntloop.Base.{
  String, ◌≡◌, ◌≢◌, refl, sym, ◌∙◌, subst, true, false, none, some, eq_iff, eq_refl, arith,
  Bool-cases, Option-cases, inl, inr,
}
use huntloop.Base.Clock.{Time, RoundTrips, within}
use huntloop.Models.{is_running, stopped, Run, Db}
use huntloop.Settings
use huntloop.Settings.{Result, ok, raise, ◌>>=◌}
use huntloop.Settings.Laws.{>>=-eq-ok}
use huntloop.Runs
use huntloop.Runs.{apply_finish, finish_if_running}
use huntloop.Runs.Ids.{Distinct}
use huntloop.Runs.Laws.{get-finish_if_running, get_id}
use huntloop.Liveness.{
  Env, run_is_live, finalize_stale_run, stale_finish, stopped_stale_reason, grace_finish,
  is_expired, parse_timestamp, clear_run_lease, stop_requested_at_key, finalize_grace_expired_stops,
}
use huntloop.Liveness.Grace.{finalize_grace_expired_stops_row, is_overdue, window}
use huntloop.Stop.{
  request_stop, stop_requested_at, is_stop_requested, clear_stop_request, stop_gate, listing_gate,
  requested,
}
use huntloop.Stop.Laws.{request_stop-reads, clear_stop_request-reads}
use huntloop.RunsApi.{StopReply, not_found, stopped_now, stop_requested, stop_run}

runs-clear_stop_request : (id : String) (db : Db) → (clear_stop_request (some id) db).runs ≡ db.runs
unfolding clear_stop_request
runs-clear_stop_request id db = refl

runs-clear_run_lease : (id : String) (db : Db) → (clear_run_lease id db).runs ≡ db.runs
unfolding clear_run_lease
runs-clear_run_lease id db = refl

module _ (env : Env) where
  replied-not_found :
      (id : String) (db db' : Db) (reply : StopReply)
      → stop_run env id db ≡ ok (db', reply)
      → Runs.get id db.runs ≡ none
      → reply ≡ not_found
  unfolding stop_run
  replied-not_found id db db' reply h absent = ground arith

  replied_terminal :
      (id : String) (db db' : Db) (reply : StopReply) (r : Run)
      → stop_run env id db ≡ ok (db', reply)
      → Runs.get id db.runs ≡ some r
      → is_running r.status ≡ false
      → db ≡ db'
  unfolding stop_run
  replied_terminal id db db' reply r h found terminal = ground arith

  -- Only a row that is running and live is asked to stop.
  stop_requested_steps :
      (id : String) (db db' : Db)
      → stop_run env id db ≡ ok (db', stop_requested)
      → (r : Run) × (Runs.get id db.runs ≡ some r)
        × (is_running r.status ≡ true)
        × (run_is_live env db.settings r none none ≡ true)
        × (request_stop env id none db ≡ ok db')
  unfolding stop_run
  stop_requested_steps id db db' h = elim (Option-cases (Runs.get id db.runs)) [
    | inl absent ↦ absurd (ground arith)
    | inr (r, found) ↦ elim (Bool-cases (is_running r.status)) [
      | inr terminal ↦ absurd (ground arith)
      | inl running ↦ elim (Bool-cases (run_is_live env db.settings r none none)) [
        | inr stale ↦ absurd (ground arith)
        | inl live ↦
            let asked : (request_stop env id none db >>= λ x. ok (x, stop_requested))
                ≡ ok (db', stop_requested) =
              rw (found, running, live) at h in
            let (x, went, same) =
              >>=-eq-ok (request_stop env id none db) (λ x. ok (x, stop_requested)) asked in
            let e : x ≡ db' = ground arith in (r, found, running, live, rw e at went)
      ]
    ]
  ]

  -- A live run is left running with its stop pending, dated by the clock.
  stop_run-requests :
      (id : String) (db db' : Db)
      → RoundTrips env.iso
      → stop_run env id db ≡ ok (db', stop_requested)
      → (db'.runs ≡ db.runs)
        × (is_stop_requested id db' ≡ true)
        × (stop_requested_at env id db' ≡ some env.clock)
  stop_run-requests id db db' iso h =
      let (r, found, running, live, went) = stop_requested_steps id db db' h in
      let (rows, pending, dated) = request_stop-reads env id id none db db' iso went in
      (rows, pending ∙ eq_refl id, dated)

  -- With distinct ids and dates that are read back as written: where the request is the last write, a grace sweep
  -- behind its window makes the run that was asked to stop STOPPED, with the grace reason.
  stop_run-stopped_by_sweep :
      (id : String) (db db' : Db) (r : Run) (later : Time)
      → RoundTrips env.iso
      → Distinct db.runs
      → stop_run env id db ≡ ok (db', stop_requested)
      → Runs.get id db.runs ≡ some r
      → within later env.clock env.run_stop_grace_seconds ≡ false
      → let env' : Env = record env { clock = later } in
        Runs.get id (finalize_grace_expired_stops env' none none db').0.runs
        ≡ some (apply_finish grace_finish later r)
  unfolding is_expired stop_requested_at parse_timestamp
  stop_run-stopped_by_sweep id db db' r later iso d h found over =
      let env' : Env = record env { clock = later } in
      let (x, found', running, live, went) = stop_requested_steps id db db' h in
      let (rows, pending, dated) = stop_run-requests id db db' iso h in
      let same : x ≡ r = ground arith in
      let here : Runs.get id db'.runs ≡ some r = rw rows found in
      let swept =
        finalize_grace_expired_stops_row env' none none db' id r
          (subst (λ l. Distinct l) (sym rows) d) here in
      let late : is_overdue env' none (window env' none none) db' r ≡ true =
        rw (get_id id db.runs r found) (overdue dated) in
      let busy : is_running r.status ≡ true = rw same at running in rw (busy, late) at swept
    where
      overdue :
          stop_requested_at env id db' ≡ some env.clock
          → is_expired
              (record env { clock = later })
              none
              env.run_stop_grace_seconds
              (parse_timestamp
                (record env { clock = later })
                (Settings.get_value (stop_requested_at_key id) db'.settings))
            ≡ true
      overdue dated = rw (dated, over)

  -- A run that is marked running and whose process is dead is made STOPPED at once, with the reason
  -- that says so, and neither its stop nor that of any other run is left pending.
  pub stop_run-stale :
      (id other : String) (db : Db) (r : Run)
      → Runs.get id db.runs ≡ some r
      → is_running r.status ≡ true
      → run_is_live env db.settings r none none ≡ false
      → (db' : Db) × (stop_run env id db ≡ ok (db', stopped_now))
        × (Runs.get id db'.runs
            ≡ some (apply_finish (stale_finish env stopped stopped_stale_reason) env.clock r))
        × (is_stop_requested other db' ≡ false)
        × (stop_requested_at env id db' ≡ none)
  unfolding stop_run finalize_stale_run
  stop_run-stale id other db r found running dead =
      let f = stale_finish env stopped stopped_stale_reason in
      let db1 = (finish_if_running r.id f env.clock db).0 in
      let (clear, undated) = clear_stop_request-reads env id other (clear_run_lease r.id db1) in
      let row = get-finish_if_running r.id id f env.clock db r found in
      (
        clear_stop_request (some id) (clear_run_lease r.id db1),
        rw (found, running, dead),
        rw (runs-clear_stop_request id (clear_run_lease r.id db1), runs-clear_run_lease r.id db1)
            (row ∙ rw ((eq_iff r.id id).1 (get_id id db.runs r found), running)),
        clear,
        undated,
      )

  replied_live :
      (id : String) (db db' : Db) (reply : StopReply) (r : Run)
      → stop_run env id db ≡ ok (db', reply)
      → Runs.get id db.runs ≡ some r
      → is_running r.status ≡ true
      → run_is_live env db.settings r none none ≡ true
      → reply ≡ stop_requested
  unfolding stop_run
  replied_live id db db' reply r h found running live =
      let asked : (request_stop env id none db >>= λ x. ok (x, stop_requested)) ≡ ok (db', reply) =
        rw (found, running, live) at h in
      reply_of (request_stop env id none db) asked
    where
      reply_of :
          (m : Result Db)
          → ◌>>=◌ {Y = Db × StopReply} m (λ x. ok (x, stop_requested)) ≡ ok (db', reply)
          → reply ≡ stop_requested
      reply_of (ok x) e = ground arith
      reply_of (raise x) e = cc

  -- The answer that a run was stopped at once leaves no marker of it.
  stopped_now-unmarked :
      (id : String) (db db' : Db)
      → stop_run env id db ≡ ok (db', stopped_now)
      → is_stop_requested id db' ≡ false
  stopped_now-unmarked id db db' h = elim (Option-cases (Runs.get id db.runs)) [
    | inl absent ↦ absurd (let e = replied-not_found id db db' stopped_now h absent in cc)
    | inr (r, found) ↦ elim (Bool-cases (is_running r.status)) [
      | inr terminal ↦ absurd (unfold stop_run in ground (arith, h, found, terminal))
      | inl running ↦ elim (Bool-cases (run_is_live env db.settings r none none)) [
        | inl live ↦
            absurd (let e = replied_live id db db' stopped_now r h found running live in cc)
        | inr dead ↦
            let (db2, replied, row, clear, _) = stop_run-stale id id db r found running dead in
            let same : db2 ≡ db' = ground arith in rw same at clear
      ]
    ]
  ]

  gate_terminal :
      (id : String) (db : Db) (r : Run)
      → Runs.get id db.runs ≡ some r
      → is_running r.status ≡ false
      → stop_gate id db ≢ none
  unfolding stop_gate
  gate_terminal id db r found terminal e = ground arith

  gate_requested : (id : String) (db : Db) → is_stop_requested id db ≡ true → stop_gate id db ≢ none
  unfolding stop_gate listing_gate
  gate_requested id db pending e = ground arith

  full_gate_closes :
      (id : String) (db db' : Db) (reply : StopReply)
      → RoundTrips env.iso
      → stop_run env id db ≡ ok (db', reply)
      → reply ≢ not_found
      → stop_gate id db' ≢ none
  unfolding stop_gate listing_gate
  full_gate_closes id db db' reply iso h real open_ = elim (Option-cases (Runs.get id db.runs)) [
    | inl absent ↦ real (replied-not_found id db db' reply h absent)
    | inr (r, found) ↦ elim (Bool-cases (is_running r.status)) [
      | inr terminal ↦
          gate_terminal id db r found terminal
            (rw (replied_terminal id db db' reply r h found terminal) open_)
      | inl running ↦ elim (Bool-cases (run_is_live env db.settings r none none)) [
        | inr dead ↦
            let (db2, replied, row, _, _) = stop_run-stale id id db r found running dead in
            let same : db2 ≡ db' = ground arith in
            gate_terminal id db2
              (apply_finish (stale_finish env stopped stopped_stale_reason) env.clock r) row
              (unfold apply_finish in refl) (rw same open_)
        | inl live ↦
            let asked = replied_live id db db' reply r h found running live in
            gate_requested id db' (stop_run-requests id db db' iso (rw asked at h)).1 open_
      ]
    ]
  ]

  -- Where dates are read back as written, and the endpoint found the run: after any answer the full gate, which
  -- stands before the scoring, the write and the end of the run, stops the thread that comes to it; after the
  -- answer that a stop is requested, so does the gate between two listings, which reads the marker only, and
  -- after the answer that the run was stopped at once it does not.
  pub stop_run-gates :
      (id : String) (db db' : Db) (reply : StopReply)
      → RoundTrips env.iso
      → stop_run env id db ≡ ok (db', reply)
      → reply ≢ not_found
      → (stop_gate id db' ≢ none)
        × (reply ≡ stop_requested → listing_gate id db' ≡ some requested)
        × (reply ≡ stopped_now → listing_gate id db' ≡ none)
  unfolding listing_gate
  stop_run-gates id db db' reply iso h real = (
    full_gate_closes id db db' reply iso h real,
    (λ e.
        let h' : stop_run env id db ≡ ok (db', stop_requested) = rw e at h in
        rw (stop_run-requests id db db' iso h').1),
    (λ e.
        let h' : stop_run env id db ≡ ok (db', stopped_now) = rw e at h in
        rw (stopped_now-unmarked id db db' h')),
  )
