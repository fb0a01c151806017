-- ===== src/Stop/Laws.antt =====
-- What a reader of the stop marker sees after a stop was requested or cleared.
use huntloop.Base.{
  String, ◌≡◌, refl, false, Option, none, some, List, or_default, str_eq, eq_iff, eq_refl, arith,
}
use huntloop.Base.Clock.{Time, RoundTrips}
use huntloop.Models.{Json, text, Setting, Db}
use huntloop.Settings
use huntloop.Settings.{Result, ok, raise}
use huntloop.Settings.Laws.{>>=-eq-ok, set_value-reads, get_value-delete}
use huntloop.Liveness.{
  Env, parse_timestamp, stop_request_key, stop_requested_at_key, stop_requested_at-ne-stop_request,
}
use huntloop.Stop.{request_stop, stop_requested_at, is_stop_requested, clear_stop_request}

-- A request that went through is a write of the marker, then of the time.
request_stop_steps :
    (env : Env) (run_id : String) (now : Option Time) (db db' : Db)
    → request_stop env run_id now db ≡ ok db'
    → (marked settings : List Setting) × (Settings.set_value stop_request_key
          (text run_id)
          db.settings
        ≡ ok marked)
      × (Settings.set_value
            (stop_requested_at_key run_id)
            (text (env.iso.format (or_default now env.clock)))
            marked
          ≡ ok settings)
      × (db' ≡ record db { settings = settings })
unfolding request_stop
request_stop_steps env run_id now db db' h =
    let (marked, first, rest) =
      >>=-eq-ok (Settings.set_value stop_request_key (text run_id) db.settings) _ h in
    let (settings, second, last) =
      >>=-eq-ok
        (Settings.set_value (stop_requested_at_key run_id)
          (text (env.iso.format (or_default now env.clock))) marked)
        _ rest in
    (marked, settings, first, second, ground arith)

-- Where dates are read back as written: after a request that was accepted, no row of `runs` has changed, the run's stop is pending, no other
-- run's is, and the request is dated by the given time.
pub request_stop-reads :
    (env : Env) (run_id other : String) (now : Option Time) (db db' : Db)
    → RoundTrips env.iso
    → request_stop env run_id now db ≡ ok db'
    → (db'.runs ≡ db.runs)
      × (is_stop_requested other db' ≡ str_eq run_id other)
      × (stop_requested_at env run_id db' ≡ some (or_default now env.clock))
unfolding is_stop_requested stop_requested_at parse_timestamp
request_stop-reads env run_id other now db db' iso h =
    let (marked, settings, first, second, last) = request_stop_steps env run_id now db db' h in
    let at = stop_requested_at_key run_id in
    let stamp : Json = text (env.iso.format (or_default now env.clock)) in
    let marker =
      (set_value-reads stop_request_key stop_request_key (text run_id) db.settings marked
        first).0 in
    let kept = (set_value-reads at stop_request_key stamp marked settings second).0 in
    let dated = (set_value-reads at at stamp marked settings second).0 in
    rw last (
      refl,
      ground (
        arith,
        marker,
        kept,
        eq_refl stop_request_key,
        eq_iff at stop_request_key,
        stop_requested_at-ne-stop_request run_id,
      ),
      ground (arith, dated, eq_refl at, iso (or_default now env.clock)),
    )

-- Clearing the request of a run leaves no run's stop pending and no date for that run.
pub clear_stop_request-reads :
    (env : Env) (run_id other : String) (db : Db)
    → (is_stop_requested other (clear_stop_request (some run_id) db) ≡ false)
      × (stop_requested_at env run_id (clear_stop_request (some run_id) db) ≡ none)
unfolding is_stop_requested stop_requested_at parse_timestamp clear_stop_request
clear_stop_request-reads env run_id other db =
    let at = stop_requested_at_key run_id in
    let cleared = Settings.delete stop_request_key db.settings in
    (
      ground (
        arith,
        get_value-delete at stop_request_key cleared,
        get_value-delete stop_request_key stop_request_key db.settings,
        eq_refl stop_request_key,
        eq_iff at stop_request_key,
        stop_requested_at-ne-stop_request run_id,
      ),
      ground (arith, get_value-delete at at cleared, eq_refl at),
    )
