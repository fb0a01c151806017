-- ===== src/Examples/Stops.antt =====
-- A stop of the sample runs, the end of a run, and a skipped fire.
use huntloop.Base.{
  ◌↔◌, ℕ, ◌*◌, ◌+◌, ◌-◌, ◌/◌, ◌<◌, ◌≤◌, ◌↔◌, String, ◌≡◌, ◌≢◌, refl, false, Option, none, some,
  List, [], ◌∷◌, arith,
}
use huntloop.Base.Clock.{Time, microseconds, day}
use huntloop.Models.{partial, catch_up, text, Db}
use huntloop.Settings
use huntloop.Settings.{Result, ok, ◌>>=◌}
use huntloop.Runs
use huntloop.Runs.{Finish, finish_if_running, apply_finish}
use huntloop.Liveness.{names, run_is_live, lease_timestamp, parse_timestamp}
use huntloop.Liveness.Keys.{stop_requested_at_key, lease_key}
use huntloop.Stop.{
  listing_gate, requested, request_stop, is_stop_requested, stop_requested_at, stop_gate,
}
use huntloop.Stop.Laws.{request_stop-reads}
use huntloop.RunsApi.{stopped_now, stop_run, stop_requested, not_found}
use huntloop.RunsApi.StopLaws.{stop_run-gates}
use huntloop.Schedule.{catchup_skew, classify_trigger}
use huntloop.Schedule.Laws.{IsDaily, classify_trigger_late}
use huntloop.Graph.Results.{EmployerResult, run_status, totals, finalize_run}
use huntloop.Graph.Results.Laws.{Calls, run_status_iff, finalize_run_row}
use huntloop.Examples.Store.{env, iso-RoundTrips, live, three_runs}

-- What the request leaves in `settings`.
abbrev asked : Db
asked = record three_runs {
  settings =
      record { key = "run_stop_request"; value = text "live"; is_secret = false }
      ∷ record {
        key = "run_stop_requested_at:live";
        value = text (env.iso.format env.clock);
        is_secret = false;
      }
      ∷ [];
}

live_is_asked : stop_run env "live" three_runs ≡ ok (asked, stop_requested)
unfolding stop_run request_stop run_is_live lease_timestamp parse_timestamp Settings.set_value
    Settings.get Settings.get_value Settings.upsert Runs.get stop_requested_at_key lease_key
live_is_asked = refl

stop_run-gates_example :
    (stop_gate "live" asked ≢ none)
    × (stop_requested ≡ stop_requested → listing_gate "live" asked ≡ some requested)
    × (stop_requested ≡ stopped_now → listing_gate "live" asked ≡ none)
stop_run-gates_example =
    stop_run-gates env "live" three_runs asked stop_requested iso-RoundTrips live_is_asked
      (λ e. requested_is_found e)
  where
    requested_is_found : stop_requested ≢ not_found
    requested_is_found e = cc

request_is_made : request_stop env "live" none three_runs ≡ ok asked
unfolding request_stop Settings.set_value Settings.get Settings.upsert stop_requested_at_key
request_is_made = refl

request_stop-reads_example :
    (asked.runs ≡ three_runs.runs)
    × (is_stop_requested "dead" asked ≡ false)
    × (stop_requested_at env "live" asked ≡ some env.clock)
request_stop-reads_example =
    request_stop-reads env "live" "dead" none three_runs asked iso-RoundTrips request_is_made

abbrev result_of : ℕ → Option String → EmployerResult
result_of n failure = record {
  company_name = none;
  fetched = n;
  after_dedup = n;
  after_deterministic = n;
  after_triage = n;
  scored = n;
  written = n;
  tokens_in = n;
  tokens_out = n;
  error = failure;
  stage = none;
  was_capped = false;
}

abbrev one_failed : List EmployerResult
one_failed = result_of 3 none ∷ result_of 1 (some "RuntimeError: no page") ∷ []

abbrev failed_first : List EmployerResult
failed_first = result_of 1 (some "RuntimeError: no page") ∷ result_of 3 none ∷ []

run_status_iff_example : (run_status one_failed ≡ partial) ↔ Calls one_failed partial
run_status_iff_example = run_status_iff one_failed partial

finalize_run_row_example :
    Runs.get "live" (finalize_run env "live" one_failed none none three_runs).0.runs
    ≡ some (
        apply_finish
          (record {
            status = run_status one_failed;
            counters = totals one_failed none;
            error_summary = none;
          })
          env.clock
          live)
unfolding Runs.get is_stop_requested Settings.get_value Settings.get names
finalize_run_row_example = finalize_run_row env "live" one_failed none none three_runs live refl

-- A job that is due at every midnight.
abbrev midnight : Time → Time
midnight t = (t + (day - 1)) / day * day

IsMidnight : Time → Type 0
IsMidnight t = (k : ℕ) × (t ≡ k * day)

every_midnight : IsDaily (λ t. some (midnight t)) IsMidnight
unfolding IsMidnight
every_midnight = record {
  next = midnight;
  found = λ t. refl;
  is_occurrence = λ t. ((t + (day - 1)) / day, refl);
  from_on = λ t. omega arith;
  first = λ t o at le. omega (arith, at.1, le);
}

-- A quarter past midnight, the fire of midnight is late.
classify_trigger_late_example :
    (classify_trigger (λ t. some (midnight t)) (10 * day + 900 * microseconds) ≡ catch_up)
    ↔ (10 * day + catchup_skew < 10 * day + 900 * microseconds)
unfolding IsMidnight
classify_trigger_late_example =
    classify_trigger_late (λ t. some (midnight t)) IsMidnight (10 * day + 900 * microseconds)
      (10 * day) every_midnight (10, refl) a_day_before (omega arith) (omega arith) (omega arith)
  where
    a_day_before : (t : Time) → IsMidnight t → t < 10 * day → t + day ≤ 10 * day
    a_day_before t (k, e) lt = omega (arith, e, lt)
