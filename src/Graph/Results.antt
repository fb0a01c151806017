-- ===== src/Graph/Results.antt =====
-- src/huntloop/graph/state.py and src/huntloop/graph/nodes.py, `run_status` and `finalize_run`: from the
-- results that the branches appended, in whatever order they ended, to the terminal row.
pub mod Laws
use huntloop.Base.{
  ℕ, String, ◌<>◌, Bool, true, false, not, ◌&&◌, Option, none, some, List, [], ◌∷◌, ◌++◌,
  if◌then◌else◌, or_default, str_eq, select, any, sum_of, length, map, ◌==◌,
}
use huntloop.Models.{RunStatus, success, partial, failed, capped, Counters, Db}
use huntloop.Runs.{Finish, finish_if_running}
use huntloop.Liveness.{Env}
use huntloop.Stop.{Stopped, stop_gate}
use huntloop.Scoring.Spend.{SpendTracker}

-- The keys that are read; a missing number is 0 and a missing `capped` is false.
pub record EmployerResult : Type 0 where
  pub company_name : Option String
  pub fetched : ℕ
  pub after_dedup : ℕ
  pub after_deterministic : ℕ
  pub after_triage : ℕ
  pub scored : ℕ
  pub written : ℕ
  pub tokens_in : ℕ
  pub tokens_out : ℕ
  pub error : Option String
  pub stage : Option String
  pub was_capped : Bool

-- `r.get("error")` as a condition
abbrev pub has_error : EmployerResult → Bool
has_error r = elim r.error [ none ↦ false | some s ↦ not (str_eq s "") ]

unfoldable pub run_status : List EmployerResult → RunStatus
run_status results =
    let errors = select has_error results in
    if not (length results == 0) && (length errors == length results)
    then failed
    else if not (length errors == 0)
    then partial
    else if any (λ r. r.was_capped) results
    then capped
    else success

abbrev tokens_or : Option SpendTracker → (SpendTracker → ℕ) → ℕ → ℕ
tokens_or none of_tracker summed = summed
tokens_or (some t) of_tracker summed = of_tracker t

-- `totals`, with `cost_usd`
unfoldable pub totals : List EmployerResult → Option SpendTracker → Counters
totals results tracker = record {
  companies_checked = length results;
  listings_fetched = sum_of (λ (r : EmployerResult). r.fetched) results;
  after_dedup = sum_of (λ (r : EmployerResult). r.after_dedup) results;
  after_deterministic = sum_of (λ (r : EmployerResult). r.after_deterministic) results;
  after_triage = sum_of (λ (r : EmployerResult). r.after_triage) results;
  scored = sum_of (λ (r : EmployerResult). r.scored) results;
  new_jobs_written = sum_of (λ (r : EmployerResult). r.written) results;
  tokens_in =
      tokens_or tracker (λ t. t.tokens_in) (sum_of (λ (r : EmployerResult). r.tokens_in) results);
  tokens_out =
      tokens_or tracker (λ t. t.tokens_out) (sum_of (λ (r : EmployerResult). r.tokens_out) results);
  cost_usd = tokens_or tracker (λ t. t.spent_usd) 0;
}

-- How the node ends.
pub data Node : Type 0 where
  returned : Node
  raised_stop : Stopped → Node

module _ (env : Env) where
  abbrev pub finalized :
      String
      → List EmployerResult
      → Option SpendTracker
      → Option String
      → Db
      → Option Stopped
      → Db × Node
  finalized run_id results tracker summary db (some why) = (db, raised_stop why)
  finalized run_id results tracker summary db none = (
    (finish_if_running run_id
        (record {
          status = run_status results;
          counters = totals results tracker;
          error_summary = summary;
        })
        env.clock db).0,
    returned,
  )

  -- `summary` is the text that is joined from the errors and the notes.
  unfoldable pub finalize_run :
      String → List EmployerResult → Option SpendTracker → Option String → Db → Db × Node
  finalize_run run_id results tracker summary db =
      finalized run_id results tracker summary db (stop_gate run_id db)
