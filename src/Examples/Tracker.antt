-- ===== src/Examples/Tracker.antt =====
-- A listing that is found again, and a job that the user shortlists.
use huntloop.Base.{String, ◌≡◌, refl, arith, false, none, some, List, [], ◌∷◌}
use huntloop.Base.Clock.{Time}
use huntloop.Scoring.Pipeline.{deterministic}
use huntloop.Jobs.{
  JobStatus, new, shortlisted, applied, Posting, Job, StatusEvent, Tracker, Listing,
  get_by_dedup_key, get_job, update_by_id, set_status, write_listing,
}
use huntloop.Jobs.Writing.{write_listing_known}
use huntloop.Jobs.History.{Consistent, set_status-Consistent}

abbrev posting_of : String → Posting
posting_of title = record {
  external_id = none;
  url = "https://example.org/jobs/1";
  title = title;
  location_raw = none;
  is_remote = none;
  posted_at = none;
  description = none;
  comp_raw = none;
  comp_min = none;
  comp_max = none;
  comp_currency = none;
  comp_period = none;
}

abbrev job_of : String → String → JobStatus → Job
job_of id key status = record {
  id = id;
  dedup_key = key;
  company_id = "acme";
  posting = posting_of "Engineer";
  filter_tier_reached = deterministic;
  source_run_id = "run1";
  first_seen_at = 5;
  last_seen_at = 5;
  status = status;
  score = none;
}

abbrev first_job : Job
first_job = job_of "j1" "acme:1" shortlisted

abbrev second_job : Job
second_job = job_of "j2" "acme:2" new

abbrev pub jobs : List Job
jobs = first_job ∷ second_job ∷ []

abbrev pub found_again : Listing
found_again = record {
  dedup_key = "acme:1";
  posting = posting_of "Senior Engineer";
  tier_reached = deterministic;
  score = none;
}

write_listing_known_example :
    (get_by_dedup_key "acme:1" (write_listing "j3" found_again "acme" "run2" none 9 jobs).0
      ≡ some (record first_job {
        posting = posting_of "Senior Engineer";
        source_run_id = "run2";
        last_seen_at = 9;
      }))
    × ((write_listing "j3" found_again "acme" "run2" none 9 jobs).1 ≡ false)
unfolding get_by_dedup_key
write_listing_known_example =
    write_listing_known "j3" found_again "acme" "run2" none 9 jobs first_job refl

abbrev event_of : JobStatus → JobStatus → Time → StatusEvent
event_of before to time = record {
  job_id = "j1";
  from_status = before;
  to_status = to;
  changed_at = time;
}

abbrev before_applying : Tracker
before_applying = record {
  jobs = job_of "j1" "acme:1" shortlisted ∷ [];
  events = event_of new shortlisted 6 ∷ [];
}

abbrev after_applying : Tracker
after_applying = record {
  jobs = job_of "j1" "acme:1" applied ∷ [];
  events = event_of shortlisted applied 7 ∷ event_of new shortlisted 6 ∷ [];
}

before-Consistent : Consistent before_applying
unfolding get_job
before-Consistent = record { current = λ id j e. ground (arith, e); chained = (refl, tt) }

applied_now : set_status "j1" applied 7 before_applying ≡ some after_applying
unfolding set_status get_job update_by_id
applied_now = refl

set_status-Consistent_example : Consistent after_applying
set_status-Consistent_example =
    set_status-Consistent "j1" applied 7 before_applying after_applying before-Consistent
      applied_now
