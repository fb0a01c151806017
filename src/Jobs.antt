-- ===== src/Jobs.antt =====
-- src/huntloop/discovery/write.py and src/huntloop/db/repository.py, `JobRepository`: the one way of a listing
-- into `jobs`, and the statuses that the user gives. The dedup key is computed before, and given here.
pub mod Writing
pub mod History
use huntloop.Base.{
  ℕ, String, Bool, true, false, Option, none, some, List, [], ◌∷◌, ◌++◌, if◌then◌else◌, or_default,
  str_eq, is_some,
}
use huntloop.Base.Clock.{Time}
use huntloop.Scoring.Pipeline.{FilterTier}

pub data JobStatus : Type 0 where
  new shortlisted applied interviewing offer rejected withdrawn : JobStatus

-- The columns that are taken from the listing as they are.
pub record Posting : Type 0 where
  pub external_id : Option String
  pub url : String
  pub title : String
  pub location_raw : Option String
  pub is_remote : Option Bool
  pub posted_at : Option Time
  pub description : Option String
  pub comp_raw : Option String
  pub comp_min : Option ℕ
  pub comp_max : Option ℕ
  pub comp_currency : Option String
  pub comp_period : Option String

-- The `score_*` and `scored_*` columns but the time; JSON columns are their text.
pub record Score : Type 0 where
  pub score_overall : Option ℕ
  pub score_dimensions : String
  pub score_flags : String
  pub score_summary : String
  pub criteria_version : Option ℕ
  pub rubric_version : String
  pub model : String

pub record Job : Type 0 where
  pub id : String
  pub dedup_key : String
  pub company_id : String
  pub posting : Posting
  pub filter_tier_reached : FilterTier
  pub source_run_id : String
  pub first_seen_at : Time
  pub last_seen_at : Time
  pub status : JobStatus
  pub score : Option (Score × Time)

pub record StatusEvent : Type 0 where
  pub job_id : String
  pub from_status : JobStatus
  pub to_status : JobStatus
  pub changed_at : Time

pub record Tracker : Type 0 where
  pub jobs : List Job
  pub events : List StatusEvent

-- `get_by_dedup_key`
unfoldable pub get_by_dedup_key : String → List Job → Option Job
get_by_dedup_key key [] = none
get_by_dedup_key key (j ∷ rest) =
    let later = get_by_dedup_key key rest in if str_eq j.dedup_key key then some j else later

-- `session.get(Job, id)`
unfoldable pub get_job : String → List Job → Option Job
get_job id [] = none
get_job id (j ∷ rest) = let later = get_job id rest in if str_eq j.id id then some j else later

-- A write of the row with a key, or with an id.
unfoldable pub update_by_key : String → (Job → Job) → List Job → List Job
update_by_key key f [] = []
update_by_key key f (j ∷ rest) =
    let later = update_by_key key f rest in if str_eq j.dedup_key key then f j ∷ rest else j ∷ later

unfoldable pub update_by_id : String → (Job → Job) → List Job → List Job
update_by_id id f [] = []
update_by_id id f (j ∷ rest) =
    let later = update_by_id id f rest in if str_eq j.id id then f j ∷ rest else j ∷ later

-- The values that `write_listing` gives to `upsert_discovered`, all of them discovery-owned.
pub record Discovered : Type 0 where
  pub dedup_key : String
  pub company_id : String
  pub posting : Posting
  pub filter_tier_reached : FilterTier
  pub source_run_id : String
  pub last_seen_at : Time
  pub first_seen_at : Option Time

-- DO UPDATE SET of the columns among the values; `first_seen_at` is one only if it is given.
abbrev pub refresh : Discovered → Job → Job
refresh d j = record j {
  company_id = d.company_id;
  posting = d.posting;
  filter_tier_reached = d.filter_tier_reached;
  source_run_id = d.source_run_id;
  last_seen_at = d.last_seen_at;
  first_seen_at = or_default d.first_seen_at j.first_seen_at;
}

-- The row that is inserted, with the defaults of the columns that are not among the values.
abbrev pub inserted_row : String → Time → Discovered → Job
inserted_row id clock d = record {
  id = id;
  dedup_key = d.dedup_key;
  company_id = d.company_id;
  posting = d.posting;
  filter_tier_reached = d.filter_tier_reached;
  source_run_id = d.source_run_id;
  first_seen_at = or_default d.first_seen_at clock;
  last_seen_at = d.last_seen_at;
  status = new;
  score = none;
}

-- INSERT .. ON CONFLICT (dedup_key); `id` is the UUID for a new row
unfoldable pub upsert_discovered : String → Time → Discovered → List Job → List Job
upsert_discovered id clock d jobs =
    if is_some (get_by_dedup_key d.dedup_key jobs)
    then update_by_key d.dedup_key (refresh d) jobs
    else jobs ++ (inserted_row id clock d ∷ [])

abbrev pub scored_row : Score → FilterTier → Time → Job → Job
scored_row score tier clock j = record j { score = some (score, clock); filter_tier_reached = tier }

-- `mark_scored` of the row that has the key
unfoldable pub mark_scored : String → Score → FilterTier → Time → List Job → List Job
mark_scored key score tier clock jobs = update_by_key key (scored_row score tier clock) jobs

-- What `write_listing` reads of a `ScoredListing`: `score` is `none` unless it is scored.
pub record Listing : Type 0 where
  pub dedup_key : String
  pub posting : Posting
  pub tier_reached : FilterTier
  pub score : Option Score

abbrev pub discovered : Listing → String → String → Time → Option Job → Discovered
discovered l company_id run_id now existing = record {
  dedup_key = l.dedup_key;
  company_id = company_id;
  posting = l.posting;
  filter_tier_reached = l.tier_reached;
  source_run_id = run_id;
  last_seen_at = now;
  first_seen_at = if is_some existing then none else some now;
}

abbrev pub mark_if_scored : Listing → Time → List Job → List Job
mark_if_scored l clock jobs = elim l.score [
  | none ↦ jobs
  | some score ↦ mark_scored l.dedup_key score l.tier_reached clock jobs
]

-- The Boolean is whether the row was inserted.
unfoldable pub write_listing :
    String → Listing → String → String → Option Time → Time → List Job → List Job × Bool
unfolding upsert_discovered mark_scored
write_listing id l company_id run_id now clock jobs =
    let existing = get_by_dedup_key l.dedup_key jobs in
    let d = discovered l company_id run_id (or_default now clock) existing in
    (
      mark_if_scored l clock (upsert_discovered id clock d jobs),
      if is_some existing then false else true,
    )

abbrev pub with_status : JobStatus → Job → Job
with_status to j = record j { status = to }

abbrev set_on : String → JobStatus → Time → Tracker → Option Job → Option Tracker
set_on id to clock t none = none
set_on id to clock t (some j) = some (record {
  jobs = update_by_id id (with_status to) t.jobs;
  events =
      record { job_id = id; from_status = j.status; to_status = to; changed_at = clock } ∷ t.events;
})

-- The events are kept newest first; `none` is the AttributeError of an absent job.
unfoldable pub set_status : String → JobStatus → Time → Tracker → Option Tracker
unfolding update_by_id
set_status id to clock t = set_on id to clock t (get_job id t.jobs)
