-- ===== src/Models.antt =====
-- src/huntloop/db/models.py: the enumerations and the rows of the main store that the run lifecycle
-- reads and writes. A UUID is its canonical text, an amount of money is in millionths of a dollar
-- (the column is Numeric(12, 6)), and a table is the list of its rows.
use huntloop.Base.{ℕ, String, Bool, true, false, Option, List}
use huntloop.Base.Clock.{Time}

pub data RunTrigger : Type 0 where
  scheduled manual catch_up : RunTrigger

pub data RunStatus : Type 0 where
  running success partial failed skipped capped stopped : RunStatus

-- `status is RunStatus.RUNNING`
abbrev pub is_running : RunStatus → Bool
is_running running = true
is_running _ = false

-- The counters of a run, from `companies_checked` to `cost_usd`.
pub record Counters : Type 0 where
  pub companies_checked : ℕ
  pub listings_fetched : ℕ
  pub after_dedup : ℕ
  pub after_deterministic : ℕ
  pub after_triage : ℕ
  pub scored : ℕ
  pub new_jobs_written : ℕ
  pub tokens_in : ℕ
  pub tokens_out : ℕ
  pub cost_usd : ℕ

abbrev pub zero_counters : Counters
zero_counters = record {
  companies_checked = 0;
  listings_fetched = 0;
  after_dedup = 0;
  after_deterministic = 0;
  after_triage = 0;
  scored = 0;
  new_jobs_written = 0;
  tokens_in = 0;
  tokens_out = 0;
  cost_usd = 0;
}

pub record Run : Type 0 where
  pub id : String
  pub trigger : RunTrigger
  pub status : RunStatus
  pub started_at : Time
  pub finished_at : Option Time
  pub counters : Counters
  pub error_summary : Option String

-- A value of the JSON column of `settings`: `other` holds the text of a number, a Boolean, a list
-- or an object, which the code modelled here tells from a string and looks into no further.
pub data Json : Type 0 where
  null : Json
  text : String → Json
  other : String → Json

pub record Setting : Type 0 where
  pub key : String
  pub value : Json
  pub is_secret : Bool

-- The two tables, as a session sees them.
pub record Db : Type 0 where
  pub runs : List Run
  pub settings : List Setting
