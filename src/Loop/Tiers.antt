-- ===== src/Loop/Tiers.antt =====
-- src/huntloop/loop/predicted_effect.py: the listings still in play, and the four ways in which the effect of a
-- change on them is told. Nothing is written, so an effect is a function of the backlog. The parsing of places,
-- the regular expressions and the operations on texts are parameters.
pub mod Filters
pub mod Flags
pub mod Literals
pub mod Scores
use huntloop.Base.{
  ℕ, zero, suc, ◌+◌, ◌-◌, ◌*◌, ◌/◌, String, Bool, true, false, not, ◌&&◌, ◌||◌, Option, none, some,
  List, [], ◌∷◌, ◌++◌, map, if◌then◌else◌, ltb, leb, ◌==◌, str_eq, contains, select, take, length,
  sum_of, any, is_some, or_default,
}
use huntloop.Base.Clock.{Time, ℤ, pos, negsuc}
use huntloop.Scoring.{
  Rung, index, NormalizedLocation, NormalizedCompensation, structured, CompensationFloor,
  LocationCriteria, Weight,
}
use huntloop.Scoring.Filters.{
  FilterDecision, Detail, FilterVerdict, check_posting_age, check_geography, is_drop,
}
use huntloop.Scoring.Compensation.{
  FloorComparison, above, below, not_comparable, no_data, compare_to_floor,
}
use huntloop.Scoring.Flags.{detect_seniority}
use huntloop.Scoring.Aggregate.{DimensionScore, Overall, overall, fails, compute_overall_score}
use huntloop.Jobs.{JobStatus, new, shortlisted, applied, interviewing, offer, rejected, withdrawn}
use huntloop.Loop.{
  EditField, seniority_min, seniority_max, posting_age_days, locations, compensation_floor,
  title_keywords, employers, work_authorization, dimension_weights, Value, rung, days, places,
  floor, texts, authorized, weights, ProposedChanges, Supported, supported, unsupported_field,
  require, permitted,
}
use huntloop.Loop.Detect.{BacklogJob, StoredScore, number, object, other_score}

pub record Reading : Type 0 where
  -- `normalize_location(text, platform_is_remote=..)`
  pub normalize : Option String → Option Bool → NormalizedLocation
  -- `re.search`
  pub search : String → String → Bool
  pub casefold : String → String
  -- `needle in text`
  pub occurs : String → String → Bool
  pub is_blank : String → Bool
  -- the least by the order of texts, of a set
  pub first_of : List String → Option String

abbrev pub is_live : JobStatus → Bool
is_live new = true
is_live shortlisted = true
is_live applied = true
is_live interviewing = true
is_live offer = true
is_live rejected = false
is_live withdrawn = false

unfoldable pub load_live_backlog : List BacklogJob → List BacklogJob
load_live_backlog jobs = select (λ j. is_live j.status) jobs

-- `a or b` of texts, where the empty one is false
abbrev pub text_or : Option String → Option String → Option String
text_or none b = b
text_or (some a) b = if str_eq a "" then b else some a

unfoldable pub job_location : Reading → BacklogJob → NormalizedLocation
job_location io j = io.normalize (text_or j.location_normalized j.location_raw) j.is_remote
