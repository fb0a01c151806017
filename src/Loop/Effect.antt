-- ===== src/Loop/Effect.antt =====
-- src/huntloop/loop/predicted_effect.py, `predict_effect`: the tier of each field that may be edited.
pub mod Counts
pub mod Laws
use huntloop.Loop.Tiers.{Reading, load_live_backlog, job_location}
use huntloop.Loop.Tiers.Filters.{FilterEffect, decide_age, decide_place, predict_filter_change}
use huntloop.Loop.Tiers.Flags.{FlagEffect, seniority_flag, predict_flag_change, comp_below_floor}
use huntloop.Loop.Tiers.Literals.{
  LiteralEffect, literal, mentions, works_at, restricts, count_live, added_term,
}
use huntloop.Loop.Tiers.Scores.{ScoreEffect, predict_score_change}
use huntloop.Base.{
  ℕ, zero, suc, ◌+◌, ◌-◌, ◌*◌, ◌/◌, String, Bool, true, false, not, ◌&&◌, ◌||◌, Option, none, some,
  List, [], ◌∷◌, ◌++◌, map, if◌then◌else◌, ltb, leb, ◌==◌, str_eq, contains, select, take, length,
  sum_of, any, is_some, or_default,
}
use huntloop.Base.Clock.{Time, ℤ, pos, negsuc}
use huntloop.Scoring.{
  Rung, index, NormalizedLocation, NormalizedCompensation, structured, CompensationFloor,
  LocationCriteria, Weight,
}
use huntloop.Scoring.Filters.{
  FilterDecision, Detail, FilterVerdict, check_posting_age, check_geography, is_drop,
}
use huntloop.Scoring.Compensation.{
  FloorComparison, above, below, not_comparable, no_data, compare_to_floor,
}
use huntloop.Scoring.Flags.{detect_seniority}
use huntloop.Scoring.Aggregate.{DimensionScore, Overall, overall, fails, compute_overall_score}
use huntloop.Jobs.{JobStatus, new, shortlisted, applied, interviewing, offer, rejected, withdrawn}
use huntloop.Loop.{
  EditField, seniority_min, seniority_max, posting_age_days, locations, compensation_floor,
  title_keywords, employers, work_authorization, dimension_weights, Value, rung, days, places,
  floor, texts, authorized, weights, ProposedChanges, Supported, supported, unsupported_field,
  require, permitted,
}
use huntloop.Loop.Detect.{BacklogJob, StoredScore, number, object, other_score}

-- The payload, by its `kind`; or the exception of a value that is not one of the field's.
pub data Effect : Type 0 where
  filter_dry_run : EditField → FilterEffect → Effect
  flag_recompute : EditField → FlagEffect → Effect
  literal_count : EditField → LiteralEffect → Effect
  score_recompute : ScoreEffect → Effect
  invalid_value : EditField → Effect

unfoldable pub effect_on :
    Reading → Time → List (String × String) → List BacklogJob → EditField → Value → Value → Effect
unfolding decide_age decide_place predict_filter_change seniority_flag predict_flag_change
    comp_below_floor predict_score_change added_term
effect_on io now names jobs posting_age_days (days before) (days after) =
    filter_dry_run posting_age_days
      (predict_filter_change (decide_age now before) (decide_age now after) false jobs)
effect_on io now names jobs locations (places before) (places after) =
    filter_dry_run locations
      (predict_filter_change (decide_place io before) (decide_place io after) true jobs)
effect_on io now names jobs seniority_min (rung before) (rung after) =
    flag_recompute seniority_min
      (predict_flag_change (seniority_flag io before false) (seniority_flag io after false) jobs)
effect_on io now names jobs seniority_max (rung before) (rung after) =
    flag_recompute seniority_max
      (predict_flag_change (seniority_flag io before true) (seniority_flag io after true) jobs)
effect_on io now names jobs compensation_floor (floor before) (floor after) =
    flag_recompute compensation_floor
      (predict_flag_change (comp_below_floor before) (comp_below_floor after) jobs)
effect_on io now names jobs title_keywords (texts before) (texts after) =
    literal_count title_keywords (literal (mentions io) (added_term io before after) jobs)
effect_on io now names jobs employers (texts before) (texts after) =
    literal_count employers (literal (works_at io names) (added_term io before after) jobs)
effect_on io now names jobs work_authorization before after =
    let live = load_live_backlog jobs in
    literal_count work_authorization
      (record { term = none; matches = count_live (restricts io) live; backlog_size = length live })
effect_on io now names jobs dimension_weights (weights before) (weights after) =
    score_recompute (predict_score_change before after jobs)
effect_on io now names jobs field _ _ = invalid_value field

unfoldable pub predict_effect :
    Reading → Time → List (String × String) → List BacklogJob → ProposedChanges → Supported Effect
unfolding effect_on permitted
predict_effect io now names jobs changes =
    require changes.field
      (λ field. effect_on io now names jobs field changes.current_value changes.proposed_value)
      (permitted changes.field)
