-- ===== src/Examples/Listings.antt =====
-- One listing under the filters, the floor, the flags and the aggregation.
use huntloop.Base.{
  ℕ, ◌*◌, ◌≤◌, ◌≡◌, String, refl, Bool, true, false, ◌&&◌, Option, none, some, is_some, List, [],
  ◌∷◌, arith,
}
use huntloop.Base.Clock.{day}
use huntloop.Scoring.{
  NormalizedLocation, unspecified, CompensationFloor, NormalizedCompensation, structured, mid,
  CriteriaPayload, RawListing,
}
use huntloop.Scoring.Filters.{check_geography, is_drop}
use huntloop.Scoring.Filters.Laws.{check_geography_unresolved, check_geography_widens}
use huntloop.Scoring.Compensation.{below}
use huntloop.Scoring.Flags.{compute_flags}
use huntloop.Scoring.Flags.Laws.{compute_flags_one_direction}
use huntloop.Scoring.Aggregate.{
  DimensionScore, overall, compute_overall_score, missing, assessed, total_weight, has_weight,
  weight_of,
}
use huntloop.Scoring.Aggregate.Laws.{
  compute_overall_score_between, compute_overall_score-scaled, scaled,
}

abbrev pub berlin : NormalizedLocation
berlin = record {
  raw = some "Berlin";
  country_code = some "DE";
  region = some "EMEA";
  remote_scope = unspecified;
  ambiguous = false;
}

abbrev pub pay : NormalizedCompensation
pay = record {
  minimum = some 6000000;
  maximum = none;
  currency = some "EUR";
  period = some "annual";
  source = structured;
}

abbrev pub floor : CompensationFloor
floor = record { amount = some 7000000; currency = some "EUR"; period = "annual" }

abbrev pub listing : RawListing
listing = record {
  title = "Senior Engineer";
  description_plain = "";
  posted_at = some (10 * day);
  location = berlin;
  compensation = pay;
}

abbrev pub criteria : CriteriaPayload
criteria = record {
  seniority_min = none;
  seniority_max = some mid;
  posting_age_days = 30;
  locations = record { eligible_countries = "DE" ∷ []; eligible_regions = [] };
  compensation_floor = floor;
  dimension_weights =
      record { dimension = "role_fit"; weight = 2 }
      ∷ record { dimension = "trajectory"; weight = 1 }
      ∷ [];
}

check_geography_unresolved_example :
    is_drop (
      check_geography
        (record berlin { country_code = none; region = none })
        (record { eligible_countries = "FR" ∷ []; eligible_regions = "NA" ∷ [] }))
    ≡ false
check_geography_unresolved_example =
    check_geography_unresolved (record berlin { country_code = none; region = none })
      (record { eligible_countries = "FR" ∷ []; eligible_regions = "NA" ∷ [] }) refl refl

berlin_is_kept :
    is_drop (
      check_geography berlin
        (record { eligible_countries = "DE" ∷ []; eligible_regions = "NA" ∷ [] }))
    ≡ false
unfolding check_geography
berlin_is_kept = refl

check_geography_widens_example :
    is_drop (
      check_geography berlin
        (record { eligible_countries = "DE" ∷ "FR" ∷ []; eligible_regions = "NA" ∷ [] }))
    ≡ false
check_geography_widens_example =
    check_geography_widens berlin "DE" "NA" [] [] ("FR" ∷ []) [] berlin_is_kept

abbrev pub finds : String → String → Bool
finds pattern title = true

abbrev pub finds_no_language : String → Option (String × String)
finds_no_language description = none

compute_flags_one_direction_example :
    (is_some
        (compute_flags finds finds_no_language listing below criteria none (20 * day)).stretch_role
      && is_some
          (compute_flags finds finds_no_language listing below criteria none (20 * day)).step_down)
    ≡ false
compute_flags_one_direction_example =
    compute_flags_one_direction finds finds_no_language listing below criteria none (20 * day)

abbrev scores : List DimensionScore
scores =
    record { name = "role_fit"; score = some 4 } ∷ record { name = "trajectory"; score = none } ∷ []

scores_are_weighted : missing scores criteria.dimension_weights ≡ []
unfolding missing has_weight
scores_are_weighted = refl

compute_overall_score_between_example :
    (r : ℕ) × (compute_overall_score scores criteria.dimension_weights ≡ overall r)
    × (100 ≤ r)
    × (r ≤ 500)
unfolding total_weight assessed weight_of
compute_overall_score_between_example =
    compute_overall_score_between scores criteria.dimension_weights 1 5 scores_are_weighted
      (omega arith) ((λ n e. ground (arith, e)), ((λ n e. ground (arith, e)), tt))

compute_overall_score-scaled_example :
    compute_overall_score scores (scaled 10 criteria.dimension_weights)
    ≡ compute_overall_score scores criteria.dimension_weights
compute_overall_score-scaled_example =
    compute_overall_score-scaled scores criteria.dimension_weights 10 (omega arith)
