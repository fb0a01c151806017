-- ===== src/Scoring/Flags.antt =====
-- src/huntloop/scoring/flags.py: the six advisory flags. The two functions of the standard library's
-- `re` module that find a pattern in a text are parameters.
pub mod Laws
use huntloop.Base.{
  ℕ, String, Bool, true, false, Option, none, some, List, [], ◌∷◌, if◌then◌else◌, ltb, ◌&&◌,
}
use huntloop.Base.Clock.{Time, ℤ, days_between, exceeds}
use huntloop.Scoring.{
  Rung, index, intern, junior, mid, senior, staff, principal, director, vp, c_level,
  NormalizedLocation, NormalizedCompensation, CompensationFloor, CriteriaPayload, RawListing,
}
use huntloop.Scoring.Compensation.{FloorComparison, above, below, not_comparable, no_data}
use huntloop.Scoring.Filters.{FilterDecision, Detail, no_reliable_date}

pub record Marker : Type 0 where
  pub pattern : String
  pub rung : Rung

abbrev pub seniority_markers : List Marker
seniority_markers =
    record { pattern = "\\b(chief|c[- ]level|cto|ceo|cfo|cpo)\\b"; rung = c_level }
    ∷ record { pattern = "\\b(vp|vice president)\\b"; rung = vp }
    ∷ record { pattern = "\\b(head of|director)\\b"; rung = director }
    ∷ record { pattern = "\\b(principal|distinguished|fellow)\\b"; rung = principal }
    ∷ record { pattern = "\\b(staff)\\b"; rung = staff }
    ∷ record { pattern = "\\b(senior|sr\\.?|lead)\\b"; rung = senior }
    ∷ record { pattern = "\\b(mid[- ]level|intermediate)\\b"; rung = mid }
    ∷ record { pattern = "\\b(junior|jr\\.?|associate|graduate|entry[- ]level)\\b"; rung = junior }
    ∷ record { pattern = "\\b(intern|internship)\\b"; rung = intern }
    ∷ []

-- What stands in the text of a raised flag.
pub data FlagDetail : Type 0 where
  above_ceiling below_floor : Rung → Rung → FlagDetail
  requires : String → String → FlagDetail
  unresolved_location : Option String → FlagDetail
  low_pay : NormalizedCompensation → CompensationFloor → FlagDetail
  no_date : FlagDetail
  old_posting : ℤ → ℕ → FlagDetail

-- `none` is a flag that is not raised.
pub record Flags : Type 0 where
  pub stretch_role : Option FlagDetail
  pub step_down : Option FlagDetail
  pub language_requirement : Option FlagDetail
  pub location_ambiguity : Option FlagDetail
  pub comp_below_floor : Option FlagDetail
  pub posting_stale : Option FlagDetail

abbrev exceeds_ceiling : Rung → Option Rung → Bool
exceeds_ceiling rung none = false
exceeds_ceiling rung (some ceiling) = ltb (index ceiling) (index rung)

abbrev pub stretch : Option Rung → Option Rung → Option FlagDetail
stretch none ceiling = none
stretch (some rung) none = none
stretch (some rung) (some ceiling) =
    if ltb (index ceiling) (index rung) then some (above_ceiling rung ceiling) else none

abbrev pub stepped_down : Option Rung → Option Rung → Option Rung → Option FlagDetail
stepped_down none floor ceiling = none
stepped_down (some rung) none ceiling = none
stepped_down (some rung) (some floor) ceiling =
    if exceeds_ceiling rung ceiling
    then none
    else if ltb (index rung) (index floor)
    then some (below_floor rung floor)
    else none

abbrev language_flag : Option (String × String) → Option FlagDetail
language_flag none = none
language_flag (some (name, phrase)) = some (requires name phrase)

abbrev pay_flag : NormalizedCompensation → CompensationFloor → FloorComparison → Option FlagDetail
pay_flag comp floor below = some (low_pay comp floor)
pay_flag comp floor _ = none

abbrev names_no_date : Detail → Bool
names_no_date no_reliable_date = true
names_no_date _ = false

abbrev aged : Time → Option Time → ℕ → Option FlagDetail
aged clock none limit = none
aged clock (some posted_at) limit =
    let age = days_between clock posted_at in
    if exceeds age limit then some (old_posting age limit) else none

abbrev stale_flag : Time → Option FilterDecision → Option Time → ℕ → Option FlagDetail
stale_flag clock none posted_at limit = aged clock posted_at limit
stale_flag clock (some decision) posted_at limit =
    if decision.uncertain && names_no_date decision.detail
    then some no_date
    else aged clock posted_at limit

-- `search` is `re.search` with IGNORECASE; `detect_required_language` is what the two language patterns
-- find in a description, checked against the language list of pycountry.
module _ (search : String → String → Bool)
    (detect_required_language : String → Option (String × String)) where
  unfoldable first_marker : String → List Marker → Option Rung
  first_marker title [] = none
  first_marker title (m ∷ rest) =
      let later = first_marker title rest in if search m.pattern title then some m.rung else later

  unfoldable pub detect_seniority : String → Option Rung
  unfolding first_marker
  detect_seniority title = first_marker title seniority_markers

  -- `clock` is `datetime.now(UTC)`, which is read here whatever clock the filters were given.
  unfoldable pub compute_flags :
      RawListing → FloorComparison → CriteriaPayload → Option FilterDecision → Time → Flags
  compute_flags listing floor_comparison criteria posting_age_decision clock =
      let rung = detect_seniority listing.title in
      record {
        stretch_role = stretch rung criteria.seniority_max;
        step_down = stepped_down rung criteria.seniority_min criteria.seniority_max;
        language_requirement = language_flag (detect_required_language listing.description_plain);
        location_ambiguity =
            if listing.location.ambiguous
            then some (unresolved_location listing.location.raw)
            else none;
        comp_below_floor =
            pay_flag listing.compensation criteria.compensation_floor floor_comparison;
        posting_stale =
            stale_flag clock posting_age_decision listing.posted_at criteria.posting_age_days;
      }
