-- ===== src/Loop.antt =====
-- src/huntloop/loop/types.py: what the feedback loop may propose to edit, and what a candidate for an edit is.
-- A field that `PERMITTED_EDIT_FIELDS` names is a constructor, any other one is refused when it is read.
pub mod Signals
pub mod Gate
pub mod Detect
pub mod Rationale
pub mod Generate
pub mod Tiers
pub mod Effect
pub mod Narrate
use huntloop.Base.{
  ℕ, suc, ◌+◌, ◌≡◌, ◌↔◌, refl, String, Bool, true, false, Option, none, some, List, [], ◌∷◌,
  if◌then◌else◌, str_eq, leb, length, contains,
}
use huntloop.Base.Clock.{Time, ℤ}
use huntloop.Scoring.{Rung, CriteriaPayload, CompensationFloor, LocationCriteria, Weight}
use huntloop.Jobs.{JobStatus}

pub data Signal : Type 0 where
  fast_reject late_reject progressed neutral : Signal

pub data EditDirection : Type 0 where
  tighten loosen increase decrease : EditDirection

pub data EditField : Type 0 where
  seniority_min seniority_max posting_age_days locations compensation_floor title_keywords employers
        work_authorization dimension_weights :
      EditField

abbrev pub field_name : EditField → String
field_name seniority_min = "seniority_min"
field_name seniority_max = "seniority_max"
field_name posting_age_days = "posting_age_days"
field_name locations = "locations"
field_name compensation_floor = "compensation_floor"
field_name title_keywords = "exclusions.title_keywords"
field_name employers = "exclusions.employers"
field_name work_authorization = "work_authorization"
field_name dimension_weights = "dimension_weights"

abbrev pub all_fields : List EditField
all_fields =
    seniority_min ∷ seniority_max ∷ posting_age_days ∷ locations ∷ compensation_floor
    ∷ title_keywords ∷ employers ∷ work_authorization ∷ dimension_weights ∷ []

abbrev find_field : String → List EditField → Option EditField
find_field name [] = none
find_field name (f ∷ rest) =
    let later = find_field name rest in if str_eq (field_name f) name then some f else later

-- `field in PERMITTED_EDIT_FIELDS`
unfoldable pub permitted : String → Option EditField
permitted name = find_field name all_fields

abbrev pub min_observations : EditField → ℕ
min_observations dimension_weights = 8
min_observations posting_age_days = 5
min_observations locations = 5
min_observations seniority_min = 4
min_observations seniority_max = 4
min_observations compensation_floor = 4
min_observations work_authorization = 4
min_observations title_keywords = 3
min_observations employers = 3

pub record Exclusions : Type 0 where
  pub title_keywords : List String
  pub employers : List String

pub record WorkAuthorization : Type 0 where
  pub countries_authorized : List String
  pub requires_sponsorship : Bool

-- The whole editable payload: beside what scoring reads, the two that it does not.
pub record EditablePayload : Type 0 where
  pub scored : CriteriaPayload
  pub exclusions : Exclusions
  pub work_authorization : WorkAuthorization

-- The values of the fields.
pub data Value : Type 0 where
  rung : Option Rung → Value
  days : ℕ → Value
  places : LocationCriteria → Value
  floor : CompensationFloor → Value
  texts : List String → Value
  authorized : WorkAuthorization → Value
  weights : List Weight → Value

-- An item of `transitions`, with its date.
pub record Transition : Type 0 where
  pub from_ : JobStatus
  pub to : JobStatus
  pub changed_at : Time

-- The evidence that one listing is; `dwell_days` is in hundredths.
pub record Observation : Type 0 where
  pub job_id : String
  pub title : String
  pub company : String
  pub status : JobStatus
  pub dwell_days : Option ℤ
  pub transitions : List Transition
  pub attributed_to : Option String

-- A claim of the user's own words.
pub record FeedbackClaim : Type 0 where
  pub note_id : String
  pub field : String
  pub direction : String
  pub quote : String

pub record EditCandidate : Type 0 where
  pub field : EditField
  pub direction : EditDirection
  pub current_value : Value
  pub proposed_value : Value
  pub signal : Signal
  pub observations : List Observation
  pub feedback_quotes : List FeedbackClaim

unfoldable pub observation_count : EditCandidate → ℕ
observation_count c = length c.observations + length c.feedback_quotes

unfoldable pub meets_threshold : EditCandidate → Bool
unfolding observation_count
meets_threshold c = leb (min_observations c.field) (observation_count c)

abbrev pub direction_value : EditDirection → String
direction_value tighten = "tighten"
direction_value loosen = "loosen"
direction_value increase = "increase"
direction_value decrease = "decrease"

-- `proposed_changes`, as it is stored.
pub record ProposedChanges : Type 0 where
  pub field : String
  pub direction : String
  pub current_value : Value
  pub proposed_value : Value

-- A value, or `UnsupportedEditField`.
pub data Supported {ℓ} (A : Type ℓ) : Type ℓ where
  supported : A → Supported A
  unsupported_field : String → Supported A

abbrev pub require {ℓ} : {A : Type ℓ} → String → (EditField → A) → Option EditField → Supported A
require name f none = unsupported_field name
require name f (some field) = supported (f field)

unfoldable pub build_proposed_changes :
    String → EditDirection → Value → Value → Supported ProposedChanges
unfolding permitted
build_proposed_changes field direction current_value proposed_value =
    require field
      (λ f. record {
        field = field;
        direction = direction_value direction;
        current_value = current_value;
        proposed_value = proposed_value;
      })
      (permitted field)

unfoldable pub edit_signature : ProposedChanges → Supported (String × String)
unfolding permitted
edit_signature changes =
    require changes.field (λ f. (changes.field, changes.direction)) (permitted changes.field)

abbrev pub value_of : EditablePayload → EditField → Value
value_of p seniority_min = rung p.scored.seniority_min
value_of p seniority_max = rung p.scored.seniority_max
value_of p posting_age_days = days p.scored.posting_age_days
value_of p locations = places p.scored.locations
value_of p compensation_floor = floor p.scored.compensation_floor
value_of p title_keywords = texts p.exclusions.title_keywords
value_of p employers = texts p.exclusions.employers
value_of p work_authorization = authorized p.work_authorization
value_of p dimension_weights = weights p.scored.dimension_weights

unfoldable pub resolve_field : EditablePayload → String → Supported Value
unfolding permitted
resolve_field payload field = require field (value_of payload) (permitted field)
