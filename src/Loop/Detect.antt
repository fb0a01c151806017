-- ===== src/Loop/Detect.antt =====
-- src/huntloop/loop/detect.py: candidates for an edit from the stored history. Of a job are read the columns
-- of `BacklogJob`, its JSON columns by their items.
pub mod Weights
pub mod Flags
pub mod Repeats
use huntloop.Base.{
  ℕ, String, Bool, true, false, not, ◌&&◌, ◌||◌, Option, none, some, List, [], ◌∷◌, ◌++◌, map,
  if◌then◌else◌, ltb, leb, ◌==◌, str_eq, contains, is_some, select, any,
}
use huntloop.Base.Clock.{Time, ℤ}
use huntloop.Scoring.{Rung, Weight}
use huntloop.Jobs.{JobStatus}
use huntloop.Loop.Signals.{JobSignal}
use huntloop.Loop.{
  Signal, fast_reject, progressed, EditDirection, EditField, Value, Observation, EditCandidate,
}

-- A value of `score_dimensions`: a number, an object with its `score`, or another value.
pub data StoredScore : Type 0 where
  number : ℕ → StoredScore
  object : Option ℕ → String → StoredScore
  other_score : StoredScore

-- A value of `score_flags`: a Boolean, an object with the truth of its `raised`, or another value.
pub data StoredFlag : Type 0 where
  bare : Bool → StoredFlag
  entry : Bool → String → StoredFlag
  other_flag : StoredFlag

pub record BacklogJob : Type 0 where
  pub id : String
  pub title : String
  pub company_id : String
  pub status : JobStatus
  pub score_dimensions : List (String × StoredScore)
  pub score_flags : List (String × StoredFlag)
  pub location_normalized : Option String
  pub location_raw : Option String
  pub is_remote : Option Bool
  pub posted_at : Option Time
  pub comp_raw : Option String
  pub comp_min : Option ℕ
  pub comp_max : Option ℕ
  pub comp_currency : Option String
  pub comp_period : Option String
  pub work_auth_required : Option String

-- `_Record`
pub record Listed : Type 0 where
  pub signal : JobSignal
  pub job : BacklogJob
  pub company_name : String

-- `_DIMENSION_INDEX.get(name, len(DIMENSION_ORDER))`
abbrev pub dimension_index : String → ℕ
dimension_index name =
    if str_eq name "role_fit"
    then 0
    else if str_eq name "seniority_fit"
    then 1
    else if str_eq name "employer_fit"
    then 2
    else if str_eq name "trajectory"
    then 3
    else 4

unfoldable pub numeric : List (String × StoredScore) → List (String × ℕ)
numeric [] = []
numeric ((name, number n) ∷ rest) = (name, n) ∷ numeric rest
numeric ((name, object n why) ∷ rest) = numeric rest
numeric ((name, other_score) ∷ rest) = numeric rest

-- The order of the key `(value, index)`, and the first of the least.
abbrev lower : String × ℕ → String × ℕ → Bool
lower a b = ltb a.1 b.1 || ((a.1 == b.1) && ltb (dimension_index a.0) (dimension_index b.0))

abbrev lowest : String × ℕ → List (String × ℕ) → String
lowest best [] = best.0
lowest best (item ∷ rest) =
    let kept = lowest best rest in
    let taken = lowest item rest in if lower item best then taken else kept

abbrev lowest_of : List (String × ℕ) → Option String
lowest_of [] = none
lowest_of (item ∷ rest) = some (lowest item rest)

unfoldable pub attribute_dimension : BacklogJob → Option String
unfolding numeric
attribute_dimension job = lowest_of (numeric job.score_dimensions)

abbrev pub flag_order : List String
flag_order =
    "stretch_role" ∷ "step_down" ∷ "language_requirement" ∷ "location_ambiguity"
    ∷ "comp_below_floor" ∷ "posting_stale" ∷ []

abbrev flag_is_raised : Option StoredFlag → Bool
flag_is_raised none = false
flag_is_raised (some (bare raised)) = raised
flag_is_raised (some (entry raised why)) = raised
flag_is_raised (some other_flag) = false

-- `flags.get(name)`
abbrev get_flag : List (String × StoredFlag) → String → Option StoredFlag
get_flag [] name = none
get_flag ((key, value) ∷ rest) name =
    let later = get_flag rest name in if str_eq key name then some value else later

unfoldable pub raised_flags : BacklogJob → List String
raised_flags job = select (λ name. flag_is_raised (get_flag job.score_flags name)) flag_order

unfoldable pub observation : Listed → Option String → Observation
observation r attributed_to = record {
  job_id = r.job.id;
  title = r.job.title;
  company = r.company_name;
  status = r.job.status;
  dwell_days = r.signal.dwell_days;
  transitions = r.signal.transitions;
  attributed_to = attributed_to;
}

unfoldable pub observations : List Listed → List Observation
unfolding observation attribute_dimension
observations records = map (λ r. observation r (attribute_dimension r.job)) records

-- `_candidate_from_changes` of a field that is permitted: here the field is one of the enumerated.
abbrev pub candidate : EditField → EditDirection → Value → Value → List Observation → EditCandidate
candidate field direction current_value proposed_value observed = record {
  field = field;
  direction = direction;
  current_value = current_value;
  proposed_value = proposed_value;
  signal = fast_reject;
  observations = observed;
  feedback_quotes = [];
}
