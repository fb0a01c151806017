-- ===== src/Scoring/Pipeline.antt =====
-- src/huntloop/scoring/pipeline.py, with the two model calls of src/huntloop/scoring/triage.py and
-- src/huntloop/scoring/dimensions.py. What the model service answers to a call is a parameter, and the
-- tracker is passed from step to step, on every path, as it is where no other thread uses it meanwhile.
pub mod Laws
use huntloop.Base.{
  ℕ, String, Bool, true, false, not, Option, none, some, List, [], ◌∷◌, ◌++◌, if◌then◌else◌, str_eq,
}
use huntloop.Base.Clock.{Time}
use huntloop.Scoring.{CriteriaPayload, RawListing}
use huntloop.Scoring.Filters.{
  FilterDecision, FilterOutcome, Detail, apply_deterministic_filters, check_posting_age,
}
use huntloop.Scoring.Compensation.{compare_to_floor}
use huntloop.Scoring.Flags.{Flags, compute_flags}
use huntloop.Scoring.Aggregate.{
  DimensionScore, Overall, overall, fails, ScoreError, key_error, unscoreable_error,
  compute_overall_score,
}
use huntloop.Scoring.Spend.{LlmUsage, SpendTracker, cap_reached, fold_usage}

pub data FilterTier : Type 0 where
  deterministic triage full : FilterTier

abbrev pub is_full : FilterTier → Bool
is_full t = elim t [ full ↦ true | _ ↦ false ]

-- The content and the usage of a validated reply to the triage call.
pub record TriagePayload : Type 0 where
  pub keep : Bool
  pub reason : String
  pub usage : LlmUsage

-- One of the four members of a `ScoringResponse`.
pub record DimensionReply : Type 0 where
  pub name : String
  pub score : Option ℕ
  pub reason : String

pub record ScoringResponse : Type 0 where
  pub dimensions : List DimensionReply
  pub summary : String
  pub usage : LlmUsage
  pub model : String

-- What `complete_json` makes of a call: the validated content, `LlmResponseError` for content that is
-- not of the schema, or another exception.
pub data Reply (A : Type 0) : Type 0 where
  replied : A → Reply A
  response_error : String → Reply A
  other_error : String → Reply A

-- What a listing is answered with, and the parameters of the flags.
pub record Services : Type 0 where
  pub ask_triage : RawListing → Reply TriagePayload
  pub ask_dimensions : RawListing → Reply ScoringResponse
  pub search : String → String → Bool
  pub detect_required_language : String → Option (String × String)
  -- `active_scoring_config().version`
  pub rubric_version : String

pub record TriageVerdict : Type 0 where
  pub keep : Bool
  pub reason : String
  pub errored : Bool
  pub usage : Option LlmUsage

abbrev kept_by_default : String → TriageVerdict
kept_by_default exc = record { keep = true; reason = exc; errored = true; usage = none }

abbrev pub verdict_of : Reply TriagePayload → TriageVerdict
verdict_of (replied p) = record {
  keep = p.keep;
  reason = p.reason;
  errored = false;
  usage = some p.usage;
}
verdict_of (response_error exc) = kept_by_default exc
verdict_of (other_error exc) = kept_by_default exc

unfoldable pub triage_listing : Services → RawListing → TriageVerdict
triage_listing services listing = verdict_of (services.ask_triage listing)

pub data DropReason : Type 0 where
  by_filter : Option FilterDecision → DropReason
  by_triage : String → DropReason

-- `f"overall not computable: {exc}"`, or the empty text
pub data Note : Type 0 where
  no_note not_computable : Note

-- `none` for a text that is empty.
pub record ScoredListing : Type 0 where
  pub listing : RawListing
  pub scored : Bool
  pub tier_reached : FilterTier
  pub overall_score : Option ℕ
  pub dimensions : List DimensionReply
  pub flags : Option Flags
  pub summary : Option String
  pub criteria_version : Option ℕ
  pub rubric_version : Option String
  pub model : Option String
  pub drop_reason : Option DropReason
  pub error : Option String
  pub note : Note
  pub usage : List LlmUsage

abbrev pub unscored : RawListing → FilterTier → List LlmUsage → ScoredListing
unscored listing tier usage = record {
  listing = listing;
  scored = false;
  tier_reached = tier;
  overall_score = none;
  dimensions = [];
  flags = none;
  summary = none;
  criteria_version = none;
  rubric_version = none;
  model = none;
  drop_reason = none;
  error = none;
  note = no_note;
  usage = usage;
}

-- How `score_listing` ends: with a listing, with `SpendCapReached`, or with an exception of the call or
-- of the aggregation, which it lets through.
pub data Scoring : Type 0 where
  done : ScoredListing → Scoring
  spend_cap_reached : Scoring
  raises : String → Scoring

abbrev pub check : Option SpendTracker → Bool
check none = false
check (some t) = cap_reached t

abbrev pub note : Option LlmUsage → Option SpendTracker → Option SpendTracker
note usage none = none
note usage (some t) = some (fold_usage usage t)

abbrev pub used : Option LlmUsage → List LlmUsage
used none = []
used (some u) = u ∷ []

-- `to_dimension_scores`
unfoldable pub to_dimension_scores : List DimensionReply → List DimensionScore
to_dimension_scores [] = []
to_dimension_scores (d ∷ rest) =
    record { name = d.name; score = d.score } ∷ to_dimension_scores rest

module _ (services : Services) (criteria : CriteriaPayload) (version : Option ℕ)
    (now clock : Time) where
  abbrev flags_of : RawListing → Flags
  flags_of listing =
      compute_flags services.search services.detect_required_language listing
        (compare_to_floor listing.compensation criteria.compensation_floor) criteria
        (some (check_posting_age listing.posted_at (some criteria.posting_age_days) now)) clock

  abbrev scored_as : RawListing → ScoringResponse → List LlmUsage → Option ℕ → Note → Scoring
  scored_as listing r usage score remark = done (record {
    listing = listing;
    scored = true;
    tier_reached = full;
    overall_score = score;
    dimensions = r.dimensions;
    flags = some (flags_of listing);
    summary = if str_eq r.summary "" then none else some r.summary;
    criteria_version = version;
    rubric_version = some services.rubric_version;
    model = some r.model;
    drop_reason = none;
    error = none;
    note = remark;
    usage = usage;
  })

  -- The fifth stage. Only `UnscoreableError` is caught.
  abbrev pub aggregated : RawListing → ScoringResponse → List LlmUsage → Overall → Scoring
  aggregated listing r usage (overall score) = scored_as listing r usage (some score) no_note
  aggregated listing r usage (fails unscoreable_error) =
      scored_as listing r usage none not_computable
  aggregated listing r usage (fails (key_error names)) = raises "KeyError"

  abbrev pub after_dimensions :
      RawListing
      → List LlmUsage
      → Reply ScoringResponse
      → Option SpendTracker
      → Option SpendTracker × Scoring
  after_dimensions listing usage (replied r) tracker = (
    note (some r.usage) tracker,
    aggregated listing r (usage ++ (r.usage ∷ []))
        (compute_overall_score (to_dimension_scores r.dimensions) criteria.dimension_weights),
  )
  after_dimensions listing usage (response_error exc) tracker =
      (tracker, done (record (unscored listing triage usage) { error = some exc }))
  after_dimensions listing usage (other_error exc) tracker = (tracker, raises exc)

  abbrev pub after_triage :
      RawListing → TriageVerdict → Option SpendTracker → Option SpendTracker × Scoring
  after_triage listing verdict tracker =
      if verdict.keep
      then if check tracker
        then (tracker, spend_cap_reached)
        else after_dimensions listing (used verdict.usage) (services.ask_dimensions listing) tracker
      else (
        tracker,
        done (record (unscored listing triage (used verdict.usage)) {
          drop_reason = some (by_triage verdict.reason);
        }),
      )

  abbrev pub after_filters : RawListing → Option SpendTracker → Option SpendTracker × Scoring
  after_filters listing tracker =
      if check tracker
      then (tracker, spend_cap_reached)
      else (let verdict = triage_listing services listing in
          after_triage listing verdict (note verdict.usage tracker))

  unfoldable pub score_listing : RawListing → Option SpendTracker → Option SpendTracker × Scoring
  unfolding to_dimension_scores triage_listing
  score_listing listing tracker =
      let outcome = apply_deterministic_filters listing criteria now in
      if outcome.passed then after_filters listing tracker else (
        tracker,
        done (record (unscored listing deterministic []) {
          drop_reason = some (by_filter outcome.first_drop);
        }),
      )
