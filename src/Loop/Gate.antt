-- ===== src/Loop/Gate.antt =====
-- src/huntloop/loop/detect.py, `gate` and `build_evidence`: which candidates have enough evidence, and what
-- is shown of it.
pub mod Laws
use huntloop.Base.{
  ℕ, String, Bool, true, false, ◌&&◌, ◌||◌, List, [], ◌∷◌, if◌then◌else◌, ltb, ◌==◌, select, take,
  length,
}
use huntloop.Base.Sort.{sort}
use huntloop.Registry.{text_le}
use huntloop.Loop.{
  Signal, Observation, FeedbackClaim, EditCandidate, observation_count, meets_threshold, field_name,
  min_observations,
}

-- The order of the key `(-observation_count, field)`.
unfoldable pub more_observed : EditCandidate → EditCandidate → Bool
more_observed a b =
    ltb (observation_count b) (observation_count a)
    || ((observation_count a == observation_count b)
        && text_le (field_name a.field) (field_name b.field))

unfoldable pub gate : List EditCandidate → List EditCandidate
unfolding more_observed
gate candidates = sort more_observed (select meets_threshold candidates)

abbrev pub evidence_listing_cap : ℕ
evidence_listing_cap = 10

pub record Evidence : Type 0 where
  pub signal : Signal
  pub observation_count : ℕ
  pub threshold : ℕ
  pub truncated : Bool
  pub listings : List Observation
  pub feedback_quotes : List FeedbackClaim

unfoldable pub build_evidence : EditCandidate → Evidence
build_evidence c = record {
  signal = c.signal;
  observation_count = observation_count c;
  threshold = min_observations c.field;
  truncated = ltb evidence_listing_cap (length c.observations);
  listings = take evidence_listing_cap c.observations;
  feedback_quotes = c.feedback_quotes;
}
