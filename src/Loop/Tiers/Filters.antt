-- ===== src/Loop/Tiers/Filters.antt =====
-- Tier A: the verdicts of the deterministic filters, for both values.
use huntloop.Loop.Tiers.{Reading, load_live_backlog, job_location}
use huntloop.Base.{ℕ, String, Bool, not, ◌&&◌, some, List, [], ◌∷◌, map, select, take, length}
use huntloop.Base.Clock.{Time}
use huntloop.Scoring.{LocationCriteria}
use huntloop.Scoring.Filters.{FilterDecision, Detail, check_posting_age, check_geography, is_drop}
use huntloop.Loop.Detect.{BacklogJob}

-- A decision, for a value of one of the two fields that are filtered on.
abbrev pub Decide : Type 0
Decide = BacklogJob → FilterDecision

unfoldable pub decide_age : Time → ℕ → BacklogJob → FilterDecision
decide_age now limit j = check_posting_age j.posted_at (some limit) now

unfoldable pub decide_place : Reading → LocationCriteria → BacklogJob → FilterDecision
unfolding job_location
decide_place io criteria j = check_geography (job_location io j) criteria

abbrev pub newly_dropped : Decide → Decide → BacklogJob → Bool
newly_dropped before after j = not (is_drop (before j)) && is_drop (after j)

abbrev pub newly_kept : Decide → Decide → BacklogJob → Bool
newly_kept before after j = is_drop (before j) && not (is_drop (after j))

pub record Sample : Type 0 where
  pub job_id : String
  pub title : String
  pub reason : Detail

abbrev pub sample_cap : ℕ
sample_cap = 5

abbrev pub sample_of : Decide → List BacklogJob → List Sample
sample_of after jobs =
    map (λ j. record { job_id = j.id; title = j.title; reason = (after j).detail }) jobs

abbrev pub first_given : List Sample → List Sample → List Sample
first_given [] others = others
first_given (s ∷ rest) others = s ∷ rest

pub record FilterEffect : Type 0 where
  pub would_exclude : ℕ
  pub would_include : ℕ
  pub backlog_size : ℕ
  pub approximate : Bool
  pub sample : List Sample

unfoldable pub predict_filter_change : Decide → Decide → Bool → List BacklogJob → FilterEffect
unfolding load_live_backlog
predict_filter_change before after approximate jobs =
    let live = load_live_backlog jobs in
    let excluded = select (newly_dropped before after) live in
    let included = select (newly_kept before after) live in
    record {
      would_exclude = length excluded;
      would_include = length included;
      backlog_size = length live;
      approximate = approximate;
      sample = take sample_cap (first_given (sample_of after excluded) (sample_of after included));
    }
