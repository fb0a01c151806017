-- ===== src/Graph/Batch.antt =====
-- src/huntloop/graph/nodes.py, `_score_batch`: the listings of one employer, one after another.
-- The tracker is passed on as if no other thread used it; Scoring/Spend/Threads has those that share one.
pub mod Laws
use huntloop.Base.{
  ℕ, suc, String, Bool, true, false, not, ◌&&◌, ◌||◌, Option, none, some, List, [], ◌∷◌,
  if◌then◌else◌, ◌+◌, sum_of, is_some,
}
use huntloop.Base.Clock.{Time}
use huntloop.Scoring.{CriteriaPayload, RawListing}
use huntloop.Scoring.Filters.{apply_deterministic_filters}
use huntloop.Scoring.Spend.{LlmUsage, SpendTracker}
use huntloop.Scoring.Pipeline.{
  FilterTier, deterministic, triage, full, Services, ScoredListing, Scoring, done,
  spend_cap_reached, raises, by_filter, score_listing, unscored, is_full,
}

-- `_ScoreBatchOut`
pub record ScoreBatchOut : Type 0 where
  pub listings : List ScoredListing
  pub tokens_in : ℕ
  pub tokens_out : ℕ
  pub after_deterministic : ℕ
  pub after_triage : ℕ
  pub scored : ℕ
  pub scoring_failed : ℕ
  pub capped : Bool

-- The batch, or the exception that ends it: `RunStoppedByUser`, or one that a listing raised.
pub data BatchEnd : Type 0 where
  batch : ScoreBatchOut → BatchEnd
  stopped : BatchEnd
  raised : String → BatchEnd

abbrev pub empty_batch : Bool → ScoreBatchOut
empty_batch capped = record {
  listings = [];
  tokens_in = 0;
  tokens_out = 0;
  after_deterministic = 0;
  after_triage = 0;
  scored = 0;
  scoring_failed = 0;
  capped = capped;
}

abbrev pub one : Bool → ℕ
one b = if b then 1 else 0

abbrev pub is_deterministic : FilterTier → Bool
is_deterministic t = elim t [ deterministic ↦ true | _ ↦ false ]

abbrev pub is_triage : FilterTier → Bool
is_triage t = elim t [ triage ↦ true | _ ↦ false ]

-- The lines of the loop below the call, as additions to the rest of the batch.
unfoldable pub count : ScoredListing → ScoreBatchOut → ScoreBatchOut
count s out = record out {
  listings = s ∷ out.listings;
  tokens_in = sum_of (λ (u : LlmUsage). u.prompt_tokens) s.usage + out.tokens_in;
  tokens_out = sum_of (λ (u : LlmUsage). u.completion_tokens) s.usage + out.tokens_out;
  after_deterministic = one (not (is_deterministic s.tier_reached)) + out.after_deterministic;
  after_triage =
      one (is_full s.tier_reached || (is_triage s.tier_reached && is_some s.error))
      + out.after_triage;
  scored = one s.scored + out.scored;
  scoring_failed = one (is_some s.error) + out.scoring_failed;
}

abbrev pub counted : ScoredListing → BatchEnd → BatchEnd
counted s (batch out) = batch (count s out)
counted s stopped = stopped
counted s (raised exc) = raised exc

-- The same, in the mode that makes no model call.
abbrev pub filtered : ScoredListing → BatchEnd → BatchEnd
filtered s (batch out) = batch (record out {
  listings = s ∷ out.listings;
  after_deterministic = one (not (is_some s.drop_reason)) + out.after_deterministic;
})
filtered s stopped = stopped
filtered s (raised exc) = raised exc

-- What a round makes of the result of `score_listing` and of the later rounds, after the `continue` or
-- the `break`.
abbrev pub next :
    Option SpendTracker → Scoring → Option SpendTracker × BatchEnd → Option SpendTracker × BatchEnd
next tracker (done scored) later = (later.0, counted scored later.1)
next tracker spend_cap_reached later = (tracker, batch (empty_batch true))
next tracker (raises exc) later = (tracker, raised exc)

module _ (services : Services) (criteria : CriteriaPayload) (version : Option ℕ)
    (now clock : Time) where
  -- `_filters_only`
  unfoldable pub filters_only : RawListing → ScoredListing
  filters_only listing =
      let outcome = apply_deterministic_filters listing criteria now in
      record (unscored listing deterministic []) {
        drop_reason = if outcome.passed then none else some (by_filter outcome.first_drop);
      }

  -- `stop_check k` is whether the stop check raises before the `k`-th listing.
  module _ (no_score : Bool) (stop_check : ℕ → Bool) where
    unfoldable pub score_batch :
        ℕ → List RawListing → Option SpendTracker → Option SpendTracker × BatchEnd
    unfolding filters_only count
    score_batch k [] tracker = (tracker, batch (empty_batch false))
    score_batch k (listing ∷ rest) tracker =
        let (tracker1, s) = score_listing services criteria version now clock listing tracker in
        let later = score_batch (suc k) rest (if no_score then tracker else tracker1) in
        if stop_check k
        then (tracker, stopped)
        else if no_score
        then (later.0, filtered (filters_only listing) later.1)
        else next tracker1 s later
