-- ===== src/Graph/Batch/Laws.antt =====
-- The spending of a batch, and the counters of its survivors.
use huntloop.Base.{
  ℕ, suc, ◌≡◌, ◌≤◌, Bool, true, false, Option, List, [], ◌∷◌, arith, Bool-cases, inl, inr, length,
}
use huntloop.Base.Clock.{Time}
use huntloop.Scoring.{CriteriaPayload, RawListing}
use huntloop.Scoring.Spend.{SpendTracker}
use huntloop.Scoring.Pipeline.{
  Services, ScoredListing, Scoring, done, spend_cap_reached, raises, score_listing, is_full,
}
use huntloop.Scoring.Pipeline.Laws.{
  CostsAtMost, SpentBelow, score_listing_cap, IsTiered, score_listing-IsTiered,
}
use huntloop.Graph.Batch.{
  BatchEnd, batch, stopped, raised, count, filters_only, score_batch, counted, filtered, next,
}

next_cap :
    (cap m : ℕ) (tracker : Option SpendTracker) (s : Scoring)
    (later : Option SpendTracker × BatchEnd)
    → SpentBelow cap m tracker
    → SpentBelow cap m later.0
    → SpentBelow cap m (next tracker s later).0
next_cap cap m tracker (done s) later h k = k
next_cap cap m tracker spend_cap_reached later h k = h
next_cap cap m tracker (raises exc) later h k = h

-- The counters of a batch that went through: no stage lets more through than the one before it.
abbrev pub Narrows : ℕ → BatchEnd → Type 0
Narrows n (batch out) =
    (out.scored ≤ out.after_triage)
    × (out.after_triage ≤ out.after_deterministic)
    × (out.after_deterministic ≤ length out.listings)
    × (length out.listings ≤ n)
Narrows n stopped = Unit
Narrows n (raised exc) = Unit

counted-Narrows :
    (n : ℕ) (s : ScoredListing) (end : BatchEnd)
    → s.scored ≡ is_full s.tier_reached
    → Narrows n end
    → Narrows (suc n) (counted s end)
unfolding count
counted-Narrows n s (batch out) e h = ground (arith, e, h)
counted-Narrows n s stopped e h = tt
counted-Narrows n s (raised exc) e h = tt

filtered-Narrows :
    (n : ℕ) (s : ScoredListing) (end : BatchEnd) → Narrows n end → Narrows (suc n) (filtered s end)
filtered-Narrows n s (batch out) h = ground (arith, h)
filtered-Narrows n s stopped h = tt
filtered-Narrows n s (raised exc) h = tt

module _ (services : Services) (criteria : CriteriaPayload) (version : Option ℕ)
    (now clock : Time) where
  -- Where no reply costs more than `m` and no other thread uses the tracker meanwhile, a batch that starts with
  -- less than the cap and `m` spent ends so, whatever it ends with: the cap is exceeded by less than one call.
  pub score_batch_cap :
      (no_score : Bool) (stop_check : ℕ → Bool) (cap m k : ℕ) (listings : List RawListing)
      (tracker : Option SpendTracker)
      → CostsAtMost m services
      → SpentBelow cap m tracker
      → SpentBelow cap m
          (score_batch services criteria version now clock no_score stop_check k listings tracker).0
  unfolding score_batch
  score_batch_cap no_score stop_check cap m k [] tracker cheap h = h
  score_batch_cap true stop_check cap m k (l ∷ rest) tracker cheap h =
      elim (Bool-cases (stop_check k)) [
        | inl stop ↦ rw stop h
        | inr go ↦ rw go (score_batch_cap true stop_check cap m (suc k) rest tracker cheap h)
      ]
  score_batch_cap false stop_check cap m k (l ∷ rest) tracker cheap h =
      elim (Bool-cases (stop_check k)) [
        | inl stop ↦ rw stop h
        | inr go ↦
            let (tracker1, s) = score_listing services criteria version now clock l tracker in
            let h1 =
              score_listing_cap services criteria version now clock cap m cheap l tracker h in
            rw go (
              next_cap cap m tracker1 s
                (score_batch services criteria version now clock false stop_check (suc k) rest
                  tracker1)
                h1 (score_batch_cap false stop_check cap m (suc k) rest tracker1 cheap h1))
      ]

  next-Narrows :
      (n : ℕ) (tracker : Option SpendTracker) (s : Scoring) (later : Option SpendTracker × BatchEnd)
      → IsTiered services criteria version now clock s
      → Narrows n later.1
      → Narrows (suc n) (next tracker s later).1
  next-Narrows n tracker (done s) later e h = counted-Narrows n s later.1 e h
  next-Narrows n tracker spend_cap_reached later e h = ground arith
  next-Narrows n tracker (raises exc) later e h = tt

  -- A batch that went through counts no more listings scored than after triage, no more of these than
  -- after the deterministic filters, no more of these than it returns, and returns no more than it got.
  pub score_batch-Narrows :
      (no_score : Bool) (stop_check : ℕ → Bool) (k : ℕ) (listings : List RawListing)
      (tracker : Option SpendTracker)
      → Narrows
          (length listings)
          (score_batch services criteria version now clock no_score stop_check k listings tracker).1
  unfolding score_batch
  score_batch-Narrows no_score stop_check k [] tracker = ground arith
  score_batch-Narrows true stop_check k (l ∷ rest) tracker = elim (Bool-cases (stop_check k)) [
    | inl stop ↦ rw stop tt
    | inr go ↦ rw go (
        filtered-Narrows (length rest) (filters_only services criteria version now clock l)
          (score_batch services criteria version now clock true stop_check (suc k) rest tracker).1
          (score_batch-Narrows true stop_check (suc k) rest tracker))
  ]
  score_batch-Narrows false stop_check k (l ∷ rest) tracker = elim (Bool-cases (stop_check k)) [
    | inl stop ↦ rw stop tt
    | inr go ↦
        let (tracker1, s) = score_listing services criteria version now clock l tracker in
        rw go (
          next-Narrows (length rest) tracker1 s
            (score_batch services criteria version now clock false stop_check (suc k) rest tracker1)
            (score_listing-IsTiered services criteria version now clock l tracker)
            (score_batch-Narrows false stop_check (suc k) rest tracker1))
  ]
