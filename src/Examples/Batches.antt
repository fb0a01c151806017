-- ===== src/Examples/Batches.antt =====
-- Two listings that are scored with a cap of one hundredth of a dollar.
use huntloop.Base.{
  ◌*◌, ◌+◌, ◌<◌, ◌≡◌, List, ◌≤◌, refl, true, false, some, [], ◌∷◌, arith, ap, subst,
}
use huntloop.Base.Clock.{day}
use huntloop.Scoring.Spend.{
  LlmUsage, SpendTracker, cost_of, cost_for_usage, rates_of, half_even, cap_reached, fold_usage,
}
use huntloop.Scoring.Spend.Threads.{
  Thread, idle, calling, Shared, Steps, nothing_done, then_, checks, records, Steps-spent,
}
use huntloop.Scoring.Pipeline.{Reply, replied, response_error, TriagePayload, Services}
use huntloop.Scoring.Pipeline.Laws.{CostsAtMost, SpentBelow}
use huntloop.Graph.Batch.{score_batch}
use huntloop.Graph.Batch.Laws.{Narrows, score_batch_cap, score_batch-Narrows}
use huntloop.Examples.Listings.{listing, criteria, finds, finds_no_language}

abbrev usage : LlmUsage
usage = record { model = "gpt-4o"; prompt_tokens = 1000; completion_tokens = 200 }

abbrev keeps : TriagePayload
keeps = record { keep = true; reason = ""; usage = usage }

abbrev services : Services
services = record {
  ask_triage = λ l. replied keeps;
  ask_dimensions = λ l. response_error "no JSON";
  search = finds;
  detect_required_language = finds_no_language;
  rubric_version = "1";
}

cost_is_small : cost_of usage ≤ 4500
unfolding cost_for_usage rates_of half_even
cost_is_small = omega arith

abbrev usage_of : Reply TriagePayload → LlmUsage
usage_of (replied p) = p.usage
usage_of _ = usage

replies_are_cheap : CostsAtMost 4500 services
replies_are_cheap = record {
  of_triage = λ l p e. subst (λ u. cost_of u ≤ 4500) (ap usage_of e) cost_is_small;
  of_dimensions = λ l r e. cc;
}

abbrev ledger : SpendTracker
ledger = record {
  cap_usd = some 10000;
  spent_usd = 9000;
  tokens_in = 0;
  tokens_out = 0;
  unpriced_models = [];
}

score_batch_cap_example :
    SpentBelow 10000 4500
      (score_batch services criteria
        (some 1)
        (20 * day)
        (20 * day)
        false
        (λ k. false)
        0
        (listing ∷ listing ∷ [])
        (some ledger)).0
score_batch_cap_example =
    score_batch_cap services criteria (some 1) (20 * day) (20 * day) false (λ k. false) 10000 4500 0
      (listing ∷ listing ∷ []) (some ledger) replies_are_cheap (refl, omega arith)

score_batch-Narrows_example :
    Narrows 2
      (score_batch services criteria
        (some 1)
        (20 * day)
        (20 * day)
        false
        (λ k. false)
        0
        (listing ∷ listing ∷ [])
        (some ledger)).1
score_batch-Narrows_example =
    score_batch-Narrows services criteria (some 1) (20 * day) (20 * day) false (λ k. false) 0
      (listing ∷ listing ∷ []) (some ledger)

-- Two threads check before either records.
abbrev shared : List Thread → SpendTracker → Shared
shared threads tracker = record { threads = threads; tracker = tracker }

abbrev two_idle : Shared
two_idle = shared (idle ∷ idle ∷ []) ledger

abbrev both_recorded : Shared
both_recorded = shared (idle ∷ idle ∷ []) (fold_usage (some usage) (fold_usage (some usage) ledger))

ledger_is_open : cap_reached ledger ≡ false
unfolding cap_reached
ledger_is_open = refl

both_call : Steps 4500 two_idle both_recorded
both_call =
    then_
      (then_
        (then_ (then_ (nothing_done two_idle) (checks [] (idle ∷ []) ledger ledger_is_open))
          (checks (calling ∷ []) [] ledger ledger_is_open))
        (records [] (calling ∷ []) ledger (some usage) cost_is_small))
      (records (idle ∷ []) [] (fold_usage (some usage) ledger) (some usage) cost_is_small)

Steps-spent_example : both_recorded.tracker.spent_usd < 10000 + 2 * 4500
Steps-spent_example =
    Steps-spent 10000 4500 two_idle both_recorded refl (omega arith) (refl, (refl, tt)) both_call
