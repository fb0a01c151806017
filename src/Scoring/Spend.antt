-- ===== src/Scoring/Spend.antt =====
-- src/huntloop/scoring/spend_cap.py and src/huntloop/pricing/table.py: the ledger of a run and its cap. USD
-- are counted in millionths (`COST_QUANTUM`), and a price is in hundredths of a dollar per million tokens.
-- The lock makes each method one step.
pub mod Laws
pub mod Threads
use huntloop.Base.{
  ℕ, String, Bool, true, false, not, ◌&&◌, Option, none, some, List, [], ◌∷◌, if◌then◌else◌, ◌+◌,
  ◌*◌, ◌/◌, ◌%◌, ◌==◌, ltb, leb, str_eq, contains, is_some,
}

pub record Price : Type 0 where
  pub model : String
  pub input : ℕ
  pub output : ℕ

abbrev pub price_table : List Price
price_table =
    record { model = "gpt-4o"; input = 250; output = 1000 }
    ∷ record { model = "gpt-4o-mini"; input = 15; output = 60 }
    ∷ record { model = "gpt-4.1"; input = 200; output = 800 }
    ∷ record { model = "gpt-4.1-mini"; input = 40; output = 160 }
    ∷ record { model = "gpt-4.1-nano"; input = 10; output = 40 }
    ∷ record { model = "o4-mini"; input = 110; output = 440 }
    ∷ []

unfoldable pub rates_of : String → List Price → Option Price
rates_of model [] = none
rates_of model (p ∷ rest) =
    let later = rates_of model rest in if str_eq p.model model then some p else later

-- `quantize` of a number of hundredths to a whole number, which rounds half to even.
unfoldable pub half_even : ℕ → ℕ
half_even n =
    let q = n / 100 in if ltb (n % 100) 50 then q else if ltb 50 (n % 100) then q + 1 else q + q % 2

-- A reply's `usage`. `model` is the name after `strip().lower()`.
pub record LlmUsage : Type 0 where
  pub model : String
  pub prompt_tokens : ℕ
  pub completion_tokens : ℕ

unfoldable pub is_priced : String → Bool
unfolding rates_of
is_priced model = is_some (rates_of model price_table)

abbrev cost_at : Option Price → ℕ → ℕ → ℕ
cost_at none tokens_in tokens_out = 0
cost_at (some p) tokens_in tokens_out = half_even (tokens_in * p.input + tokens_out * p.output)

unfoldable pub cost_for_usage : String → ℕ → ℕ → ℕ
unfolding rates_of half_even
cost_for_usage model tokens_in tokens_out =
    cost_at (rates_of model price_table) tokens_in tokens_out

pub record SpendTracker : Type 0 where
  pub cap_usd : Option ℕ
  pub spent_usd : ℕ
  pub tokens_in : ℕ
  pub tokens_out : ℕ
  pub unpriced_models : List String

-- Whether `check` raises `SpendCapReached`.
unfoldable pub cap_reached : SpendTracker → Bool
cap_reached t = elim t.cap_usd [ none ↦ false | some cap ↦ leb cap t.spent_usd ]

-- The addition to the set of unpriced models.
abbrev note_unpriced : String → List String → List String
note_unpriced model seen =
    if not (str_eq model "") && (not (is_priced model) && not (contains seen model))
    then model ∷ seen
    else seen

abbrev pub cost_of : LlmUsage → ℕ
cost_of u = cost_for_usage u.model u.prompt_tokens u.completion_tokens

-- `record`, named `fold_usage` since `record` is a keyword
unfoldable pub fold_usage : Option LlmUsage → SpendTracker → SpendTracker
unfolding cost_for_usage is_priced
fold_usage none t = t
fold_usage (some u) t = record t {
  spent_usd = t.spent_usd + cost_of u;
  tokens_in = t.tokens_in + u.prompt_tokens;
  tokens_out = t.tokens_out + u.completion_tokens;
  unpriced_models = note_unpriced u.model t.unpriced_models;
}
