-- ===== src/Loop/Tiers/Flags.antt =====
-- Tier B: the advisory flags, for both values.
use huntloop.Loop.Tiers.{Reading, load_live_backlog}
use huntloop.Base.{
  ℕ, Bool, true, false, not, ◌&&◌, Option, none, some, List, if◌then◌else◌, ltb, select, length,
  is_some,
}
use huntloop.Scoring.{Rung, index, structured, CompensationFloor}
use huntloop.Scoring.Compensation.{
  FloorComparison, above, below, not_comparable, no_data, compare_to_floor,
}
use huntloop.Scoring.Flags.{detect_seniority}
use huntloop.Loop.Detect.{BacklogJob}

unfoldable pub seniority_flag_raised : Rung → Option Rung → Bool → Bool
seniority_flag_raised detected none ceiling = false
seniority_flag_raised detected (some bound) ceiling =
    if ceiling then ltb (index bound) (index detected) else ltb (index detected) (index bound)

abbrev pub known : FloorComparison → Option Bool
known below = some true
known above = some false
known not_comparable = none
known no_data = none

unfoldable pub comp_below_floor : CompensationFloor → BacklogJob → Option Bool
comp_below_floor f j = known (
    compare_to_floor
      (record {
        minimum = j.comp_min;
        maximum = j.comp_max;
        currency = j.comp_currency;
        period = j.comp_period;
        source = structured;
      })
      f)

abbrev pub bounded : Option Rung → Bool → Option Rung → Option Bool
bounded bound ceiling none = none
bounded bound ceiling (some detected) = some (seniority_flag_raised detected bound ceiling)

-- The flag of a listing for a bound (of which the language patterns are no part), or `none` where the title names no rung.
unfoldable pub seniority_flag : Reading → Option Rung → Bool → BacklogJob → Option Bool
unfolding seniority_flag_raised
seniority_flag io bound ceiling j =
    bounded bound ceiling (detect_seniority io.search (λ description. none) j.title)

abbrev pub Judge : Type 0
Judge = BacklogJob → Option Bool

abbrev pub is_unknown : Option Bool → Option Bool → Bool
is_unknown a b = not (is_some a && is_some b)

-- `after and not before`, where both are known
abbrev pub rises : Option Bool → Option Bool → Bool
rises (some false) (some true) = true
rises _ _ = false

pub record FlagEffect : Type 0 where
  pub would_flag : ℕ
  pub would_unflag : ℕ
  pub unknown : ℕ
  pub backlog_size : ℕ

unfoldable pub predict_flag_change : Judge → Judge → List BacklogJob → FlagEffect
unfolding load_live_backlog
predict_flag_change before after jobs =
    let live = load_live_backlog jobs in
    record {
      would_flag = length (select (λ j. rises (before j) (after j)) live);
      would_unflag = length (select (λ j. rises (after j) (before j)) live);
      unknown = length (select (λ j. is_unknown (before j) (after j)) live);
      backlog_size = length live;
    }
