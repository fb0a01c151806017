-- ===== src/Loop/Detect/Flags.antt =====
-- src/huntloop/loop/detect.py, `_track_b`: a bound is tightened by one step where a flag was raised on fast
-- rejections. Two thirds of a number of days are exact where the source multiplies by a float.
pub mod Laws
use huntloop.Base.{
  ℕ, zero, suc, ◌+◌, ◌-◌, ◌*◌, ◌/◌, ◌%◌, String, Bool, true, false, not, ◌&&◌, Option, none, some,
  List, [], ◌∷◌, ◌++◌, if◌then◌else◌, ltb, leb, ◌==◌, str_eq, contains, select, length,
}
use huntloop.Base.Sort.{sort}
use huntloop.Scoring.{
  Rung, index, intern, junior, mid, senior, staff, principal, director, vp, c_level,
  CompensationFloor, CriteriaPayload,
}
use huntloop.Loop.Signals.{round_even}
use huntloop.Loop.{
  tighten, EditField, seniority_min, seniority_max, posting_age_days, compensation_floor, Value,
  rung, days, floor, EditCandidate,
}
use huntloop.Loop.Detect.{BacklogJob, Listed, raised_flags, observations, candidate}

-- The neighbours on `SENIORITY_LADDER`.
abbrev pub rung_below : Rung → Option Rung
rung_below intern = none
rung_below junior = some intern
rung_below mid = some junior
rung_below senior = some mid
rung_below staff = some senior
rung_below principal = some staff
rung_below director = some principal
rung_below vp = some director
rung_below c_level = some vp

abbrev pub rung_above : Rung → Option Rung
rung_above intern = some junior
rung_above junior = some mid
rung_above mid = some senior
rung_above senior = some staff
rung_above staff = some principal
rung_above principal = some director
rung_above director = some vp
rung_above vp = some c_level
rung_above c_level = none

unfoldable pub flagged : String → List Listed → List Listed
flagged flag fast = select (λ r. contains (raised_flags r.job) flag) fast

abbrev pub at_least : Rung → Option Rung → Bool
at_least r none = true
at_least r (some least) = leb (index least) (index r)

abbrev pub at_most : Rung → Option Rung → Bool
at_most r none = true
at_most r (some most) = leb (index r) (index most)

abbrev pub lower_max : CriteriaPayload → List Listed → Option Rung → List EditCandidate
lower_max c hits none = []
lower_max c hits (some proposed) =
    if at_least proposed c.seniority_min
    then candidate seniority_max tighten (rung c.seniority_max) (rung (some proposed))
        (observations hits)
      ∷ []
    else []

abbrev pub raise_min : CriteriaPayload → List Listed → Option Rung → List EditCandidate
raise_min c hits none = []
raise_min c hits (some proposed) =
    if at_most proposed c.seniority_max
    then candidate seniority_min tighten (rung c.seniority_min) (rung (some proposed))
        (observations hits)
      ∷ []
    else []

-- A neighbour of a bound that is set.
abbrev pub step : (Rung → Option Rung) → Option Rung → Option Rung
step next none = none
step next (some r) = next r

unfoldable pub tighten_max : List Listed → CriteriaPayload → List EditCandidate
tighten_max [] c = []
tighten_max (r ∷ rest) c = lower_max c (r ∷ rest) (step rung_below c.seniority_max)

unfoldable pub tighten_min : List Listed → CriteriaPayload → List EditCandidate
tighten_min [] c = []
tighten_min (r ∷ rest) c = raise_min c (r ∷ rest) (step rung_above c.seniority_min)

-- `some` item at a position.
abbrev item : ℕ → List ℕ → ℕ
item n [] = 0
item zero (x ∷ xs) = x
item (suc n) (x ∷ xs) = item n xs

-- In hundredths, to which the mean of the two in the middle is rounded.
unfoldable pub median : List ℕ → ℕ
median values =
    let sorted = sort leb values in
    let middle = length values / 2 in
    if length values % 2 == 1
    then item middle sorted
    else round_even (item (middle - 1) sorted + item middle sorted) 2

abbrev same_text : Option String → Option String → Bool
same_text none none = true
same_text (some a) (some b) = str_eq a b
same_text _ _ = false

-- The minima that are comparable, or none of them where a listing's currency or period differs.
unfoldable pub comparable : CompensationFloor → List Listed → List ℕ → List ℕ
comparable f [] gathered = gathered
comparable f (r ∷ rest) gathered = elim r.job.comp_min [
  | none ↦ comparable f rest gathered
  | some minimum ↦
      elim (same_text r.job.comp_currency f.currency
        && same_text r.job.comp_period (some f.period)) [
          | true ↦ comparable f rest (gathered ++ (minimum ∷ []))
          | false ↦ []
        ]
]

abbrev pub raise_floor :
    CompensationFloor → List Listed → List ℕ → Option ℕ → Option String → List EditCandidate
raise_floor f hits minima none currency = []
raise_floor f hits minima (some amount) none = []
raise_floor f hits minima (some amount) (some currency) =
    if ltb (length minima) 2
    then []
    else if ltb amount (median minima)
    then candidate compensation_floor tighten (floor f)
        (floor
          (record { amount = some (median minima); currency = some currency; period = f.period }))
        (observations hits)
      ∷ []
    else []

unfoldable pub tighten_floor : List Listed → CriteriaPayload → List EditCandidate
unfolding comparable median
tighten_floor [] c = []
tighten_floor (r ∷ rest) c =
    let f = c.compensation_floor in
    raise_floor f (r ∷ rest) (comparable f (r ∷ rest) []) f.amount f.currency

abbrev pub larger : ℕ → ℕ → ℕ
larger a b = if leb a b then b else a

unfoldable pub tighten_age : List Listed → CriteriaPayload → List EditCandidate
tighten_age [] c = []
tighten_age (r ∷ rest) c =
    let current = c.posting_age_days in
    let proposed = larger 7 (current * 2 / 3) in
    if ltb proposed current
    then candidate posting_age_days tighten (days current) (days proposed) (observations (r ∷ rest))
      ∷ []
    else []

unfoldable pub track_b : List Listed → CriteriaPayload → List EditCandidate
unfolding flagged tighten_max tighten_min tighten_floor tighten_age
track_b fast c =
    tighten_max (flagged "stretch_role" fast) c
    ++ (tighten_min (flagged "step_down" fast) c
        ++ (tighten_floor (flagged "comp_below_floor" fast) c
            ++ tighten_age (flagged "posting_stale" fast) c))
