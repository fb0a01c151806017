-- ===== src/Scoring/Compensation.antt =====
-- src/huntloop/discovery/normalize/compensation.py, `compare_to_floor`: no currency is converted.
use huntloop.Base.{
  ℕ, String, ◌≡◌, ◌<◌, Bool, true, false, Option, none, some, if◌then◌else◌, arith, leb, str_eq,
  ◌↔◌, eq_iff, Option-cases, inl, inr, ltb, ◌&&◌,
}
use huntloop.Scoring.{
  CompensationSource, structured, absent, CompensationFloor, NormalizedCompensation,
}

pub data FloorComparison : Type 0 where
  above below not_comparable no_data : FloorComparison

-- Both are given, and equal.
abbrev same : Option String → Option String → Bool
same none b = false
same (some a) none = false
same (some a) (some b) = str_eq a b

abbrev is_absent : CompensationSource → Bool
is_absent absent = true
is_absent _ = false

-- The last two tests, of a minimum and an amount.
abbrev compare_amounts : NormalizedCompensation → CompensationFloor → ℕ → ℕ → FloorComparison
compare_amounts comp floor minimum amount =
    if same comp.currency floor.currency
    then if same comp.period (some floor.period)
      then if leb amount minimum then above else below
      else not_comparable
    else not_comparable

abbrev compare_known :
    NormalizedCompensation → CompensationFloor → Option ℕ → Option ℕ → FloorComparison
compare_known comp floor none amount = no_data
compare_known comp floor (some minimum) none = no_data
compare_known comp floor (some minimum) (some amount) = compare_amounts comp floor minimum amount

unfoldable pub compare_to_floor : NormalizedCompensation → CompensationFloor → FloorComparison
compare_to_floor comp floor =
    if is_absent comp.source then no_data else compare_known comp floor comp.minimum floor.amount

-- A listing whose structured data give a least pay, with currency and period, is below a floor whose
-- amount is set exactly when the floor is in that currency and for that period, and a greater amount.
pub compare_to_floor_below :
    (comp : NormalizedCompensation) (floor : CompensationFloor) (minimum amount : ℕ)
    (currency period : String)
    → comp.source ≡ structured
    → comp.minimum ≡ some minimum
    → comp.currency ≡ some currency
    → comp.period ≡ some period
    → floor.amount ≡ some amount
    → (compare_to_floor comp floor ≡ below)
      ↔ ((floor.currency ≡ some currency) × (floor.period ≡ period) × (minimum < amount))
unfolding compare_to_floor
compare_to_floor_below comp floor minimum amount currency period e1 e2 e3 e4 e5 =
    elim (Option-cases floor.currency) [
      | inl unset ↦ (
        λ h. ground (arith, e1, e2, e3, e4, e5, unset, h),
        λ ok. absurd (ground (arith, ok.0, unset)),
      )
      | inr (c, set) ↦ (
        λ h.
            let rest : str_eq currency c && (str_eq period floor.period && ltb minimum amount)
                ≡ true =
              ground (arith, e1, e2, e3, e4, e5, set, h) in
            ground (arith, set, rest, eq_iff currency c, eq_iff period floor.period),
        λ ok. ground (
          arith,
          e1,
          e2,
          e3,
          e4,
          e5,
          set,
          ok.0,
          ok.1,
          ok.2,
          eq_iff currency c,
          eq_iff period floor.period,
        ),
      )
    ]
