-- ===== src/Scoring/Spend/Laws.antt =====
-- The rounding of a cost, and what one guarded call can do to the ledger.
use huntloop.Base.{ℕ, ◌≡◌, ◌≤◌, ◌<◌, ◌+◌, ◌*◌, false, some, arith}
use huntloop.Scoring.Spend.{half_even, LlmUsage, SpendTracker, cost_of, cap_reached, fold_usage}

-- A cost is off by half a millionth at most.
pub half_even_near : (n : ℕ) → (100 * half_even n ≤ n + 50) × (n ≤ 100 * half_even n + 50)
unfolding half_even
half_even_near n = (ground arith, ground arith)

-- A call that the cap lets through, and that costs at most `m`, leaves the spending below the cap and `m`.
pub cap_reached-fold_usage :
    (t : SpendTracker) (usage : LlmUsage) (cap m : ℕ)
    → t.cap_usd ≡ some cap
    → cap_reached t ≡ false
    → cost_of usage ≤ m
    → (fold_usage (some usage) t).spent_usd < cap + m
unfolding cap_reached fold_usage
cap_reached-fold_usage t usage cap m capped open_ cheap = ground (arith, capped, open_, cheap)
