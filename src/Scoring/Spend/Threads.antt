-- ===== src/Scoring/Spend/Threads.antt =====
-- src/huntloop/scoring/spend_cap.py, `SpendTracker`, shared by the threads of the employers: each checks the cap
-- before a model call and records the usage after it, and between the two any other may do either.
use huntloop.Base.{
  ℕ, ◌+◌, ◌*◌, ◌≤◌, ◌<◌, ◌≡◌, refl, ◌∙◌, false, Option, none, some, List, [], ◌∷◌, ◌++◌, length,
  sum_of, All, arith,
}
use huntloop.Scoring.Spend.{LlmUsage, SpendTracker, cost_of, cap_reached, fold_usage}

-- A thread is between calls, or waits for the answer to one.
pub data Thread : Type 0 where
  idle calling : Thread

pub record Shared : Type 0 where
  pub threads : List Thread
  pub tracker : SpendTracker

-- A call that raises has no usage.
abbrev pub cost_of_call : Option LlmUsage → ℕ
cost_of_call none = 0
cost_of_call (some u) = cost_of u

-- Each method holds the lock, so it is one step. A check that raises changes nothing.
pub data Step (m : ℕ) : Shared → Shared → Type 0 where
  checks :
      (before after : List Thread) (t : SpendTracker)
      → cap_reached t ≡ false
      → Step m
          (record { threads = before ++ (idle ∷ after); tracker = t })
          (record { threads = before ++ (calling ∷ after); tracker = t })
  records :
      (before after : List Thread) (t : SpendTracker) (usage : Option LlmUsage)
      → cost_of_call usage ≤ m
      → Step m
          (record { threads = before ++ (calling ∷ after); tracker = t })
          (record { threads = before ++ (idle ∷ after); tracker = fold_usage usage t })

pub data Steps (m : ℕ) : Shared → Shared → Type 0 where
  nothing_done : (s : Shared) → Steps m s s
  then_ : {s t u : Shared} → Steps m s t → Step m t u → Steps m s u

-- What the calls under way may still cost, and what one call of each thread may.
abbrev owed : ℕ → Thread → ℕ
owed m idle = 0
owed m calling = m

abbrev under_way : ℕ → List Thread → ℕ
under_way m threads = sum_of (owed m) threads

abbrev at_most : ℕ → List Thread → ℕ
at_most m threads = sum_of (λ t. m) threads

under_way-le : (m : ℕ) (threads : List Thread) → under_way m threads ≤ at_most m threads
under_way-le m [] = omega arith
under_way-le m (idle ∷ rest) = omega (arith, under_way-le m rest)
under_way-le m (calling ∷ rest) = omega (arith, under_way-le m rest)

idle-under_way :
    (m : ℕ) (threads : List Thread) → All (λ t. t ≡ idle) threads → under_way m threads ≡ 0
idle-under_way m [] h = refl
idle-under_way m (t ∷ rest) h = rw h.0 (omega (arith, idle-under_way m rest h.1))

sum_of-middle :
    (f : Thread → ℕ) (before after : List Thread) (t : Thread)
    → sum_of f (before ++ (t ∷ after)) ≡ f t + (sum_of f before + sum_of f after)
sum_of-middle f [] after t = omega arith
sum_of-middle f (b ∷ before) after t = omega (arith, sum_of-middle f before after t)

length-at_most : (m : ℕ) (threads : List Thread) → at_most m threads ≡ length threads * m
length-at_most m [] = omega arith
length-at_most m (t ∷ rest) = omega (arith, length-at_most m rest)

-- The money spent and owed stays below the cap and one call for each thread.
abbrev Bounded : ℕ → ℕ → ℕ → Shared → Type 0
Bounded cap m all s =
    (s.tracker.cap_usd ≡ some cap)
    × (at_most m s.threads ≡ all)
    × (s.tracker.spent_usd + under_way m s.threads < cap + all)

fold_usage-spent :
    (usage : Option LlmUsage) (t : SpendTracker)
    → ((fold_usage usage t).spent_usd ≡ t.spent_usd + cost_of_call usage)
      × ((fold_usage usage t).cap_usd ≡ t.cap_usd)
unfolding fold_usage
fold_usage-spent none t = (omega arith, refl)
fold_usage-spent (some u) t = (refl, refl)

open-below :
    (t : SpendTracker) (cap : ℕ) → t.cap_usd ≡ some cap → cap_reached t ≡ false → t.spent_usd < cap
unfolding cap_reached
open-below t cap capped h = ground (arith, capped, h)

Step-Bounded :
    (cap m all : ℕ) {s t : Shared} → Step m s t → Bounded cap m all s → Bounded cap m all t
Step-Bounded cap m all (checks before after t passes) (capped, whole, below) =
    let now = sum_of-middle (owed m) before after calling in
    let limit = under_way-le m (before ++ (calling ∷ after)) in
    let same = sum_of-middle (λ t. m) before after idle in
    let same' = sum_of-middle (λ t. m) before after calling in
    let room = open-below t cap capped passes in
    (capped, omega (arith, same, same', whole), omega (arith, now, limit, room, whole, same, same'))
Step-Bounded cap m all (records before after t usage cheap) (capped, whole, below) =
    let was = sum_of-middle (owed m) before after calling in
    let is = sum_of-middle (owed m) before after idle in
    let same = sum_of-middle (λ t. m) before after idle in
    let same' = sum_of-middle (λ t. m) before after calling in
    let (spent, cap') = fold_usage-spent usage t in
    (cap' ∙ capped, omega (arith, same, same', whole), omega (arith, was, is, spent, cheap, below))

Steps-Bounded :
    (cap m all : ℕ) {s t : Shared} → Steps m s t → Bounded cap m all s → Bounded cap m all t
Steps-Bounded cap m all (nothing_done s) h = h
Steps-Bounded cap m all (then_ p step) h = Step-Bounded cap m all step (Steps-Bounded cap m all p h)

-- Where no call costs more than `m`, threads that share a tracker under its cap, and of which none waits for an
-- answer at first, never bring the spending to the cap and `m` for each of them, in whatever order they check
-- and record.
pub Steps-spent :
    (cap m : ℕ) (s t : Shared)
    → s.tracker.cap_usd ≡ some cap
    → s.tracker.spent_usd < cap
    → All (λ t. t ≡ idle) s.threads
    → Steps m s t
    → t.tracker.spent_usd < cap + length s.threads * m
Steps-spent cap m s t capped below quiet p =
    let all = at_most m s.threads in
    let (_, _, bound) =
      Steps-Bounded cap m all p
        (capped, refl, omega (arith, below, idle-under_way m s.threads quiet)) in
    let size = length-at_most m s.threads in omega (arith, bound, size)
