-- ===== src/Schedule/Laws.antt =====
-- The trigger class of a fire, and the row that a skipped fire leaves.
use huntloop.Base.{
  ℕ, ◌⊎◌, inl, inr, String, ◌≡◌, ◌↔◌, Option, none, some, ◌+◌, ◌-◌, ◌≤◌, ◌<◌, arith, if◌then◌else◌,
  str_eq, eq_iff, eq_refl,
}
use huntloop.Base.Clock.{Time, day}
use huntloop.Models.{RunTrigger, catch_up, skipped, zero_counters, Db}
use huntloop.Runs
use huntloop.Runs.{apply_finish, start, add, finish}
use huntloop.Schedule.{catchup_skew, classify_trigger, record_skipped_run}

-- What is documented of a daily cron trigger: `next_fire_time t` is an occurrence at or after `t`, at
-- most one day later.
pub record IsDaily (next_fire_time : Time → Option Time) (occurs : Time → Type 0) : Type 0 where
  pub next : Time → Time
  pub found : (t : Time) → next_fire_time t ≡ some (next t)
  pub is_occurrence : (t : Time) → occurs (next t)
  pub from_on : (t : Time) → t ≤ next t
  pub first : (t o : Time) → occurs o → t ≤ o → next t ≤ o

-- Where `o` is the last occurrence at or before `now`, any earlier occurrence is at least a day before
-- `o`, and `now` is at least a day after the epoch and less than a day after `o`: the fire at `now` is
-- a catch-up exactly when it comes more than the skew after `o`.
pub classify_trigger_late :
    (next_fire_time : Time → Option Time) (occurs : Time → Type 0) (now o : Time)
    → IsDaily next_fire_time occurs
    → occurs o
    → ((t : Time) → occurs t → t < o → t + day ≤ o)
    → day ≤ now
    → o ≤ now
    → now < o + day
    → (classify_trigger next_fire_time now ≡ catch_up) ↔ (o + catchup_skew < now)
unfolding classify_trigger
classify_trigger_late next_fire_time occurs now o daily here before big le lt =
    let t = now - day + 1 in
    let p = daily.next t in
    let e : p ≡ o = elim (cmp p o) [
      | inl below ↦ omega (arith, before p (daily.is_occurrence t) below, daily.from_on t, le, big)
      | inr above ↦ omega (arith, above, daily.first t o here (omega (arith, big, lt)))
    ] in
    rw (daily.found t, e) (ground arith)
  where
    cmp : (a b : ℕ) → (a < b) ⊎ (b ≤ a)
    cmp a b = omega arith

-- A skipped fire, whose id no row has yet, leaves its own terminal row, and touches no other.
pub record_skipped_run_row :
    (id j : String) (trigger : RunTrigger) (reason : String) (clock : Time) (db : Db)
    → Runs.get id db.runs ≡ none
    → Runs.get j (record_skipped_run id trigger reason clock db).runs ≡ (
        if str_eq id j
        then some (record {
          id = id;
          trigger = trigger;
          status = skipped;
          started_at = clock;
          finished_at = some clock;
          counters = zero_counters;
          error_summary = some reason;
        })
        else Runs.get j db.runs)
unfolding record_skipped_run finish add start Runs.get Runs.put apply_finish
record_skipped_run_row id j trigger reason clock db fresh = ground (arith, eq_refl id, eq_iff id j)
