-- ===== src/Graph/Results/Laws.antt =====
-- The terminal row does not depend on the order in which the employers ended.
use huntloop.Base.{
  ℕ, String, ◌≡◌, refl, ap, ◌∙◌, Bool, false, not, ◌&&◌, Option, some, List, [], ◌∷◌, arith,
  if◌then◌else◌, Bool-cases, inl, inr, length, select, any, sum_of, ◌+◌, eq_refl, true, ◌↔◌, ◌≤◌,
  length-select, subst,
}
use huntloop.Models.{
  is_running, Run, Db, RunStatus, success, partial, failed, capped, running, skipped, stopped,
}
use huntloop.Runs
use huntloop.Runs.{Finish, apply_finish, finish_if_running}
use huntloop.Runs.Laws.{get-finish_if_running}
use huntloop.Liveness.{Env}
use huntloop.Stop.{stop_gate, is_stop_requested}
use huntloop.Scoring.Spend.{SpendTracker}
use huntloop.Graph.Results.{EmployerResult, has_error, run_status, totals, finalize_run}

-- The same results in another order.
pub data Reordered : List EmployerResult → List EmployerResult → Type 0 where
  nil : Reordered [] []
  keep :
      (r : EmployerResult) {l m : List EmployerResult} → Reordered l m → Reordered (r ∷ l) (r ∷ m)
  swap : (r s : EmployerResult) (l : List EmployerResult) → Reordered (r ∷ s ∷ l) (s ∷ r ∷ l)
  then_ : {l m n : List EmployerResult} → Reordered l m → Reordered m n → Reordered l n

Reordered-sum_of :
    (f : EmployerResult → ℕ) {l m : List EmployerResult} → Reordered l m → sum_of f l ≡ sum_of f m
Reordered-sum_of f nil = refl
Reordered-sum_of f (keep r p) = ap (λ n. f r + n) (Reordered-sum_of f p)
Reordered-sum_of f (swap r s l) = omega arith
Reordered-sum_of f (then_ p q) = Reordered-sum_of f p ∙ Reordered-sum_of f q

Reordered-length : {l m : List EmployerResult} → Reordered l m → length l ≡ length m
Reordered-length nil = refl
Reordered-length (keep r p) = omega (arith, Reordered-length p)
Reordered-length (swap r s l) = refl
Reordered-length (then_ p q) = Reordered-length p ∙ Reordered-length q

Reordered-errors :
    {l m : List EmployerResult}
    → Reordered l m
    → length (select has_error l) ≡ length (select has_error m)
Reordered-errors nil = refl
Reordered-errors (keep r p) = ground (arith, Reordered-errors p)
Reordered-errors (swap r s l) = ground arith
Reordered-errors (then_ p q) = Reordered-errors p ∙ Reordered-errors q

Reordered-any :
    (p : EmployerResult → Bool) {l m : List EmployerResult} → Reordered l m → any p l ≡ any p m
Reordered-any p nil = refl
Reordered-any p (keep r q) = ground (arith, Reordered-any p q)
Reordered-any p (swap r s l) = ground arith
Reordered-any p (then_ q t) = Reordered-any p q ∙ Reordered-any p t

-- The status and every counter of the terminal row are the same for every order of the results.
pub run_status-Reordered :
    (l m : List EmployerResult) (tracker : Option SpendTracker)
    → Reordered l m
    → (run_status l ≡ run_status m) × (totals l tracker ≡ totals m tracker)
unfolding run_status totals
run_status-Reordered l m tracker p = (
  rw (Reordered-length p, Reordered-errors p, Reordered-any (λ r. r.was_capped) p) refl,
  rw
      (
        Reordered-length p,
        Reordered-sum_of (λ r. r.fetched) p,
        Reordered-sum_of (λ r. r.after_dedup) p,
        Reordered-sum_of (λ r. r.after_deterministic) p,
        Reordered-sum_of (λ r. r.after_triage) p,
        Reordered-sum_of (λ r. r.scored) p,
        Reordered-sum_of (λ r. r.written) p,
        Reordered-sum_of (λ r. r.tokens_in) p,
        Reordered-sum_of (λ r. r.tokens_out) p,
      )
      refl,
)

errors-none :
    (l : List EmployerResult) → (length (select has_error l) ≡ 0) ↔ (any has_error l ≡ false)
errors-none [] = ((λ h. refl), (λ h. refl))
errors-none (r ∷ rest) =
    let later = errors-none rest in
    ((λ h. ground (arith, h, later.0)), (λ h. ground (arith, h, later.1)))

errors-all :
    (l : List EmployerResult)
    → (length (select has_error l) ≡ length l) ↔ (any (λ r. not (has_error r)) l ≡ false)
errors-all [] = ((λ h. refl), (λ h. refl))
errors-all (r ∷ rest) =
    let later = errors-all rest in
    let some_ : length (select has_error rest) ≤ length rest = length-select has_error rest in
    ((λ h. ground (arith, h, some_, later.0)), (λ h. ground (arith, h, some_, later.1)))

-- The status that the results call for: which of them have an error, and which met the cap.
abbrev pub Calls : List EmployerResult → RunStatus → Type 0
Calls l failed = (any has_error l ≡ true) × (any (λ r. not (has_error r)) l ≡ false)
Calls l partial = (any has_error l ≡ true) × (any (λ r. not (has_error r)) l ≡ true)
Calls l capped = (any has_error l ≡ false) × (any (λ r. r.was_capped) l ≡ true)
Calls l success = (any has_error l ≡ false) × (any (λ r. r.was_capped) l ≡ false)
Calls l _ = ⊥

any-empty : (l : List EmployerResult) → (length l ≡ 0) → any has_error l ≡ false
any-empty [] h = refl
any-empty (r ∷ rest) h = absurd (omega (arith, h))

run_status-Calls : (l : List EmployerResult) → Calls l (run_status l)
unfolding run_status
run_status-Calls l =
    let none_ = errors-none l in
    let all_ = errors-all l in
    elim (Bool-cases (any has_error l)) [
      | inr clean ↦
          let zero_ : length (select has_error l) ≡ 0 = none_.1 clean in
          elim (Bool-cases (any (λ r. r.was_capped) l)) [
            | inl over ↦ ground (arith, clean, zero_, over)
            | inr under ↦ ground (arith, clean, zero_, under)
          ]
      | inl wrong ↦ elim (Bool-cases (any (λ r. not (has_error r)) l)) [
        | inl fine ↦ ground (arith, wrong, fine, none_.0, all_.0)
        | inr nothing_fine ↦ ground (arith, wrong, nothing_fine, none_.0, all_.1, any-empty l)
      ]
    ]

Calls-run_status : (l : List EmployerResult) (s : RunStatus) → Calls l s → run_status l ≡ s
unfolding run_status
Calls-run_status l failed h = ground (arith, h, (errors-none l).0, (errors-all l).1, any-empty l)
Calls-run_status l partial h = ground (arith, h, (errors-none l).0, (errors-all l).0)
Calls-run_status l capped h = ground (arith, h, (errors-none l).1)
Calls-run_status l success h = ground (arith, h, (errors-none l).1)
Calls-run_status l running h = absurd h
Calls-run_status l skipped h = absurd h
Calls-run_status l stopped h = absurd h

-- A run fails exactly when it has results and all have errors, is partial when some have and some have not,
-- capped when none has and one met the cap, and a success when none did either; it ends with no other status.
pub run_status_iff : (l : List EmployerResult) (s : RunStatus) → (run_status l ≡ s) ↔ Calls l s
run_status_iff l s = ((λ h. subst (Calls l) h (run_status-Calls l)), (λ h. Calls-run_status l s h))

run_status_terminal : (l : List EmployerResult) → is_running (run_status l) ≡ false
unfolding run_status
run_status_terminal l = ground arith

-- The row of the run after `finalize_run`: finished with the status and the totals if it was still running
-- and no stop was asked for, and as it was otherwise.
pub finalize_run_row :
    (env : Env) (id : String) (results : List EmployerResult) (tracker : Option SpendTracker)
    (summary : Option String) (db : Db) (r : Run)
    → Runs.get id db.runs ≡ some r
    → Runs.get id (finalize_run env id results tracker summary db).0.runs
      ≡ some (
          if is_running r.status && not (is_stop_requested id db)
          then apply_finish
              (record {
                status = run_status results;
                counters = totals results tracker;
                error_summary = summary;
              })
              env.clock
              r
          else r)
unfolding finalize_run stop_gate
finalize_run_row env id results tracker summary db r h = elim (Bool-cases (is_running r.status)) [
  | inr ended ↦ rw (h, ended) h
  | inl busy ↦ elim (Bool-cases (is_stop_requested id db)) [
    | inl asked ↦ rw (h, busy, asked) h
    | inr free ↦
        let f : Finish = record {
          status = run_status results;
          counters = totals results tracker;
          error_summary = summary;
        } in
        ground (arith, h, busy, free, get-finish_if_running id id f env.clock db r h, eq_refl id)
  ]
]
