-- ===== src/Liveness/Rows.antt =====
-- Sweeps over the running rows: what a round does to its own row, for each row of the table.
use huntloop.Base.{
  String, ◌≡◌, ◌≢◌, sym, ◌∙◌, ap, Bool, true, false, some, List, [], ◌∷◌, All, All-map, All-zip,
  All-select, All-select_head, All-select_tail, subst, select, str_eq, eq_iff, eq_refl, arith,
  Bool-cases, inl, inr,
}
use mathlib.Core.Bool.{false≢true}
use huntloop.Models.{is_running, Run}
use huntloop.Runs
use huntloop.Runs.Ids.{Distinct}

abbrev pub runs_running : List Run → List Run
runs_running = select (λ r. is_running r.status)

abbrev pub Snapshot : List Run → List Run → Type 0
Snapshot table = All (λ s. (Runs.get s.id table ≡ some s) × (is_running s.status ≡ true))

pub Distinct-select : (p : Run → Bool) (l : List Run) → Distinct l → Distinct (select p l)
Distinct-select p [] h = tt
Distinct-select p (r ∷ l) h = elim (Bool-cases (p r)) [
  | inl e ↦ rw e (All-select (λ s. s.id ≢ r.id) p l h.0, Distinct-select p l h.1)
  | inr e ↦ rw e (Distinct-select p l h.1)
]

get-cons_ne : (r : Run) (l : List Run) (j : String) → j ≢ r.id → Runs.get j (r ∷ l) ≡ Runs.get j l
unfolding Runs.get
get-cons_ne r l j h = ground (arith, eq_iff r.id j)

get-cons_self : (r : Run) (l : List Run) → Runs.get r.id (r ∷ l) ≡ some r
unfolding Runs.get
get-cons_self r l = ground (arith, eq_refl r.id)

-- The rows that the SELECT returns are rows of the table.
pub runs_running-Snapshot : (l : List Run) → Distinct l → Snapshot l (runs_running l)
runs_running-Snapshot [] h = tt
runs_running-Snapshot (r ∷ l) h =
    let later : Snapshot (r ∷ l) (runs_running l) =
      All-zip (λ s. (Runs.get s.id l ≡ some s) × (is_running s.status ≡ true)) (λ s. s.id ≢ r.id) _
        (runs_running l) (λ s found other. (get-cons_ne r l s.id other ∙ found.0, found.1))
        (runs_running-Snapshot l h.1) (All-select (λ s. s.id ≢ r.id) _ l h.0) in
    elim (Bool-cases (is_running r.status)) [
      | inl e ↦ rw e ((get-cons_self r l, e), later)
      | inr e ↦ rw e later
    ]

-- What holds of each running row holds of a running row that is looked up.
pub at_running :
    (P : Run → Type 0) (j : String) (l : List Run) (x : Run)
    → Runs.get j l ≡ some x
    → is_running x.status ≡ true
    → All P (runs_running l)
    → P x
unfolding Runs.get
at_running P j [] x h e all = cc
at_running P j (r ∷ l) x h e all = elim (Bool-cases (str_eq r.id j)) [
  | inl here ↦
      let same : r ≡ x = ground arith in
      subst P same (
        All-select_head P (λ y. is_running y.status) r l all
          (ap (λ s. is_running s.status) same ∙ e))
  | inr there ↦
      at_running P j l x (ground arith) e (All-select_tail P (λ y. is_running y.status) r l all)
]

-- A row that is not running is none of the rows that the SELECT returns.
pub running_elsewhere :
    (j : String) (l : List Run) (x : Run)
    → Distinct l
    → Runs.get j l ≡ some x
    → is_running x.status ≡ false
    → All (λ s. s.id ≢ j) (runs_running l)
unfolding Runs.get
running_elsewhere j [] x d h e = tt
running_elsewhere j (r ∷ l) x d h e = elim (Bool-cases (str_eq r.id j)) [
  | inl here ↦
      let same : r ≡ x = ground arith in
      let elsewhere : All (λ s. s.id ≢ j) l =
        All-map (λ s. s.id ≢ r.id) (λ s. s.id ≢ j) l
          (λ s ne e'. ne (e' ∙ sym ((eq_iff r.id j).0 here))) d.0 in
      rw (ap (λ s. is_running s.status) same ∙ e) (All-select (λ s. s.id ≢ j) _ l elsewhere)
  | inr there ↦
      let later = running_elsewhere j l x d.1 (ground arith) e in
      elim (Bool-cases (is_running r.status)) [
        | inl b ↦ rw b ((λ e'. false≢true (sym there ∙ (eq_iff r.id j).1 e')), later)
        | inr b ↦ rw b later
      ]
]
