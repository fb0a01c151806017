-- ===== src/Runs/Ids.antt =====
-- The primary key of `runs`: which ids a table has, and that the writes keep them.
use huntloop.Base.{
  String, ◌≡◌, ◌≢◌, refl, sym, ◌∙◌, Bool, true, some, List, [], ◌∷◌, map, All, All-map, subst, find,
  str_eq, eq_iff, eq_refl, arith, Bool-cases, Option-cases, inl, inr,
}
use huntloop.Base.Clock.{Time}
use huntloop.Models.{Run, Db}
use huntloop.Runs.{Finish, get, put, apply_finish, finish_if_running}

abbrev pub ids : List Run → List String
ids = map (λ r. r.id)

-- No two rows have one id.
abbrev pub Distinct : List Run → Type 0
Distinct [] = Unit
Distinct (r ∷ l) = All (λ s. s.id ≢ r.id) l × Distinct l

pub ids-put : (run : Run) (l : List Run) → ids (put run l) ≡ ids l
unfolding put
ids-put run [] = refl
ids-put run (r ∷ l) = ground (arith, ids-put run l, eq_iff r.id run.id)

pub ids-finish_if_running :
    (id : String) (f : Finish) (clock : Time) (db : Db)
    → ids (finish_if_running id f clock db).0.runs ≡ ids db.runs
unfolding finish_if_running
ids-finish_if_running id f clock db = elim (Option-cases (get id db.runs)) [
  | inl absent ↦ ground arith
  | inr (x, e) ↦ ground (arith, ids-put (apply_finish f clock x) db.runs)
]

All-of_ids :
    (P : String → Type 0) (l m : List Run)
    → ids l ≡ ids m
    → All (λ r. P r.id) l
    → All (λ r. P r.id) m
All-of_ids P [] [] e h = tt
All-of_ids P [] (s ∷ m) e h = cc
All-of_ids P (r ∷ l) [] e h = cc
All-of_ids P (r ∷ l) (s ∷ m) e h =
    let head : r.id ≡ s.id = ground arith in
    let rest : ids l ≡ ids m = ground arith in (rw head at h.0, All-of_ids P l m rest h.1)

pub Distinct-of_ids : (l m : List Run) → ids l ≡ ids m → Distinct l → Distinct m
Distinct-of_ids [] [] e h = tt
Distinct-of_ids [] (s ∷ m) e h = cc
Distinct-of_ids (r ∷ l) [] e h = cc
Distinct-of_ids (r ∷ l) (s ∷ m) e h =
    let head : r.id ≡ s.id = ground arith in
    let rest : ids l ≡ ids m = ground arith in
    (
      All-of_ids (λ k. k ≢ s.id) l m rest
          (All-map (λ q. q.id ≢ r.id) (λ q. q.id ≢ s.id) l (λ q ne same. ne (same ∙ sym head)) h.0),
      Distinct-of_ids l m rest h.1,
    )

-- Two tables with the same ids have rows under the same ids.
pub get-of_ids :
    (j : String) (l m : List Run) (y : Run)
    → ids l ≡ ids m
    → get j m ≡ some y
    → (x : Run) × (get j l ≡ some x)
unfolding get
get-of_ids j [] [] y e h = cc
get-of_ids j [] (s ∷ m) y e h = cc
get-of_ids j (r ∷ l) [] y e h = cc
get-of_ids j (r ∷ l) (s ∷ m) y e h =
    let head : r.id ≡ s.id = ground arith in
    let rest : ids l ≡ ids m = ground arith in
    elim (Bool-cases (str_eq r.id j)) [
      | inl here ↦ (r, rw here)
      | inr there ↦
          let later : get j m ≡ some y = ground arith in
          let (x, found) = get-of_ids j l m y rest later in (x, rw there found)
    ]

pub All-get :
    (P : Run → Type 0) (j : String) (l : List Run) (y : Run) → get j l ≡ some y → All P l → P y
unfolding get
All-get P j [] y e h = cc
All-get P j (r ∷ l) y e h = elim (Bool-cases (str_eq r.id j)) [
  | inl here ↦ let same : r ≡ y = ground arith in subst P same h.0
  | inr there ↦ All-get P j l y (ground arith) h.1
]

-- The first row that passes a test is the row of its id, and passes the test.
pub get-find :
    (p : Run → Bool) (l : List Run) (y : Run)
    → Distinct l
    → find p l ≡ some y
    → (get y.id l ≡ some y) × (p y ≡ true)
unfolding get
get-find p [] y d h = cc
get-find p (r ∷ l) y d h = elim (Bool-cases (p r)) [
  | inl e ↦ let same : r ≡ y = ground arith in rw (← same) (rw (eq_refl r.id), e)
  | inr e ↦
      let (found, passes) = get-find p l y d.1 (ground arith) in
      (
        ground (
          arith,
          eq_iff r.id y.id,
          λ (same : r.id ≡ y.id). All-get (λ q. q.id ≢ r.id) y.id l y found d.0 (sym same),
        ),
        passes,
      )
]
