-- ===== src/Runs/Laws.antt =====
-- Reading the runs table after a write, and the guard of `finish_if_running`.
use huntloop.Base.{
  String, ◌≡◌, ◌≢◌, ◌⊎◌, inl, inr, true, false, Option, none, some, List, [], ◌∷◌, if◌then◌else◌,
  str_eq, eq_iff, arith, Option-cases, ◌&&◌,
}
use huntloop.Base.Clock.{Time}
use huntloop.Models.{is_running, Run, Db}
use huntloop.Runs.{Finish, get, put, apply_finish, finish_if_running}

abbrev put_at : Run → Option Run → Option Run
put_at run none = none
put_at run (some r) = some run

pub get-put :
    (run : Run) (j : String) (l : List Run)
    → get j (put run l) ≡ (if str_eq run.id j then put_at run (get j l) else get j l)
unfolding get put
get-put run j [] = ground arith
get-put run j (r ∷ l) =
    ground (arith, get-put run j l, eq_iff r.id run.id, eq_iff r.id j, eq_iff run.id j)

pub get_id : (id : String) (l : List Run) (r : Run) → get id l ≡ some r → r.id ≡ id
unfolding get
get_id id [] r h = cc
get_id id (x ∷ l) r h = ground (arith, get_id id l r, eq_iff x.id id)

-- Every table row that is not the one named stays, and the named one is finished exactly when it
-- was running: a terminal row is never overwritten.
pub get-finish_if_running :
    (id j : String) (f : Finish) (clock : Time) (db : Db) (r : Run)
    → get j db.runs ≡ some r
    → get j (finish_if_running id f clock db).0.runs
      ≡ some (if str_eq id j && is_running r.status then apply_finish f clock r else r)
unfolding finish_if_running
get-finish_if_running id j f clock db r h = elim (Option-cases (get id db.runs)) [
  | inl absent ↦ ground (arith, eq_iff id j)
  | inr (x, e) ↦ ground (
    arith,
    get-put (apply_finish f clock x) j db.runs,
    eq_iff id j,
    eq_iff x.id j,
    get_id id db.runs x e,
  )
]

-- The settings table is not written.
pub settings-finish_if_running :
    (id : String) (f : Finish) (clock : Time) (db : Db)
    → (finish_if_running id f clock db).0.settings ≡ db.settings
unfolding finish_if_running
settings-finish_if_running id f clock db = ground arith

-- Rows of other runs are not written, found or not.
pub get-finish_if_running_ne :
    (id j : String) (f : Finish) (clock : Time) (db : Db)
    → id ≢ j
    → get j (finish_if_running id f clock db).0.runs ≡ get j db.runs
unfolding finish_if_running
get-finish_if_running_ne id j f clock db ne = elim (Option-cases (get id db.runs)) [
  | inl absent ↦ ground arith
  | inr (x, e) ↦ ground (
    arith,
    get-put (apply_finish f clock x) j db.runs,
    eq_iff x.id j,
    eq_iff id j,
    get_id id db.runs x e,
  )
]

-- On a running row the write goes through, and the finished row is returned.
pub finish_if_running_found :
    (id : String) (f : Finish) (clock : Time) (db : Db) (r : Run)
    → get id db.runs ≡ some r
    → is_running r.status ≡ true
    → finish_if_running id f clock db
      ≡ (record db { runs = put (apply_finish f clock r) db.runs }, some (apply_finish f clock r))
unfolding finish_if_running
finish_if_running_found id f clock db r h running = rw (h, running)

-- A row that is terminal or absent makes the call a no-op that returns `None`.
pub finish_if_running_refused :
    (id : String) (f : Finish) (clock : Time) (db : Db)
    → (get id db.runs ≡ none)
      ⊎ ((r : Run) × (get id db.runs ≡ some r) × (is_running r.status ≡ false))
    → finish_if_running id f clock db ≡ (db, none)
unfolding finish_if_running
finish_if_running_refused id f clock db (inl h) = rw h
finish_if_running_refused id f clock db (inr (r, h, terminal)) = rw (h, terminal)
