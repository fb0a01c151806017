-- ===== src/Liveness/Sweep.antt =====
-- A rule for both sweeps: a round that writes only its own row, and whose effect on a row is the same
-- before and after the rounds for other rows, does that to every running row of the table.
use huntloop.Base.{
  String, ◌≡◌, ◌≢◌, refl, sym, ◌∙◌, ap, Bool, true, some, List, [], ◌∷◌, map, All, All-map, All-zip,
  select, select_congr, if◌then◌else◌, Bool-cases, inl, inr,
}
use huntloop.Models.{is_running, Run, Db}
use huntloop.Runs
use huntloop.Runs.Laws.{get_id}
use huntloop.Liveness.{for_each, running_runs}
use huntloop.Runs.Ids.{Distinct, ids}
use huntloop.Liveness.Rows.{
  Snapshot, Distinct-select, runs_running-Snapshot, at_running, running_elsewhere,
}

-- `becomes` is what a round makes of its row, and `hit` whether it reports the row.
pub record Rule (body : Run → Db → Db × List String) (becomes : Db → Run → Run)
    (hit : Db → Run → Bool) : Type 0 where
  pub other_row :
      (r : Run) (db : Db) (j : String)
      → r.id ≢ j
      → Runs.get j (body r db).0.runs ≡ Runs.get j db.runs
  pub own_row :
      (r : Run) (db : Db)
      → Runs.get r.id db.runs ≡ some r
      → is_running r.status ≡ true
      → Runs.get r.id (body r db).0.runs ≡ some (becomes db r)
  pub becomes_stable : (r s : Run) (db : Db) → s.id ≢ r.id → becomes (body r db).0 s ≡ becomes db s
  pub reported :
      (r : Run) (db : Db)
      → Runs.get r.id db.runs ≡ some r
      → is_running r.status ≡ true
      → (body r db).1 ≡ (if hit db r then r.id ∷ [] else [])
  pub hit_stable : (r s : Run) (db : Db) → s.id ≢ r.id → hit (body r db).0 s ≡ hit db s

module _ {body : Run → Db → Db × List String} {becomes : Db → Run → Run} {hit : Db → Run → Bool}
    (rule : Rule body becomes hit) where
  open rule use {other_row, own_row, becomes_stable, reported, hit_stable}

  pub for_each_elsewhere :
      (l : List Run) (db : Db) (j : String)
      → All (λ s. s.id ≢ j) l
      → Runs.get j (for_each body l db).0.runs ≡ Runs.get j db.runs
  unfolding for_each
  for_each_elsewhere [] db j h = refl
  for_each_elsewhere (r ∷ l) db j h =
      for_each_elsewhere l (body r db).0 j h.1 ∙ other_row r db j h.0

  Snapshot-step :
      (r : Run) (l : List Run) (db : Db)
      → All (λ s. s.id ≢ r.id) l
      → Snapshot db.runs l
      → Snapshot (body r db).0.runs l
  Snapshot-step r l db others h =
      All-zip (λ s. s.id ≢ r.id)
        (λ s. (Runs.get s.id db.runs ≡ some s) × (is_running s.status ≡ true))
        (λ s. (Runs.get s.id (body r db).0.runs ≡ some s) × (is_running s.status ≡ true)) l
        (λ s ne found. (other_row r db s.id (λ e. ne (sym e)) ∙ found.0, found.1)) others h

  pub for_each_rows :
      (l : List Run) (db : Db)
      → Distinct l
      → Snapshot db.runs l
      → All (λ s. Runs.get s.id (for_each body l db).0.runs ≡ some (becomes db s)) l
  unfolding for_each
  for_each_rows [] db d h = tt
  for_each_rows (r ∷ l) db d h = (
    for_each_elsewhere l (body r db).0 r.id d.0 ∙ own_row r db h.0.0 h.0.1,
    All-zip (λ s. s.id ≢ r.id)
        (λ s. Runs.get s.id (for_each body l (body r db).0).0.runs ≡ some (becomes (body r db).0 s))
        (λ s. Runs.get s.id (for_each body l (body r db).0).0.runs ≡ some (becomes db s)) l
        (λ s ne e. e ∙ ap some (becomes_stable r s db ne)) d.0
        (for_each_rows l (body r db).0 d.1 (Snapshot-step r l db d.0 h.1)),
  )

  pub for_each_reported :
      (l : List Run) (db : Db)
      → Distinct l
      → Snapshot db.runs l
      → (for_each body l db).1 ≡ map (λ r. r.id) (select (hit db) l)
  unfolding for_each
  for_each_reported [] db d h = refl
  for_each_reported (r ∷ l) db d h =
      let same = select_congr (hit (body r db).0) (hit db) l (
        All-map (λ s. s.id ≢ r.id) (λ s. hit (body r db).0 s ≡ hit db s) l (λ s. hit_stable r s db)
          d.0) in
      rw
        (
          for_each_reported l (body r db).0 d.1 (Snapshot-step r l db d.0 h.1),
          same,
          reported r db h.0.0 h.0.1,
        )
        (elim (Bool-cases (hit db r)) [ inl e ↦ rw e | inr e ↦ rw e ])

  -- Every row of the table after the sweep.
  pub sweep_row :
      (db : Db) (j : String) (x : Run)
      → Distinct db.runs
      → Runs.get j db.runs ≡ some x
      → Runs.get j (for_each body (running_runs db) db).0.runs
        ≡ some (if is_running x.status then becomes db x else x)
  unfolding running_runs
  sweep_row db j x d h = elim (Bool-cases (is_running x.status)) [
    | inl e ↦
        rw (e, ← get_id j db.runs x h)
          (at_running
            (λ s. Runs.get s.id (for_each body (running_runs db) db).0.runs ≡ some (becomes db s)) j
            db.runs x h e
            (for_each_rows (running_runs db) db (Distinct-select _ db.runs d)
              (runs_running-Snapshot db.runs d)))
    | inr e ↦
        rw e (for_each_elsewhere (running_runs db) db j (running_elsewhere j db.runs x d h e) ∙ h)
  ]

  pub sweep_reported :
      (db : Db)
      → Distinct db.runs
      → (for_each body (running_runs db) db).1 ≡ map (λ r. r.id) (select (hit db) (running_runs db))
  unfolding running_runs
  sweep_reported db d =
      for_each_reported (running_runs db) db (Distinct-select _ db.runs d)
        (runs_running-Snapshot db.runs d)

-- A round that keeps the ids of the table makes a sweep that does.
pub ids-for_each :
    (body : Run → Db → Db × List String) (l : List Run) (db : Db)
    → ((r : Run) (db : Db) → ids (body r db).0.runs ≡ ids db.runs)
    → ids (for_each body l db).0.runs ≡ ids db.runs
unfolding for_each
ids-for_each body [] db keeps = refl
ids-for_each body (r ∷ l) db keeps = ids-for_each body l (body r db).0 keeps ∙ keeps r db
