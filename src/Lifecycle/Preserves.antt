-- ===== src/Lifecycle/Preserves.antt =====
-- What a write of the tables must not do, as a relation between the tables before and after it, and
-- that the writes of one row, the sweeps and the writes of settings stay within it.
use huntloop.Base.{
  String, ◌≡◌, ◌≢◌, refl, sym, ◌∙◌, Bool, true, false, not, ◌&&◌, none, some, List, [], ◌∷◌, All,
  is_some, if◌then◌else◌, str_eq, eq_iff, arith, Bool-cases, Option-cases, inl, inr, is_some,
}
use huntloop.Base.Clock.{Time}
use huntloop.Models.{is_running, Run, Db}
use huntloop.Runs
use huntloop.Runs.{Finish, apply_finish, finish_if_running}
use huntloop.Runs.Laws.{get-finish_if_running}
use huntloop.Runs.Ids.{Distinct, ids-finish_if_running, Distinct-of_ids}
use huntloop.Liveness.{for_each}

-- A row has an end exactly when it is not running.
abbrev pub Closed : Run → Type 0
Closed r = is_running r.status ≡ not (is_some r.finished_at)

abbrev pub WellFormed : Db → Type 0
WellFormed db = Distinct db.runs × All Closed db.runs

-- A row stays, under its id, with its trigger and its start, and unchanged once it is terminal.
pub record Keeps (r r' : Run) : Type 0 where
  pub same_id : r'.id ≡ r.id
  pub same_trigger : r'.trigger ≡ r.trigger
  pub same_start : r'.started_at ≡ r.started_at
  pub same_terminal : is_running r.status ≡ false → r' ≡ r

pub record Safe (a b : Db) : Type 0 where
  pub keeps :
      (j : String) (r : Run)
      → Runs.get j a.runs ≡ some r
      → (r' : Run) × (Runs.get j b.runs ≡ some r') × Keeps r r'
  pub well_formed : WellFormed a → WellFormed b

All-put : (run : Run) (l : List Run) → Closed run → All Closed l → All Closed (Runs.put run l)
unfolding Runs.put
All-put run [] c h = tt
All-put run (r ∷ l) c h = elim (Bool-cases (str_eq r.id run.id)) [
  | inl e ↦ rw e (c, h.1)
  | inr e ↦ rw e (h.0, All-put run l c h.1)
]

absent-All : (id : String) (l : List Run) → Runs.get id l ≡ none → All (λ s. s.id ≢ id) l
unfolding Runs.get
absent-All id [] h = tt
absent-All id (r ∷ l) h = elim (Bool-cases (str_eq r.id id)) [
  | inl e ↦ absurd (some≢none r (ground arith))
  | inr e ↦ (λ same. absurd (ground (arith, eq_iff r.id id)), absent-All id l (ground arith))
]
  where
    some≢none : (x : Run) → some x ≢ none
    some≢none x e = cc

Keeps-refl : (r : Run) → Keeps r r
Keeps-refl r = record {
  same_id = refl;
  same_trigger = refl;
  same_start = refl;
  same_terminal = λ e. refl;
}

Keeps-trans : {a b c : Run} → Keeps a b → Keeps b c → Keeps a c
Keeps-trans k m = record {
  same_id = m.same_id ∙ k.same_id;
  same_trigger = m.same_trigger ∙ k.same_trigger;
  same_start = m.same_start ∙ k.same_start;
  same_terminal = λ e. m.same_terminal (rw (k.same_terminal e) e) ∙ k.same_terminal e;
}

-- A commit that leaves the table of runs as it was.
pub Safe-same_runs : (a b : Db) → b.runs ≡ a.runs → Safe a b
Safe-same_runs a b e = record {
  keeps = λ j r h. (r, rw e h, Keeps-refl r);
  well_formed = λ w. rw e w;
}

pub Safe-trans : {a b c : Db} → Safe a b → Safe b c → Safe a c
Safe-trans s t = record {
  keeps = λ j r h.
      let (r', found, k) = s.keeps j r h in
      let (r'', found', k') = t.keeps j r' found in (r'', found', Keeps-trans k k');
  well_formed = λ w. t.well_formed (s.well_formed w);
}

pub Safe-finish_if_running :
    (id : String) (f : Finish) (clock : Time) (db : Db)
    → is_running f.status ≡ false
    → Safe db (finish_if_running id f clock db).0
unfolding finish_if_running apply_finish
Safe-finish_if_running id f clock db terminal = record {
  keeps = λ j r h. (
    if str_eq id j && is_running r.status then apply_finish f clock r else r,
    get-finish_if_running id j f clock db r h,
    kept (str_eq id j && is_running r.status) r (λ e. ground arith),
  );
  well_formed = λ w. (
    Distinct-of_ids db.runs (finish_if_running id f clock db).0.runs
        (sym (ids-finish_if_running id f clock db)) w.0,
    closed w.1,
  );
}
  where
    kept :
        (b : Bool) (r : Run)
        → (is_running r.status ≡ false → b ≡ false)
        → Keeps r (if b then apply_finish f clock r else r)
    kept true r ended = record {
      same_id = refl;
      same_trigger = refl;
      same_start = refl;
      same_terminal = λ e. absurd (ground (arith, ended e));
    }
    kept false r ended = Keeps-refl r

    closed : All Closed db.runs → All Closed (finish_if_running id f clock db).0.runs
    closed h = elim (Option-cases (Runs.get id db.runs)) [
      | inl absent ↦ rw absent h
      | inr (x, e) ↦ elim (Bool-cases (is_running x.status)) [
        | inl running ↦
            rw (e, running) (All-put (apply_finish f clock x) db.runs (ground (arith, terminal)) h)
        | inr ended ↦ rw (e, ended) h
      ]
    ]

pub Safe-for_each :
    (body : Run → Db → Db × List String) (rows : List Run) (db : Db)
    → ((r : Run) (d : Db) → Safe d (body r d).0)
    → Safe db (for_each body rows db).0
unfolding for_each
Safe-for_each body [] db h = Safe-same_runs db db refl
Safe-for_each body (r ∷ rows) db h = Safe-trans (h r db) (Safe-for_each body rows (body r db).0 h)

pub Safe-add :
    (r : Run) (db : Db) → Runs.get r.id db.runs ≡ none → Closed r → Safe db (Runs.add r db)
unfolding Runs.add Runs.get
Safe-add r db fresh closed = record {
  keeps = λ j x h. (x, ground (arith, eq_iff r.id j), Keeps-refl x);
  well_formed = λ w. ((absent-All r.id db.runs fresh, w.0), (closed, w.1));
}
