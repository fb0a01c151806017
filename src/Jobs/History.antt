-- ===== src/Jobs/History.antt =====
-- The status of a job and its history say the same.
use huntloop.Base.{
  String, ◌≡◌, refl, Option, none, some, List, [], ◌∷◌, arith, if◌then◌else◌, str_eq, eq_iff,
  Option-cases, Bool-cases, inl, inr, subst,
}
use huntloop.Base.Clock.{Time}
use huntloop.Jobs.{
  Job, JobStatus, new, StatusEvent, Tracker, get_job, update_by_id, with_status, set_status,
}

-- The status that the events of a job, newest first, leave it in.
abbrev pub replay : String → List StatusEvent → JobStatus
replay id [] = new
replay id (e ∷ rest) =
    let earlier = replay id rest in if str_eq e.job_id id then e.to_status else earlier

-- Each event of a job starts where the events before it left the job.
abbrev pub IsChained : List StatusEvent → Type 0
IsChained [] = Unit
IsChained (e ∷ rest) = (e.from_status ≡ replay e.job_id rest) × IsChained rest

pub record Consistent (t : Tracker) : Type 0 where
  pub current : (id : String) (j : Job) → get_job id t.jobs ≡ some j → j.status ≡ replay id t.events
  pub chained : IsChained t.events

abbrev map_job : (Job → Job) → Option Job → Option Job
map_job f none = none
map_job f (some j) = some (f j)

get_job-id : (id : String) (l : List Job) (j : Job) → get_job id l ≡ some j → j.id ≡ id
unfolding get_job
get_job-id id [] j h = cc
get_job-id id (x ∷ l) j h = ground (arith, get_job-id id l j, eq_iff x.id id)

get-update_by_id :
    (k id : String) (f : Job → Job) (l : List Job)
    → ((x : Job) → (f x).id ≡ x.id)
    → get_job id (update_by_id k f l)
      ≡ (if str_eq k id then map_job f (get_job id l) else get_job id l)
unfolding get_job update_by_id
get-update_by_id k id f [] keeps = ground arith
get-update_by_id k id f (x ∷ l) keeps =
    ground
      (arith, get-update_by_id k id f l keeps, keeps x, eq_iff x.id k, eq_iff x.id id, eq_iff k id)

-- Giving a job a status appends the event that leads from its status to the new one: history and status
-- stay consistent, for this job and every other.
pub set_status-Consistent :
    (id : String) (to : JobStatus) (clock : Time) (t t' : Tracker)
    → Consistent t
    → set_status id to clock t ≡ some t'
    → Consistent t'
unfolding set_status
set_status-Consistent id to clock t t' c h = elim (Option-cases (get_job id t.jobs)) [
  | inl absent ↦ let h' = rw absent at h in cc
  | inr (j, found) ↦
      let t2 : Tracker = record {
        jobs = update_by_id id (with_status to) t.jobs;
        events =
            record { job_id = id; from_status = j.status; to_status = to; changed_at = clock }
            ∷ t.events;
      } in
      let same : t2 ≡ t' = ground (arith, found, h) in
      subst Consistent same
        (record { current = current2 j found; chained = (c.current id j found, c.chained) })
]
  where
    current2 :
        (j : Job)
        → get_job id t.jobs ≡ some j
        → (k : String) (x : Job) → get_job k (update_by_id id (with_status to) t.jobs) ≡ some x
        → x.status
          ≡ replay k (
              record { job_id = id; from_status = j.status; to_status = to; changed_at = clock }
              ∷ t.events)
    current2 j found k x e = elim (Bool-cases (str_eq id k)) [
      | inl here ↦
          let same : id ≡ k = (eq_iff id k).0 here in
          let found' : get_job k t.jobs ≡ some j =
            subst (λ i. get_job i t.jobs ≡ some j) same found in
          ground (arith, here, e, found', get-update_by_id id k (with_status to) t.jobs (λ y. refl))
      | inr there ↦
          let kept : get_job k t.jobs ≡ some x =
            ground (arith, there, e, get-update_by_id id k (with_status to) t.jobs (λ y. refl)) in
          rw there (c.current k x kept)
    ]
