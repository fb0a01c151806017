-- ===== src/Discovery/Again.antt =====
-- Listings that are found again.
use huntloop.Base.{
  ℕ, suc, ◌+◌, ◌≡◌, refl, subst, String, Bool, true, false, Option, none, some, List, [], ◌∷◌,
  is_some, str_eq, length, arith, Bool-cases, Option-cases, inl, inr, eq_iff,
}
use huntloop.Base.Clock.{Time}
use huntloop.Jobs.{Job, Listing, get_by_dedup_key, write_listing}
use huntloop.Jobs.Writing.{write_listing_known, write_listing_unknown, write_listing_others}
use huntloop.Discovery.{WriteOutcome, counted, write_batch}

abbrev IsPresent : List Job → String → Type 0
IsPresent jobs key = is_some (get_by_dedup_key key jobs) ≡ true

-- The row of every listing that has a key is in the table.
abbrev pub ArePresent : List Job → List (Option Listing) → Type 0
ArePresent jobs [] = Unit
ArePresent jobs (none ∷ rest) = ArePresent jobs rest
ArePresent jobs (some l ∷ rest) = IsPresent jobs l.dedup_key × ArePresent jobs rest

module _ (id : String) (l : Listing) (company_id run_id : String) (now : Time)
    (jobs : List Job) where
  abbrev table : List Job
  table = (write_listing id l company_id run_id (some now) now jobs).0

  written-IsPresent : IsPresent table l.dedup_key
  written-IsPresent = elim (Option-cases (get_by_dedup_key l.dedup_key jobs)) [
    | inl e ↦ rw (write_listing_unknown id l company_id run_id (some now) now jobs e).0 refl
    | inr (old, e) ↦
        rw (write_listing_known id l company_id run_id (some now) now jobs old e).0 refl
  ]

  kept-IsPresent : (key : String) → IsPresent jobs key → IsPresent table key
  kept-IsPresent key h = elim (Bool-cases (str_eq l.dedup_key key)) [
    | inl same ↦ subst (IsPresent table) ((eq_iff l.dedup_key key).0 same) written-IsPresent
    | inr other ↦ rw (write_listing_others id l company_id run_id (some now) now jobs key other).0 h
  ]

  kept-ArePresent : (items : List (Option Listing)) → ArePresent jobs items → ArePresent table items
  kept-ArePresent [] h = tt
  kept-ArePresent (none ∷ rest) h = kept-ArePresent rest h
  kept-ArePresent (some m ∷ rest) h = (kept-IsPresent m.dedup_key h.0, kept-ArePresent rest h.1)

  present-updates :
      IsPresent jobs l.dedup_key
      → (write_listing id l company_id run_id (some now) now jobs).1 ≡ false
  present-updates h = elim (Option-cases (get_by_dedup_key l.dedup_key jobs)) [
    | inl e ↦ absurd (let h' = rw e at h in cc)
    | inr (old, e) ↦ (write_listing_known id l company_id run_id (some now) now jobs old e).1
  ]

batch-keeps :
    (ids : ℕ → String) (n : ℕ) (items : List (Option Listing)) (company_id run_id : String)
    (now : Time) (jobs : List Job) (key : String)
    → IsPresent jobs key
    → IsPresent (write_batch ids n items company_id run_id now jobs).0 key
unfolding write_batch
batch-keeps ids n [] c r now jobs key h = h
batch-keeps ids n (none ∷ rest) c r now jobs key h = batch-keeps ids (suc n) rest c r now jobs key h
batch-keeps ids n (some l ∷ rest) c r now jobs key h =
    batch-keeps ids (suc n) rest c r now _ key (kept-IsPresent (ids n) l c r now jobs key h)

batch-ArePresent :
    (ids : ℕ → String) (n : ℕ) (items : List (Option Listing)) (company_id run_id : String)
    (now : Time) (jobs : List Job)
    → ArePresent (write_batch ids n items company_id run_id now jobs).0 items
unfolding write_batch
batch-ArePresent ids n [] c r now jobs = tt
batch-ArePresent ids n (none ∷ rest) c r now jobs = batch-ArePresent ids (suc n) rest c r now jobs
batch-ArePresent ids n (some l ∷ rest) c r now jobs = (
  batch-keeps ids (suc n) rest c r now _ l.dedup_key (written-IsPresent (ids n) l c r now jobs),
  batch-ArePresent ids (suc n) rest c r now _,
)

present-none_inserted :
    (ids : ℕ → String) (n : ℕ) (items : List (Option Listing)) (company_id run_id : String)
    (now : Time) (jobs : List Job)
    → ArePresent jobs items
    → (write_batch ids n items company_id run_id now jobs).1.inserted ≡ 0
unfolding write_batch
present-none_inserted ids n [] c r now jobs h = refl
present-none_inserted ids n (none ∷ rest) c r now jobs h =
    present-none_inserted ids (suc n) rest c r now jobs h
present-none_inserted ids n (some l ∷ rest) c r now jobs h =
    rw (present-updates (ids n) l c r now jobs h.0) (
      present-none_inserted ids (suc n) rest c r now _
        (kept-ArePresent (ids n) l c r now jobs rest h.1))

counted-total :
    (b : Bool) (o : WriteOutcome)
    → (counted b o).inserted + (counted b o).updated + (counted b o).failed
      ≡ suc (o.inserted + o.updated + o.failed)
counted-total true o = omega arith
counted-total false o = omega arith

write_batch-total :
    (ids : ℕ → String) (n : ℕ) (items : List (Option Listing)) (company_id run_id : String)
    (now : Time) (jobs : List Job)
    → (write_batch ids n items company_id run_id now jobs).1.inserted
        + (write_batch ids n items company_id run_id now jobs).1.updated
        + (write_batch ids n items company_id run_id now jobs).1.failed
      ≡ length items
unfolding write_batch
write_batch-total ids n [] c r now jobs = refl
write_batch-total ids n (none ∷ rest) c r now jobs =
    omega (arith, write_batch-total ids (suc n) rest c r now jobs)
write_batch-total ids n (some l ∷ rest) c r now jobs =
    let written = write_listing (ids n) l c r (some now) now jobs in
    omega (
      arith,
      counted-total written.1 (write_batch ids (suc n) rest c r now written.0).1,
      write_batch-total ids (suc n) rest c r now written.0,
    )

-- Every listing of a batch is inserted, updated or failed; and a second run that finds the same listings, of
-- whatever employer and at whatever time, inserts none of them again.
pub write_batch_again :
    (ids ids' : ℕ → String) (n n' : ℕ) (items : List (Option Listing))
    (company_id run_id company_id' run_id' : String) (now now' : Time) (jobs : List Job)
    → ((write_batch ids n items company_id run_id now jobs).1.inserted
          + (write_batch ids n items company_id run_id now jobs).1.updated
          + (write_batch ids n items company_id run_id now jobs).1.failed
        ≡ length items)
      × ((write_batch ids' n' items company_id' run_id' now'
            (write_batch ids n items company_id run_id now jobs).0).1.inserted
          ≡ 0)
write_batch_again ids ids' n n' items c r c' r' now now' jobs = (
  write_batch-total ids n items c r now jobs,
  present-none_inserted ids' n' items c' r' now' _ (batch-ArePresent ids n items c r now jobs),
)
