-- ===== src/Jobs/Writing.antt =====
-- What a listing that is written, again or for the first time, leaves in `jobs`.
use huntloop.Base.{
  String, ◌≡◌, refl, true, false, Option, none, some, List, [], ◌∷◌, ◌++◌, ◌+◌, arith,
  if◌then◌else◌, or_default, str_eq, eq_iff, eq_refl, Option-cases, inl, inr, length, length-append,
}
use huntloop.Base.Clock.{Time}
use huntloop.Jobs.{
  Job, new, Score, Listing, get_by_dedup_key, update_by_key, refresh, scored_row, inserted_row,
  discovered, upsert_discovered, mark_scored, mark_if_scored, write_listing,
}

abbrev map_row : (Job → Job) → Option Job → Option Job
map_row f none = none
map_row f (some j) = some (f j)

abbrev KeepsKey : (Job → Job) → Type 0
KeepsKey f = (x : Job) → (f x).dedup_key ≡ x.dedup_key

get-update_by_key :
    (k j : String) (f : Job → Job) (l : List Job)
    → KeepsKey f
    → get_by_dedup_key j (update_by_key k f l)
      ≡ (if str_eq k j then map_row f (get_by_dedup_key j l) else get_by_dedup_key j l)
unfolding get_by_dedup_key update_by_key
get-update_by_key k j f [] keeps = ground arith
get-update_by_key k j f (x ∷ l) keeps = ground (
  arith,
  get-update_by_key k j f l keeps,
  keeps x,
  eq_iff x.dedup_key k,
  eq_iff x.dedup_key j,
  eq_iff k j,
)

get-append :
    (j : String) (l : List Job) (x : Job)
    → get_by_dedup_key j l ≡ none
    → get_by_dedup_key j (l ++ (x ∷ [])) ≡ (if str_eq x.dedup_key j then some x else none)
unfolding get_by_dedup_key
get-append j [] x h = refl
get-append j (y ∷ l) x h = ground (arith, get-append j l x, h)

get-append_other :
    (j : String) (l : List Job) (x : Job)
    → str_eq x.dedup_key j ≡ false
    → get_by_dedup_key j (l ++ (x ∷ [])) ≡ get_by_dedup_key j l
unfolding get_by_dedup_key
get-append_other j [] x h = ground (arith, h)
get-append_other j (y ∷ l) x h = ground (arith, get-append_other j l x h)

length-update_by_key :
    (k : String) (f : Job → Job) (l : List Job) → length (update_by_key k f l) ≡ length l
unfolding update_by_key
length-update_by_key k f [] = refl
length-update_by_key k f (x ∷ l) = ground (arith, length-update_by_key k f l)

-- A score that was given replaces the one that is stored.
abbrev pub newer_score : Option Score → Time → Option (Score × Time) → Option (Score × Time)
newer_score none clock old = old
newer_score (some score) clock old = some (score, clock)

abbrev mark_row : Listing → Time → Option Score → Job → Job
mark_row l clock none x = x
mark_row l clock (some score) x = scored_row score l.tier_reached clock x

get-mark_if_scored :
    (l : Listing) (clock : Time) (j : String) (m : List Job)
    → get_by_dedup_key j (mark_if_scored l clock m) ≡ (
        if str_eq l.dedup_key j
        then map_row (mark_row l clock l.score) (get_by_dedup_key j m)
        else get_by_dedup_key j m)
unfolding mark_scored
get-mark_if_scored l clock j m = elim (Option-cases l.score) [
  | inl unscored ↦ rw unscored (ground (arith, same (get_by_dedup_key j m)))
  | inr (score, given) ↦
      rw given
        (get-update_by_key l.dedup_key j (scored_row score l.tier_reached clock) m (λ x. refl))
]
  where
    same : (o : Option Job) → map_row (mark_row l clock none) o ≡ o
    same none = refl
    same (some x) = refl

length-mark_if_scored :
    (l : Listing) (clock : Time) (m : List Job) → length (mark_if_scored l clock m) ≡ length m
unfolding mark_scored
length-mark_if_scored l clock m = elim (Option-cases l.score) [
  | inl unscored ↦ rw unscored
  | inr (score, given) ↦
      rw given (length-update_by_key l.dedup_key (scored_row score l.tier_reached clock) m)
]

module _ (id : String) (l : Listing) (company_id run_id : String) (now : Option Time) (clock : Time)
    (jobs : List Job) where
  abbrev seen : Time
  seen = or_default now clock

  -- The values of the new posting, over the id, the status and the first sight of a row.
  abbrev pub rediscovered : Job → Job
  rediscovered old = record old {
    company_id = company_id;
    posting = l.posting;
    filter_tier_reached = l.tier_reached;
    source_run_id = run_id;
    last_seen_at = or_default now clock;
    score = newer_score l.score clock old.score;
  }

  -- A listing whose key is known refreshes that row, says so, and keeps its id, the user's status and the
  -- time of its first sight, and its score unless there is a new one.
  pub write_listing_known :
      (old : Job)
      → get_by_dedup_key l.dedup_key jobs ≡ some old
      → (get_by_dedup_key l.dedup_key (write_listing id l company_id run_id now clock jobs).0
          ≡ some (rediscovered old))
        × ((write_listing id l company_id run_id now clock jobs).1 ≡ false)
  unfolding write_listing upsert_discovered mark_scored
  write_listing_known old h =
      let d = discovered l company_id run_id seen (some old) in
      let m = update_by_key l.dedup_key (refresh d) jobs in
      rw h (
        ground (
          arith,
          get-mark_if_scored l clock l.dedup_key m,
          get-update_by_key l.dedup_key l.dedup_key (refresh d) jobs (λ x. refl),
          eq_refl l.dedup_key,
          h,
          marked l.score,
        ),
        refl,
      )
    where
      marked :
          (score : Option Score)
          → mark_row l clock score (refresh (discovered l company_id run_id seen (some old)) old)
            ≡ record old {
              company_id = company_id;
              posting = l.posting;
              filter_tier_reached = l.tier_reached;
              source_run_id = run_id;
              last_seen_at = seen;
              score = newer_score score clock old.score;
            }
      marked none = refl
      marked (some score) = refl

  -- A listing whose key is not known adds one row, with the status `new`, first seen now.
  pub write_listing_unknown :
      get_by_dedup_key l.dedup_key jobs ≡ none
      → (get_by_dedup_key l.dedup_key (write_listing id l company_id run_id now clock jobs).0
          ≡ some (record {
            id = id;
            dedup_key = l.dedup_key;
            company_id = company_id;
            posting = l.posting;
            filter_tier_reached = l.tier_reached;
            source_run_id = run_id;
            first_seen_at = or_default now clock;
            last_seen_at = or_default now clock;
            status = new;
            score = newer_score l.score clock none;
          }))
        × ((write_listing id l company_id run_id now clock jobs).1 ≡ true)
  unfolding write_listing upsert_discovered mark_scored
  write_listing_unknown h =
      let x = inserted_row id clock (discovered l company_id run_id seen none) in
      rw h (
        ground (
          arith,
          get-mark_if_scored l clock l.dedup_key (jobs ++ (x ∷ [])),
          get-append l.dedup_key jobs x h,
          eq_refl l.dedup_key,
          marked l.score,
        ),
        refl,
      )
    where
      marked :
          (score : Option Score)
          → mark_row l clock score
              (inserted_row id clock (discovered l company_id run_id seen none))
            ≡ record {
              id = id;
              dedup_key = l.dedup_key;
              company_id = company_id;
              posting = l.posting;
              filter_tier_reached = l.tier_reached;
              source_run_id = run_id;
              first_seen_at = seen;
              last_seen_at = seen;
              status = new;
              score = newer_score score clock none;
            }
      marked none = refl
      marked (some score) = refl

  -- The rows under other keys stay, and the table grows by one row exactly when the listing is inserted.
  pub write_listing_others :
      (j : String)
      → str_eq l.dedup_key j ≡ false
      → (get_by_dedup_key j (write_listing id l company_id run_id now clock jobs).0
          ≡ get_by_dedup_key j jobs)
        × (length (write_listing id l company_id run_id now clock jobs).0
            ≡ length jobs
              + (if (write_listing id l company_id run_id now clock jobs).1 then 1 else 0))
  unfolding write_listing upsert_discovered mark_scored
  write_listing_others j other = elim (Option-cases (get_by_dedup_key l.dedup_key jobs)) [
    | inl unknown ↦
        let x = inserted_row id clock (discovered l company_id run_id seen none) in
        let m = jobs ++ (x ∷ []) in
        rw unknown (
          ground (arith, get-mark_if_scored l clock j m, get-append_other j jobs x other, other),
          omega (arith, length-mark_if_scored l clock m, length-append jobs (x ∷ [])),
        )
    | inr (old, known) ↦
        let d = discovered l company_id run_id seen (some old) in
        let m = update_by_key l.dedup_key (refresh d) jobs in
        rw known (
          ground (
            arith,
            get-mark_if_scored l clock j m,
            get-update_by_key l.dedup_key j (refresh d) jobs (λ x. refl),
            other,
          ),
          omega (
            arith,
            length-mark_if_scored l clock m,
            length-update_by_key l.dedup_key (refresh d) jobs,
          ),
        )
  ]
