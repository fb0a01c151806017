-- ===== src/Registry/Companies/Staleness.antt =====
-- src/huntloop/registry/staleness.py: when an employer is taken for stale.
use huntloop.Base.{
  ℕ, suc, ◌≡◌, refl, String, Bool, true, false, ◌||◌, Option, none, some, List, [], ◌∷◌,
  if◌then◌else◌, leb, str_eq, arith, eq_iff,
}
use huntloop.Base.Clock.{Time}
use huntloop.Registry.{FetchStatus, ok, empty, error, FetchResult}
use huntloop.Registry.Resolve.{ResolutionStatus, needs_reverification}
use huntloop.Registry.Companies.{
  AtsConfig, Company, get_company, update_company, mark_empty_run, mark_listings_found,
}

abbrev mark_outcome : Time → String → FetchResult → FetchStatus → List Company → List Company
unfolding mark_empty_run mark_listings_found
mark_outcome now id r empty companies = mark_empty_run now id companies
mark_outcome now id r ok companies = mark_listings_found now id r.listings companies
mark_outcome now id r error companies = companies

unfoldable pub record_fetch_outcome :
    Time → Time → String → FetchResult → List Company → List Company
unfolding mark_outcome update_company
record_fetch_outcome clock now id result companies =
    update_company id (λ c. record c { last_checked_at = some now })
      (mark_outcome clock id result result.status companies)

abbrev status_of : Option AtsConfig → Option ResolutionStatus
status_of none = none
status_of (some config) = elim config.resolution [ none ↦ none | some block ↦ block.status ]

abbrev is_reverification : Option ResolutionStatus → Bool
is_reverification (some needs_reverification) = true
is_reverification _ = false

unfoldable pub is_possibly_stale : ℕ → Company → Bool
is_possibly_stale threshold c =
    is_reverification (status_of c.ats_config) || leb threshold c.consecutive_empty_runs

-- The two sentences, the second with the number that it names.
pub data StalenessMessage : Type 0 where
  board_gone : StalenessMessage
  no_listings : ℕ → StalenessMessage

unfoldable pub staleness_message : ℕ → Company → Option StalenessMessage
staleness_message threshold c =
    if is_reverification (status_of c.ats_config)
    then some board_gone
    else if leb threshold c.consecutive_empty_runs
    then some (no_listings c.consecutive_empty_runs)
    else none

-- The fetches of one employer, the last one first.
abbrev pub after_fetches : Time → String → List FetchResult → List Company → List Company
after_fetches now id [] companies = companies
after_fetches now id (r ∷ before) companies =
    record_fetch_outcome now now id r (after_fetches now id before companies)

-- How many results were EMPTY since the last one that was OK, beside which errors do not count.
abbrev pub empty_streak : ℕ → List FetchStatus → ℕ
empty_streak start [] = start
empty_streak start (empty ∷ before) = suc (empty_streak start before)
empty_streak start (ok ∷ before) = 0
empty_streak start (error ∷ before) = empty_streak start before

module _ (id : String) (f : Company → Company) (keeps : (c : Company) → (f c).id ≡ c.id) where
  pub get-update_company :
      (companies : List Company) (c : Company)
      → get_company id companies ≡ some c
      → get_company id (update_company id f companies) ≡ some (f c)
  unfolding get_company update_company
  get-update_company [] c h = cc
  get-update_company (d ∷ rest) c h =
      ground (arith, h, keeps d, get-update_company rest c, eq_iff d.id id)

  pub get-update_company_other :
      (k : String) (companies : List Company)
      → str_eq id k ≡ false
      → get_company k (update_company id f companies) ≡ get_company k companies
  unfolding get_company update_company
  get-update_company_other k [] e = refl
  get-update_company_other k (d ∷ rest) e = ground (
    arith,
    e,
    keeps d,
    get-update_company_other k rest e,
    eq_iff d.id id,
    eq_iff d.id k,
    eq_iff id k,
  )

-- What a fetch leaves in the row of its employer.
abbrev Streak : ℕ → String → List FetchStatus → List Company → Type 0
Streak start id fetched companies =
    (c : Company) × (get_company id companies ≡ some c)
    × (c.consecutive_empty_runs ≡ empty_streak start fetched)
