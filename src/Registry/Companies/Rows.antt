-- ===== src/Registry/Companies/Rows.antt =====
-- What the writes of the registry leave in its rows.
use huntloop.Base.{
  ℕ, ◌≡◌, refl, sym, ◌∙◌, String, Bool, true, false, Option, some, List, [], ◌∷◌, str_eq, is_some,
  length, All, All-append, arith, eq_iff, Bool-cases, inl, inr,
}
use huntloop.Base.Clock.{Time, Iso}
use huntloop.Registry.{ProbeResult}
use huntloop.Registry.Resolve.{
  World, ResolutionStatus, resolved, ambiguous, unresolved, ResolutionResult, result,
  resolve_employer,
}
use huntloop.Registry.Resolve.Laws.{Verdict, resolve_employer-Verdict}
use huntloop.Registry.Companies.{
  Company, CompanyFields, get_by_name, update_by_name, refresh_company, inserted_company,
  upsert_by_name, resolution_fields, resolved_time, platform_column, persist_resolution,
}

-- A row that is resolved names the board to watch.
abbrev pub HasBoard : Company → Type 0
HasBoard c =
    is_some c.resolved_at ≡ true → (is_some c.ats ≡ true) × (is_some c.ats_identifier ≡ true)

All-update_by_name {κ} :
    (P : Company → Type κ) (name : String) (f : Company → Company) (companies : List Company)
    → ((c : Company) → P (f c))
    → All P companies
    → All P (update_by_name name f companies)
unfolding update_by_name
All-update_by_name P name f [] p h = tt
All-update_by_name P name f (c ∷ rest) p h = elim (Bool-cases (str_eq c.name name)) [
  | inl e ↦ rw e (p c, h.1)
  | inr e ↦ rw e (h.0, All-update_by_name P name f rest p h.1)
]

-- The two ways a result of the resolver is written.
abbrev Boards : ResolutionResult → Type 0
Boards r =
    is_some (resolved_time 0 r.status) ≡ true
    → (is_some (platform_column r.platform) ≡ true) × (is_some r.slug ≡ true)

Verdict-Boards :
    (verified : List ProbeResult) (r : ResolutionResult) → Verdict verified r → Boards r
Verdict-Boards [] r h e = absurd (let e' = rw h.0 at e in cc)
Verdict-Boards (p ∷ []) r h e = (rw h.1 refl, rw h.2 refl)
Verdict-Boards (p ∷ q ∷ rest) r h e = absurd (let e' = rw h.0 at e in cc)

resolved_time_any :
    (now : Time) (status : ResolutionStatus)
    → is_some (resolved_time now status) ≡ is_some (resolved_time 0 status)
resolved_time_any now resolved = refl
resolved_time_any now ambiguous = refl
resolved_time_any now unresolved = refl
resolved_time_any now ResolutionStatus.needs_reverification = refl

-- Where every resolved row names a board, so it is after the result of a resolution was stored: an employer is
-- resolved only together with a platform and a slug.
pub persist_resolution-HasBoard :
    (w : World) (iso : Iso) (now : Time) (id name : String) (careers_url : Option String)
    (max_guesses : ℕ) (r : ResolutionResult) (enabled : Option Bool) (companies : List Company)
    → resolve_employer w name careers_url max_guesses ≡ result r
    → All HasBoard companies
    → All HasBoard (persist_resolution iso now id name r enabled companies)
unfolding persist_resolution upsert_by_name resolution_fields
persist_resolution-HasBoard w iso now id name url n r enabled companies e h =
    let boards = Verdict-Boards _ r (resolve_employer-Verdict w name url n r e).0 in
    let fields = resolution_fields iso now r enabled in
    let written : (c : Company) → HasBoard (refresh_company fields c) =
      λ c k. boards (sym (resolved_time_any now r.status) ∙ k) in
    elim (Bool-cases (is_some (get_by_name name companies))) [
      | inl known ↦
          rw known (All-update_by_name HasBoard name (refresh_company fields) companies written h)
      | inr fresh ↦ rw fresh (
          All-append HasBoard companies (inserted_company id name fields ∷ []) h
            ((λ k. boards (sym (resolved_time_any now r.status) ∙ k)), tt))
    ]

get_by_name-update :
    (name : String) (f : Company → Company) (companies : List Company) (c : Company)
    → ((d : Company) → (f d).name ≡ d.name)
    → get_by_name name companies ≡ some c
    → get_by_name name (update_by_name name f companies) ≡ some (f c)
unfolding get_by_name update_by_name
get_by_name-update name f [] c keeps h = cc
get_by_name-update name f (d ∷ rest) c keeps h =
    ground (arith, h, keeps d, get_by_name-update name f rest c keeps, eq_iff d.name name)

get_by_name-update_other :
    (name k : String) (f : Company → Company) (companies : List Company)
    → ((d : Company) → (f d).name ≡ d.name)
    → str_eq name k ≡ false
    → get_by_name k (update_by_name name f companies) ≡ get_by_name k companies
unfolding get_by_name update_by_name
get_by_name-update_other name k f [] keeps e = refl
get_by_name-update_other name k f (d ∷ rest) keeps e = ground (
  arith,
  e,
  keeps d,
  get_by_name-update_other name k f rest keeps e,
  eq_iff d.name name,
  eq_iff d.name k,
  eq_iff name k,
)

length-update_by_name :
    (name : String) (f : Company → Company) (companies : List Company)
    → length (update_by_name name f companies) ≡ length companies
unfolding update_by_name
length-update_by_name name f [] = refl
length-update_by_name name f (d ∷ rest) = ground (arith, length-update_by_name name f rest)

-- Registering a known name again refreshes its one row with what is given, and leaves its id, whether it is
-- enabled, its history and every other row.
pub upsert_by_name_known :
    (id name : String) (f : CompanyFields) (companies : List Company) (c : Company)
    → get_by_name name companies ≡ some c
    → (get_by_name name (upsert_by_name id name f companies) ≡ some (refresh_company f c))
      × ((refresh_company f c).id ≡ c.id)
      × ((refresh_company f c).enabled ≡ c.enabled)
      × ((refresh_company f c).consecutive_empty_runs ≡ c.consecutive_empty_runs)
      × (length (upsert_by_name id name f companies) ≡ length companies)
      × ((k : String)
          → str_eq name k ≡ false
          → get_by_name k (upsert_by_name id name f companies) ≡ get_by_name k companies)
unfolding upsert_by_name
upsert_by_name_known id name f companies c h = rw h (
  get_by_name-update name (refresh_company f) companies c (λ d. refl) h,
  refl,
  refl,
  refl,
  length-update_by_name name (refresh_company f) companies,
  (λ k e. get_by_name-update_other name k (refresh_company f) companies (λ d. refl) e),
)
