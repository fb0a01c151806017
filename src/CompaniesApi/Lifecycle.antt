-- ===== src/CompaniesApi/Lifecycle.antt =====
-- An employer that is being resolved is shown so, and is not when the probe has ended.
use huntloop.Base.{
  ◌<◌, ◌≡◌, refl, sym, subst, String, true, Option, none, some, List, [], ◌∷◌, if◌then◌else◌,
  str_eq, is_some, arith, eq_iff, eq_refl, Bool-cases, inl, inr, select, ◌∙◌, ◌⊎◌,
}
use huntloop.Base.Clock.{Time, Iso, RoundTrips}
use huntloop.Registry.Resolve
use huntloop.Registry.Resolve.{
  ResolutionStatus, ambiguous, unresolved, needs_reverification, ResolutionResult, Resolution,
  result, refused, not_parsed, is_verified, resolve_employer,
}
use huntloop.Registry.{ProbeResult}
use huntloop.Registry.Resolve.Laws.{Verdict, resolve_employer-Verdict}
use huntloop.Fetching.UrlGuard.{UnsafeUrlError}
use huntloop.Registry.Companies.{
  Company, get_company, get_by_name, update_company, update_by_name, refresh_company,
  upsert_by_name, persist_resolution, resolution_fields, build_ats_config, mark_resolving,
  mark_resolution_error,
}
use huntloop.Registry.Companies.Staleness.{get-update_company}
use huntloop.CompaniesApi.{Api, Shown, resolving, resolved, error, resolution_state, done}
use huntloop.CompaniesApi.Resolving.{
  resolve_company, set_resolving, raised, store_probe, resolve_company_in_background,
}

get_company-id :
    (id : String) (companies : List Company) (c : Company)
    → get_company id companies ≡ some c
    → c.id ≡ id
unfolding get_company
get_company-id id [] c h = cc
get_company-id id (d ∷ rest) c h = ground (arith, h, get_company-id id rest c, eq_iff d.id id)

set_resolving-resolution_state :
    (api : Api) (c : Company)
    → RoundTrips api.iso
    → (done_at : Option Time) → c.resolved_at ≡ done_at
    → ((t : Time) → done_at ≡ some t → t < api.clock)
    → resolution_state api.iso (set_resolving api c) ≡ resolving
unfolding resolution_state mark_resolving
set_resolving-resolution_state api c trips none e h = rw (e, trips api.clock) refl
set_resolving-resolution_state api c trips (some t) e h =
    ground (arith, e, trips api.clock, h t refl)

-- Where dates are read back as written, a request to resolve an enabled employer that was last resolved
-- before, if ever, commits a row that is shown as resolving.
pub resolve_company-resolving :
    (api : Api) (id : String) (companies : List Company) (c : Company)
    → RoundTrips api.iso
    → get_company id companies ≡ some c
    → c.enabled ≡ true
    → ((t : Time) → c.resolved_at ≡ some t → t < api.clock)
    → (later : List Company) × (d : Company) × (resolve_company api id companies ≡ done later)
      × (get_company id later ≡ some d)
      × (resolution_state api.iso d ≡ resolving)
unfolding resolve_company
resolve_company-resolving api id companies c trips found enabled past = (
  update_company id (set_resolving api) companies,
  set_resolving api c,
  rw (found, enabled) refl,
  get-update_company id (set_resolving api) (λ d. refl) companies c found,
  set_resolving-resolution_state api c trips c.resolved_at refl past,
)

-- A row that is found both ways is the one that is written by its name.
get_company-update_by_name :
    (f : Company → Company) (companies : List Company) (c : Company)
    → ((d : Company) → (f d).id ≡ d.id)
    → get_company c.id companies ≡ some c
    → get_by_name c.name companies ≡ some c
    → get_company c.id (update_by_name c.name f companies) ≡ some (f c)
unfolding get_company get_by_name update_by_name
get_company-update_by_name f [] c keeps h k = cc
get_company-update_by_name f (d ∷ rest) c keeps h k = elim (Bool-cases (str_eq d.name c.name)) [
  | inl e ↦ ground (arith, e, h, k, keeps d, eq_refl c.id)
  | inr e ↦ ground (arith, e, h, k, get_company-update_by_name f rest c keeps, eq_iff d.name c.name)
]

-- What is shown of an employer whose probe has verified these boards.
abbrev pub shown_of : List ProbeResult → Shown
shown_of [] = error
shown_of (p ∷ []) = resolved
shown_of (p ∷ q ∷ rest) = error

-- What is shown of an employer when its probe has ended.
abbrev pub outcome : Option String → Resolution → Company → Shown
outcome none (result r) c = shown_of (select is_verified r.probed)
outcome _ _ c = if is_some c.resolved_at then resolved else error

abbrev stored_shown : ResolutionStatus → Shown
stored_shown status = elim status [ Resolve.resolved ↦ resolved | _ ↦ error ]

Verdict-stored_shown :
    (boards : List ProbeResult) (r : ResolutionResult)
    → Verdict boards r
    → stored_shown r.status ≡ shown_of boards
Verdict-stored_shown [] r h = rw h.0
Verdict-stored_shown (p ∷ []) r h = rw h.0
Verdict-stored_shown (p ∷ q ∷ rest) r h = rw h.0

refreshed-resolution_state :
    (iso : Iso) (now : Time) (r : ResolutionResult) (c : Company) (status : ResolutionStatus)
    → r.status ≡ status
    → resolution_state iso (refresh_company (resolution_fields iso now r none) c)
      ≡ stored_shown status
unfolding resolution_state resolution_fields build_ats_config
refreshed-resolution_state iso now r c Resolve.resolved e = rw e refl
refreshed-resolution_state iso now r c ambiguous e = rw e refl
refreshed-resolution_state iso now r c unresolved e = rw e refl
refreshed-resolution_state iso now r c needs_reverification e = rw e refl

failed-resolution_state :
    (iso : Iso) (now : Time) (exc : String) (c : Company)
    → resolution_state iso
        (record c { ats_config = some (mark_resolution_error iso now c.ats_config exc) })
      ≡ (if is_some c.resolved_at then resolved else error)
unfolding resolution_state mark_resolution_error
failed-resolution_state iso now exc c = refl

Resolution-cases :
    (m : Resolution)
    → ((exc : UnsafeUrlError) × (m ≡ refused exc))
      ⊎ ((m ≡ not_parsed) ⊎ ((r : ResolutionResult) × (m ≡ result r)))
Resolution-cases (result r) = inr (inr (r, refl))
Resolution-cases (refused exc) = inl (exc, refl)
Resolution-cases not_parsed = inr (inl refl)

-- The row that is stored of a result or of an exception, for an employer that its id and its name find.
stored-result :
    (api : Api) (r : ResolutionResult) (id : String) (companies : List Company) (c : Company)
    → get_company id companies ≡ some c
    → get_by_name c.name companies ≡ some c
    → get_company id (persist_resolution api.iso api.clock c.id c.name r none companies)
      ≡ some (refresh_company (resolution_fields api.iso api.clock r none) c)
unfolding persist_resolution upsert_by_name
stored-result api r id companies c found named =
    let fields = resolution_fields api.iso api.clock r none in
    let same = get_company-id id companies c found in
    let here = subst (λ i. get_company i companies ≡ some c) (sym same) found in
    rw named (
      subst
        (λ i.
          get_company i (update_by_name c.name (refresh_company fields) companies)
          ≡ some (refresh_company fields c))
        same
        (get_company-update_by_name (refresh_company fields) companies c (λ d. refl) here named))

stored-exception :
    (api : Api) (exc : String) (id : String) (companies : List Company) (c : Company)
    → get_company id companies ≡ some c
    → (d : Company) × (get_company id (store_probe api c companies (raised exc)) ≡ some d)
      × (resolution_state api.iso d ≡ (if is_some c.resolved_at then resolved else error))
stored-exception api exc id companies c found =
    let same = get_company-id id companies c found in
    let here = subst (λ i. get_company i companies ≡ some c) (sym same) found in
    let f : Company → Company = λ d. record d {
      ats_config = some (mark_resolution_error api.iso api.clock d.ats_config exc);
    } in
    (
      f c,
      subst (λ i. get_company i (update_company c.id f companies) ≡ some (f c)) same
          (get-update_company c.id f (λ d. refl) companies c here),
      failed-resolution_state api.iso api.clock exc c,
    )

-- When the thread ends, an employer that its id and its name find is shown as resolved if exactly one board was
-- verified, and in error if none or several were; where the guard refused its page or something that is called
-- raised, one that was resolved before stays so, and any other is in error.
pub resolve_company_in_background-outcome :
    (api : Api) (str : Option UnsafeUrlError → String) (failure : Option String) (id : String)
    (companies : List Company) (c : Company)
    → get_company id companies ≡ some c
    → get_by_name c.name companies ≡ some c
    → (d : Company) × (get_company id (resolve_company_in_background api str failure id companies)
        ≡ some d)
      × (resolution_state api.iso d
          ≡ outcome failure (resolve_employer api.world c.name c.careers_url 5) c)
unfolding resolve_company_in_background
resolve_company_in_background-outcome api str (some exc) id companies c found named =
    rw found (stored-exception api exc id companies c found)
resolve_company_in_background-outcome api str none id companies c found named =
    elim (Resolution-cases (resolve_employer api.world c.name c.careers_url 5)) [
      | inl (exc, e) ↦ rw (found, e) (stored-exception api (str (some exc)) id companies c found)
      | inr (inl e) ↦ rw (found, e) (stored-exception api (str none) id companies c found)
      | inr (inr (r, e)) ↦
          let boards = (resolve_employer-Verdict api.world c.name c.careers_url 5 r e).0 in
          rw (found, e)
            (
              refresh_company (resolution_fields api.iso api.clock r none) c,
              stored-result api r id companies c found named,
              refreshed-resolution_state api.iso api.clock r c r.status refl
                  ∙ Verdict-stored_shown (select is_verified r.probed) r boards,
            )
    ]
