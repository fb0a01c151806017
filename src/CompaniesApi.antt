-- ===== src/CompaniesApi.antt =====
-- src/huntloop/api/routers/companies.py, and `resolve_company_in_background` of src/huntloop/api/background.py:
-- the endpoints on the registry. This module has the state that is shown and the adding of employers, Patch and
-- Resolving the rest. An HTTPException is its status, and then nothing is committed.
pub mod Patch
pub mod Resolving
pub mod Lifecycle
use huntloop.Base.{
  ℕ, suc, String, Bool, true, false, not, ◌&&◌, ◌||◌, Option, none, some, List, [], ◌∷◌, map,
  if◌then◌else◌, or_default, str_eq, contains, is_some, ltb, select, length,
}
use huntloop.Base.Clock.{Time, Iso}
use huntloop.Fetching.UrlGuard.{
  value_error, Net, Guard, UnsafeUrlError, assert_fetch_url_allowed, allowed, unsafe,
}
use huntloop.Registry
use huntloop.Registry.{Platform}
use huntloop.Registry.Resolve.{
  World, ResolutionResult, Resolution, result, refused, resolve_employer, normalise_url,
}
use huntloop.Registry.Companies.{
  AtsConfig, ResolutionBlock, ResolutionState, is_resolved, is_resolving, is_error, Company,
  CompanyFields, get_company, get_by_name, update_company, upsert_by_name, persist_resolution,
  mark_resolving, mark_resolution_error, build_manual_resolution_config, ats_platform,
}

-- `str.strip`, the guard's world, the library's dates, and the clock.
pub record Api : Type 0 where
  pub strip : String → String
  pub world : World
  pub iso : Iso
  pub clock : Time

-- What `resolution_state` shows.
pub data Shown : Type 0 where
  added resolving resolved error : Shown

abbrev pub block_of : Company → Option ResolutionBlock
block_of c = elim c.ats_config [ none ↦ none | some config ↦ config.resolution ]

-- `started is None or resolved_at is None or started > resolved_at`
abbrev newer : Option Time → Option Time → Bool
newer none last = true
newer (some started) none = true
newer (some started) (some last) = ltb last started

abbrev parsed : Iso → Option String → Option Time
parsed iso none = none
parsed iso (some text) = iso.parse text

abbrev marks_resolving : Iso → Option Time → Option ResolutionBlock → Bool
marks_resolving iso resolved_at none = false
marks_resolving iso resolved_at (some block) = elim block.state [
  | is_resolving ↦ newer (parsed iso block.started_at) resolved_at
  | _ ↦ false
]

unfoldable pub resolution_state : Iso → Company → Shown
resolution_state iso c =
    if marks_resolving iso c.resolved_at (block_of c)
    then resolving
    else if is_some c.resolved_at
    then resolved
    else if is_some (block_of c)
    then error
    else added

-- The value to persist, the 422, or a ValueError that nothing catches.
pub data Validated : Type 0 where
  valid : Option String → Validated
  not_allowed : UnsafeUrlError → Validated
  not_parsed : Validated

abbrev checked : String → Guard → Validated
checked value (allowed _) = valid (some value)
checked value (unsafe exc) = not_allowed exc
checked value value_error = not_parsed

unfoldable pub validate_careers_url : Api → Option String → Validated
validate_careers_url api none = valid none
validate_careers_url api (some url) =
    let value = api.strip url in
    if str_eq value ""
    then valid none
    else checked value (assert_fetch_url_allowed api.world.net false (normalise_url value))

pub data HttpError : Type 0 where
  not_found : HttpError
  conflict : HttpError
  unprocessable : HttpError
  internal_server_error : HttpError

pub data Response : Type 0 where
  done : List Company → Response
  http_error : HttpError → Response

abbrev no_fields : CompanyFields
no_fields = record {
  ats = none;
  ats_identifier = none;
  ats_config = none;
  careers_url = none;
  enabled = none;
  resolved_at = none;
}

abbrev pub url_fields : Option String → CompanyFields
url_fields url = record no_fields { careers_url = some url }

abbrev added_with : String → String → List Company → Validated → Response
added_with id name companies (not_allowed exc) = http_error unprocessable
added_with id name companies not_parsed = http_error internal_server_error
added_with id name companies (valid url) = done (upsert_by_name id name (url_fields url) companies)

unfoldable pub add_company : Api → String → String → Option String → List Company → Response
unfolding validate_careers_url
add_company api id name careers_url companies =
    added_with id name companies (validate_careers_url api careers_url)

-- `urls` is `careers_urls.get`. Each insert has its own id; the rows are committed together.
unfoldable pub add_batch :
    Api → (ℕ → String) → ℕ → (String → Option String) → List String → List Company → Response
unfolding add_company
add_batch api ids n urls [] companies = done companies
add_batch api ids n urls (name ∷ rest) companies =
    elim (add_company api (ids n) name (urls name) companies) [
      | http_error status ↦ http_error status
      | done written ↦ add_batch api ids (suc n) urls rest written
    ]
