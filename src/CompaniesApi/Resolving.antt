-- ===== src/CompaniesApi/Resolving.antt =====
-- src/huntloop/api/routers/companies.py, `resolve_company`, `resolve_batch` and `coverage`, and
-- `resolve_company_in_background` of src/huntloop/api/background.py.
use huntloop.Base.{
  ℕ, String, not, ◌&&◌, Option, none, some, List, map, if◌then◌else◌, contains, is_some, select,
  length,
}
use huntloop.Fetching.UrlGuard.{UnsafeUrlError}
use huntloop.Registry.Resolve.{
  ResolutionResult, Resolution, result, refused, not_parsed, resolve_employer,
}
use huntloop.Registry.Companies.{
  Company, get_company, update_company, persist_resolution, mark_resolving, mark_resolution_error,
}
use huntloop.CompaniesApi.{Api, not_found, conflict, Response, done, http_error}

abbrev pub set_resolving : Api → Company → Company
set_resolving api c = record c { ats_config = some (mark_resolving api.iso api.clock c.ats_config) }

abbrev resolve_found : Api → String → List Company → Option Company → Response
resolve_found api id companies none = http_error not_found
resolve_found api id companies (some c) =
    if c.enabled
    then done (update_company id (set_resolving api) companies)
    else http_error conflict

-- What is committed before the 202; the probe is `resolve_company_in_background`.
unfoldable pub resolve_company : Api → String → List Company → Response
resolve_company api id companies = resolve_found api id companies (get_company id companies)

-- The rows are written one by one; the number is that of the threads that are started.
unfoldable pub resolve_batch : Api → List String → List Company → List Company × ℕ
resolve_batch api ids companies =
    let queued = select (λ c. contains ids c.id && c.enabled) companies in
    (
      map (λ c. if contains ids c.id && c.enabled then set_resolving api c else c) companies,
      length queued,
    )

pub record CoverageOut : Type 0 where
  pub added : ℕ
  pub watchable : ℕ
  pub needs_attention : ℕ
  pub resolved : ℕ

unfoldable pub coverage : List Company → CoverageOut
coverage companies = record {
  added = length companies;
  watchable = length (select (λ c. is_some c.resolved_at && c.enabled) companies);
  needs_attention = length (select (λ c. not (is_some c.resolved_at) && c.enabled) companies);
  resolved = length (select (λ c. is_some c.resolved_at) companies);
}

-- How the probe of the thread ends: a result, or an exception with its text.
pub data Probe : Type 0 where
  finished : ResolutionResult → Probe
  raised : String → Probe

-- `failure` is the text of an exception of what is called, which are the fetchers, the boards and the database;
-- `str` is the text of what the guard raises, of a ValueError for `none`.
abbrev probe_of : (Option UnsafeUrlError → String) → Option String → Resolution → Probe
probe_of str (some exc) r = raised exc
probe_of str none (result r) = finished r
probe_of str none (refused exc) = raised (str (some exc))
probe_of str none not_parsed = raised (str none)

abbrev pub store_probe : Api → Company → List Company → Probe → List Company
store_probe api c companies (finished r) =
    persist_resolution api.iso api.clock c.id c.name r none companies
store_probe api c companies (raised exc) =
    update_company c.id
      (λ d. record d {
        ats_config = some (mark_resolution_error api.iso api.clock d.ats_config exc);
      })
      companies

module _ (api : Api) (str : Option UnsafeUrlError → String) (failure : Option String) where
  abbrev in_background : List Company → Option Company → List Company
  in_background companies none = companies
  in_background companies (some c) =
      store_probe api c companies
        (probe_of str failure (resolve_employer api.world c.name c.careers_url 5))

  unfoldable pub resolve_company_in_background : String → List Company → List Company
  resolve_company_in_background id companies = in_background companies (get_company id companies)
