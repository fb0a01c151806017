-- ===== src/CompaniesApi/Patch.antt =====
-- src/huntloop/api/routers/companies.py, `patch_company`: the toggle and the manual entry of a board.
use huntloop.Base.{
  String, Bool, false, not, ◌||◌, Option, none, some, List, if◌then◌else◌, or_default, str_eq,
  is_some,
}
use huntloop.Registry
use huntloop.Registry.{Platform}
use huntloop.Registry.Companies.{
  Company, get_company, update_company, build_manual_resolution_config, ats_platform,
}
use huntloop.CompaniesApi.{
  Api, Validated, valid, not_allowed, not_parsed, internal_server_error, validate_careers_url,
  not_found, unprocessable, Response, done, http_error,
}

-- `CompanyPatch`, where `none` is a field that is not set, and `some none` one that is null.
pub record CompanyPatch : Type 0 where
  pub enabled : Option (Option Bool)
  pub ats : Option (Option String)
  pub ats_identifier : Option (Option String)
  pub careers_url : Option (Option String)

-- `SUPPORTED_MANUAL_PLATFORMS`
unfoldable pub supported_platform : String → Option Platform
supported_platform text =
    if str_eq text "greenhouse"
    then some Registry.greenhouse
    else if str_eq text "lever"
    then some Registry.lever
    else if str_eq text "ashby"
    then some Registry.ashby
    else none

abbrev given : Option (Option String) → Option String
given none = none
given (some value) = value

abbrev is_empty_patch : CompanyPatch → Bool
is_empty_patch p =
    not (is_some p.enabled || is_some p.ats || is_some p.ats_identifier || is_some p.careers_url)

-- `bool(data["enabled"])`, where it is set
abbrev toggled : Option (Option Bool) → Company → Company
toggled none c = c
toggled (some value) c = record c { enabled = or_default value false }

-- The URL of the row after the patch, or the 422.
abbrev patched_url : Api → Option (Option String) → Company → Validated
patched_url api none c = valid c.careers_url
patched_url api (some url) c = validate_careers_url api url

-- A row, the 422, or the ValueError of a URL.
pub data Patched : Type 0 where
  row : Company → Patched
  invalid : Patched
  crashed : Patched

-- The block's own copies of the platform, the identifier and the URL are not modelled.
abbrev board_row : Api → Platform → String → Company → Validated → Patched
board_row api platform identifier c (not_allowed exc) = invalid
board_row api platform identifier c not_parsed = crashed
board_row api platform identifier c (valid url) = row (record c {
  ats = some (ats_platform platform);
  ats_identifier = some identifier;
  careers_url = url;
  ats_config = some (build_manual_resolution_config api.iso api.clock);
  resolved_at = some api.clock;
})

abbrev url_row : Company → Validated → Patched
url_row c (not_allowed exc) = invalid
url_row c not_parsed = crashed
url_row c (valid url) = row (record c { careers_url = url })

abbrev patch_board : Api → CompanyPatch → Company → String → Option Platform → Patched
patch_board api p c identifier none = invalid
patch_board api p c identifier (some platform) =
    if str_eq identifier ""
    then invalid
    else board_row api platform identifier c (patched_url api p.careers_url c)

-- The row that the patch makes of another.
unfoldable pub patch_row : Api → CompanyPatch → Company → Patched
patch_row api p before =
    let c = toggled p.enabled before in
    if is_some (given p.ats) || is_some (given p.ats_identifier)
    then patch_board api p c (api.strip (or_default (given p.ats_identifier) ""))
        (supported_platform (api.strip (or_default (given p.ats) "")))
    else url_row c (patched_url api p.careers_url c)

abbrev committed : String → List Company → Patched → Response
committed id companies invalid = http_error unprocessable
committed id companies crashed = http_error internal_server_error
committed id companies (row c) = done (update_company id (λ before. c) companies)

abbrev patch_found : Api → String → CompanyPatch → List Company → Option Company → Response
patch_found api id p companies none = http_error not_found
patch_found api id p companies (some c) =
    if is_empty_patch p
    then http_error unprocessable
    else committed id companies (patch_row api p c)

unfoldable pub patch_company : Api → String → CompanyPatch → List Company → Response
unfolding patch_row
patch_company api id p companies = patch_found api id p companies (get_company id companies)
