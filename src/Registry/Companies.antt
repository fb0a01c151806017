-- ===== src/Registry/Companies.antt =====
-- src/huntloop/db/repository.py, `CompanyRepository`, with the resolution block of `ats_config` that
-- src/huntloop/registry/resolve.py builds and `persist_resolution` writes.
pub mod Staleness
pub mod Rows
use huntloop.Base.{
  ℕ, suc, String, Bool, true, false, Option, none, some, List, [], ◌∷◌, ◌++◌, if◌then◌else◌,
  or_default, str_eq, is_some,
}
use huntloop.Base.Clock.{Time, Iso}
use huntloop.Registry
use huntloop.Registry.{Platform}
use huntloop.Registry.Resolve.{ResolutionStatus, resolved, unresolved, ResolutionResult}

pub data AtsPlatform : Type 0 where
  greenhouse lever ashby workday smartrecruiters firecrawl unknown : AtsPlatform

-- `AtsPlatform(platform)` of a key of `ADAPTERS`
abbrev pub ats_platform : Platform → AtsPlatform
ats_platform Registry.greenhouse = greenhouse
ats_platform Registry.lever = lever
ats_platform Registry.ashby = ashby

-- `RESOLVED`, `RESOLVING` and `ERROR`
pub data ResolutionState : Type 0 where
  is_resolved is_resolving is_error : ResolutionState

-- The keys that are read elsewhere are fields; a completed attempt's others, with its reason, are the result's.
pub record ResolutionBlock : Type 0 where
  pub state : ResolutionState
  pub status : Option ResolutionStatus
  pub started_at : Option String
  pub finished_at : Option String
  pub reason : Option String
  pub trail : Option ResolutionResult

-- `others` is the text of the keys beside `resolution`.
pub record AtsConfig : Type 0 where
  pub resolution : Option ResolutionBlock
  pub others : String

pub record Company : Type 0 where
  pub id : String
  pub name : String
  pub ats : Option AtsPlatform
  pub ats_identifier : Option String
  pub ats_config : Option AtsConfig
  pub careers_url : Option String
  pub enabled : Bool
  pub resolved_at : Option Time
  pub last_checked_at : Option Time
  pub last_job_count : Option ℕ
  pub consecutive_empty_runs : ℕ

-- `dict(ats_config) if ats_config else {}`, with another `resolution`
abbrev others_of : Option AtsConfig → String
others_of none = ""
others_of (some config) = config.others

abbrev with_resolution : Option AtsConfig → ResolutionBlock → AtsConfig
with_resolution config block = record { resolution = some block; others = others_of config }

unfoldable pub mark_resolving : Iso → Time → Option AtsConfig → AtsConfig
mark_resolving iso now config = with_resolution config (record {
  state = is_resolving;
  status = none;
  started_at = some (iso.format now);
  finished_at = none;
  reason = none;
  trail = none;
})

unfoldable pub mark_resolution_error : Iso → Time → Option AtsConfig → String → AtsConfig
mark_resolution_error iso now config reason = with_resolution config (record {
  state = is_error;
  status = some unresolved;
  started_at = none;
  finished_at = some (iso.format now);
  reason = some reason;
  trail = none;
})

abbrev state_of : ResolutionStatus → ResolutionState
state_of resolved = is_resolved
state_of _ = is_error

unfoldable pub build_ats_config : Iso → Time → ResolutionResult → AtsConfig
build_ats_config iso now result = record {
  resolution = some (record {
    state = state_of result.status;
    status = some result.status;
    started_at = none;
    finished_at = some (iso.format now);
    reason = none;
    trail = some result;
  });
  others = "";
}

unfoldable pub build_manual_resolution_config : Iso → Time → AtsConfig
build_manual_resolution_config iso now = record {
  resolution = some (record {
    state = is_resolved;
    status = some resolved;
    started_at = none;
    finished_at = some (iso.format now);
    reason = some "";
    trail = none;
  });
  others = "";
}

unfoldable pub get_by_name : String → List Company → Option Company
get_by_name name [] = none
get_by_name name (c ∷ rest) =
    let later = get_by_name name rest in if str_eq c.name name then some c else later

-- `session.get(Company, id)`
unfoldable pub get_company : String → List Company → Option Company
get_company id [] = none
get_company id (c ∷ rest) =
    let later = get_company id rest in if str_eq c.id id then some c else later

-- A write of the row with a name, or with an id.
unfoldable pub update_by_name : String → (Company → Company) → List Company → List Company
update_by_name name f [] = []
update_by_name name f (c ∷ rest) =
    let later = update_by_name name f rest in if str_eq c.name name then f c ∷ rest else c ∷ later

unfoldable pub update_company : String → (Company → Company) → List Company → List Company
update_company id f [] = []
update_company id f (c ∷ rest) =
    let later = update_company id f rest in if str_eq c.id id then f c ∷ rest else c ∷ later

-- The keyword arguments, where `none` is one that is not given.
pub record CompanyFields : Type 0 where
  pub ats : Option (Option AtsPlatform)
  pub ats_identifier : Option (Option String)
  pub ats_config : Option (Option AtsConfig)
  pub careers_url : Option (Option String)
  pub enabled : Option Bool
  pub resolved_at : Option (Option Time)

-- DO UPDATE SET of the discovery-owned columns among the arguments, which `enabled` is not.
abbrev pub refresh_company : CompanyFields → Company → Company
refresh_company f c = record c {
  ats = or_default f.ats c.ats;
  ats_identifier = or_default f.ats_identifier c.ats_identifier;
  ats_config = or_default f.ats_config c.ats_config;
  careers_url = or_default f.careers_url c.careers_url;
  resolved_at = or_default f.resolved_at c.resolved_at;
}

abbrev pub inserted_company : String → String → CompanyFields → Company
inserted_company id name f = record {
  id = id;
  name = name;
  ats = or_default f.ats none;
  ats_identifier = or_default f.ats_identifier none;
  ats_config = or_default f.ats_config none;
  careers_url = or_default f.careers_url none;
  enabled = or_default f.enabled true;
  resolved_at = or_default f.resolved_at none;
  last_checked_at = none;
  last_job_count = none;
  consecutive_empty_runs = 0;
}

-- `id` is the UUID for a new row
unfoldable pub upsert_by_name : String → String → CompanyFields → List Company → List Company
unfolding get_by_name update_by_name
upsert_by_name id name f companies =
    if is_some (get_by_name name companies)
    then update_by_name name (refresh_company f) companies
    else companies ++ (inserted_company id name f ∷ [])

abbrev pub resolved_time : Time → ResolutionStatus → Option Time
resolved_time now resolved = some now
resolved_time now _ = none

abbrev pub platform_column : Option Platform → Option AtsPlatform
platform_column none = none
platform_column (some p) = some (ats_platform p)

-- The arguments that `persist_resolution` gives; `enabled` is the command line's.
unfoldable pub resolution_fields : Iso → Time → ResolutionResult → Option Bool → CompanyFields
unfolding build_ats_config
resolution_fields iso now result enabled = record {
  ats = some (platform_column result.platform);
  ats_identifier = some result.slug;
  ats_config = some (some (build_ats_config iso now result));
  careers_url = some result.careers_url;
  enabled = enabled;
  resolved_at = some (resolved_time now result.status);
}

unfoldable pub persist_resolution :
    Iso → Time → String → String → ResolutionResult → Option Bool → List Company → List Company
unfolding upsert_by_name resolution_fields
persist_resolution iso now id name result enabled companies =
    upsert_by_name id name (resolution_fields iso now result enabled) companies

-- `mark_empty_run` and `mark_listings_found` of the row that has the id
unfoldable pub mark_empty_run : Time → String → List Company → List Company
unfolding update_company
mark_empty_run now id companies =
    update_company id
      (λ c. record c {
        consecutive_empty_runs = suc c.consecutive_empty_runs;
        last_checked_at = some now;
        last_job_count = some 0;
      })
      companies

unfoldable pub mark_listings_found : Time → String → ℕ → List Company → List Company
unfolding update_company
mark_listings_found now id count companies =
    update_company id
      (λ c. record c {
        consecutive_empty_runs = 0;
        last_job_count = some count;
        last_checked_at = some now;
      })
      companies
