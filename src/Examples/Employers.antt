-- ===== src/Examples/Employers.antt =====
-- An employer whose careers page names one board, which answers, and the listings of its fetches.
use huntloop.Base.{
  ℕ, ◌+◌, ◌≤◌, ◌<◌, ◌↔◌, String, ◌≡◌, ◌≢◌, refl, arith, true, false, Option, none, some, List, [],
  ◌∷◌, map, if◌then◌else◌, str_eq, select, length, All,
}
use huntloop.Fetching.UrlGuard.{
  UnsafeUrlError, SplitUrl, Lookup, Net, Ip, address_info, allowed, assert_fetch_url_allowed,
  is_blocked, first_blocked, address_of,
}
use huntloop.Fetching.UrlGuard.Laws.{Accepts, assert_fetch_url_allowed_iff}
use huntloop.Registry
use huntloop.Registry.{
  Platform, greenhouse, lever, ashby, FetchResult, SlugCandidate, name_guess, static_html, slugged,
  probe_candidates, probe_loop, probe_slug, ordered,
}
use huntloop.Registry.Probing.{AllDiffer, StopsPlatform, probe_candidates_bounded}
use huntloop.Registry.Settling.{is_settled, probe_candidates_complete}
use huntloop.Registry.Signatures.{Match}
use huntloop.Registry.Resolve.{
  World, ResolutionResult, is_verified, resolve, resolve_employer, result, normalise_url,
}
use huntloop.Registry.Resolve.Laws.{Verdict, resolve_employer-Verdict}
use huntloop.Registry.Companies.{Company, get_company, get_by_name, persist_resolution}
use huntloop.Registry.Companies.Staleness.{empty_streak}
use huntloop.Registry.Companies.Rows.{HasBoard, persist_resolution-HasBoard}
use huntloop.CompaniesApi.{Api, resolution_state}
use huntloop.CompaniesApi.Resolving.{resolve_company_in_background}
use huntloop.CompaniesApi.Lifecycle.{outcome, resolve_company_in_background-outcome}
use huntloop.Jobs.{Listing, Job}
use huntloop.Discovery.{write_batch}
use huntloop.Discovery.Again.{write_batch_again}
use huntloop.Examples.Store.{env}
use huntloop.Examples.Tracker.{jobs, found_again}

abbrev public_ip : Ip
public_ip = record {
  is_loopback = false;
  is_link_local = false;
  is_private = false;
  is_multicast = false;
  is_reserved = false;
  is_unspecified = false;
  is_site_local = false;
}

abbrev split_url : String → SplitUrl
split_url url = record {
  scheme = "https";
  username = none;
  password = none;
  hostname = some (if str_eq url "https://localhost" then "localhost" else "acme.example");
}

-- Each host has one public address; `localhost` resolves to a loopback.
abbrev net : Net
net = record {
  urlsplit = λ url. if str_eq url "https://[" then none else some (split_url url);
  ip_address = λ text.
      if str_eq text "127.0.0.1"
      then some (record public_ip { is_loopback = true })
      else if str_eq text "93.184.216.34"
      then some public_ip
      else none;
  resolve = λ host.
      Lookup.found
        (address_info (if str_eq host "localhost" then "127.0.0.1" else "93.184.216.34") ∷ []);
}

localhost_is_refused :
    assert_fetch_url_allowed net false "https://localhost" ≢ allowed "https://localhost"
unfolding assert_fetch_url_allowed first_blocked address_of is_blocked
localhost_is_refused h = cc

assert_fetch_url_allowed_iff_example :
    (assert_fetch_url_allowed net false "https://acme.example" ≡ allowed "https://acme.example")
    ↔ Accepts net false (split_url "https://acme.example")
assert_fetch_url_allowed_iff_example = assert_fetch_url_allowed_iff net false "https://acme.example"

abbrev failure : FetchResult
failure = record {
  status = Registry.error;
  listings = 0;
  http_status = some 404;
  error_kind = some Registry.http_error;
  message = none;
}

abbrev success : FetchResult
success = record {
  status = Registry.ok;
  listings = 3;
  http_status = none;
  error_kind = none;
  message = none;
}

abbrev nothing_open : FetchResult
nothing_open = record success { status = Registry.empty; listings = 0 }

-- Only the board "acme" on lever answers.
abbrev fetch : ℕ → Platform → String → FetchResult
fetch n lever slug = if str_eq slug "acme" then success else failure
fetch n _ slug = failure

abbrev matches : Platform → String → List Match
matches lever html = record { label = "hosted_board"; slug = "acme"; len = 4 } ∷ []
matches _ html = []

abbrev world : World
world = record {
  path_of = λ url. "";
  with_path = λ url path. url;
  net = net;
  static_fetch = λ url. record { ok = true; html = "<a>"; final_url = some url };
  rendered_fetch = none;
  patterns = record { finditer = matches; search_weak = λ p html. false };
  forms = λ name. record {
    base = "acme";
    hyphenated = "acme";
    stripped_suffix = none;
    name_with_suffix = "acmeinc";
    first_word = none;
  };
  fetch = fetch;
}

abbrev candidates : List SlugCandidate
candidates =
    record {
      platform = greenhouse;
      slug = some "acme";
      weak = false;
      matched_patterns = [];
      source = name_guess;
    }
    ∷ record {
      platform = lever;
      slug = some "acme";
      weak = false;
      matched_patterns = [];
      source = static_html;
    }
    ∷ record {
      platform = lever;
      slug = some "acmeinc";
      weak = false;
      matched_patterns = [];
      source = name_guess;
    }
    ∷ []

-- The third candidate is not probed, as its platform is verified.
two_probes : map (λ r. r.verified) (probe_candidates fetch 0 candidates) ≡ true ∷ false ∷ []
unfolding probe_candidates ordered slugged probe_loop probe_slug
two_probes = refl

probe_candidates_bounded_example :
    (length (probe_candidates fetch 0 candidates) ≤ 12)
    × AllDiffer (probe_candidates fetch 0 candidates)
    × StopsPlatform (probe_candidates fetch 0 candidates)
probe_candidates_bounded_example = probe_candidates_bounded fetch 0 candidates

few_probes : length (probe_candidates fetch 0 candidates) < 12
unfolding probe_candidates ordered slugged probe_loop probe_slug
few_probes = omega arith

probe_candidates_complete_example :
    All (λ c. is_settled c (probe_candidates fetch 0 candidates) ≡ true) (slugged candidates)
probe_candidates_complete_example = probe_candidates_complete fetch 0 candidates few_probes

abbrev acme : ResolutionResult
acme = resolve world "Acme Inc" 5 (some "https://acme.example")

acme_is_the_result : resolve_employer world "Acme Inc" (some "acme.example") 5 ≡ result acme
unfolding resolve_employer normalise_url assert_fetch_url_allowed first_blocked address_of
    is_blocked
acme_is_the_result = refl

resolve_employer-Verdict_example :
    Verdict (select is_verified acme.probed) acme × (length acme.probed ≤ 24)
resolve_employer-Verdict_example =
    resolve_employer-Verdict world "Acme Inc" (some "acme.example") 5 acme acme_is_the_result

abbrev company : Company
company = record {
  id = "c1";
  name = "Acme Inc";
  ats = none;
  ats_identifier = none;
  ats_config = none;
  careers_url = some "acme.example";
  enabled = true;
  resolved_at = none;
  last_checked_at = none;
  last_job_count = none;
  consecutive_empty_runs = 1;
}

abbrev companies : List Company
companies = company ∷ []

persist_resolution-HasBoard_example :
    All HasBoard (persist_resolution env.iso 9 "new" "Acme Inc" acme none companies)
persist_resolution-HasBoard_example =
    persist_resolution-HasBoard world env.iso 9 "new" "Acme Inc" (some "acme.example") 5 acme none
      companies acme_is_the_result ((λ h. absurd (cc)), tt)

found : get_company "c1" companies ≡ some company
unfolding get_company
found = refl

named : get_by_name "Acme Inc" companies ≡ some company
unfolding get_by_name
named = refl

three_in_a_row : empty_streak 1 (Registry.empty ∷ Registry.error ∷ Registry.empty ∷ []) ≡ 3
three_in_a_row = refl

abbrev error_text : Option UnsafeUrlError → String
error_text none = "Invalid IPv6 URL"
error_text (some exc) = "not allowed"

abbrev api : Api
api = record { strip = λ text. text; world = world; iso = env.iso; clock = 9 }

resolve_company_in_background-outcome_example :
    (d : Company) × (get_company "c1"
        (resolve_company_in_background api error_text none "c1" companies)
      ≡ some d)
    × (resolution_state env.iso d
        ≡ outcome none (resolve_employer world "Acme Inc" company.careers_url 5) company)
resolve_company_in_background-outcome_example =
    resolve_company_in_background-outcome api error_text none "c1" companies company found named

abbrev batch : List (Option Listing)
batch = some found_again ∷ none ∷ some (record found_again { dedup_key = "acme:9" }) ∷ []

abbrev ids : ℕ → String
ids n = "new"

abbrev written : List Job
written = (write_batch ids 0 batch "acme" "run2" 9 jobs).0

write_batch_again_example :
    ((write_batch ids 0 batch "acme" "run2" 9 jobs).1.inserted
        + (write_batch ids 0 batch "acme" "run2" 9 jobs).1.updated
        + (write_batch ids 0 batch "acme" "run2" 9 jobs).1.failed
      ≡ 3)
    × ((write_batch ids 5 batch "acme" "run3" 20 written).1.inserted ≡ 0)
write_batch_again_example =
    write_batch_again ids ids 0 5 batch "acme" "run2" "acme" "run3" 9 20 jobs
