-- ===== src/Registry/Resolve.antt =====
-- src/huntloop/registry/resolve.py, `resolve_employer`: from a name and a careers page to the one board that
-- was verified. The pages, the adapters and the parsing of URLs are parameters.
pub mod Laws
use Prim.Native.String.{find as position, len}
use huntloop.Base.{
  ℕ, ◌+◌, String, ◌<>◌, Bool, true, false, not, ◌&&◌, Option, none, some, List, [], ◌∷◌, ◌++◌, map,
  if◌then◌else◌, str_eq, leb, any, select, take, length, is_some,
}
use huntloop.Fetching.UrlGuard.{
  value_error, Net, Guard, UnsafeUrlError, assert_fetch_url_allowed, allowed, unsafe,
}
use huntloop.Registry.{
  Platform, greenhouse, lever, ashby, same_platform, Source, static_html, rendered_html, name_guess,
  source_order, SlugCandidate, ProbeResult, Fetch, probe_candidates,
}
use huntloop.Registry.Guesses.{Forms, guess_slugs}
use huntloop.Registry.Signatures.{Patterns, sweep_signatures}

pub data ResolutionStatus : Type 0 where
  resolved ambiguous unresolved needs_reverification : ResolutionStatus

pub data Tier : Type 0 where
  tier2_static tier1_guess tier3_rendered : Tier

-- The values that the text of `reason` names.
pub data ResolutionReason : Type 0 where
  no_reason : ResolutionReason
  all_failed : List Tier → ℕ → Option String → List Platform → ResolutionReason
  multiple : List ProbeResult → ResolutionReason

pub record ResolutionResult : Type 0 where
  pub status : ResolutionStatus
  pub platform : Option Platform
  pub slug : Option String
  pub resolved_via : Option Source
  pub candidates : List SlugCandidate
  pub probed : List ProbeResult
  pub careers_url : Option String
  pub final_url : Option String
  pub reason : ResolutionReason

pub record Page : Type 0 where
  pub ok : Bool
  pub html : String
  pub final_url : Option String

-- What the renderer answers: a page, or `RendererUnavailable`.
pub data Rendering : Type 0 where
  page : Page → Rendering
  unavailable : String → Rendering

pub record World : Type 0 where
  -- `urlparse(url).path.rstrip("/")`, and `urlunparse(parsed._replace(path=..))`
  pub path_of : String → String
  pub with_path : String → String → String
  pub net : Net
  pub static_fetch : String → Page
  pub rendered_fetch : Option (String → Rendering)
  pub patterns : Patterns
  pub forms : String → Forms
  pub fetch : Fetch

unfoldable pub normalise_url : String → String
normalise_url url = if leb (position url "://") (len url) then url else "https://" <> url

abbrev pub read_page : Page → String × Option String
read_page p = (if p.ok then p.html else "", if p.ok then p.final_url else none)

unfoldable pub fetch_with_fallback : World → String → String × Option String
fetch_with_fallback w url =
    let careers = w.static_fetch (w.with_path url "/careers") in
    if not (str_eq (w.path_of url) "")
    then read_page (w.static_fetch url)
    else if careers.ok
    then (careers.html, careers.final_url)
    else read_page (w.static_fetch (w.with_path url "/"))

-- The candidates of tier 1: every guess on every platform.
unfoldable pub guess_candidates : List String → List SlugCandidate
guess_candidates [] = []
guess_candidates (slug ∷ rest) =
    map
      (λ p. record {
        platform = p;
        slug = some slug;
        weak = false;
        matched_patterns = [];
        source = name_guess;
      })
      (greenhouse ∷ lever ∷ ashby ∷ [])
    ++ guess_candidates rest

abbrev pub is_verified : ProbeResult → Bool
is_verified r = r.verified

abbrev pub of_board : ProbeResult → ProbeResult → Bool
of_board r s = same_platform s.platform r.platform && str_eq s.slug r.slug

-- `verified_pairs`, by the first result of each pair.
unfoldable pub verified_pairs : List ProbeResult → List ProbeResult → List ProbeResult
verified_pairs seen [] = []
verified_pairs seen (r ∷ rest) = elim (r.verified && not (any (of_board r) seen)) [
  | true ↦ r ∷ verified_pairs (r ∷ seen) rest
  | false ↦ verified_pairs seen rest
]

-- The first of the least.
abbrev strongest : SlugCandidate → List SlugCandidate → Source
strongest c [] = c.source
strongest c (d ∷ rest) =
    let with_c = strongest c rest in
    let with_d = strongest d rest in
    if leb (source_order c.source) (source_order d.source) then with_c else with_d

abbrev strongest_of : List SlugCandidate → Source
strongest_of [] = name_guess
strongest_of (c ∷ rest) = strongest c rest

unfoldable pub best_source : List SlugCandidate → Platform → String → Source
best_source candidates platform slug = strongest_of (
    select
      (λ c.
        same_platform c.platform platform
        && elim c.slug [ none ↦ false | some s ↦ str_eq s slug ]
        && not c.weak)
      candidates)

-- What the tiers have gathered.
pub record Trail : Type 0 where
  pub candidates : List SlugCandidate
  pub probed : List ProbeResult
  pub tiers : List Tier
  pub tier3_reason : Option String

-- The platforms of failed probes, sorted by name.
abbrev platforms_tried : List ProbeResult → List Platform
platforms_tried probed =
    select (λ p. any (λ r. not r.verified && same_platform r.platform p) probed)
      (ashby ∷ greenhouse ∷ lever ∷ [])

unfoldable pub decide : Option String → Option String → Trail → List ProbeResult → ResolutionResult
unfolding best_source
decide careers_url final_url t [] = record {
  status = unresolved;
  platform = none;
  slug = none;
  resolved_via = none;
  candidates = t.candidates;
  probed = t.probed;
  careers_url = careers_url;
  final_url = final_url;
  reason = all_failed t.tiers (length t.probed) t.tier3_reason (platforms_tried t.probed);
}
decide careers_url final_url t (r ∷ []) = record {
  status = resolved;
  platform = some r.platform;
  slug = some r.slug;
  resolved_via = some (best_source t.candidates r.platform r.slug);
  candidates = t.candidates;
  probed = t.probed;
  careers_url = careers_url;
  final_url = final_url;
  reason = no_reason;
}
decide careers_url final_url t (r ∷ s ∷ rest) = record {
  status = ambiguous;
  platform = none;
  slug = none;
  resolved_via = none;
  candidates = t.candidates;
  probed = t.probed;
  careers_url = careers_url;
  final_url = final_url;
  reason = multiple (r ∷ s ∷ rest);
}

abbrev pub probe_rendered : World → Trail → List SlugCandidate → Trail
probe_rendered w t [] = t
probe_rendered w t (c ∷ rest) = record t {
  candidates = t.candidates ++ (c ∷ rest);
  probed = t.probed ++ probe_candidates w.fetch (length t.probed) (c ∷ rest);
}

abbrev pub sweep_rendered : World → Trail → Rendering → Trail
sweep_rendered w t (unavailable exc) = record t { tier3_reason = some exc }
sweep_rendered w t (page p) =
    if p.ok && not (str_eq p.html "")
    then probe_rendered w t (sweep_signatures w.patterns rendered_html p.html)
    else t

abbrev pub render : World → Trail → Option String → Option (String → Rendering) → Trail
render w t none renderer = t
render w t (some url) none = t
render w t (some url) (some fetch) =
    sweep_rendered w (record t { tiers = t.tiers ++ (tier3_rendered ∷ []) }) (fetch url)

-- Tier 3, unless a board is verified by then.
unfoldable pub tier_three : World → Option String → Trail → Trail
tier_three w url t =
    let rendered = render w t url w.rendered_fetch in
    if any is_verified t.probed then t else rendered

-- Tier 2 on a page, if there is one: its candidates, where it ended, and the tier.
abbrev pub tier_two : World → Option String → List SlugCandidate × Option String × List Tier
unfolding fetch_with_fallback
tier_two w none = ([], none, [])
tier_two w (some url) =
    let fetched = fetch_with_fallback w url in
    (sweep_signatures w.patterns static_html fetched.0, fetched.1, tier2_static ∷ [])

-- Tiers 2 and 1, and the probes of what they found.
unfoldable pub first_tiers : World → String → ℕ → Option String → Trail
unfolding guess_candidates
first_tiers w name max_guesses url =
    let candidates =
      (tier_two w url).0 ++ guess_candidates (take max_guesses (guess_slugs (w.forms name))) in
    record {
      candidates = candidates;
      probed = probe_candidates w.fetch 0 candidates;
      tiers = (tier_two w url).2 ++ (tier1_guess ∷ []);
      tier3_reason = none;
    }

abbrev pub resolve : World → String → ℕ → Option String → ResolutionResult
unfolding first_tiers tier_three verified_pairs decide
resolve w name max_guesses url =
    let t = tier_three w url (first_tiers w name max_guesses url) in
    decide url (tier_two w url).1 t (verified_pairs [] t.probed)

-- The result, or what the guard raises: its own exception, or a ValueError.
pub data Resolution : Type 0 where
  result : ResolutionResult → Resolution
  refused : UnsafeUrlError → Resolution
  not_parsed : Resolution

abbrev guarded : World → String → ℕ → String → Guard → Resolution
guarded w name max_guesses url (unsafe exc) = refused exc
guarded w name max_guesses url value_error = not_parsed
guarded w name max_guesses url (allowed _) = result (resolve w name max_guesses (some url))

unfoldable pub resolve_employer : World → String → Option String → ℕ → Resolution
unfolding normalise_url
resolve_employer w name none max_guesses = result (resolve w name max_guesses none)
resolve_employer w name (some careers_url) max_guesses =
    let url = normalise_url careers_url in
    guarded w name max_guesses url (assert_fetch_url_allowed w.net false url)
