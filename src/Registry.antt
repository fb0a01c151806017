-- ===== src/Registry.antt =====
-- src/huntloop/registry/probe.py, and `_probe_candidates` of src/huntloop/registry/resolve.py: which board of
-- which platform is an employer's. An adapter's fetch is a parameter, that answers by the number of the
-- calls before it, as a live board may answer otherwise when it is asked again.
pub mod Probing
pub mod Settling
pub mod Guesses
pub mod Signatures
pub mod Resolve
pub mod Companies
use Prim.Native.String.{compare}
use Prim.Native.Nat.{Ordering}
use huntloop.Base.{
  ℕ, suc, ◌+◌, String, Bool, true, false, ◌&&◌, ◌||◌, Option, none, some, List, [], ◌∷◌,
  if◌then◌else◌, str_eq, ltb, leb, ◌==◌, any,
}
use huntloop.Base.Sort.{sort}

-- The keys of `ADAPTERS`, and of `SIGNATURES`.
pub data Platform : Type 0 where
  greenhouse lever ashby : Platform

abbrev pub same_platform : Platform → Platform → Bool
same_platform greenhouse greenhouse = true
same_platform lever lever = true
same_platform ashby ashby = true
same_platform _ _ = false

pub data Source : Type 0 where
  static_html rendered_html name_guess : Source

-- `_SOURCE_ORDER`
abbrev pub source_order : Source → ℕ
source_order static_html = 0
source_order rendered_html = 1
source_order name_guess = 2

pub record SlugCandidate : Type 0 where
  pub platform : Platform
  pub slug : Option String
  pub weak : Bool
  pub matched_patterns : List String
  pub source : Source

pub data FetchStatus : Type 0 where
  ok empty error : FetchStatus

pub data ErrorKind : Type 0 where
  http_error rate_limited timeout connection_error parse_error : ErrorKind

-- The listings of a result are given by their number.
pub record FetchResult : Type 0 where
  pub status : FetchStatus
  pub listings : ℕ
  pub http_status : Option ℕ
  pub error_kind : Option ErrorKind
  pub message : Option String

-- The values that the text of a reason names, which is empty unless the fetch failed.
pub data Reason : Type 0 where
  no_reason : Reason
  failed : Option ErrorKind → Option ℕ → Option String → Reason

pub record ProbeResult : Type 0 where
  pub platform : Platform
  pub slug : String
  pub verified : Bool
  pub job_count : ℕ
  pub reason : Reason

abbrev pub Fetch : Type 0
Fetch = ℕ → Platform → String → FetchResult

abbrev reason_of : FetchResult → FetchStatus → Reason
reason_of r error = failed r.error_kind r.http_status r.message
reason_of r _ = no_reason

-- `result.status in (FetchStatus.OK, FetchStatus.EMPTY)`
abbrev pub confirms : FetchStatus → Bool
confirms ok = true
confirms empty = true
confirms error = false

unfoldable pub probe_slug : Fetch → ℕ → Platform → String → ProbeResult
probe_slug fetch n platform slug =
    let result = fetch n platform slug in
    record {
      platform = platform;
      slug = slug;
      verified = confirms result.status;
      job_count = result.listings;
      reason = reason_of result result.status;
    }

-- A candidate whose slug is not None.
pub record Slugged : Type 0 where
  pub platform : Platform
  pub slug : String
  pub source : Source

unfoldable pub slugged : List SlugCandidate → List Slugged
slugged [] = []
slugged (c ∷ rest) =
    let later = slugged rest in
    elim c.slug [
      | none ↦ later
      | some slug ↦ record { platform = c.platform; slug = slug; source = c.source } ∷ later
    ]

abbrev pub text_le : String → String → Bool
text_le s t = elim (compare s t) [ Ordering.gt ↦ false | _ ↦ true ]

-- The order of the key `(_SOURCE_ORDER[source], slug)`.
abbrev pub stronger : Slugged → Slugged → Bool
stronger a b =
    ltb (source_order a.source) (source_order b.source)
    || ((source_order a.source == source_order b.source) && text_le a.slug b.slug)

unfoldable pub ordered : List SlugCandidate → List Slugged
unfolding slugged
ordered candidates = sort stronger (slugged candidates)

abbrev pub max_probes : ℕ
max_probes = 12

abbrev pub same_pair : Platform → String → Slugged → Bool
same_pair platform slug c = same_platform c.platform platform && str_eq c.slug slug

-- `candidate.platform in verified_platforms`, of the platforms of verified results
abbrev pub has_platform : Platform → List Platform → Bool
has_platform platform verified = any (same_platform platform) verified

abbrev pub noted : ProbeResult → List Platform → List Platform
noted result verified = if result.verified then result.platform ∷ verified else verified

-- The loop, from the candidates that are left: what it appends to `probed`, which has `count` results.
-- `n` calls were made before the first of them.
unfoldable pub probe_loop :
    Fetch → ℕ → ℕ → List Slugged → List Platform → List Slugged → List ProbeResult
unfolding probe_slug
probe_loop fetch n count seen verified [] = []
probe_loop fetch n count seen verified (c ∷ rest) = elim (leb max_probes count) [
  | true ↦ []
  | false ↦ elim (any (same_pair c.platform c.slug) seen) [
    | true ↦ probe_loop fetch n count seen verified rest
    | false ↦ elim (has_platform c.platform verified) [
      | true ↦ probe_loop fetch n count (c ∷ seen) verified rest
      | false ↦
          let result = probe_slug fetch (n + count) c.platform c.slug in
          result ∷ probe_loop fetch n (suc count) (c ∷ seen) (noted result verified) rest
    ]
  ]
]

unfoldable pub probe_candidates : Fetch → ℕ → List SlugCandidate → List ProbeResult
unfolding ordered probe_loop
probe_candidates fetch n candidates = probe_loop fetch n 0 [] [] (ordered candidates)
