-- ===== src/Discovery.antt =====
-- src/huntloop/discovery/dedup.py, `_dedupe_within_batch` of src/huntloop/graph/nodes.py, and `write_batch` of
-- src/huntloop/discovery/write.py: which listings are the same, within a fetch and across runs. The regular
-- expressions, the parsing of URLs, the digest and the slices of texts are parameters.
pub mod Again
pub mod Fetched
use Prim.Native.String.{count as characters}
use huntloop.Base.{
  ℕ, suc, ◌+◌, String, ◌<>◌, Bool, true, false, Option, none, some, List, [], ◌∷◌, if◌then◌else◌,
  ltb, str_eq, contains,
}
use huntloop.Base.Clock.{Time}
use huntloop.Jobs.{Job, Listing, Posting, write_listing}

pub record Keys : Type 0 where
  -- `company_slug`, `normalize_url`, the first 16 digits of the digest, and `key[:223]`
  pub company_slug : String → String
  pub normalize_url : String → String
  pub digest : String → String
  pub prefix : String → String

abbrev max_dedup_key_chars : ℕ
max_dedup_key_chars = 240

abbrev bounded : Keys → String → String
bounded k key =
    if ltb max_dedup_key_chars (characters key) then k.prefix key <> "#" <> k.digest key else key

abbrev url_key : Keys → String → Option String
url_key k url = if str_eq url "" then none else some (bounded k ("url:" <> k.normalize_url url))

abbrev keyed : Keys → String → Option String → String → Option String
keyed k company none url = url_key k url
keyed k company (some id) url =
    if str_eq id "" then url_key k url else some (k.company_slug company <> ":" <> id)

-- `none` is `DedupKeyError`.
unfoldable pub compute_dedup_key : Keys → String → Posting → Option String
compute_dedup_key k company p = keyed k company p.external_id p.url

module _ {A : Type 0} (key_of : A → Option String) where
  -- The listings that are kept, behind the keys seen.
  unfoldable pub first_of_each : List String → List A → List A
  first_of_each seen [] = []
  first_of_each seen (l ∷ rest) = elim (key_of l) [
    | none ↦ first_of_each seen rest
    | some key ↦ elim (contains seen key) [
      | true ↦ first_of_each seen rest
      | false ↦ l ∷ first_of_each (key ∷ seen) rest
    ]
  ]

  -- `failed`
  unfoldable pub unkeyed : List A → ℕ
  unkeyed [] = 0
  unkeyed (l ∷ rest) = elim (key_of l) [ none ↦ suc (unkeyed rest) | some key ↦ unkeyed rest ]

  unfoldable pub dedupe_within_batch : List A → List A × ℕ
  unfolding first_of_each unkeyed
  dedupe_within_batch listings = (first_of_each [] listings, unkeyed listings)

pub record WriteOutcome : Type 0 where
  pub inserted : ℕ
  pub updated : ℕ
  pub failed : ℕ

abbrev counted : Bool → WriteOutcome → WriteOutcome
counted true o = record o { inserted = suc o.inserted }
counted false o = record o { updated = suc o.updated }

-- An item is `none` where `write_listing` raises before it writes, as for a listing without a key. `ids n` is the
-- UUID of the n-th new row.
unfoldable pub write_batch :
    (ℕ → String)
    → ℕ
    → List (Option Listing)
    → String
    → String
    → Time
    → List Job
    → List Job × WriteOutcome
write_batch ids n [] company_id run_id now jobs =
    (jobs, record { inserted = 0; updated = 0; failed = 0 })
write_batch ids n (none ∷ rest) company_id run_id now jobs =
    let later = write_batch ids (suc n) rest company_id run_id now jobs in
    (later.0, record later.1 { failed = suc later.1.failed })
write_batch ids n (some l ∷ rest) company_id run_id now jobs =
    let written = write_listing (ids n) l company_id run_id (some now) now jobs in
    let later = write_batch ids (suc n) rest company_id run_id now written.0 in
    (later.0, counted written.1 later.1)
