-- ===== src/Loop/Detect/Repeats.antt =====
-- src/huntloop/loop/detect.py, `_track_c` and `detect_candidates`: words and employers that repeat among fast
-- rejections only. The split of a title by a regular expression and `casefold` are parameters.
pub mod Laws
use Prim.Native.String.{count as characters}
use huntloop.Base.{
  ℕ, suc, ◌+◌, String, Bool, true, false, not, ◌&&◌, ◌||◌, Option, none, some, List, [], ◌∷◌, ◌++◌,
  map, if◌then◌else◌, ltb, leb, ◌==◌, str_eq, contains, select, length, any,
}
use huntloop.Registry.{text_le}
use huntloop.Loop.{
  tighten, EditField, title_keywords, employers, Value, texts, Exclusions, EditablePayload,
  Observation, EditCandidate, min_observations, Signal, fast_reject, progressed,
}
use huntloop.Loop.Signals.{JobSignal}
use huntloop.Loop.Detect.{BacklogJob, Listed, attribute_dimension, observations, candidate}
use huntloop.Loop.Detect.Weights.{TrackA, proposes, nothing, key_error, track_a}
use huntloop.Loop.Detect.Flags.{track_b}

pub record Words : Type 0 where
  -- `re.split(r"[^a-z0-9]+", title.casefold())`
  pub split : String → List String
  pub casefold : String → String

abbrev pub title_stopwords : List String
title_stopwords =
    "and" ∷ "the" ∷ "for" ∷ "with" ∷ "our" ∷ "you" ∷ "your" ∷ "new" ∷ "remote" ∷ "hybrid" ∷ "onsite"
    ∷ "full" ∷ "part" ∷ "time" ∷ "contract" ∷ "engineer" ∷ "engineering" ∷ "developer" ∷ "software"
    ∷ "manager" ∷ []

unfoldable pub title_tokens : Words → String → List String
title_tokens w title =
    select (λ token. leb 3 (characters token) && not (contains title_stopwords token))
      (w.split title)

abbrev pub has_token : Words → String → Listed → Bool
has_token w token r = contains (title_tokens w r.job.title) token

-- A set, by its elements in the order of their last occurrence.
abbrev pub distinct : List String → List String
distinct [] = []
distinct (x ∷ xs) = let rest = distinct xs in if contains xs x then rest else x ∷ rest

abbrev pub titles_with : Words → String → List Listed → List String
titles_with w token fast = distinct (map (λ r. r.job.title) (select (has_token w token) fast))

abbrev all_tokens : Words → List Listed → List String
all_tokens w [] = []
all_tokens w (r ∷ rest) = title_tokens w r.job.title ++ all_tokens w rest

-- The least by the key `(-count, text)`, which no two different texts share.
abbrev before : (String → ℕ) → String → String → Bool
before f a b = ltb (f b) (f a) || ((f a == f b) && text_le a b)

abbrev least_from : (String → ℕ) → String → List String → String
least_from f best [] = best
least_from f best (x ∷ rest) =
    let kept = least_from f best rest in
    let taken = least_from f x rest in if before f best x then kept else taken

abbrev pub least : (String → ℕ) → List String → Option String
least f [] = none
least f (x ∷ rest) = some (least_from f x rest)

abbrev pub qualifies_token : Words → List Listed → List Listed → Exclusions → String → Bool
qualifies_token w fast progressed_ e token =
    leb (min_observations title_keywords) (length (titles_with w token fast))
    && not (any (has_token w token) progressed_)
    && not (contains (map w.casefold e.title_keywords) token)

abbrev pub exclude_token : Words → List Listed → Exclusions → Option String → List EditCandidate
exclude_token w fast e none = []
exclude_token w fast e (some token) =
    candidate title_keywords tighten (texts e.title_keywords)
      (texts (e.title_keywords ++ (token ∷ []))) (observations (select (has_token w token) fast))
    ∷ []

unfoldable pub repeated_tokens : Words → List Listed → List Listed → Exclusions → List EditCandidate
repeated_tokens w fast progressed_ e = exclude_token w fast e (
    least (λ token. length (titles_with w token fast))
      (select (qualifies_token w fast progressed_ e) (all_tokens w fast)))

abbrev pub is_at : String → Listed → Bool
is_at name r = str_eq r.company_name name

abbrev pub same_folded : Words → String → Listed → Bool
same_folded w name r = str_eq (w.casefold r.company_name) (w.casefold name)

abbrev pub qualifies_employer : Words → List Listed → List Listed → Exclusions → String → Bool
qualifies_employer w fast progressed_ e name =
    leb (min_observations employers) (length (select (is_at name) fast))
    && not (any (same_folded w name) progressed_)
    && not (contains (map w.casefold e.employers) (w.casefold name))

abbrev pub exclude_employer : List Listed → Exclusions → Option String → List EditCandidate
exclude_employer fast e none = []
exclude_employer fast e (some name) =
    candidate employers tighten (texts e.employers) (texts (e.employers ++ (name ∷ [])))
      (observations (select (is_at name) fast))
    ∷ []

unfoldable pub repeated_employers :
    Words → List Listed → List Listed → Exclusions → List EditCandidate
repeated_employers w fast progressed_ e = exclude_employer fast e (
    least (λ name. length (select (is_at name) fast))
      (select (qualifies_employer w fast progressed_ e) (map (λ r. r.company_name) fast)))

unfoldable pub track_c : Words → List Listed → List Listed → Exclusions → List EditCandidate
unfolding repeated_tokens repeated_employers
track_c w fast progressed_ e =
    repeated_tokens w fast progressed_ e ++ repeated_employers w fast progressed_ e

-- A row of the join of the two tables.
pub record Row : Type 0 where
  pub job : BacklogJob
  pub company_name : String

abbrev find_row : String → List Row → Option Row
find_row id [] = none
find_row id (r ∷ rest) =
    let later = find_row id rest in if str_eq r.job.id id then some r else later

abbrev row_of : Option String → List Row → Option Row
row_of none rows = none
row_of (some id) rows = find_row id rows

abbrev listed : JobSignal → Option Row → List Listed → List Listed
listed s none rest = rest
listed s (some r) rest = record { signal = s; job = r.job; company_name = r.company_name } ∷ rest

-- The records of the signals that pass a test and whose job has a row.
unfoldable pub records_of : (Signal → Bool) → List JobSignal → List Row → List Listed
records_of wanted [] rows = []
records_of wanted (s ∷ rest) rows =
    let later = records_of wanted rest rows in
    if wanted s.signal then listed s (row_of s.job_id rows) later else later

abbrev pub is_fast_reject : Signal → Bool
is_fast_reject fast_reject = true
is_fast_reject _ = false

abbrev pub is_progressed : Signal → Bool
is_progressed progressed = true
is_progressed _ = false

-- The candidates, or the KeyError of a dimension that has no weight.
pub data Detection : Type 0 where
  candidates : List EditCandidate → Detection
  key_error_of : String → Detection

abbrev pub with_track_a : TrackA → List EditCandidate → Detection
with_track_a (key_error name) rest = key_error_of name
with_track_a nothing rest = candidates rest
with_track_a (proposes c) rest = candidates (c ∷ rest)

-- `payload` is the active criteria, if there are any.
unfoldable pub detect_candidates :
    Words → ℕ → Option EditablePayload → List JobSignal → List Row → Detection
unfolding records_of track_c
detect_candidates w unit none signals rows = candidates []
detect_candidates w unit (some payload) signals rows =
    let fast = records_of is_fast_reject signals rows in
    let progressed_ = records_of is_progressed signals rows in
    with_track_a (track_a unit fast payload.scored.dimension_weights)
      (track_b fast payload.scored ++ track_c w fast progressed_ payload.exclusions)
