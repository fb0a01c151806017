-- ===== src/Registry/Signatures.antt =====
-- src/huntloop/registry/signatures.py: the boards that a page names. What the regular expressions match on
-- the page is a parameter.
use huntloop.Base.{
  ℕ, String, Bool, true, false, not, ◌&&◌, ◌||◌, none, some, List, [], ◌∷◌, ◌++◌, map,
  if◌then◌else◌, str_eq, contains, ltb, ◌==◌, any, length, or_default,
}
use huntloop.Base.Sort.{sort}
use huntloop.Registry.{
  Platform, greenhouse, lever, ashby, same_platform, Source, SlugCandidate, text_le,
}

-- A match of a pattern: its label, and the group lowercased with its length.
pub record Match : Type 0 where
  pub label : String
  pub slug : String
  pub len : ℕ

pub record Patterns : Type 0 where
  pub finditer : Platform → String → List Match
  pub search_weak : Platform → String → Bool

-- An item of `strong`.
pub record Found : Type 0 where
  pub platform : Platform
  pub slug : String
  pub labels : List String

abbrev pub slug_blocklist : List String
slug_blocklist = "embed" ∷ "js" ∷ "jobs" ∷ "board" ∷ "api" ∷ "v1" ∷ "static" ∷ "assets" ∷ []

abbrev with_label : String → List String → List String
with_label label labels = if contains labels label then labels else label ∷ labels

-- `strong.setdefault(key, set()).add(label)`
unfoldable pub add_label : Platform → Match → List Found → List Found
add_label platform m [] = record { platform = platform; slug = m.slug; labels = m.label ∷ [] } ∷ []
add_label platform m (f ∷ rest) =
    let later = add_label platform m rest in
    if same_platform f.platform platform && str_eq f.slug m.slug
    then record f { labels = with_label m.label f.labels } ∷ rest
    else f ∷ later

abbrev pub is_slug : Match → Bool
is_slug m = not (ltb m.len 2 || contains slug_blocklist m.slug)

unfoldable pub add_matches : Platform → List Match → List Found → List Found
unfolding add_label
add_matches platform [] found = found
add_matches platform (m ∷ rest) found =
    add_matches platform rest (if is_slug m then add_label platform m found else found)

-- More evidence first, then by slug.
abbrev more_evidence : SlugCandidate → SlugCandidate → Bool
more_evidence a b =
    ltb (length b.matched_patterns) (length a.matched_patterns)
    || ((length a.matched_patterns == length b.matched_patterns)
        && text_le (or_default a.slug "") (or_default b.slug ""))

abbrev strong_candidate : Source → Found → SlugCandidate
strong_candidate source f = record {
  platform = f.platform;
  slug = some f.slug;
  weak = false;
  matched_patterns = sort text_le f.labels;
  source = source;
}

unfoldable pub strong_candidates : Patterns → Source → String → List SlugCandidate
unfolding add_matches
strong_candidates patterns source html =
    let g = add_matches greenhouse (patterns.finditer greenhouse html) [] in
    let l = add_matches lever (patterns.finditer lever html) g in
    let a = add_matches ashby (patterns.finditer ashby html) l in
    sort more_evidence (map (strong_candidate source) a)

-- `WEAK_SIGNATURES` has one platform.
abbrev weak_candidates : Patterns → Source → String → List SlugCandidate → List SlugCandidate
weak_candidates patterns source html strong =
    if any (λ c. same_platform c.platform greenhouse) strong
    then []
    else if patterns.search_weak greenhouse html
    then record {
      platform = greenhouse;
      slug = none;
      weak = true;
      matched_patterns = "gh_jid" ∷ [];
      source = source;
    }
      ∷ []
    else []

unfoldable pub sweep_signatures : Patterns → Source → String → List SlugCandidate
unfolding strong_candidates
sweep_signatures patterns source html =
    let strong = strong_candidates patterns source html in
    strong ++ weak_candidates patterns source html strong
