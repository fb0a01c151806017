-- ===== src/Loop/Detect/Repeats/Laws.antt =====
-- What is proposed for exclusion repeats among fast rejections, and never progressed.
use huntloop.Base.{
  ℕ, suc, ◌≤◌, ◌≡◌, refl, String, true, false, some, List, [], ◌∷◌, ◌++◌, map, contains, select,
  length, any, All, All-append, arith, Bool-cases, Option-cases, inl, inr, select_holds, subst, ap,
}
use huntloop.Loop.{
  EditField, title_keywords, employers, Value, texts, Exclusions, EditCandidate, meets_threshold,
  observation_count,
}
use huntloop.Loop.Detect.{Listed, observations, observation, attribute_dimension}
use huntloop.Loop.Detect.Repeats.{
  Words, has_token, distinct, titles_with, all_tokens, before, least_from, least, qualifies_token,
  exclude_token, repeated_tokens, is_at, same_folded, qualifies_employer, exclude_employer,
  repeated_employers, track_c,
}

least_from-holds {κ} :
    (P : String → Type κ) (f : String → ℕ) (x : String) (xs : List String)
    → P x
    → All P xs
    → P (least_from f x xs)
least_from-holds P f x [] h k = h
least_from-holds P f x (y ∷ ys) h k = elim (Bool-cases (before f x y)) [
  | inl e ↦ rw e (least_from-holds P f x ys h k.1)
  | inr e ↦ rw e (least_from-holds P f y ys k.0 k.1)
]

least-holds {κ} :
    (P : String → Type κ) (f : String → ℕ) (xs : List String) (x : String)
    → least f xs ≡ some x
    → All P xs
    → P x
least-holds P f [] x e h = absurd (cc)
least-holds P f (y ∷ ys) x e h =
    let same : least_from f y ys ≡ x = cc in subst P same (least_from-holds P f y ys h.0 h.1)

length-distinct : (xs : List String) → length (distinct xs) ≤ length xs
length-distinct [] = omega arith
length-distinct (x ∷ xs) = ground (arith, length-distinct xs)

length-map {ℓ κ} :
    {A : Type ℓ} {B : Type κ} (f : A → B) (xs : List A) → length (map f xs) ≡ length xs
length-map f [] = refl
length-map f (x ∷ xs) = ap suc (length-map f xs)

module _ (w : Words) (fast progressed_ : List Listed) (e : Exclusions) where
  -- A word of three titles, or a name of three listings, that no progressed one has and that was not excluded.
  abbrev IsExclusion : EditField → Value → Type 0
  IsExclusion title_keywords (texts proposed) =
      (token : String) × (proposed ≡ e.title_keywords ++ (token ∷ []))
      × (3 ≤ length (titles_with w token fast))
      × (any (has_token w token) progressed_ ≡ false)
      × (contains (map w.casefold e.title_keywords) token ≡ false)
  IsExclusion employers (texts proposed) =
      (name : String) × (proposed ≡ e.employers ++ (name ∷ []))
      × (3 ≤ length (select (is_at name) fast))
      × (any (same_folded w name) progressed_ ≡ false)
      × (contains (map w.casefold e.employers) (w.casefold name) ≡ false)
  IsExclusion _ _ = 1 ≤ 0

  abbrev pub IsEarned : EditCandidate → Type 0
  IsEarned c = IsExclusion c.field c.proposed_value × (meets_threshold c ≡ true)

  token-IsEarned :
      (token : String)
      → qualifies_token w fast progressed_ e token ≡ true
      → All IsEarned (exclude_token w fast e (some token))
  unfolding meets_threshold observation_count observations
  token-IsEarned token h =
      let many : 3 ≤ length (titles_with w token fast) = ground (arith, h) in
      let kept = select (has_token w token) fast in
      (
        (
          (token, refl, many, ground (arith, h), ground (arith, h)),
          ground (
            arith,
            many,
            length-distinct (map (λ (r : Listed). r.job.title) kept),
            length-map (λ (r : Listed). r.job.title) kept,
            length-map (λ r. observation r (attribute_dimension r.job)) kept,
          ),
        ),
        tt,
      )

  employer-IsEarned :
      (name : String)
      → qualifies_employer w fast progressed_ e name ≡ true
      → All IsEarned (exclude_employer fast e (some name))
  unfolding meets_threshold observation_count observations
  employer-IsEarned name h =
      let kept = select (is_at name) fast in
      (
        (
          (name, refl, ground (arith, h), ground (arith, h), ground (arith, h)),
          ground (arith, h, length-map (λ r. observation r (attribute_dimension r.job)) kept),
        ),
        tt,
      )

  repeated_tokens-IsEarned : All IsEarned (repeated_tokens w fast progressed_ e)
  unfolding repeated_tokens
  repeated_tokens-IsEarned =
      let count : String → ℕ = λ token. length (titles_with w token fast) in
      let passed = select (qualifies_token w fast progressed_ e) (all_tokens w fast) in
      elim (Option-cases (least count passed)) [
        | inl absent ↦ rw absent tt
        | inr (token, found) ↦ rw found (
            token-IsEarned token
              (least-holds _ count passed token found (select_holds _ (all_tokens w fast))))
      ]

  repeated_employers-IsEarned : All IsEarned (repeated_employers w fast progressed_ e)
  unfolding repeated_employers
  repeated_employers-IsEarned =
      let count : String → ℕ = λ name. length (select (is_at name) fast) in
      let names = map (λ (r : Listed). r.company_name) fast in
      let passed = select (qualifies_employer w fast progressed_ e) names in
      elim (Option-cases (least count passed)) [
        | inl absent ↦ rw absent tt
        | inr (name, found) ↦
            rw found (
              employer-IsEarned name (least-holds _ count passed name found (select_holds _ names)))
      ]

  -- What is proposed for exclusion is a word of three different titles, or the name of three listings, among the
  -- fast rejections; no progressed listing has it, it is added to what was excluded before, among which it
  -- was not, and it has the observations that the gate asks for.
  pub track_c-IsEarned : All IsEarned (track_c w fast progressed_ e)
  unfolding track_c
  track_c-IsEarned =
      All-append IsEarned (repeated_tokens w fast progressed_ e) _ repeated_tokens-IsEarned
        repeated_employers-IsEarned
