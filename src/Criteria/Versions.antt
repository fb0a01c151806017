-- ===== src/Criteria/Versions.antt =====
-- The versions of the criteria: one is active, and none is rewritten.
use huntloop.Base.{
  ℕ, ◌≡◌, ◌≢◌, ◌≤◌, ◌<◌, ◌+◌, refl, List, [], ◌∷◌, map, All, All-map, arith, select,
}
use huntloop.Criteria.{
  Criteria, CriteriaSource, active, max_version, deactivate, save_new_criteria_version,
  get_active_criteria,
}

module _ {P : Type 0} where
  max_version-bounds : (rows : List (Criteria P)) → All (λ c. c.version ≤ max_version rows) rows
  unfolding max_version
  max_version-bounds [] = tt
  max_version-bounds (c ∷ rest) = (
    ground arith,
    All-map (λ d. d.version ≤ max_version rest) (λ d. d.version ≤ max_version (c ∷ rest)) rest
        (λ d h. ground (arith, h)) (max_version-bounds rest),
  )

  none_active :
      (rows : List (Criteria P))
      → select (λ (c : Criteria P). c.is_active) (map deactivate rows) ≡ []
  none_active [] = refl
  none_active (c ∷ rest) = none_active rest

  -- No two rows have one version (`uq_criteria_version`).
  abbrev pub VersionsDiffer : List (Criteria P) → Type 0
  VersionsDiffer [] = Unit
  VersionsDiffer (c ∷ rest) = All (λ d. d.version ≢ c.version) rest × VersionsDiffer rest

  -- What was saved is the one active version, whatever rows were active before.
  pub save_new_criteria_version-get_active :
      (payload : P) (source : CriteriaSource) (rows : List (Criteria P))
      → get_active_criteria (save_new_criteria_version payload source rows).0
        ≡ active (save_new_criteria_version payload source rows).1 payload
  unfolding save_new_criteria_version get_active_criteria
  save_new_criteria_version-get_active payload source rows = rw (none_active rows)

  -- The new version is greater than every earlier one.
  pub save_new_criteria_version-greater :
      (payload : P) (source : CriteriaSource) (rows : List (Criteria P))
      → All (λ c. c.version < (save_new_criteria_version payload source rows).1) rows
  unfolding save_new_criteria_version
  save_new_criteria_version-greater payload source rows =
      All-map (λ c. c.version ≤ max_version rows) (λ c. c.version < max_version rows + 1) rows
        (λ c h. omega (arith, h)) (max_version-bounds rows)

  deactivated :
      (v : ℕ) (rows : List (Criteria P))
      → All (λ c. c.version ≢ v) rows
      → All (λ c. c.version ≢ v) (map deactivate rows)
  deactivated v [] h = tt
  deactivated v (c ∷ rest) h = (h.0, deactivated v rest h.1)

  deactivate-VersionsDiffer :
      (rows : List (Criteria P)) → VersionsDiffer rows → VersionsDiffer (map deactivate rows)
  deactivate-VersionsDiffer [] h = tt
  deactivate-VersionsDiffer (c ∷ rest) h =
      (deactivated c.version rest h.0, deactivate-VersionsDiffer rest h.1)

  -- Saving keeps the versions different.
  pub save_new_criteria_version-VersionsDiffer :
      (payload : P) (source : CriteriaSource) (rows : List (Criteria P))
      → VersionsDiffer rows
      → VersionsDiffer (save_new_criteria_version payload source rows).0
  unfolding save_new_criteria_version
  save_new_criteria_version-VersionsDiffer payload source rows h = (
    deactivated (max_version rows + 1) rows (
        All-map (λ c. c.version ≤ max_version rows) (λ c. c.version ≢ max_version rows + 1) rows
          (λ c k e. omega (arith, k, e)) (max_version-bounds rows)),
    deactivate-VersionsDiffer rows h,
  )
