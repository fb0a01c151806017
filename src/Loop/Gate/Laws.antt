-- ===== src/Loop/Gate/Laws.antt =====
-- What the gate lets through, in which order, and what is refused for its field.
use mathlib.Core.List.{Perm}
use huntloop.Base.{
  ◌+◌, leb, ◌≤◌, ◌↔◌, ◌≡◌, refl, sym, String, true, false, List, [], ◌∷◌, map, is_some, select,
  length, contains, All, arith, Bool-cases, Option-cases, inl, inr, length-take, length-take_le,
  take_all,
}
use huntloop.Base.Sort.{IsSorted, sort-Perm, sort-All, sort-IsSorted}
use huntloop.Criteria.{permitted_edit_fields}
use huntloop.Loop.{
  EditField, field_name, all_fields, find_field, permitted, EditDirection, EditablePayload,
  unsupported_field, ProposedChanges, build_proposed_changes, edit_signature, resolve_field,
  EditCandidate, observation_count, meets_threshold, min_observations,
}
use huntloop.Loop.Gate.{more_observed, gate, build_evidence}

abbrev pub AtLeast : EditCandidate → EditCandidate → Type 0
AtLeast a b = observation_count b ≤ observation_count a

more_observed-AtLeast : (a b : EditCandidate) → more_observed a b ≡ true → AtLeast a b
unfolding more_observed
more_observed-AtLeast a b h = ground (arith, h)

not_more_observed-AtLeast : (a b : EditCandidate) → more_observed a b ≡ false → AtLeast b a
unfolding more_observed
not_more_observed-AtLeast a b h = ground (arith, h)

threshold-le :
    (c : EditCandidate) → meets_threshold c ≡ true → min_observations c.field ≤ observation_count c
unfolding meets_threshold
threshold-le c e = ground (arith, e)

meets_threshold-select :
    (candidates : List EditCandidate)
    → All (λ c. min_observations c.field ≤ observation_count c) (select meets_threshold candidates)
meets_threshold-select [] = tt
meets_threshold-select (c ∷ rest) = elim (Bool-cases (meets_threshold c)) [
  | inl e ↦ rw e (threshold-le c e, meets_threshold-select rest)
  | inr e ↦ rw e (meets_threshold-select rest)
]

-- The gate lets through exactly the candidates that have, counted with the quotes of feedback, at least as many
-- observations as the table asks for their field, each as often as it was given, and those with more come first.
pub gate_exact :
    (candidates : List EditCandidate)
    → Perm (gate candidates) (
        select
          (λ c. leb (min_observations c.field) (length c.observations + length c.feedback_quotes))
          candidates)
      × All (λ c. min_observations c.field ≤ observation_count c) (gate candidates)
      × IsSorted AtLeast (gate candidates)
unfolding gate meets_threshold observation_count
gate_exact candidates =
    let passed = select meets_threshold candidates in
    (
      sort-Perm more_observed passed,
      sort-All more_observed _ passed (meets_threshold-select candidates),
      sort-IsSorted more_observed AtLeast more_observed-AtLeast not_more_observed-AtLeast
          (λ a b c h k. omega (arith, h, k)) passed,
    )

-- The evidence names every listing, up to ten, says so when there are more, and never counts fewer
-- observations than it names.
pub build_evidence_shown :
    (c : EditCandidate)
    → (length (build_evidence c).listings ≤ 10)
      × (length (build_evidence c).listings ≤ (build_evidence c).observation_count)
      × ((build_evidence c).truncated ≡ false → (build_evidence c).listings ≡ c.observations)
unfolding build_evidence observation_count
build_evidence_shown c = (
  length-take 10 c.observations,
  omega (arith, length-take_le 10 c.observations),
  (λ h. take_all 10 c.observations (ground (arith, h))),
)

find_field-contains :
    (name : String) (fields : List EditField)
    → is_some (find_field name fields) ≡ contains (map field_name fields) name
find_field-contains name [] = refl
find_field-contains name (f ∷ rest) = ground (arith, find_field-contains name rest)

permitted-contains :
    (field : String) → is_some (permitted field) ≡ contains permitted_edit_fields field
unfolding permitted
permitted-contains field = find_field-contains field all_fields

-- Exactly the nine fields that a proposal may be applied to can be written into one, read back as its
-- signature, and looked up in the payload; every other one is refused by all three, by its name.
pub unsupported_field_iff :
    (payload : EditablePayload) (changes : ProposedChanges) (direction : EditDirection)
    → ((build_proposed_changes changes.field direction changes.current_value changes.proposed_value
          ≡ unsupported_field changes.field)
        ↔ (contains permitted_edit_fields changes.field ≡ false))
      × ((edit_signature changes ≡ unsupported_field changes.field)
          ↔ (contains permitted_edit_fields changes.field ≡ false))
      × ((resolve_field payload changes.field ≡ unsupported_field changes.field)
          ↔ (contains permitted_edit_fields changes.field ≡ false))
unfolding build_proposed_changes edit_signature resolve_field
unsupported_field_iff payload changes direction =
    let is = sym (permitted-contains changes.field) in
    elim (Option-cases (permitted changes.field)) [
      | inl e ↦
          let no : contains permitted_edit_fields changes.field ≡ false = ground (arith, is, e) in
          (
            ((λ h. no), (λ h. rw e refl)),
            ((λ h. no), (λ h. rw e refl)),
            ((λ h. no), (λ h. rw e refl)),
          )
      | inr (f, e) ↦
          let yes : contains permitted_edit_fields changes.field ≡ true = ground (arith, is, e) in
          (
            ((λ h. absurd (let h' = rw e at h in cc)), (λ h. absurd (cc))),
            ((λ h. absurd (let h' = rw e at h in cc)), (λ h. absurd (cc))),
            ((λ h. absurd (let h' = rw e at h in cc)), (λ h. absurd (cc))),
          )
    ]
