-- ===== src/Criteria.antt =====
-- src/huntloop/criteria/loader.py and src/huntloop/loop/apply.py: the versions of the criteria, and the
-- decision on a proposal to change them. A payload is what the schema validates, of a type that is a
-- parameter here; Leaf has its JSON.
pub mod Leaf
pub mod Versions
pub mod Decisions
use huntloop.Base.{
  ℕ, String, Bool, true, false, Option, none, some, List, [], ◌∷◌, map, if◌then◌else◌, ◌+◌, ltb,
  select, contains, or_default, str_eq, ◌⊎◌, inl, inr,
}
use huntloop.Base.Clock.{Time}
use huntloop.Criteria.Leaf.{Json, parts_of, set_leaf}

pub data CriteriaSource : Type 0 where
  initial proposal_accepted manual_edit : CriteriaSource

pub data ProposalStatus : Type 0 where
  pending accepted rejected : ProposalStatus

-- A row of `criteria`.
pub record Criteria (P : Type 0) : Type 0 where
  pub version : ℕ
  pub is_active : Bool
  pub payload : P
  pub source : Option CriteriaSource

-- A row of `criteria_proposals`, with the one edit that `proposed_changes` holds.
pub record CriteriaProposal (V : Type 0) : Type 0 where
  pub field : String
  pub proposed_value : V
  pub status : ProposalStatus
  pub decided_at : Option Time
  pub rejection_reason : Option String
  pub resulting_version : Option ℕ

pub data Failure : Type 0 where
  not_pending : ProposalStatus → Failure
  validation_error : Failure
  unsupported_edit_field : String → Failure
  multiple_results_found : Failure
  key_error : Failure

-- `PERMITTED_EDIT_FIELDS`
abbrev pub permitted_edit_fields : List String
permitted_edit_fields =
    "seniority_min" ∷ "seniority_max" ∷ "posting_age_days" ∷ "locations" ∷ "compensation_floor"
    ∷ "exclusions.title_keywords" ∷ "exclusions.employers" ∷ "work_authorization"
    ∷ "dimension_weights" ∷ []

-- What `scalar_one_or_none` makes of the rows found.
pub data Active (P : Type 0) : Type 0 where
  no_active : Active P
  active : ℕ → P → Active P
  several : Active P

module _ {P : Type 0} where
  -- SELECT max(version), which is NULL of no rows, and `or 0`
  unfoldable pub max_version : List (Criteria P) → ℕ
  max_version [] = 0
  max_version (c ∷ rest) =
      let later = max_version rest in if ltb later c.version then c.version else later

  abbrev pub deactivate : Criteria P → Criteria P
  deactivate c = record c { is_active = false }

  unfoldable pub save_new_criteria_version :
      P → CriteriaSource → List (Criteria P) → List (Criteria P) × ℕ
  unfolding max_version
  save_new_criteria_version payload source rows =
      let new_version = max_version rows + 1 in
      (
        record { version = new_version; is_active = true; payload = payload; source = some source }
            ∷ map deactivate rows,
        new_version,
      )

  abbrev active_of : List (Criteria P) → Active P
  active_of [] = no_active
  active_of (c ∷ []) = active c.version c.payload
  active_of (c ∷ d ∷ rest) = several

  unfoldable pub get_active_criteria : List (Criteria P) → Active P
  get_active_criteria rows = active_of (select (λ c. c.is_active) rows)

pub data Outcome (P V : Type 0) : Type 0 where
  decided : List (Criteria P) → CriteriaProposal V → Outcome P V
  refused : Failure → Outcome P V

-- `dump` is pydantic's `model_dump` of a payload to JSON, and `validate` its `model_validate`, `none` where that
-- raises ValidationError.
module _ {P V : Type 0} (dump : P → Json V) (validate : Json V → Option P) where
  abbrev validated : Option P → P ⊎ Failure
  validated none = inr validation_error
  validated (some payload) = inl payload

  abbrev edited : Option (Json V) → P ⊎ Failure
  edited none = inr key_error
  edited (some json) = validated (validate json)

  unfoldable pub apply_proposed_change : P → CriteriaProposal (Json V) → P ⊎ Failure
  apply_proposed_change payload proposal =
      if contains permitted_edit_fields proposal.field
      then edited (set_leaf (parts_of proposal.field) proposal.proposed_value (dump payload))
      else inr (unsupported_edit_field proposal.field)

  abbrev pub saved :
      List (Criteria P) → CriteriaProposal (Json V) → Time → P ⊎ Failure → Outcome P (Json V)
  saved rows proposal clock (inr failure) = refused failure
  saved rows proposal clock (inl payload) =
      let (rows', version) = save_new_criteria_version payload proposal_accepted rows in
      decided rows' (record proposal {
        status = accepted;
        decided_at = some clock;
        resulting_version = some version;
      })

  abbrev pub accept_on :
      List (Criteria P) → CriteriaProposal (Json V) → Time → Active P → Outcome P (Json V)
  accept_on rows proposal clock no_active = refused validation_error
  accept_on rows proposal clock several = refused multiple_results_found
  accept_on rows proposal clock (active version payload) =
      saved rows proposal clock (apply_proposed_change payload proposal)

  abbrev pub accept_pending :
      List (Criteria P) → CriteriaProposal (Json V) → Time → ProposalStatus → Outcome P (Json V)
  accept_pending rows proposal clock pending =
      accept_on rows proposal clock (get_active_criteria rows)
  accept_pending rows proposal clock accepted = refused (not_pending accepted)
  accept_pending rows proposal clock rejected = refused (not_pending rejected)

  unfoldable pub accept_proposal :
      List (Criteria P) → CriteriaProposal (Json V) → Option Time → Time → Outcome P (Json V)
  accept_proposal rows proposal now clock =
      accept_pending rows proposal (or_default now clock) proposal.status

-- `reason or None`
abbrev reason_or_none : Option String → Option String
reason_or_none none = none
reason_or_none (some s) = if str_eq s "" then none else some s

module _ {P V : Type 0} where
  abbrev pub reject_pending :
      List (Criteria P) → CriteriaProposal V → Option String → Time → ProposalStatus → Outcome P V
  reject_pending rows proposal reason clock pending = decided rows (record proposal {
    status = rejected;
    decided_at = some clock;
    rejection_reason = reason_or_none reason;
  })
  reject_pending rows proposal reason clock accepted = refused (not_pending accepted)
  reject_pending rows proposal reason clock rejected = refused (not_pending rejected)

  unfoldable pub reject_proposal :
      List (Criteria P) → CriteriaProposal V → Option String → Option Time → Time → Outcome P V
  reject_proposal rows proposal reason now clock =
      reject_pending rows proposal reason (or_default now clock) proposal.status
