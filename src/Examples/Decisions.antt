-- ===== src/Examples/Decisions.antt =====
-- Criteria whose payload is a posting age and a number of excluded employers, and a proposal to raise the age.
use huntloop.Base.{
  ℕ, ◌≡◌, refl, true, false, Option, none, some, List, [], ◌∷◌, contains, if◌then◌else◌, ltb,
}
use huntloop.Criteria.{
  Criteria, CriteriaProposal, pending, accepted, manual_edit, proposal_accepted, not_pending,
  decided, refused, active, permitted_edit_fields, max_version, save_new_criteria_version,
  get_active_criteria, apply_proposed_change, accept_proposal,
}
use huntloop.Criteria.Leaf.{Json, leaf, dict, item, no_items, get_item, set_item, set_leaf}
use huntloop.Criteria.Leaf.Laws.{IsAssigned}
use huntloop.Criteria.Decisions.{accepts, rejects, decide, decide_once, accept_proposal_applies}

abbrev Payload : Type 0
Payload = ℕ × ℕ

abbrev dump : Payload → Json ℕ
dump (age, employers) = dict (
    item "posting_age_days" (leaf age)
      (item "exclusions" (dict (item "employers" (leaf employers) no_items)) no_items))

-- `posting_age_days` is at least one.
abbrev validate : Json ℕ → Option Payload
validate (dict (item _ (leaf age) (item _ (dict (item _ (leaf employers) no_items)) no_items))) =
    if ltb 0 age then some (age, employers) else none
validate _ = none

abbrev versions : List (Criteria Payload)
versions =
    record { version = 2; is_active = true; payload = (30, 2); source = some manual_edit }
    ∷ record { version = 1; is_active = false; payload = (14, 0); source = some manual_edit }
    ∷ []

abbrev proposal : CriteriaProposal (Json ℕ)
proposal = record {
  field = "posting_age_days";
  proposed_value = leaf 45;
  status = pending;
  decided_at = none;
  rejection_reason = none;
  resulting_version = none;
}

abbrev accepted_proposal : CriteriaProposal (Json ℕ)
accepted_proposal = record proposal {
  status = accepted;
  decided_at = some 7;
  resulting_version = some 3;
}

abbrev new_versions : List (Criteria Payload)
new_versions =
    record { version = 3; is_active = true; payload = (45, 2); source = some proposal_accepted }
    ∷ record { version = 2; is_active = false; payload = (30, 2); source = some manual_edit }
    ∷ record { version = 1; is_active = false; payload = (14, 0); source = some manual_edit }
    ∷ []

it_is_accepted :
    accept_proposal dump validate versions proposal none 7 ≡ decided new_versions accepted_proposal
unfolding accept_proposal get_active_criteria apply_proposed_change save_new_criteria_version
    max_version set_leaf set_item get_item
it_is_accepted = refl

decide_once_example :
    decide dump validate (rejects none none 8) new_versions accepted_proposal
    ≡ refused (not_pending accepted)
decide_once_example =
    decide_once dump validate (accepts none 7) (rejects none none 8) versions new_versions
      new_versions proposal accepted_proposal it_is_accepted

accept_proposal_applies_example :
    (v v' : ℕ) × (old new : Payload) × (get_active_criteria versions ≡ active v old)
    × (contains permitted_edit_fields "posting_age_days" ≡ true)
    × ((json : Json ℕ) × IsAssigned ("posting_age_days" ∷ []) (leaf 45) (dump old) json
        × (validate json ≡ some new))
    × (get_active_criteria new_versions ≡ active v' new)
    × (some 3 ≡ some v')
accept_proposal_applies_example =
    accept_proposal_applies dump validate versions new_versions proposal accepted_proposal none 7
      it_is_accepted
