-- ===== src/Criteria/Decisions.antt =====
-- A proposal is decided once.
use huntloop.Base.{
  ℕ, subst, sym, ap, ◌∙◌, Option-cases, String, ◌≡◌, refl, Option, some, List, or_default, contains,
  Bool, true, false, Bool-cases, inl, inr, ◌⊎◌, arith,
}
use huntloop.Base.Clock.{Time}
use huntloop.Criteria.{
  Criteria, CriteriaProposal, ProposalStatus, pending, accepted, rejected, proposal_accepted,
  Failure, not_pending, Outcome, decided, refused, saved, Active, active, no_active, several,
  permitted_edit_fields, accept_proposal, accept_on, accept_pending, reject_proposal,
  reject_pending, apply_proposed_change, save_new_criteria_version, get_active_criteria,
}
use huntloop.Criteria.Leaf.{Json, parts_of, set_leaf}
use huntloop.Criteria.Leaf.Laws.{IsAssigned, set_leaf-Assigned}
use huntloop.Criteria.Versions.{save_new_criteria_version-get_active}

abbrev is_final : ProposalStatus → Bool
is_final pending = false
is_final accepted = true
is_final rejected = true

module _ {P V : Type 0} (dump : P → Json V) (validate : Json V → Option P) where
  -- Either decision.
  pub data Decision : Type 0 where
    accepts : Option Time → Time → Decision
    rejects : Option String → Option Time → Time → Decision

  abbrev pub decide : Decision → List (Criteria P) → CriteriaProposal (Json V) → Outcome P (Json V)
  decide (accepts now clock) rows proposal = accept_proposal dump validate rows proposal now clock
  decide (rejects reason now clock) rows proposal = reject_proposal rows proposal reason now clock

  -- What an outcome of a decision on `p` says of the proposal that it leaves behind.
  abbrev Ends : Outcome P (Json V) → Type 0
  Ends (decided rows p) = (status : ProposalStatus) × (p.status ≡ status) × (is_final status ≡ true)
  Ends (refused f) = Unit

  saved-Ends :
      (rows : List (Criteria P)) (p : CriteriaProposal (Json V)) (clock : Time) (r : P ⊎ Failure)
      → Ends (saved dump validate rows p clock r)
  saved-Ends rows p clock (inl payload) = (accepted, refl, refl)
  saved-Ends rows p clock (inr f) = tt

  accept_on-Ends :
      (rows : List (Criteria P)) (p : CriteriaProposal (Json V)) (clock : Time) (a : Active P)
      → Ends (accept_on dump validate rows p clock a)
  accept_on-Ends rows p clock no_active = tt
  accept_on-Ends rows p clock several = tt
  accept_on-Ends rows p clock (active version payload) =
      saved-Ends rows p clock (apply_proposed_change dump validate payload p)

  accept_pending-Ends :
      (rows : List (Criteria P)) (p : CriteriaProposal (Json V)) (clock : Time) (s : ProposalStatus)
      → Ends (accept_pending dump validate rows p clock s)
  accept_pending-Ends rows p clock pending = accept_on-Ends rows p clock (get_active_criteria rows)
  accept_pending-Ends rows p clock accepted = tt
  accept_pending-Ends rows p clock rejected = tt

  reject_pending-Ends :
      (rows : List (Criteria P)) (p : CriteriaProposal (Json V)) (reason : Option String)
      (clock : Time) (s : ProposalStatus)
      → Ends (reject_pending rows p reason clock s)
  reject_pending-Ends rows p reason clock pending = (rejected, refl, refl)
  reject_pending-Ends rows p reason clock accepted = tt
  reject_pending-Ends rows p reason clock rejected = tt

  decide-Ends :
      (d : Decision) (rows : List (Criteria P)) (p : CriteriaProposal (Json V))
      → Ends (decide d rows p)
  unfolding accept_proposal reject_proposal
  decide-Ends (accepts now clock) rows p =
      accept_pending-Ends rows p (or_default now clock) p.status
  decide-Ends (rejects reason now clock) rows p =
      reject_pending-Ends rows p reason (or_default now clock) p.status

  final_refuses :
      (d : Decision) (rows : List (Criteria P)) (p : CriteriaProposal (Json V))
      (status : ProposalStatus)
      → p.status ≡ status
      → is_final status ≡ true
      → decide d rows p ≡ refused (not_pending status)
  unfolding accept_proposal reject_proposal
  final_refuses d rows p pending e final = absurd (ground (arith, final))
  final_refuses (accepts now clock) rows p accepted e final = rw e
  final_refuses (accepts now clock) rows p rejected e final = rw e
  final_refuses (rejects reason now clock) rows p accepted e final = rw e
  final_refuses (rejects reason now clock) rows p rejected e final = rw e

  -- A proposal on which a decision went through refuses every further decision, either way and whatever
  -- the versions are by then, and nothing is written.
  pub decide_once :
      (d e : Decision) (rows rows' later : List (Criteria P)) (p p' : CriteriaProposal (Json V))
      → decide d rows p ≡ decided rows' p'
      → decide e later p' ≡ refused (not_pending p'.status)
  decide_once d e rows rows' later p p' h =
      let (status, s, final) = subst Ends h (decide-Ends d rows p) in
      final_refuses e later p' status s final ∙ ap (λ x. refused (not_pending x)) (sym s)

  -- What an acceptance that went through did.
  abbrev Applied : List (Criteria P) → CriteriaProposal (Json V) → Outcome P (Json V) → Type 0
  Applied rows p (refused f) = Unit
  Applied rows p (decided rows' p') =
      (v v' : ℕ) × (old new : P) × (get_active_criteria rows ≡ active v old)
      × (contains permitted_edit_fields p.field ≡ true)
      × ((json : Json V) × IsAssigned (parts_of p.field) p.proposed_value (dump old) json
          × (validate json ≡ some new))
      × (get_active_criteria rows' ≡ active v' new)
      × (p'.resulting_version ≡ some v')

  saved-Applied :
      (rows : List (Criteria P)) (p : CriteriaProposal (Json V)) (clock : Time) (v : ℕ) (old : P)
      → get_active_criteria rows ≡ active v old
      → Applied rows p
          (saved dump validate rows p clock (apply_proposed_change dump validate old p))
  unfolding apply_proposed_change
  saved-Applied rows p clock v old e = elim (Bool-cases (contains permitted_edit_fields p.field)) [
    | inr forbidden ↦ rw forbidden tt
    | inl permitted ↦
        let set = set_leaf-Assigned (parts_of p.field) p.proposed_value (dump old) in
        elim (Option-cases (set_leaf (parts_of p.field) p.proposed_value (dump old))) [
          | inl broken ↦ rw (permitted, broken) tt
          | inr (json, done) ↦
              let assigned : IsAssigned (parts_of p.field) p.proposed_value (dump old) json =
                rw done at set in
              elim (Option-cases (validate json)) [
                | inl invalid ↦ rw (permitted, done, invalid) tt
                | inr (new, valid) ↦
                    rw (permitted, done, valid)
                      (
                        v,
                        (save_new_criteria_version new proposal_accepted rows).1,
                        old,
                        new,
                        e,
                        permitted,
                        (json, assigned, valid),
                        save_new_criteria_version-get_active new proposal_accepted rows,
                        refl,
                      )
              ]
        ]
  ]

  accept_on-Applied :
      (rows : List (Criteria P)) (p : CriteriaProposal (Json V)) (clock : Time) (a : Active P)
      → get_active_criteria rows ≡ a
      → Applied rows p (accept_on dump validate rows p clock a)
  accept_on-Applied rows p clock no_active e = tt
  accept_on-Applied rows p clock several e = tt
  accept_on-Applied rows p clock (active v old) e = saved-Applied rows p clock v old e

  accept_pending-Applied :
      (rows : List (Criteria P)) (p : CriteriaProposal (Json V)) (clock : Time) (s : ProposalStatus)
      → Applied rows p (accept_pending dump validate rows p clock s)
  accept_pending-Applied rows p clock pending =
      accept_on-Applied rows p clock (get_active_criteria rows) refl
  accept_pending-Applied rows p clock accepted = tt
  accept_pending-Applied rows p clock rejected = tt

  -- An acceptance that goes through names a field that may be edited, and the active version is then, under
  -- the number that the proposal records, what the schema makes of the formerly active payload's dump with the
  -- proposed value at the path of that field and every leaf beside it as it was.
  pub accept_proposal_applies :
      (rows rows' : List (Criteria P)) (p p' : CriteriaProposal (Json V)) (now : Option Time)
      (clock : Time)
      → accept_proposal dump validate rows p now clock ≡ decided rows' p'
      → Applied rows p (decided rows' p')
  unfolding accept_proposal
  accept_proposal_applies rows rows' p p' now clock h =
      subst (Applied rows p) h (accept_pending-Applied rows p (or_default now clock) p.status)
