-- ===== src/Loop/Generate/Laws.antt =====
-- What a pass may add to the proposals.
use huntloop.Base.{
  ℕ, ◌≤◌, ◌<◌, ◌≡◌, refl, sym, ap, subst, String, false, Option, none, some, List, [], ◌∷◌, ◌++◌,
  map, any, All, arith, Bool-cases, Option-cases, inl, inr, ◌⊎◌,
}
use huntloop.Base.Sort.{IsSorted}
use huntloop.Base.Clock.{Time}
use huntloop.Loop.{
  field_name, direction_value, EditCandidate, observation_count, min_observations, EditablePayload,
}
use huntloop.Loop.Signals.{JobSignal}
use huntloop.Loop.Gate.{gate, build_evidence}
use huntloop.Loop.Gate.Laws.{gate_exact}
use huntloop.Loop.Detect.Repeats.{
  Words, Row, Detection, candidates, key_error_of, detect_candidates,
}
use huntloop.Loop.Rationale.{FeedbackNote, Extraction, extract_feedback_claims}
use huntloop.Loop.Generate.{
  changes_for, fold_claims, Signature, same_signature, StoredProposal, pending_signatures,
  rejected_count, noted, blocks, signature_for, NewProposal, stored, Narrator, proposal_for,
  propose_all, created, passed, unconsumed_notes, generate_proposals,
}
use huntloop.Loop.Generate.Claims.{fold_claims-SameEdit, Pairs-DifferentEdit, gate-DifferentEdit}
use huntloop.Loop.Generate.Fields.{DifferentEdit, detect_candidates-DifferentEdit}
use huntloop.Loop.Generate.Signatures.{
  DifferFrom, SignaturesDiffer, PendingDiffer, SignaturesDiffer-append, pending_signatures-append,
  signature_in-stored,
}

-- What the loop makes of candidates for different edits.
abbrev Fresh : List StoredProposal → List EditCandidate → List Signature → Type 0
Fresh history l sigs =
    SignaturesDiffer sigs
    × All (λ s. any (same_signature s) (pending_signatures history) ≡ false) sigs
    × ((t : Signature)
        → All (λ c. same_signature t (signature_for c) ≡ false) l
        → DifferFrom t sigs)

blocks-pending :
    (rows : List StoredProposal) (s : Signature) (n : ℕ)
    → blocks rows s n ≡ false
    → any (same_signature s) (pending_signatures rows) ≡ false
unfolding blocks
blocks-pending rows s n h = ground (arith, h)

blocks-rejected :
    (rows : List StoredProposal) (s : Signature) (n previous : ℕ)
    → blocks rows s n ≡ false
    → rejected_count s rows ≡ some previous
    → previous < n
unfolding blocks
blocks-rejected rows s n previous h e = ground (arith, h, e)

-- What stands behind a proposal: a candidate that meets its threshold, with more observations than there were
-- behind the latest rejection of the same edit.
abbrev pub Earned : List StoredProposal → NewProposal → Type 0
Earned history p =
    (c : EditCandidate) × (p.changes.field ≡ field_name c.field)
    × (p.changes.direction ≡ direction_value c.direction)
    × (p.evidence.observation_count ≡ observation_count c)
    × (min_observations c.field ≤ observation_count c)
    × ((previous : ℕ)
        → rejected_count (signature_for c) history ≡ some previous
        → previous < observation_count c)

module _ (narrate : Narrator) (run_id : Option String) (history : List StoredProposal) where
  -- The loop is done, or goes on from a candidate that makes a proposal or none.
  data Goes : List EditCandidate → List NewProposal → Type 0 where
    ends : Goes [] []
    suppresses :
        (c : EditCandidate) {rest : List EditCandidate} {new : List NewProposal}
        → Goes rest new
        → Goes (c ∷ rest) new
    proposes_it :
        (c : EditCandidate) (said : String × String) {rest : List EditCandidate}
        {new : List NewProposal}
        → blocks history (signature_for c) (observation_count c) ≡ false
        → narrate c ≡ some said
        → Goes rest new
        → Goes (c ∷ rest) (proposal_for run_id c said ∷ new)

  propose_all-Goes :
      (l : List EditCandidate) (new : List NewProposal)
      → propose_all narrate run_id history l ≡ some new
      → Goes l new
  unfolding propose_all
  propose_all-Goes [] new e = let same : [] ≡ new = cc in subst (Goes []) same ends
  propose_all-Goes (c ∷ rest) new e =
      elim (Bool-cases (blocks history (signature_for c) (observation_count c))) [
        | inl blocked ↦ suppresses c (propose_all-Goes rest new (rw (propose_all, blocked) at e))
        | inr free ↦ elim (Option-cases (narrate c)) [
          | inl silent ↦ absurd (let e' = rw (propose_all, free, silent) at e in cc)
          | inr (said, told) ↦ elim (Option-cases (propose_all narrate run_id history rest)) [
            | inl failed ↦ absurd (let e' = rw (propose_all, free, told, failed) at e in cc)
            | inr (more, went) ↦
                let e' = rw (propose_all, free, told, went) at e in
                let same : proposal_for run_id c said ∷ more ≡ new = cc in
                subst (Goes (c ∷ rest)) same
                  (proposes_it c said free told (propose_all-Goes rest more went))
          ]
        ]
      ]

  Goes-Fresh :
      {l : List EditCandidate} {new : List NewProposal}
      → Goes l new
      → IsSorted DifferentEdit l
      → Fresh history l (pending_signatures (map stored new))
  unfolding pending_signatures
  Goes-Fresh ends d = (tt, tt, λ t h. refl)
  Goes-Fresh (suppresses c g) d =
      let fresh = Goes-Fresh g d.1 in (fresh.0, fresh.1, λ t h. fresh.2 t h.1)
  Goes-Fresh (proposes_it c said {rest = left} {new = more} free told g) d =
      let fresh = Goes-Fresh g d.1 in
      let grown =
        ap (λ s. noted s (pending_signatures (map stored more)))
          (signature_in-stored run_id c said) in
      subst (Fresh history (c ∷ left)) (sym grown) (
        (fresh.2 (signature_for c) d.0, fresh.0),
        (blocks-pending history (signature_for c) _ free, fresh.1),
        (λ t h. rw h.0 (fresh.2 t h.1)),
      )

  Goes-Earned :
      {l : List EditCandidate} {new : List NewProposal}
      → Goes l new
      → All (λ c. min_observations c.field ≤ observation_count c) l
      → All (Earned history) new
  unfolding build_evidence
  Goes-Earned ends h = tt
  Goes-Earned (suppresses c g) h = Goes-Earned g h.1
  Goes-Earned (proposes_it c said free told g) h = (
    (c, refl, refl, refl, h.0, λ n e. blocks-rejected history (signature_for c) _ n free e),
    Goes-Earned g h.1,
  )

  -- A proposal carries what was said of the candidate whose change it is.
  abbrev pub Told : NewProposal → Type 0
  Told p =
      (c : EditCandidate) × (p.changes ≡ changes_for c)
      × (narrate c ≡ some (p.predicted_effect, p.rationale))

  Goes-Told : {l : List EditCandidate} {new : List NewProposal} → Goes l new → All Told new
  unfolding proposal_for
  Goes-Told ends = tt
  Goes-Told (suppresses c g) = Goes-Told g
  Goes-Told (proposes_it c said free told g) = ((c, refl, told), Goes-Told g)

Detection-cases :
    (d : Detection)
    → ((name : String) × (d ≡ key_error_of name))
      ⊎ ((found : List EditCandidate) × (d ≡ candidates found))
Detection-cases (candidates found) = inr (found, refl)
Detection-cases (key_error_of name) = inl (name, refl)

-- The created rows of a pass are those of the loop.
created-propose_all :
    (o : Option (List NewProposal)) (new : List NewProposal) → passed o ≡ created new → o ≡ some new
created-propose_all none new h = cc
created-propose_all (some l) new h = let same : l ≡ new = cc in ap some same

pub generate_proposals-Told :
    (x : Extraction) (narrate : Narrator) (run_id : Option String) (since : Time)
    (notes : List FeedbackNote) (history : List StoredProposal) (d : Detection)
    (new : List NewProposal)
    → generate_proposals x narrate run_id since notes history d ≡ created new
    → All (Told narrate run_id history) new
unfolding generate_proposals
generate_proposals-Told x narrate run_id since notes history (key_error_of name) new h = absurd (cc)
generate_proposals-Told x narrate run_id since notes history (candidates found) new h =
    let claims = extract_feedback_claims x (unconsumed_notes since notes) in
    let gated = gate (fold_claims found claims) in
    Goes-Told narrate run_id history (
      propose_all-Goes narrate run_id history gated new
        (created-propose_all (propose_all narrate run_id history gated) new h))

-- A pass over what was detected keeps the edits of the pending proposals different, whatever the model says:
-- an edit that awaits a decision is not proposed a second time. Each proposal that it creates meets the
-- threshold of its field, and has more observations than there were behind the latest rejection of its edit.
pub generate_proposals-PendingDiffer :
    (x : Extraction) (narrate : Narrator) (run_id : Option String) (since : Time)
    (notes : List FeedbackNote) (history : List StoredProposal) (w : Words) (unit : ℕ)
    (payload : Option EditablePayload) (signals : List JobSignal) (rows : List Row)
    (new : List NewProposal)
    → PendingDiffer history
    → generate_proposals x narrate run_id since notes history
        (detect_candidates w unit payload signals rows)
      ≡ created new
    → PendingDiffer (history ++ map stored new) × All (Earned history) new
unfolding generate_proposals
generate_proposals-PendingDiffer x narrate run_id since notes history w unit payload signals rows
      new differ e =
    elim (Detection-cases (detect_candidates w unit payload signals rows)) [
      | inl (name, k) ↦ absurd (let e' = rw k at e in cc)
      | inr (found, k) ↦
          let claims = extract_feedback_claims x (unconsumed_notes since notes) in
          let folded = fold_claims found claims in
          let goes =
            propose_all-Goes narrate run_id history (gate folded) new
              (created-propose_all _ new (rw k at e)) in
          let edits =
            Pairs-DifferentEdit (fold_claims-SameEdit found claims)
              (detect_candidates-DifferentEdit w unit payload signals rows found k) in
          let fresh = Goes-Fresh narrate run_id history goes (gate-DifferentEdit folded edits) in
          (
            subst SignaturesDiffer (sym (pending_signatures-append history (map stored new)))
                (SignaturesDiffer-append (pending_signatures history) _ differ fresh.0 fresh.1),
            Goes-Earned narrate run_id history goes (gate_exact folded).1,
          )
    ]
