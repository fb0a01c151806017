-- ===== src/Loop/Generate.antt =====
-- src/huntloop/loop/generate.py: from candidates to PENDING proposals. Predicted effect and rationale are
-- texts here, that a parameter gives; Narrate has the calls that make them.
pub mod Signatures
pub mod Laws
pub mod Fields
pub mod Claims
use huntloop.Base.{
  ℕ, ◌+◌, String, Bool, true, false, not, ◌&&◌, ◌||◌, Option, none, some, List, [], ◌∷◌, ◌++◌, map,
  if◌then◌else◌, ltb, leb, str_eq, is_some, select, any,
}
use huntloop.Base.Sort.{sort}
use huntloop.Base.Clock.{Time}
use huntloop.Criteria.{ProposalStatus, pending, accepted, rejected}
use huntloop.Loop.{
  Supported, supported, unsupported_field, field_name, direction_value, ProposedChanges, Value,
  EditField, EditDirection, edit_signature, build_proposed_changes, EditCandidate, FeedbackClaim,
  observation_count,
}
use huntloop.Loop.Rationale.{
  FeedbackSource, chat, job_note, FeedbackNote, Extraction, extract_feedback_claims,
}
use huntloop.Loop.Gate.{gate, Evidence, build_evidence}
use huntloop.Loop.Detect.Repeats.{Detection, candidates, key_error_of}

abbrev is_chat : Option FeedbackSource → Bool
is_chat (some chat) = true
is_chat _ = false

abbrev sooner : FeedbackNote → FeedbackNote → Bool
sooner a b = leb a.created_at b.created_at

-- `criteria_since` is when the active version was created.
unfoldable pub unconsumed_notes : Time → List FeedbackNote → List FeedbackNote
unconsumed_notes criteria_since notes = sort sooner (
    select (λ n. not (is_some n.job_id) && is_chat n.source && leb criteria_since n.created_at)
      notes)

-- One claim, on the candidates of its field and direction.
abbrev pub corroborate : FeedbackClaim → EditCandidate → EditCandidate
corroborate claim c =
    if str_eq (field_name c.field) claim.field
      && str_eq (direction_value c.direction) claim.direction
    then record c { feedback_quotes = c.feedback_quotes ++ (claim ∷ []) }
    else c

unfoldable pub fold_claims : List EditCandidate → List FeedbackClaim → List EditCandidate
fold_claims found [] = found
fold_claims found (claim ∷ rest) = fold_claims (map (corroborate claim) found) rest

abbrev pub Signature : Type 0
Signature = String × String

abbrev pub same_signature : Signature → Signature → Bool
same_signature a b = str_eq a.0 b.0 && str_eq a.1 b.1

-- A stored row: `changes` is `none` unless it is a mapping with the keys; `evidence_count` is the
-- `observation_count` of its evidence, or 0.
pub record StoredProposal : Type 0 where
  pub changes : Option ProposedChanges
  pub evidence_count : ℕ
  pub status : ProposalStatus

abbrev usable : Supported Signature → Option Signature
usable (supported signature) = some signature
usable (unsupported_field name) = none

abbrev signature_of : Option ProposedChanges → Option Signature
signature_of none = none
signature_of (some changes) = usable (edit_signature changes)

abbrev pub signature_in : ProposalStatus → StoredProposal → Option Signature
signature_in pending row = elim row.status [ pending ↦ signature_of row.changes | _ ↦ none ]
signature_in rejected row = elim row.status [ rejected ↦ signature_of row.changes | _ ↦ none ]
signature_in accepted row = none

abbrev noted : Option Signature → List Signature → List Signature
noted none rest = rest
noted (some signature) rest = signature ∷ rest

-- `_StoredHistory.pending`
unfoldable pub pending_signatures : List StoredProposal → List Signature
pending_signatures [] = []
pending_signatures (row ∷ rest) = noted (signature_in pending row) (pending_signatures rest)

abbrev matches : Signature → Option Signature → Bool
matches signature none = false
matches signature (some other) = same_signature other signature

-- `_StoredHistory.rejected.get(signature)`: of several rejections the latest, as the rows are oldest first.
unfoldable pub rejected_count : Signature → List StoredProposal → Option ℕ
rejected_count signature [] = none
rejected_count signature (row ∷ rest) =
    let here =
      if matches signature (signature_in rejected row) then some row.evidence_count else none in
    elim (rejected_count signature rest) [ none ↦ here | some n ↦ some n ]

abbrev no_stronger : ℕ → Option ℕ → Bool
no_stronger n none = false
no_stronger n (some previous) = leb n previous

unfoldable pub blocks : List StoredProposal → Signature → ℕ → Bool
unfolding pending_signatures rejected_count
blocks rows signature n =
    any (same_signature signature) (pending_signatures rows)
    || no_stronger n (rejected_count signature rows)

abbrev pub signature_for : EditCandidate → Signature
signature_for c = (field_name c.field, direction_value c.direction)

-- `CriteriaProposal`, as it is created.
pub record NewProposal : Type 0 where
  pub based_on_run_id : Option String
  pub changes : ProposedChanges
  pub evidence : Evidence
  pub predicted_effect : String
  pub rationale : String

abbrev pub stored : NewProposal → StoredProposal
stored p = record {
  changes = some p.changes;
  evidence_count = p.evidence.observation_count;
  status = pending;
}

-- What is said of a candidate, or the exception that ends the pass.
abbrev pub Narrator : Type 0
Narrator = EditCandidate → Option (String × String)

abbrev pub changes_for : EditCandidate → ProposedChanges
changes_for c = record {
  field = field_name c.field;
  direction = direction_value c.direction;
  current_value = c.current_value;
  proposed_value = c.proposed_value;
}

abbrev pub proposal_for : Option String → EditCandidate → String × String → NewProposal
unfolding build_evidence
proposal_for run_id c said = record {
  based_on_run_id = run_id;
  changes = changes_for c;
  evidence = build_evidence c;
  predicted_effect = said.0;
  rationale = said.1;
}

-- The rest of a pass behind one proposal; an exception leaves nothing of the pass.
abbrev and_then : NewProposal → Option (List NewProposal) → Option (List NewProposal)
and_then p none = none
and_then p (some rest) = some (p ∷ rest)

abbrev propose :
    Option String
    → EditCandidate
    → Option (String × String)
    → Option (List NewProposal)
    → Option (List NewProposal)
propose run_id c none rest = none
propose run_id c (some said) rest = and_then (proposal_for run_id c said) rest

-- The loop, with the history as it was read before it.
unfoldable pub propose_all :
    Narrator → Option String → List StoredProposal → List EditCandidate → Option (List NewProposal)
unfolding blocks
propose_all narrate run_id history [] = some []
propose_all narrate run_id history (c ∷ rest) =
    let later = propose_all narrate run_id history rest in
    if blocks history (signature_for c) (observation_count c)
    then later
    else propose run_id c (narrate c) later

pub data Pass : Type 0 where
  created : List NewProposal → Pass
  raised : Pass

abbrev pub passed : Option (List NewProposal) → Pass
passed none = raised
passed (some proposals) = created proposals

-- A pass over what was detected; the created rows are written by one commit.
unfoldable pub generate_proposals :
    Extraction
    → Narrator
    → Option String
    → Time
    → List FeedbackNote
    → List StoredProposal
    → Detection
    → Pass
unfolding unconsumed_notes fold_claims propose_all extract_feedback_claims
generate_proposals x narrate run_id criteria_since notes rows (key_error_of name) = raised
generate_proposals x narrate run_id criteria_since notes rows (candidates found) =
    let claims = extract_feedback_claims x (unconsumed_notes criteria_since notes) in
    passed (propose_all narrate run_id rows (gate (fold_claims found claims)))
