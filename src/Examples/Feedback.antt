-- ===== src/Examples/Feedback.antt =====
-- Four fast rejections of staff roles at one employer, and what the loop makes of them.
use mathlib.Core.List.{Perm}
use huntloop.Base.{
  ◌+◌, leb, length, select, ◌*◌, ◌≤◌, ◌↔◌, String, ◌≡◌, refl, true, false, none, some, List, [],
  ◌∷◌, ◌++◌, map, contains, select, All,
}
use huntloop.Base.Sort.{IsSorted}
use huntloop.Base.Clock.{Time, pos, day}
use huntloop.Criteria.{permitted_edit_fields, pending}
use huntloop.Scoring.{staff, mid, CriteriaPayload, unspecified}
use huntloop.Scoring.Pipeline.{DimensionReply}
use huntloop.Jobs.{JobStatus, new, shortlisted, rejected, StatusEvent}
use huntloop.Loop.{
  fast_reject, tighten, days, Exclusions, EditablePayload, EditCandidate, meets_threshold,
  min_observations, observation_count, ProposedChanges, unsupported_field, build_proposed_changes,
  edit_signature, resolve_field, permitted,
}
use huntloop.Loop.Signals.{JobSignal, classify_transitions}
use huntloop.Loop.Signals.Laws.{IsFastReject, classify_transitions_fast}
use huntloop.Loop.Signals.{scale, round_even, round_tie}
use huntloop.Loop.Gate.{gate, more_observed, build_evidence}
use huntloop.Loop.Gate.Laws.{gate_exact, unsupported_field_iff, AtLeast}
use huntloop.Loop.Detect.{
  BacklogJob, Listed, bare, StoredScore, raised_flags, attribute_dimension, numeric, observations,
  observation,
}
use huntloop.Loop.Detect.Weights.{
  to_score_dimensions, attributable, raise_weight, track_a, nothing, track_a_scored,
}
use huntloop.Loop.Detect.Flags.{
  flagged, tighten_max, tighten_min, tighten_floor, tighten_age, track_b,
}
use huntloop.Loop.Detect.Flags.Laws.{IsTightening, track_b-IsTightening}
use huntloop.Loop.Detect.Repeats.{
  Words, Row, track_c, detect_candidates, records_of, repeated_tokens, repeated_employers,
  title_tokens,
}
use huntloop.Loop.Detect.Repeats.Laws.{IsEarned, track_c-IsEarned}
use huntloop.Loop.Rationale.{Extraction, extract_feedback_claims}
use huntloop.Loop.Generate.{
  StoredProposal, NewProposal, Narrator, generate_proposals, created, stored, changes_for, Pass,
  raised, pending_signatures, rejected_count, blocks, propose_all, fold_claims, unconsumed_notes,
}
use huntloop.Loop.Generate.Laws.{Earned, generate_proposals-PendingDiffer}
use huntloop.Loop.Generate.Signatures.{PendingDiffer}
use huntloop.Loop.Tiers.{Reading}
use huntloop.Loop.Effect.{predict_effect}
use huntloop.Loop.Narrate.{Texts, narrator}
use huntloop.Loop.Rationale.{no_client}
use huntloop.Loop.Effect.Laws.{OnlyTightens, track_b-OnlyTightens}

abbrev event_of : JobStatus → JobStatus → Time → StatusEvent
event_of from_status to_status changed_at = record {
  job_id = "j1";
  from_status = from_status;
  to_status = to_status;
  changed_at = changed_at;
}

abbrev shortlisting : StatusEvent
shortlisting = event_of new shortlisted day

abbrev rejection : StatusEvent
rejection = event_of shortlisted rejected (4 * day)

abbrev history : List StatusEvent
history = rejection ∷ shortlisting ∷ []

classify_transitions_fast_example :
    ((classify_transitions history (some 0) rejected (some "j1")).signal ≡ fast_reject)
    ↔ IsFastReject (some 0) rejected shortlisting (rejection ∷ [])
classify_transitions_fast_example =
    classify_transitions_fast history (some 0) rejected (some "j1") shortlisting (rejection ∷ [])
      refl

-- 0.005, 0.015, 0.025, 0.125, 2.675 and 10.005 days in hundredths
ties_are_those_of_floats :
    map round_tie (0 ∷ 1 ∷ 2 ∷ 12 ∷ 267 ∷ 1000 ∷ []) ≡ 1 ∷ 1 ∷ 3 ∷ 12 ∷ 267 ∷ 1001 ∷ []
unfolding round_tie scale round_even
ties_are_those_of_floats = refl

abbrev reply : DimensionReply
reply = record { name = "role_fit"; score = some 10; reason = "no match" }

abbrev listing_of : String → String → Listed
listing_of id title = record {
  signal = record {
    job_id = some id;
    signal = fast_reject;
    dwell_days = some (pos 300);
    depth = 0;
    terminal_status = rejected;
    transitions = [];
  };
  job = record {
    id = id;
    title = title;
    company_id = "acme";
    status = rejected;
    score_dimensions = ("role_fit", StoredScore.object (some 10) "no match") ∷ [];
    score_flags = ("stretch_role", bare true) ∷ [];
    location_normalized = none;
    location_raw = none;
    is_remote = none;
    posted_at = none;
    comp_raw = none;
    comp_min = none;
    comp_max = none;
    comp_currency = none;
    comp_period = none;
    work_auth_required = none;
  };
  company_name = "Acme";
}

abbrev fast : List Listed
fast =
    listing_of "j1" "Staff Alpha"
    ∷ listing_of "j2" "Staff Beta"
    ∷ listing_of "j3" "Staff Gamma"
    ∷ listing_of "j4" "Staff Delta"
    ∷ []

abbrev payload : CriteriaPayload
payload = record {
  seniority_min = some mid;
  seniority_max = some staff;
  posting_age_days = 30;
  locations = record { eligible_countries = []; eligible_regions = [] };
  compensation_floor = record { amount = none; currency = none; period = "annual" };
  dimension_weights = record { dimension = "role_fit"; weight = 10 } ∷ [];
}

abbrev exclusions : Exclusions
exclusions = record { title_keywords = []; employers = [] }

abbrev editable : EditablePayload
editable = record {
  scored = payload;
  exclusions = exclusions;
  work_authorization = record { countries_authorized = []; requires_sponsorship = false };
}

-- Each of the titles has the word "staff".
abbrev words : Words
words = record { split = λ title. "staff" ∷ []; casefold = λ text. text }

stored_reply :
    ("role_fit", StoredScore.object (some 10) "no match") ∷ [] ≡ to_score_dimensions (reply ∷ [])
unfolding to_score_dimensions
stored_reply = refl

track_a_scored_example : track_a 10 fast payload.dimension_weights ≡ nothing
track_a_scored_example =
    let scored : (replies : List DimensionReply) × (((
      "role_fit",
      StoredScore.object (some 10) "no match",
    )
            ∷ [])
          ≡ to_score_dimensions replies) =
      (reply ∷ [], stored_reply) in
    track_a_scored 10 fast payload.dimension_weights (scored, (scored, (scored, (scored, tt))))

track_b-IsTightening_example : All (IsTightening payload) (track_b fast payload)
track_b-IsTightening_example = track_b-IsTightening fast payload

track_c-IsEarned_example :
    All (IsEarned words fast [] exclusions) (track_c words fast [] exclusions)
track_c-IsEarned_example = track_c-IsEarned words fast [] exclusions

abbrev reading : Reading
reading = record {
  normalize = λ text remote. record {
    raw = text;
    country_code = none;
    region = none;
    remote_scope = unspecified;
    ambiguous = false;
  };
  search = λ pattern text. false;
  casefold = λ text. text;
  occurs = λ needle text. false;
  is_blank = λ text. false;
  first_of = λ texts. none;
}

abbrev backlog : List BacklogJob
backlog = map (λ (r : Listed). record r.job { status = new }) fast

track_b-OnlyTightens_example :
    All
      (λ e. OnlyTightens (predict_effect reading (9 * day) [] backlog (changes_for e)))
      (track_b fast payload)
track_b-OnlyTightens_example = track_b-OnlyTightens reading (9 * day) [] backlog fast payload

abbrev found : List EditCandidate
found = track_c words fast [] exclusions

gate_exact_example :
    Perm (gate found) (
      select
        (λ c. leb (min_observations c.field) (length c.observations + length c.feedback_quotes))
        found)
    × All (λ c. min_observations c.field ≤ observation_count c) (gate found)
    × IsSorted AtLeast (gate found)
gate_exact_example = gate_exact found

abbrev rubric : ProposedChanges
rubric = record {
  field = "rubric";
  direction = "tighten";
  current_value = days 1;
  proposed_value = days 2;
}

unsupported_field_iff_example :
    ((build_proposed_changes "rubric" tighten (days 1) (days 2) ≡ unsupported_field "rubric")
      ↔ (contains permitted_edit_fields "rubric" ≡ false))
    × ((edit_signature rubric ≡ unsupported_field "rubric")
        ↔ (contains permitted_edit_fields "rubric" ≡ false))
    × ((resolve_field editable "rubric" ≡ unsupported_field "rubric")
        ↔ (contains permitted_edit_fields "rubric" ≡ false))
unsupported_field_iff_example = unsupported_field_iff editable rubric tighten

abbrev rows : List Row
rows = map (λ (r : Listed). record { job = r.job; company_name = r.company_name }) fast

abbrev signals : List JobSignal
signals = map (λ (r : Listed). r.signal) fast

-- A change of the age of postings awaits a decision.
abbrev proposals : List StoredProposal
proposals =
    record {
      changes = some (record {
        field = "posting_age_days";
        direction = "tighten";
        current_value = days 30;
        proposed_value = days 20;
      });
      evidence_count = 5;
      status = pending;
    }
    ∷ []

abbrev no_model : Extraction
no_model = record { strip = λ text. text; client = none }

abbrev narrate : Narrator
narrate c = some ("{}", "because")

abbrev created_of : Pass → List NewProposal
created_of (created made) = made
created_of raised = []

abbrev proposed : List NewProposal
proposed = created_of (
    generate_proposals no_model narrate none 0 [] proposals
      (detect_candidates words 10 (some editable) signals rows))

three_are_proposed :
    map (λ (p : NewProposal). p.changes.field) proposed
    ≡ "exclusions.employers" ∷ "exclusions.title_keywords" ∷ "seniority_max" ∷ []
unfolding generate_proposals detect_candidates records_of track_a attributable attribute_dimension
    numeric raise_weight track_b flagged raised_flags tighten_max tighten_min tighten_floor
    tighten_age observations observation track_c repeated_tokens repeated_employers title_tokens
    fold_claims extract_feedback_claims unconsumed_notes gate meets_threshold observation_count
    more_observed propose_all blocks pending_signatures rejected_count edit_signature permitted
    build_evidence
three_are_proposed = refl

they_are_created :
    generate_proposals no_model narrate none 0 [] proposals
      (detect_candidates words 10 (some editable) signals rows)
    ≡ created proposed
unfolding generate_proposals detect_candidates records_of track_a attributable attribute_dimension
    numeric raise_weight track_b flagged raised_flags tighten_max tighten_min tighten_floor
    tighten_age observations observation track_c repeated_tokens repeated_employers title_tokens
    fold_claims extract_feedback_claims unconsumed_notes gate meets_threshold observation_count
    more_observed propose_all blocks pending_signatures rejected_count edit_signature permitted
    build_evidence
they_are_created = refl

proposals-PendingDiffer : PendingDiffer proposals
unfolding pending_signatures edit_signature permitted
proposals-PendingDiffer = (refl, tt)

generate_proposals-PendingDiffer_example :
    PendingDiffer (proposals ++ map stored proposed) × All (Earned proposals) proposed
generate_proposals-PendingDiffer_example =
    generate_proposals-PendingDiffer no_model narrate none 0 [] proposals words 10 (some editable)
      signals rows proposed proposals-PendingDiffer they_are_created

abbrev texts : Texts
texts = record {
  effect_text = λ effect. "{}";
  strip = λ text. text;
  fallback = λ c effect. "because";
  ask = λ c effect. no_client;
}

abbrev narrated_pass : Pass
narrated_pass =
    generate_proposals no_model (narrator texts reading (9 * day) [] backlog) none 0 [] proposals
      (detect_candidates words 10 (some editable) signals rows)
