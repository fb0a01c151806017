-- ===== src/Loop/Generate/Fields.antt =====
-- No two candidates of one detection are for the same edit.
mod Tracks
use mathlib.Core.List.{append_assoc, append-nil}
use huntloop.Base.{
  ℕ, suc, ◌*◌, ◌/◌, ◌≤◌, ◌<◌, ◌≡◌, refl, sym, ap, String, Bool, true, false, Option, none, some,
  List, [], ◌∷◌, ◌++◌, if◌then◌else◌, ltb, str_eq, length, All, arith, Bool-cases, inl, inr, subst,
  eq_iff, ◌∙◌,
}
use huntloop.Base.Sort.{IsSorted}
use huntloop.Scoring.{Weight, Rung, CompensationFloor, CriteriaPayload}
use huntloop.Loop.{
  EditField, seniority_min, seniority_max, posting_age_days, locations, compensation_floor,
  title_keywords, employers, work_authorization, dimension_weights, permitted, field_name,
  EditCandidate, EditablePayload, Exclusions,
}
use huntloop.Loop.Signals.{JobSignal}
use huntloop.Loop.Detect.{Listed}
use huntloop.Loop.Detect.Weights.{
  Attributed, TrackA, proposes, nothing, key_error, track_a, track_of, propose_weights,
  raise_weight, attributable, count_of, modal_from,
}
use huntloop.Loop.Detect.Flags.{
  lower_max, raise_min, raise_floor, tighten_max, tighten_min, tighten_floor, tighten_age, median,
  at_least, at_most, larger, flagged, track_b, comparable,
}
use huntloop.Loop.Detect.Repeats.{
  Words, exclude_token, exclude_employer, repeated_tokens, repeated_employers, track_c, Row,
  candidates, with_track_a, detect_candidates, records_of, is_fast_reject, is_progressed,
}
use huntloop.Loop.Generate.{signature_for, same_signature}
use huntloop.Loop.Generate.Fields.Tracks.{
  rank, Ascends, Ascends-weaken, Only-Ascends, Only-tighten_max, Only-tighten_min,
  Only-tighten_floor, Only-tighten_age, Only-exclude_token, Only-exclude_employer,
}

nest :
    (a b c d e f : List EditCandidate)
    → a ++ (b ++ (c ++ (d ++ (e ++ (f ++ []))))) ≡ (a ++ (b ++ (c ++ d))) ++ (e ++ f)
nest a b c d e f = simp (append_assoc, append-nil)

-- The two later tracks, behind the weights.
tracks-Ascends :
    (w : Words) (fast progressed_ : List Listed) (payload : EditablePayload)
    → Ascends 1 (track_b fast payload.scored ++ track_c w fast progressed_ payload.exclusions)
unfolding track_b track_c repeated_tokens repeated_employers
tracks-Ascends w fast progressed_ payload =
    let c = payload.scored in
    let e = payload.exclusions in
    let words = repeated_tokens w fast progressed_ e in
    let names = repeated_employers w fast progressed_ e in
    let ages = tighten_age (flagged "posting_stale" fast) c in
    let pays = tighten_floor (flagged "comp_below_floor" fast) c in
    let downs = tighten_min (flagged "step_down" fast) c in
    let ups = tighten_max (flagged "stretch_role" fast) c in
    let none_left : Ascends 7 [] = tt in
    let h1 : Ascends 6 (names ++ []) =
      Only-Ascends 6 employers names [] (omega arith) (Only-exclude_employer fast e _) none_left in
    let h2 : Ascends 5 (words ++ (names ++ [])) =
      Only-Ascends 5 title_keywords words (names ++ []) (omega arith)
        (Only-exclude_token w fast e _) h1 in
    let h3 : Ascends 4 (ages ++ (words ++ (names ++ []))) =
      Only-Ascends 4 posting_age_days ages _ (omega arith) (Only-tighten_age c _) h2 in
    let h4 : Ascends 3 (pays ++ (ages ++ (words ++ (names ++ [])))) =
      Only-Ascends 3 compensation_floor pays _ (omega arith) (Only-tighten_floor c _) h3 in
    let h5 : Ascends 2 (downs ++ (pays ++ (ages ++ (words ++ (names ++ []))))) =
      Only-Ascends 2 seniority_min downs _ (omega arith) (Only-tighten_min c _) h4 in
    let h6 : Ascends 1 (ups ++ (downs ++ (pays ++ (ages ++ (words ++ (names ++ [])))))) =
      Only-Ascends 1 seniority_max ups _ (omega arith) (Only-tighten_max c _) h5 in
    subst (Ascends 1) (nest ups downs pays ages words names) h6

track_a-Ascends :
    (t : TrackA) (rest : List EditCandidate) (found : List EditCandidate)
    → ((c : EditCandidate) → t ≡ proposes c → c.field ≡ dimension_weights)
    → Ascends 1 rest
    → with_track_a t rest ≡ candidates found
    → Ascends 0 found
track_a-Ascends nothing rest found h k e =
    let same : rest ≡ found = cc in
    Ascends-weaken 0 1 found (omega arith) (subst (Ascends 1) same k)
track_a-Ascends (proposes c) rest found h k e =
    let same : c ∷ rest ≡ found = cc in
    subst (Ascends 0) same
      (Only-Ascends 0 dimension_weights (c ∷ []) rest (omega arith) (h c refl) k)
track_a-Ascends (key_error name) rest found h k e = absurd (cc)

-- What the track proposes is for the weights.
abbrev ForWeights : TrackA → Type 0
ForWeights t = (c : EditCandidate) → t ≡ proposes c → c.field ≡ dimension_weights

propose_weights-ForWeights :
    (current : List Weight) (modal : String) (all : List Attributed) (r : Option (List Weight))
    → ForWeights (propose_weights current modal all r)
propose_weights-ForWeights current modal all none c e = absurd (cc)
propose_weights-ForWeights current modal all (some raised) c e = ground (arith, e)

track_of-ForWeights :
    (unit : ℕ) (current : List Weight) (all : List Attributed)
    → ForWeights (track_of unit current all)
track_of-ForWeights unit current [] = λ c e. absurd (cc)
track_of-ForWeights unit current (a ∷ rest) =
    elim (Bool-cases (ltb (2 * count_of modal (a ∷ rest)) (length (a ∷ rest)))) [
      | inl few ↦ λ c e. absurd (let e' = rw few at e in cc)
      | inr many ↦ λ c e.
          propose_weights-ForWeights current modal (a ∷ rest) (raise_weight unit modal current) c
            (rw many at e)
    ]
  where
    modal : String
    modal = modal_from (a ∷ rest) a.dimension rest

track_a-ForWeights :
    (unit : ℕ) (fast : List Listed) (current : List Weight) → ForWeights (track_a unit fast current)
unfolding track_a
track_a-ForWeights unit fast current = track_of-ForWeights unit current (attributable fast)

detect_candidates-Ascends :
    (w : Words) (unit : ℕ) (payload : Option EditablePayload) (signals : List JobSignal)
    (rows : List Row) (found : List EditCandidate)
    → detect_candidates w unit payload signals rows ≡ candidates found
    → Ascends 0 found
unfolding detect_candidates
detect_candidates-Ascends w unit none signals rows found e =
    let same : [] ≡ found = cc in subst (Ascends 0) same tt
detect_candidates-Ascends w unit (some payload) signals rows found e =
    let fast = records_of is_fast_reject signals rows in
    let progressed_ = records_of is_progressed signals rows in
    track_a-Ascends (track_a unit fast payload.scored.dimension_weights) _ found
      (track_a-ForWeights unit fast payload.scored.dimension_weights)
      (tracks-Ascends w fast progressed_ payload) e

-- Two candidates for different edits.
abbrev pub DifferentEdit : EditCandidate → EditCandidate → Type 0
DifferentEdit a b = same_signature (signature_for a) (signature_for b) ≡ false

pub permitted-field_name : (f : EditField) → permitted (field_name f) ≡ some f
unfolding permitted
permitted-field_name seniority_min = refl
permitted-field_name seniority_max = refl
permitted-field_name posting_age_days = refl
permitted-field_name locations = refl
permitted-field_name compensation_floor = refl
permitted-field_name title_keywords = refl
permitted-field_name employers = refl
permitted-field_name work_authorization = refl
permitted-field_name dimension_weights = refl

field_name_differ :
    (f g : EditField) → rank f < rank g → str_eq (field_name f) (field_name g) ≡ false
field_name_differ f g lt = elim (Bool-cases (str_eq (field_name f) (field_name g))) [
  | inr e ↦ e
  | inl e ↦
      let name : field_name f ≡ field_name g = (eq_iff (field_name f) (field_name g)).0 e in
      let both : some f ≡ some g =
        sym (permitted-field_name f) ∙ ap permitted name ∙ permitted-field_name g in
      let same : f ≡ g = cc in
      let ranks : rank f ≡ rank g = ap rank same in absurd (omega (arith, lt, ranks))
]

Ascends-All :
    (c : EditCandidate) (n : ℕ) (l : List EditCandidate)
    → rank c.field < n
    → Ascends n l
    → All (DifferentEdit c) l
Ascends-All c n [] lt h = tt
Ascends-All c n (d ∷ rest) lt h = (
  rw (field_name_differ c.field d.field (omega (arith, lt, h.0))) refl,
  Ascends-All c (suc (rank d.field)) rest (omega (arith, lt, h.0)) h.1,
)

Ascends-pairs : (n : ℕ) (l : List EditCandidate) → Ascends n l → IsSorted DifferentEdit l
Ascends-pairs n [] h = tt
Ascends-pairs n (c ∷ rest) h = (
  Ascends-All c (suc (rank c.field)) rest (omega arith) h.1,
  Ascends-pairs (suc (rank c.field)) rest h.1,
)

-- One detection never proposes two changes of the same field in the same direction.
pub detect_candidates-DifferentEdit :
    (w : Words) (unit : ℕ) (payload : Option EditablePayload) (signals : List JobSignal)
    (rows : List Row) (found : List EditCandidate)
    → detect_candidates w unit payload signals rows ≡ candidates found
    → IsSorted DifferentEdit found
detect_candidates-DifferentEdit w unit payload signals rows found e =
    Ascends-pairs 0 found (detect_candidates-Ascends w unit payload signals rows found e)
