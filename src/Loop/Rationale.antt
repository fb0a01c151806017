-- ===== src/Loop/Rationale.antt =====
-- src/huntloop/loop/rationale.py: what is kept of the model's answers about notes, and which text becomes the
-- rationale. The answer of the model is a parameter, as are `str.strip` and the text of the fallback.
use huntloop.Base.{
  ℕ, zero, suc, ◌≡◌, refl, String, true, false, Option, none, some, List, [], ◌∷◌, if◌then◌else◌,
  str_eq, contains, All, Bool-cases, Option-cases, inl, inr, subst,
}
use huntloop.Base.Clock.{Time}
use huntloop.Criteria.{permitted_edit_fields}
use huntloop.Loop.{
  EditDirection, tighten, loosen, increase, decrease, direction_value, FeedbackClaim,
}

pub data FeedbackSource : Type 0 where
  chat job_note : FeedbackSource

pub record FeedbackNote : Type 0 where
  pub id : String
  pub job_id : Option String
  pub source : Option FeedbackSource
  pub created_at : Time
  pub text : String

-- An item of `claims`; `none` where a key is missing or its value is of another type, and for a negative index.
pub record RawClaim : Type 0 where
  pub field : Option String
  pub note_index : Option ℕ
  pub quote : Option String
  pub direction : Option String

-- `EditDirection(value)`
unfoldable pub direction_of : String → Option EditDirection
direction_of value =
    if str_eq value "tighten"
    then some tighten
    else if str_eq value "loosen"
    then some loosen
    else if str_eq value "increase"
    then some increase
    else if str_eq value "decrease"
    then some decrease
    else none

abbrev note_at : List FeedbackNote → ℕ → Option FeedbackNote
note_at [] n = none
note_at (x ∷ rest) zero = some x
note_at (x ∷ rest) (suc n) = note_at rest n

abbrev noted : List FeedbackNote → Option ℕ → Option FeedbackNote
noted notes none = none
noted notes (some n) = note_at notes n

abbrev directed : Option String → Option EditDirection
directed none = none
directed (some value) = direction_of value

-- `field in PERMITTED_EDIT_FIELDS`, and a quote that is not blank.
abbrev a_field : Option String → Option String
a_field none = none
a_field (some f) = if contains permitted_edit_fields f then some f else none

abbrev a_quote : (String → String) → Option String → Option String
a_quote strip none = none
a_quote strip (some q) = if str_eq (strip q) "" then none else some q

abbrev claim_of :
    Option String
    → Option FeedbackNote
    → Option String
    → Option EditDirection
    → Option FeedbackClaim
claim_of (some field) (some note) (some quote) (some direction) = some (record {
  note_id = note.id;
  field = field;
  direction = direction_value direction;
  quote = quote;
})
claim_of _ _ _ _ = none

abbrev kept : Option FeedbackClaim → List FeedbackClaim → List FeedbackClaim
kept none rest = rest
kept (some claim) rest = claim ∷ rest

unfoldable pub claims_from_call :
    (String → String) → List FeedbackNote → List RawClaim → List FeedbackClaim
unfolding direction_of
claims_from_call strip notes [] = []
claims_from_call strip notes (raw ∷ rest) =
    kept
      (claim_of (a_field raw.field) (noted notes raw.note_index) (a_quote strip raw.quote)
        (directed raw.direction))
      (claims_from_call strip notes rest)

-- The client, if there is one, and its answer: `none` where the call raises.
pub record Extraction : Type 0 where
  pub strip : String → String
  pub client : Option (List FeedbackNote → Option (List RawClaim))

abbrev answered : Extraction → List FeedbackNote → Option (List RawClaim) → List FeedbackClaim
answered x notes none = []
answered x notes (some raws) = claims_from_call x.strip notes raws

abbrev asked :
    Extraction
    → List FeedbackNote
    → Option (List FeedbackNote → Option (List RawClaim))
    → List FeedbackClaim
asked x notes none = []
asked x notes (some ask) = answered x notes (ask notes)

unfoldable pub extract_feedback_claims : Extraction → List FeedbackNote → List FeedbackClaim
unfolding claims_from_call
extract_feedback_claims x [] = []
extract_feedback_claims x (n ∷ rest) = asked x (n ∷ rest) x.client

-- The outcome of the call that narrates: no client, an exception, no text, or a text.
pub data Narration : Type 0 where
  no_client raised no_text : Narration
  text : String → Narration

unfoldable pub synthesize_rationale : (String → String) → String → Narration → String
synthesize_rationale strip fallback (text t) = if str_eq (strip t) "" then fallback else strip t
synthesize_rationale strip fallback _ = fallback

abbrev IsNote : List FeedbackNote → String → Type 0
IsNote notes id = (n : ℕ) × (note : FeedbackNote) × (note_at notes n ≡ some note) × (note.id ≡ id)

-- A claim that may count: about a field that may be edited, in a direction that there is, with words, of a note.
abbrev pub IsUsable : (String → String) → List FeedbackNote → FeedbackClaim → Type 0
IsUsable strip notes c =
    (contains permitted_edit_fields c.field ≡ true)
    × ((d : EditDirection) × (c.direction ≡ direction_value d))
    × (str_eq (strip c.quote) "" ≡ false)
    × IsNote notes c.note_id

a_field-permitted :
    (f : Option String) (name : String)
    → a_field f ≡ some name
    → contains permitted_edit_fields name ≡ true
a_field-permitted none name h = absurd (cc)
a_field-permitted (some f) name h = elim (Bool-cases (contains permitted_edit_fields f)) [
  | inl e ↦
      let h' = rw e at h in
      let same : f ≡ name = cc in subst (λ n. contains permitted_edit_fields n ≡ true) same e
  | inr e ↦ let h' = rw e at h in absurd (cc)
]

a_quote-filled :
    (strip : String → String) (q : Option String) (words : String)
    → a_quote strip q ≡ some words
    → str_eq (strip words) "" ≡ false
a_quote-filled strip none words h = absurd (cc)
a_quote-filled strip (some q) words h = elim (Bool-cases (str_eq (strip q) "")) [
  | inl e ↦ let h' = rw e at h in absurd (cc)
  | inr e ↦
      let h' = rw e at h in
      let same : q ≡ words = cc in subst (λ n. str_eq (strip n) "" ≡ false) same e
]

noted-IsNote :
    (notes : List FeedbackNote) (n : Option ℕ) (note : FeedbackNote)
    → noted notes n ≡ some note
    → IsNote notes note.id
noted-IsNote notes none note h = absurd (cc)
noted-IsNote notes (some n) note h = (n, note, h, refl)

module _ (strip : String → String) (notes : List FeedbackNote) where
  kept-IsUsable :
      (raw : RawClaim) (rest : List FeedbackClaim)
      → All (IsUsable strip notes) rest
      → All (IsUsable strip notes) (
          kept
            (claim_of
              (a_field raw.field)
              (noted notes raw.note_index)
              (a_quote strip raw.quote)
              (directed raw.direction))
            rest)
  kept-IsUsable raw rest h = elim (Option-cases (a_field raw.field)) [
    | inl e ↦ rw e h
    | inr (f, ef) ↦ elim (Option-cases (noted notes raw.note_index)) [
      | inl e ↦ rw (ef, e) h
      | inr (note, en) ↦ elim (Option-cases (a_quote strip raw.quote)) [
        | inl e ↦ rw (ef, en, e) h
        | inr (words, eq) ↦ elim (Option-cases (directed raw.direction)) [
          | inl e ↦ rw (ef, en, eq, e) h
          | inr (d, ed) ↦
              rw (ef, en, eq, ed)
                (
                  (
                    a_field-permitted raw.field f ef,
                    (d, refl),
                    a_quote-filled strip raw.quote words eq,
                    noted-IsNote notes raw.note_index note en,
                  ),
                  h,
                )
        ]
      ]
    ]
  ]

  claims_from_call-IsUsable :
      (raws : List RawClaim) → All (IsUsable strip notes) (claims_from_call strip notes raws)
  unfolding claims_from_call
  claims_from_call-IsUsable [] = tt
  claims_from_call-IsUsable (raw ∷ rest) = kept-IsUsable raw _ (claims_from_call-IsUsable rest)

-- Whatever the model answers, and also where it is absent or its call raises, the extraction ends with claims
-- about fields that may be edited, in a direction that there is, with a quote that is not blank, of a
-- note that was sent.
pub extract_feedback_claims-IsUsable :
    (x : Extraction) (notes : List FeedbackNote)
    → All (IsUsable x.strip notes) (extract_feedback_claims x notes)
unfolding extract_feedback_claims
extract_feedback_claims-IsUsable x [] = tt
extract_feedback_claims-IsUsable x (n ∷ rest) = elim (Option-cases x.client) [
  | inl absent ↦ rw absent tt
  | inr (ask, present) ↦ elim (Option-cases (ask (n ∷ rest))) [
    | inl failed ↦ rw (present, failed) tt
    | inr (raws, came) ↦ rw (present, came) (claims_from_call-IsUsable x.strip (n ∷ rest) raws)
  ]
]
