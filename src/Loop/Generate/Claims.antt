-- ===== src/Loop/Generate/Claims.antt =====
-- What the claims of the model may change of the candidates.
use huntloop.Base.{
  ◌≡◌, refl, sym, ◌∙◌, false, ◌&&◌, List, [], ◌∷◌, map, str_eq, select, All, arith, Bool-cases, inl,
  inr, eq_iff,
}
use huntloop.Base.Sort.{IsSorted, sort-pairs, select-pairs}
use huntloop.Loop.{field_name, direction_value, EditCandidate, FeedbackClaim, meets_threshold}
use huntloop.Loop.Gate.{gate, more_observed}
use huntloop.Loop.Generate.{corroborate, fold_claims, Signature, same_signature, signature_for}
use huntloop.Loop.Generate.Fields.{DifferentEdit}

-- The edit of a candidate is the same before and after the claims.
abbrev pub SameEdit : EditCandidate → EditCandidate → Type 0
SameEdit a b =
    (a.field ≡ b.field)
    × (a.direction ≡ b.direction)
    × (a.current_value ≡ b.current_value)
    × (a.proposed_value ≡ b.proposed_value)
    × (a.observations ≡ b.observations)

-- Two lists of the same length, related item by item.
pub data Pairs {ℓ} {A : Type ℓ} (R : A → A → Type 0) : List A → List A → Type ℓ where
  nil : Pairs R [] []
  both : {x y : A} {xs ys : List A} → R x y → Pairs R xs ys → Pairs R (x ∷ xs) (y ∷ ys)

corroborate-SameEdit :
    (claim : FeedbackClaim) (c : EditCandidate) → SameEdit c (corroborate claim c)
corroborate-SameEdit claim c =
    elim (Bool-cases (
      str_eq (field_name c.field) claim.field
      && str_eq (direction_value c.direction) claim.direction)) [
        | inl e ↦ rw e (refl, refl, refl, refl, refl)
        | inr e ↦ rw e (refl, refl, refl, refl, refl)
      ]

SameEdit-corroborate :
    (claim : FeedbackClaim) {l m : List EditCandidate}
    → Pairs SameEdit l m
    → Pairs SameEdit l (map (corroborate claim) m)
SameEdit-corroborate claim nil = nil
SameEdit-corroborate claim (both {x = a} {y = b} h rest) =
    let k = corroborate-SameEdit claim b in
    both (h.0 ∙ k.0, h.1 ∙ k.1, h.2 ∙ k.2, h.3 ∙ k.3, h.4 ∙ k.4) (SameEdit-corroborate claim rest)

fold_claims-from :
    (claims : List FeedbackClaim) (l m : List EditCandidate)
    → Pairs SameEdit l m
    → Pairs SameEdit l (fold_claims m claims)
unfolding fold_claims
fold_claims-from [] l m h = h
fold_claims-from (claim ∷ rest) l m h =
    fold_claims-from rest l (map (corroborate claim) m) (SameEdit-corroborate claim h)

Pairs-refl : (l : List EditCandidate) → Pairs SameEdit l l
Pairs-refl [] = nil
Pairs-refl (c ∷ l) = both (refl, refl, refl, refl, refl) (Pairs-refl l)

-- Whatever the model says of the notes, the candidates remain those that were detected, in their order, with
-- their fields, directions, values and observations: a claim can add nothing but a quote.
pub fold_claims-SameEdit :
    (found : List EditCandidate) (claims : List FeedbackClaim)
    → Pairs SameEdit found (fold_claims found claims)
fold_claims-SameEdit found claims = fold_claims-from claims found found (Pairs-refl found)

DifferentEdit-SameEdit :
    (a a' b b' : EditCandidate)
    → SameEdit a a'
    → SameEdit b b'
    → DifferentEdit a b
    → DifferentEdit a' b'
DifferentEdit-SameEdit a a' b b' h k d = rw (sym h.0, sym h.1, sym k.0, sym k.1) d

All-Pairs :
    (a a' : EditCandidate) {l m : List EditCandidate}
    → SameEdit a a'
    → Pairs SameEdit l m
    → All (DifferentEdit a) l
    → All (DifferentEdit a') m
All-Pairs a a' h nil d = tt
All-Pairs a a' h (both {x = b} {y = b'} k rest) d =
    (DifferentEdit-SameEdit a a' b b' h k d.0, All-Pairs a a' h rest d.1)

pub Pairs-DifferentEdit :
    {l m : List EditCandidate}
    → Pairs SameEdit l m
    → IsSorted DifferentEdit l
    → IsSorted DifferentEdit m
Pairs-DifferentEdit nil d = tt
Pairs-DifferentEdit (both {x = a} {y = b} h rest) d =
    (All-Pairs a b h rest d.0, Pairs-DifferentEdit rest d.1)

pub same_signature_sym : (s t : Signature) → same_signature s t ≡ false → same_signature t s ≡ false
same_signature_sym s t h =
    ground (arith, h, eq_iff s.0 t.0, eq_iff t.0 s.0, eq_iff s.1 t.1, eq_iff t.1 s.1)

pub gate-DifferentEdit :
    (l : List EditCandidate) → IsSorted DifferentEdit l → IsSorted DifferentEdit (gate l)
unfolding gate
gate-DifferentEdit l h =
    sort-pairs more_observed DifferentEdit
      (λ a b. same_signature_sym (signature_for a) (signature_for b)) (select meets_threshold l)
      (select-pairs DifferentEdit meets_threshold l h)
