-- ===== src/Loop/Generate/Signatures.antt =====
-- Signatures that differ, and what a proposal adds to the pending ones.
use huntloop.Base.{
  ◌≡◌, refl, ap, ◌∙◌, String, Bool, false, Option, none, some, List, [], ◌∷◌, ◌++◌, any, All,
  All-map, arith,
}
use huntloop.Criteria.{pending}
use huntloop.Loop.{edit_signature, EditCandidate}
use huntloop.Loop.Generate.{
  Signature, same_signature, StoredProposal, pending_signatures, signature_in, noted, signature_for,
  stored, proposal_for,
}
use huntloop.Loop.Generate.Claims.{same_signature_sym}
use huntloop.Loop.Generate.Fields.{permitted-field_name}

-- The signatures that are pending all differ.
abbrev pub DifferFrom : Signature → List Signature → Type 0
DifferFrom s rest = any (same_signature s) rest ≡ false

abbrev pub SignaturesDiffer : List Signature → Type 0
SignaturesDiffer [] = Unit
SignaturesDiffer (s ∷ rest) = DifferFrom s rest × SignaturesDiffer rest

abbrev pub PendingDiffer : List StoredProposal → Type 0
PendingDiffer rows = SignaturesDiffer (pending_signatures rows)

any-append :
    (p : Signature → Bool) (xs ys : List Signature)
    → any p xs ≡ false
    → any p ys ≡ false
    → any p (xs ++ ys) ≡ false
any-append p [] ys h k = k
any-append p (x ∷ xs) ys h k = ground (arith, h, k, any-append p xs ys)

DifferFrom-sym :
    (x : Signature) (ys : List Signature)
    → All (λ y. same_signature y x ≡ false) ys
    → DifferFrom x ys
DifferFrom-sym x [] h = refl
DifferFrom-sym x (y ∷ ys) h = rw (same_signature_sym y x h.0) (DifferFrom-sym x ys h.1)

any_head-false :
    (p : Signature → Bool) (x : Signature) (xs : List Signature)
    → any p (x ∷ xs) ≡ false
    → p x ≡ false
any_head-false p x xs h = ground (arith, h)

any_tail-false :
    (p : Signature → Bool) (x : Signature) (xs : List Signature)
    → any p (x ∷ xs) ≡ false
    → any p xs ≡ false
any_tail-false p x xs h = ground (arith, h)

pub SignaturesDiffer-append :
    (xs ys : List Signature)
    → SignaturesDiffer xs
    → SignaturesDiffer ys
    → All (λ y. any (same_signature y) xs ≡ false) ys
    → SignaturesDiffer (xs ++ ys)
SignaturesDiffer-append [] ys h k d = k
SignaturesDiffer-append (x ∷ xs) ys h k d = (
  any-append (same_signature x) xs ys h.0
      (DifferFrom-sym x ys (All-map _ _ ys (λ y e. any_head-false (same_signature y) x xs e) d)),
  SignaturesDiffer-append xs ys h.1 k
      (All-map _ _ ys (λ y e. any_tail-false (same_signature y) x xs e) d),
)

noted-append :
    (s : Option Signature) (xs ys : List Signature) → noted s (xs ++ ys) ≡ noted s xs ++ ys
noted-append none xs ys = refl
noted-append (some s) xs ys = refl

pub pending_signatures-append :
    (rows new : List StoredProposal)
    → pending_signatures (rows ++ new) ≡ pending_signatures rows ++ pending_signatures new
unfolding pending_signatures
pending_signatures-append [] new = refl
pending_signatures-append (r ∷ rows) new =
    ap (noted (signature_in pending r)) (pending_signatures-append rows new)
    ∙ noted-append (signature_in pending r) (pending_signatures rows) (pending_signatures new)

pub signature_in-stored :
    (run_id : Option String) (c : EditCandidate) (said : String × String)
    → signature_in pending (stored (proposal_for run_id c said)) ≡ some (signature_for c)
unfolding edit_signature proposal_for
signature_in-stored run_id c said = rw (permitted-field_name c.field) refl
