-- ===== src/Registry/Guesses.antt =====
-- src/huntloop/registry/probe.py, `guess_slugs`: slugs that an employer's name may have. The forms that
-- regular expressions make of the name are parameters.
use huntloop.Base.{
  ℕ, suc, ◌+◌, ◌≤◌, ◌≡◌, String, true, false, Option, none, some, List, [], ◌∷◌, if◌then◌else◌,
  str_eq, contains, ◌==◌, length, All, arith, Bool-cases, inl, inr,
}

-- `base`, `hyphenated`, `stripped_suffix`, `name_with_suffix` and `first_word`.
pub record Forms : Type 0 where
  pub base : String
  pub hyphenated : String
  pub stripped_suffix : Option String
  pub name_with_suffix : String
  pub first_word : Option String

-- `filter(None, forms)` keeps the texts that are not empty.
abbrev pub filled : List (Option String) → List String
filled [] = []
filled (none ∷ rest) = filled rest
filled (some text ∷ rest) =
    let later = filled rest in if str_eq text "" then later else text ∷ later

-- What the loop appends after `count` candidates, of which `seen` is the set.
unfoldable pub distinct : ℕ → List String → List String → List String
distinct count seen [] = []
distinct count seen (form ∷ rest) = elim (contains seen form) [
  | true ↦ elim (count == 5) [ true ↦ [] | false ↦ distinct count seen rest ]
  | false ↦ elim (suc count == 5) [
    | true ↦ form ∷ []
    | false ↦ form ∷ distinct (suc count) (form ∷ seen) rest
  ]
]

unfoldable pub guess_slugs : Forms → List String
unfolding distinct
guess_slugs f = distinct 0 [] (
    filled (
      some f.base
      ∷ some f.hyphenated
      ∷ f.stripped_suffix
      ∷ some f.name_with_suffix
      ∷ f.first_word
      ∷ []))

-- Every text is not empty, and is none of those before it.
abbrev pub AreDistinct : List String → List String → Type 0
AreDistinct seen [] = Unit
AreDistinct seen (form ∷ rest) =
    (str_eq form "" ≡ false) × (contains seen form ≡ false) × AreDistinct (form ∷ seen) rest

filled-All : (forms : List (Option String)) → All (λ form. str_eq form "" ≡ false) (filled forms)
filled-All [] = tt
filled-All (none ∷ rest) = filled-All rest
filled-All (some text ∷ rest) = elim (Bool-cases (str_eq text "")) [
  | inl e ↦ rw e (filled-All rest)
  | inr e ↦ rw e (e, filled-All rest)
]

distinct-AreDistinct :
    (count : ℕ) (seen forms : List String)
    → count ≤ 4
    → All (λ form. str_eq form "" ≡ false) forms
    → AreDistinct seen (distinct count seen forms)
      × (length (distinct count seen forms) + count ≤ 5)
unfolding distinct
distinct-AreDistinct count seen [] le h = (tt, omega (arith, le))
distinct-AreDistinct count seen (form ∷ rest) le h = elim (Bool-cases (contains seen form)) [
  | inl known ↦
      let open_ : (count == 5) ≡ false = ground (arith, le) in
      rw (distinct, known, open_) (distinct-AreDistinct count seen rest le h.1)
  | inr fresh ↦ elim (Bool-cases (suc count == 5)) [
    | inl full ↦ rw (distinct, fresh, full) ((h.0, fresh, tt), ground (arith, full))
    | inr room ↦
        let next : suc count ≤ 4 = ground (arith, room, le) in
        let later = distinct-AreDistinct (suc count) (form ∷ seen) rest next h.1 in
        rw (distinct, fresh, room) ((h.0, fresh, later.0), omega (arith, later.1))
  ]
]

-- There are at most five guesses, none is empty, and no two are the same.
pub guess_slugs-AreDistinct :
    (f : Forms) → AreDistinct [] (guess_slugs f) × (length (guess_slugs f) ≤ 5)
unfolding guess_slugs
guess_slugs-AreDistinct f =
    let forms =
      some f.base
      ∷ some f.hyphenated
      ∷ f.stripped_suffix
      ∷ some f.name_with_suffix
      ∷ f.first_word
      ∷ [] in
    let out = distinct-AreDistinct 0 [] (filled forms) (omega arith) (filled-All forms) in
    (out.0, omega (arith, out.1))
