-- ===== src/Discovery/Fetched.antt =====
-- Of the listings of one fetch, the first of each key.
use huntloop.Base.{
  ◌+◌, ◌≤◌, ◌≡◌, refl, sym, subst, String, Bool, true, false, ◌||◌, Option, none, some, List, [],
  ◌∷◌, str_eq, contains, any, length, All, All-map, arith, Bool-cases, Option-cases, inl, inr,
  eq_iff, eq_refl,
}
use huntloop.Base.Sort.{IsSorted}
use huntloop.Discovery.{first_of_each, unkeyed, dedupe_within_batch}

or_true : (b : Bool) {c : Bool} → c ≡ true → (b || c) ≡ true
or_true true h = refl
or_true false h = h

module _ {A : Type 0} (key_of : A → Option String) where
  abbrev has_key : String → A → Bool
  has_key key l = elim (key_of l) [ none ↦ false | some k ↦ str_eq k key ]

  abbrev IsNew : List String → A → Type 0
  IsNew seen l = (key : String) × (key_of l ≡ some key) × (contains seen key ≡ false)

  abbrev pub DifferentKey : A → A → Type 0
  DifferentKey a b = (key : String) × (key_of a ≡ some key) × (has_key key b ≡ false)

  IsNew-tail : (key : String) (seen : List String) (l : A) → IsNew (key ∷ seen) l → IsNew seen l
  IsNew-tail key seen l (k, e, h) = (k, e, ground (arith, h))

  new_differs :
      (key : String) (seen : List String) (a b : A)
      → key_of a ≡ some key
      → IsNew (key ∷ seen) b
      → DifferentKey a b
  new_differs key seen a b e (k, f, h) =
      (key, e, rw (has_key, f) (ground (arith, h, eq_iff k key, eq_iff key k)))

  first_of_each-IsNew :
      (seen : List String) (l : List A) → All (IsNew seen) (first_of_each key_of seen l)
  unfolding first_of_each
  first_of_each-IsNew seen [] = tt
  first_of_each-IsNew seen (x ∷ rest) = elim (Option-cases (key_of x)) [
    | inl e ↦ rw (first_of_each, e) (first_of_each-IsNew seen rest)
    | inr (key, e) ↦ elim (Bool-cases (contains seen key)) [
      | inl known ↦ rw (first_of_each, e, known) (first_of_each-IsNew seen rest)
      | inr fresh ↦
          rw (first_of_each, e, fresh)
            (
              (key, e, fresh),
              All-map _ _ _ (IsNew-tail key seen) (first_of_each-IsNew (key ∷ seen) rest),
            )
    ]
  ]

  first_of_each-DifferentKey :
      (seen : List String) (l : List A) → IsSorted DifferentKey (first_of_each key_of seen l)
  unfolding first_of_each
  first_of_each-DifferentKey seen [] = tt
  first_of_each-DifferentKey seen (x ∷ rest) = elim (Option-cases (key_of x)) [
    | inl e ↦ rw (first_of_each, e) (first_of_each-DifferentKey seen rest)
    | inr (key, e) ↦ elim (Bool-cases (contains seen key)) [
      | inl known ↦ rw (first_of_each, e, known) (first_of_each-DifferentKey seen rest)
      | inr fresh ↦
          rw (first_of_each, e, fresh)
            (
              All-map _ _ _ (λ b. new_differs key seen x b e)
                  (first_of_each-IsNew (key ∷ seen) rest),
              first_of_each-DifferentKey (key ∷ seen) rest,
            )
    ]
  ]

  -- The key of a listing, if it has one, is among the seen ones or those kept.
  abbrev Covered : List String → List A → A → Type 0
  Covered seen kept l =
      (key : String) → key_of l ≡ some key → (contains seen key || any (has_key key) kept) ≡ true

  covers_own :
      (seen : List String) (kept : List A) (x : A) (k : String)
      → key_of x ≡ some k
      → (contains seen k || any (has_key k) (x ∷ kept)) ≡ true
  covers_own seen kept x k e = or_true (contains seen k) (rw (has_key, e, eq_refl k) refl)

  covers_more :
      (seen : List String) (kept : List A) (x : A) (key k : String)
      → key_of x ≡ some key
      → (contains (key ∷ seen) k || any (has_key k) kept) ≡ true
      → (contains seen k || any (has_key k) (x ∷ kept)) ≡ true
  covers_more seen kept x key k e h = elim (Bool-cases (str_eq key k)) [
    | inl same ↦ or_true (contains seen k) (rw (has_key, e, same) refl)
    | inr other ↦ let h' = rw other at h in ground (arith, h')
  ]

  first_of_each-Covered :
      (seen : List String) (l : List A) → All (Covered seen (first_of_each key_of seen l)) l
  unfolding first_of_each
  first_of_each-Covered seen [] = tt
  first_of_each-Covered seen (x ∷ rest) = elim (Option-cases (key_of x)) [
    | inl e ↦
        subst (λ kept. All (Covered seen kept) (x ∷ rest)) (sym (rw (first_of_each, e) refl))
          ((λ k f. absurd (let f' = rw e at f in cc)), first_of_each-Covered seen rest)
    | inr (key, e) ↦ elim (Bool-cases (contains seen key)) [
      | inl known ↦
          subst (λ kept. All (Covered seen kept) (x ∷ rest))
            (sym (rw (first_of_each, e, known) refl))
            (
              (λ k f.
                  let f' = rw e at f in
                  let same : key ≡ k = cc in
                  let here : contains seen k ≡ true =
                    subst (λ n. contains seen n ≡ true) same known in
                  rw here refl),
              first_of_each-Covered seen rest,
            )
      | inr fresh ↦
          let kept = first_of_each key_of (key ∷ seen) rest in
          let unfolded : first_of_each key_of seen (x ∷ rest) ≡ x ∷ kept =
            rw (first_of_each, e, fresh) refl in
          subst (λ out. All (Covered seen out) (x ∷ rest)) (sym unfolded)
            (
              (λ k f.
                  let f' = rw e at f in
                  let same : key ≡ k = cc in
                  covers_own seen kept x k (subst (λ n. key_of x ≡ some n) same e)),
              All-map _ _ rest (λ l h k f. covers_more seen kept x key k e (h k f))
                  (first_of_each-Covered (key ∷ seen) rest),
            )
    ]
  ]

  unkeyed-length :
      (seen : List String) (l : List A)
      → length (first_of_each key_of seen l) + unkeyed key_of l ≤ length l
  unfolding first_of_each unkeyed
  unkeyed-length seen [] = omega arith
  unkeyed-length seen (x ∷ rest) = elim (Option-cases (key_of x)) [
    | inl e ↦ rw (first_of_each, unkeyed, e) (omega (arith, unkeyed-length seen rest))
    | inr (key, e) ↦ elim (Bool-cases (contains seen key)) [
      | inl known ↦ rw (first_of_each, unkeyed, e, known) (omega (arith, unkeyed-length seen rest))
      | inr fresh ↦
          rw (first_of_each, unkeyed, e, fresh) (omega (arith, unkeyed-length (key ∷ seen) rest))
    ]
  ]

  -- Of the listings of a fetch, no two that are kept have the same key, none that has a key is lost, as one with
  -- its key is kept, and those without a key are counted.
  pub dedupe_within_batch-DifferentKey :
      (l : List A)
      → IsSorted DifferentKey (dedupe_within_batch key_of l).0
        × All (Covered [] (dedupe_within_batch key_of l).0) l
        × (length (dedupe_within_batch key_of l).0 + (dedupe_within_batch key_of l).1 ≤ length l)
  unfolding dedupe_within_batch
  dedupe_within_batch-DifferentKey l =
      (first_of_each-DifferentKey [] l, first_of_each-Covered [] l, unkeyed-length [] l)
