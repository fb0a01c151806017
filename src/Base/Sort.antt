-- ===== src/Base/Sort.antt =====
-- The stable sort of a list by a Boolean order: `sorted` and `ORDER BY`.
use mathlib.Core.Path.{◌≡◌}
use mathlib.Core.Bool.{Bool, true, false}
use mathlib.Core.Logic.{inl, inr}
use mathlib.Core.List.{List, [], ◌∷◌, Perm}
use mathlib.Core.List.Perm
use huntloop.Base.Tests.{if◌then◌else◌, Bool-cases}
use huntloop.Base.Lists.{All, All-map, All-select, select}

-- Every element is related to each of those behind it.
abbrev pub IsSorted {ℓ κ} : {A : Type ℓ} → (A → A → Type κ) → List A → Type (ℓ ⊔ κ)
IsSorted R [] = Unit
IsSorted R (x ∷ xs) = All (R x) xs × IsSorted R xs

module _ {ℓ} {A : Type ℓ} (le : A → A → Bool) where
  -- Before the first element that is not less, so that equal elements keep their order.
  abbrev insert : A → List A → List A
  insert x [] = x ∷ []
  insert x (y ∷ ys) = let rest = insert x ys in if le x y then x ∷ y ∷ ys else y ∷ rest

  abbrev pub sort : List A → List A
  sort [] = []
  sort (x ∷ xs) = insert x (sort xs)

  insert-Perm : (x : A) (xs : List A) → Perm (insert x xs) (x ∷ xs)
  insert-Perm x [] = Perm.refl (x ∷ [])
  insert-Perm x (y ∷ ys) = elim (Bool-cases (le x y)) [
    | inl e ↦ rw e (Perm.refl (x ∷ y ∷ ys))
    | inr e ↦ rw e (Perm.trans (Perm.cons y (insert-Perm x ys)) (Perm.swap x y ys))
  ]

  pub sort-Perm : (xs : List A) → Perm (sort xs) xs
  sort-Perm [] = Perm.refl []
  sort-Perm (x ∷ xs) = Perm.trans (insert-Perm x (sort xs)) (Perm.cons x (sort-Perm xs))

  insert-All {κ} : (P : A → Type κ) (x : A) (xs : List A) → P x → All P xs → All P (insert x xs)
  insert-All P x [] hx h = (hx, tt)
  insert-All P x (y ∷ ys) hx h = elim (Bool-cases (le x y)) [
    | inl e ↦ rw e (hx, h)
    | inr e ↦ rw e (h.0, insert-All P x ys hx h.1)
  ]

  pub sort-All {κ} : (P : A → Type κ) (xs : List A) → All P xs → All P (sort xs)
  sort-All P [] h = tt
  sort-All P (x ∷ xs) h = insert-All P x (sort xs) h.0 (sort-All P xs h.1)

  All-insert {κ} : (P : A → Type κ) (x : A) (xs : List A) → All P (insert x xs) → P x × All P xs
  All-insert P x [] h = h
  All-insert P x (y ∷ ys) h = elim (Bool-cases (le x y)) [
    | inl e ↦ rw e at h
    | inr e ↦
        let split = rw e at h in let tail = All-insert P x ys split.1 in (tail.0, (split.0, tail.1))
  ]

  pub All-sort {κ} : (P : A → Type κ) (xs : List A) → All P (sort xs) → All P xs
  All-sort P [] h = tt
  All-sort P (x ∷ xs) h = let split = All-insert P x (sort xs) h in (split.0, All-sort P xs split.1)

  -- Sorted by any transitive relation that the test decides one way or the other.
  module _ {κ} (R : A → A → Type κ) (le-R : (x y : A) → le x y ≡ true → R x y)
      (gt-R : (x y : A) → le x y ≡ false → R y x)
      (R_trans : (x y z : A) → R x y → R y z → R x z) where
    insert-IsSorted : (x : A) (xs : List A) → IsSorted R xs → IsSorted R (insert x xs)
    insert-IsSorted x [] h = (tt, tt)
    insert-IsSorted x (y ∷ ys) h = elim (Bool-cases (le x y)) [
      | inl e ↦ rw e ((le-R x y e, All-map _ _ ys (λ z k. R_trans x y z (le-R x y e) k) h.0), h)
      | inr e ↦ rw e (insert-All _ x ys (gt-R x y e) h.0, insert-IsSorted x ys h.1)
    ]

    pub sort-IsSorted : (xs : List A) → IsSorted R (sort xs)
    sort-IsSorted [] = tt
    sort-IsSorted (x ∷ xs) = insert-IsSorted x (sort xs) (sort-IsSorted xs)

  -- A symmetric relation of all pairs does not depend on the order.
  module _ {κ} (R : A → A → Type κ) (R_sym : (x y : A) → R x y → R y x) where
    insert-pairs : (x : A) (xs : List A) → IsSorted R (x ∷ xs) → IsSorted R (insert x xs)
    insert-pairs x [] h = h
    insert-pairs x (y ∷ ys) h = elim (Bool-cases (le x y)) [
      | inl e ↦ rw e h
      | inr e ↦
          rw e (insert-All (R y) x ys (R_sym x y h.0.0) h.1.0, insert-pairs x ys (h.0.1, h.1.1))
    ]

    pub sort-pairs : (xs : List A) → IsSorted R xs → IsSorted R (sort xs)
    sort-pairs [] h = tt
    sort-pairs (x ∷ xs) h = insert-pairs x (sort xs) (sort-All (R x) xs h.0, sort-pairs xs h.1)

pub select-pairs {ℓ κ} :
    {A : Type ℓ} (R : A → A → Type κ) (p : A → Bool) (xs : List A)
    → IsSorted R xs
    → IsSorted R (select p xs)
select-pairs R p [] h = tt
select-pairs R p (x ∷ xs) h = elim (Bool-cases (p x)) [
  | inl e ↦ rw e (All-select (R x) p xs h.0, select-pairs R p xs h.1)
  | inr e ↦ rw e (select-pairs R p xs h.1)
]
