-- ===== src/Criteria/Leaf/Laws.antt =====
-- An assignment changes the one leaf and no other.
use huntloop.Base.{
  String, ◌≡◌, refl, Bool, true, false, Option, none, some, List, [], ◌∷◌, str_eq, eq_iff, eq_refl,
  arith, Bool-cases, Option-cases, inl, inr,
}
use huntloop.Criteria.Leaf.{
  Json, leaf, dict, Items, no_items, item, get_item, set_item, put_back, set_leaf,
}

module _ {V : Type 0} where
  -- What stands at a path.
  unfoldable pub get_path : List String → Json V → Option (Json V)
  unfolding get_item
  get_path [] json = some json
  get_path (key ∷ rest) (leaf v) = none
  get_path (key ∷ rest) (dict items) = elim (get_item key items) [
    | none ↦ none
    | some child ↦ get_path rest child
  ]

  get_item-set_item :
      (key : String) (value : Json V) (items : Items V)
      → get_item key (set_item key value items) ≡ some value
  unfolding get_item set_item
  get_item-set_item key value no_items = rw (get_item, eq_refl key) refl
  get_item-set_item key value (item k v rest) = ground (arith, get_item-set_item key value rest)

  get_item-set_item_other :
      (key other : String) (value : Json V) (items : Items V)
      → str_eq key other ≡ false
      → get_item other (set_item key value items) ≡ get_item other items
  unfolding get_item set_item
  get_item-set_item_other key other value no_items h = rw (get_item, h) refl
  get_item-set_item_other key other value (item k v rest) h =
      ground (arith, h, eq_iff k key, get_item-set_item_other key other value rest h)

-- Neither path leads through the other.
abbrev pub are_apart : List String → List String → Bool
are_apart [] other = false
are_apart (p ∷ ps) [] = false
are_apart (p ∷ ps) (q ∷ qs) =
    let later = are_apart ps qs in elim (str_eq p q) [ true ↦ later | false ↦ true ]

module _ {V : Type 0} where
  -- After an assignment the leaf is the value, and whatever is read beside it is as before.
  abbrev pub IsAssigned : List String → Json V → Json V → Json V → Type 0
  IsAssigned path value before after =
      (get_path path after ≡ some value)
      × ((other : List String)
          → are_apart path other ≡ true
          → get_path other after ≡ get_path other before)

  abbrev Assigned : List String → Json V → Json V → Option (Json V) → Type 0
  Assigned path value before none = Unit
  Assigned path value before (some after) = IsAssigned path value before after

  here-Assigned :
      (key : String) (value : Json V) (items : Items V)
      → IsAssigned (key ∷ []) value (dict items) (dict (set_item key value items))
  unfolding get_path
  here-Assigned key value items = (rw (get_path, get_item-set_item key value items) refl, beside)
    where
      beside :
          (other : List String)
          → are_apart (key ∷ []) other ≡ true
          → get_path other (dict (set_item key value items)) ≡ get_path other (dict items)
      beside [] h = absurd (cc)
      beside (q ∷ qs) h = elim (Bool-cases (str_eq key q)) [
        | inl e ↦ absurd (let h' = rw (are_apart, e) at h in cc)
        | inr e ↦ rw (get_path, get_item-set_item_other key q value items e) refl
      ]

  below-Assigned :
      (key next : String) (rest : List String) (value child : Json V) (items : Items V)
      (new : Option (Json V))
      → get_item key items ≡ some child
      → Assigned (next ∷ rest) value child new
      → Assigned (key ∷ next ∷ rest) value (dict items) (put_back key items new)
  unfolding get_path
  below-Assigned key next rest value child items none found h = tt
  below-Assigned key next rest value child items (some new) found h =
      (rw (get_path, get_item-set_item key new items) h.0, beside)
    where
      beside :
          (other : List String)
          → are_apart (key ∷ next ∷ rest) other ≡ true
          → get_path other (dict (set_item key new items)) ≡ get_path other (dict items)
      beside [] k = absurd (cc)
      beside (q ∷ qs) k = elim (Bool-cases (str_eq key q)) [
        | inl e ↦
            let same : key ≡ q = (eq_iff key q).0 e in
            let deeper : are_apart (next ∷ rest) qs ≡ true = rw (are_apart, e) at k in
            rw (← same) (rw (get_path, get_item-set_item key new items, found) (h.1 qs deeper))
        | inr e ↦ rw (get_path, get_item-set_item_other key q new items e) refl
      ]

  pub set_leaf-Assigned :
      (path : List String) (value json : Json V)
      → Assigned path value json (set_leaf path value json)
  unfolding set_leaf
  set_leaf-Assigned [] value json = tt
  set_leaf-Assigned (key ∷ rest) value (leaf v) = tt
  set_leaf-Assigned (key ∷ []) value (dict items) = here-Assigned key value items
  set_leaf-Assigned (key ∷ next ∷ rest) value (dict items) =
      elim (Option-cases (get_item key items)) [
        | inl e ↦ rw (Assigned, e) tt
        | inr (child, e) ↦
            rw (Assigned, e)
              (below-Assigned key next rest value child items _ e
                (set_leaf-Assigned (next ∷ rest) value child))
      ]
