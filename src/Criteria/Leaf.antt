-- ===== src/Criteria/Leaf.antt =====
-- src/huntloop/loop/apply.py, `_set_leaf`: the dump of a payload to JSON, and the assignment of the one leaf.
pub mod Laws
use huntloop.Base.{String, Bool, true, false, Option, none, some, List, [], ◌∷◌, str_eq}

-- A dict holds its items in order; everything else is a value of `V`.
mutual
  pub data Json (V : Type 0) : Type 0 where
    leaf : V → Json V
    dict : Items V → Json V

  pub data Items (V : Type 0) : Type 0 where
    no_items : Items V
    item : String → Json V → Items V → Items V

-- `field.split(".")`, of a field that may be edited.
abbrev pub parts_of : String → List String
parts_of field = elim (str_eq field "exclusions.title_keywords") [
  | true ↦ "exclusions" ∷ "title_keywords" ∷ []
  | false ↦ elim (str_eq field "exclusions.employers") [
    | true ↦ "exclusions" ∷ "employers" ∷ []
    | false ↦ field ∷ []
  ]
]

module _ {V : Type 0} where
  unfoldable pub get_item : String → Items V → Option (Json V)
  get_item key no_items = none
  get_item key (item k v rest) = elim (str_eq k key) [ true ↦ some v | false ↦ get_item key rest ]

  -- `target[key] = value`
  unfoldable pub set_item : String → Json V → Items V → Items V
  set_item key value no_items = item key value no_items
  set_item key value (item k v rest) = elim (str_eq k key) [
    | true ↦ item k value rest
    | false ↦ item k v (set_item key value rest)
  ]

  abbrev pub put_back : String → Items V → Option (Json V) → Option (Json V)
  put_back key items none = none
  put_back key items (some child) = some (dict (set_item key child items))

  -- `none` where KeyError or TypeError is raised. A split is never empty.
  unfoldable pub set_leaf : List String → Json V → Json V → Option (Json V)
  unfolding get_item set_item
  set_leaf [] value json = none
  set_leaf (key ∷ rest) value (leaf v) = none
  set_leaf (key ∷ []) value (dict items) = some (dict (set_item key value items))
  set_leaf (key ∷ next ∷ rest) value (dict items) = elim (get_item key items) [
    | none ↦ none
    | some child ↦ put_back key items (set_leaf (next ∷ rest) value child)
  ]
