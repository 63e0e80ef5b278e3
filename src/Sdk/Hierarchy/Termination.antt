-- ===== src/Sdk/Hierarchy/Termination.antt =====
-- How deep `find_parent_child_types` calls itself.
use resilient_python_api.Prelude.{
  ℕ, zero, suc, ◌<◌, ◌≤◌, String, true, none, some, List, [], ◌∷◌, ◌≡◌, ◌≢◌, arith, Bool-cases, inl,
  inr, if◌then◌else◌, refl,
}
use resilient_python_api.Value.{
  Value, null, bool, int, str, list, dict, truthy, eq_value, get_field_or,
}
use resilient_python_api.Outcome.{Result, ok, err, iterate}
use resilient_python_api.Sdk.Hierarchy.{
  Found, extended, parents_of_item, parents_of_items, all_parents_in, parents_of_names, set_of,
  find_parent_child_types,
}

-- An item's parent is below each name that the item has.
abbrev pub IsBelow : (Value → ℕ) → String → Value → Type 0
IsBelow rank attribute_name (dict fs) =
    (name : Value)
    → eq_value (get_field_or attribute_name null fs) name ≡ true
    → truthy (get_field_or "parent_id" null fs) ≡ true
    → rank (get_field_or "parent_id" null fs) < rank name
IsBelow rank attribute_name _ = Unit {0}

abbrev pub AreBelow : (Value → ℕ) → String → List Value → Type 0
AreBelow rank attribute_name [] = Unit {0}
AreBelow rank attribute_name (item ∷ items) =
    IsBelow rank attribute_name item × AreBelow rank attribute_name items

abbrev pub IsRanked : (Value → ℕ) → String → Result (List Value) → Type 0
IsRanked rank attribute_name (err e) = Unit {0}
IsRanked rank attribute_name (ok items) = AreBelow rank attribute_name items

abbrev pub AllBelow : (Value → ℕ) → ℕ → List Value → Type 0
AllBelow rank bound [] = Unit {0}
AllBelow rank bound (name ∷ names) = (rank name < bound) × AllBelow rank bound names

extended-ends : (a b : Found) → a ≢ none → b ≢ none → extended a b ≢ none
extended-ends none b p q = absurd (p refl)
extended-ends (some (err e)) b p q = ground arith
extended-ends (some (ok xs)) none p q = absurd (q refl)
extended-ends (some (ok xs)) (some (err e)) p q = ground arith
extended-ends (some (ok xs)) (some (ok ys)) p q = ground arith

set_of-ends : (a : Found) → a ≢ none → set_of a ≢ none
set_of-ends none p = absurd (p refl)
set_of-ends (some (err e)) p = ground arith
set_of-ends (some (ok xs)) p = ground arith

module _ (rank : Value → ℕ) (attribute_name : String) (of_parent : Value → Found) (bound : ℕ)
    (ends : (parent_id : Value) → rank parent_id < bound → of_parent parent_id ≢ none) where
  item-ends :
      (name item : Value)
      → rank name ≤ bound
      → IsBelow rank attribute_name item
      → parents_of_item of_parent attribute_name name item ≢ none
  unfolding parents_of_item
  item-ends name (dict fs) r below =
      elim (Bool-cases (eq_value (get_field_or attribute_name null fs) name)) [
        | inl e ↦ elim (Bool-cases (truthy (get_field_or "parent_id" null fs))) [
          | inl t ↦
              rw (e, t) (ends (get_field_or "parent_id" null fs) (omega (arith, below name e t)))
          | inr f ↦ rw (e, f) (λ q. cc)
        ]
        | inr e ↦ rw e (λ q. cc)
      ]
  item-ends name null r below = λ q. cc
  item-ends name (bool b) r below = λ q. cc
  item-ends name (int n) r below = λ q. cc
  item-ends name (str s) r below = λ q. cc
  item-ends name (list xs) r below = λ q. cc

  items-end :
      (name : Value) (items : List Value)
      → rank name ≤ bound
      → AreBelow rank attribute_name items
      → parents_of_items of_parent attribute_name name items ≢ none
  unfolding parents_of_items
  items-end name [] r below = λ q. cc
  items-end name (item ∷ items) r below =
      extended-ends _ _ (item-ends name item r below.0) (items-end name items r below.1)

  section-ends :
      (name : Value) (items : Result (List Value))
      → rank name ≤ bound
      → IsRanked rank attribute_name items
      → all_parents_in of_parent attribute_name name items ≢ none
  section-ends name (err e) r below = λ q. cc
  section-ends name (ok items) r below = items-end name items r below

  names-end :
      (section : Value) (names : List Value)
      → AllBelow rank (suc bound) names
      → IsRanked rank attribute_name (iterate section)
      → parents_of_names of_parent attribute_name section names ≢ none
  unfolding parents_of_names
  names-end section [] r below = λ q. cc
  names-end section (name ∷ names) r below =
      extended-ends _ _ (section-ends name (iterate section) (omega (arith, r.0)) below)
        (names-end section names r.1 below)

  call-ends :
      (section : Value) (names : List Value)
      → AllBelow rank (suc bound) names
      → IsRanked rank attribute_name (iterate section)
      → set_of (
          if truthy section
          then extended (some (ok names)) (parents_of_names of_parent attribute_name section names)
          else some (ok names))
        ≢ none
  call-ends section names r below = elim (Bool-cases (truthy section)) [
    | inl t ↦ rw t (
        set_of-ends _
          (extended-ends (some (ok names)) _ (λ q. cc) (names-end section names r below)))
    | inr f ↦ rw f (set_of-ends (some (ok names)) (λ q. cc))
  ]

-- Where the parents of the objects stand in no cycle, so that each has a rank below that of its child,
-- `find_parent_child_types` returns or raises: fuel above the ranks of the given names is enough.
pub find_parent_child_types-ends :
    (rank : Value → ℕ) (section : Value) (attribute_name : String) (fuel : ℕ)
    (name_list : List Value)
    → IsRanked rank attribute_name (iterate section)
    → AllBelow rank (suc fuel) name_list
    → find_parent_child_types (suc fuel) section attribute_name name_list ≢ none
unfolding find_parent_child_types
find_parent_child_types-ends rank section attribute_name zero name_list ranked below =
    call-ends rank attribute_name
      (λ p. find_parent_child_types zero section attribute_name (p ∷ [])) zero
      (λ p lt. absurd (omega arith)) section name_list below ranked
find_parent_child_types-ends rank section attribute_name (suc fuel) name_list ranked below =
    call-ends rank attribute_name
      (λ p. find_parent_child_types (suc fuel) section attribute_name (p ∷ [])) (suc fuel)
      (λ p lt.
        find_parent_child_types-ends rank section attribute_name fuel (p ∷ []) ranked (lt, tt))
      section name_list below ranked
