-- ===== src/Sdk/Hierarchy.antt =====
-- resilient-sdk/resilient_sdk/util/sdk_helpers.py, find_parent_child_types: the names of objects with
-- those of their parents, of the parents' parents, and so on. It calls itself for each parent, on fuel
-- here. Names are values, since a parent's id is whatever the export has.
pub mod Termination
use resilient_python_api.Prelude.{
  ℕ, zero, suc, String, Bool, true, false, Option, none, some, List, [], ◌∷◌, ◌++◌, if◌then◌else◌,
}
use resilient_python_api.Value.{Value, Fields, list, dict, truthy, eq_value, get_field_or, null}
use resilient_python_api.Outcome.{Result, ok, err, type_error, attribute_error, any_eq, iterate}

-- `none` where the fuel ran out.
abbrev pub Found : Type 0
Found = Option (Result (List Value))

-- What one step found, and then the next, unless the first raised.
abbrev pub extended : Found → Found → Found
extended none later = none
extended (some (err e)) later = some (err e)
extended (some (ok names)) none = none
extended (some (ok names)) (some (err e)) = some (err e)
extended (some (ok names)) (some (ok more)) = some (ok (names ++ more))

module _ (of_parent : Value → Found) (attribute_name : String) (name : Value) where
  abbrev pub parents_of_id : Value → Found
  parents_of_id parent_id = if truthy parent_id then of_parent parent_id else some (ok [])

  -- One item of the section, a dict.
  abbrev pub parents_of_named : Fields → Found
  parents_of_named fs =
      if eq_value (get_field_or attribute_name null fs) name
      then parents_of_id (get_field_or "parent_id" null fs)
      else some (ok [])

  unfoldable pub parents_of_item : Value → Found
  parents_of_item (dict fs) = parents_of_named fs
  parents_of_item _ = some (err attribute_error)

  unfoldable pub parents_of_items : List Value → Found
  unfolding parents_of_item
  parents_of_items [] = some (ok [])
  parents_of_items (item ∷ items) = extended (parents_of_item item) (parents_of_items items)

abbrev pub all_parents_in : (Value → Found) → String → Value → Result (List Value) → Found
all_parents_in of_parent attribute_name name (err e) = some (err e)
all_parents_in of_parent attribute_name name (ok items) =
    parents_of_items of_parent attribute_name name items

unfoldable pub parents_of_names : (Value → Found) → String → Value → List Value → Found
unfolding parents_of_items iterate
parents_of_names of_parent attribute_name section [] = some (ok [])
parents_of_names of_parent attribute_name section (name ∷ names) =
    extended (all_parents_in of_parent attribute_name name (iterate section))
      (parents_of_names of_parent attribute_name section names)

abbrev is_hashable : Value → Bool
is_hashable (list xs) = false
is_hashable (dict fs) = false
is_hashable _ = true

abbrev with_name : Value → Result (List Value) → Result (List Value)
with_name name (err e) = err e
with_name name (ok names) = ok (if any_eq name names then names else name ∷ names)

-- list(set(names)), in the order of the last occurrences; that of Python is arbitrary.
unfoldable pub to_set : List Value → Result (List Value)
to_set [] = ok []
to_set (name ∷ names) =
    let rest = with_name name (to_set names) in if is_hashable name then rest else err type_error

abbrev pub set_of : Found → Found
set_of none = none
set_of (some (err e)) = some (err e)
set_of (some (ok names)) = some (to_set names)

unfoldable pub find_parent_child_types : ℕ → Value → String → List Value → Found
unfolding parents_of_names to_set
find_parent_child_types zero section attribute_name name_list = none
find_parent_child_types (suc fuel) section attribute_name name_list = set_of (
    if truthy section
    then extended (some (ok name_list)) (
        parents_of_names
          (λ parent_id. find_parent_child_types fuel section attribute_name (parent_id ∷ []))
          attribute_name section name_list)
    else some (ok name_list))
