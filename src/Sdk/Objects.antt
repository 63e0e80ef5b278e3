-- ===== src/Sdk/Objects.antt =====
-- resilient-sdk/resilient_sdk/util/sdk_helpers.py, get_obj_from_list and get_res_obj: the objects of an
-- export that are wanted. The objects are named by their positions in the section, since those that are
-- returned are those of the export, which is changed. A wanted entry that is a dict has texts; what
-- replaces it in the caller's list is given by `all_resolved`.
use resilient_python_api.Prelude.{
  ℕ, zero, suc, Assoc, String, Bool, Option, none, some, List, [], ◌∷◌, lookup, insert,
  if◌then◌else◌,
}
use resilient_python_api.Value.{Value, str, dict, eq_value, entries, of_entries}
use resilient_python_api.Outcome.{
  Result, ok, err, attribute_error, type_error, index_error, plain_exception, get_item, get_key,
  ◌>>=◌,
}
use resilient_python_api.Sdk.Hierarchy.{to_set}
use resilient_python_api.Sdk.Minify.{stripped}

pub data Wanted : Type 0 where
  named : String → Wanted
  referenced : (identifier value : String) → Wanted

module _ (identifier : String) (condition : Value → Result Bool) where
  -- The object's name, where it meets the condition, with its position.
  abbrev pub entered : ℕ → Value → Assoc ℕ → Result (Assoc ℕ)
  entered i o found = condition o >>= λ meets.
      if meets
      then (get_item o identifier >>= stripped >>= λ name. ok (insert name i found))
      else ok found

  unfoldable pub get_obj_from_list : ℕ → List Value → Assoc ℕ → Result (Assoc ℕ)
  unfolding insert
  get_obj_from_list i [] found = ok found
  get_obj_from_list i (o ∷ os) found = entered i o found >>= get_obj_from_list (suc i) os

unfoldable pub object_at : ℕ → List Value → Option Value
object_at i [] = none
object_at zero (o ∷ os) = some o
object_at (suc i) (o ∷ os) = object_at i os

-- obj["x_api_name"] = obj[obj_identifer]
abbrev pub with_api_name : String → Value → Result Value
with_api_name identifier (dict fs) = get_item (dict fs) identifier >>= λ name.
    ok (dict (of_entries (insert "x_api_name" name (entries fs))))
with_api_name identifier _ = err type_error

unfoldable pub mark_at : String → ℕ → List Value → Result (List Value)
unfolding insert
mark_at identifier i [] = err index_error
mark_at identifier zero (o ∷ os) = with_api_name identifier o >>= λ marked. ok (marked ∷ os)
mark_at identifier (suc i) (o ∷ os) = mark_at identifier i os >>= λ marked. ok (o ∷ marked)

-- What the code has in place of a wanted entry: for a dict, the object's identifier.
abbrev pub of_object : String → Option Value → Result Value
of_object identifier none = err attribute_error
of_object identifier (some o) = get_key o identifier

abbrev pub has_value_at : String → String → Value → Result Bool
has_value_at identifier value o = get_key o identifier >>= λ held. ok (eq_value held (str value))

abbrev pub at_name : String → Assoc ℕ → List Value → Option Value
at_name name found objects = elim (lookup name found) [ none ↦ none | some i ↦ object_at i objects ]

unfoldable pub resolved_entry : String → List Value → Wanted → Result Value
unfolding get_obj_from_list lookup eq_value object_at
resolved_entry identifier objects (named name) = ok (str name)
resolved_entry identifier objects (referenced other value) =
    get_obj_from_list other (has_value_at other value) zero objects [] >>= λ found.
    of_object identifier (at_name value found objects)

unfoldable pub all_resolved : String → List Value → List Wanted → Result (List Value)
unfolding resolved_entry
all_resolved identifier objects [] = ok []
all_resolved identifier objects (wanted ∷ wanted_list) = do
  first ← resolved_entry identifier objects wanted
  rest ← all_resolved identifier objects wanted_list
  ok (first ∷ rest)

module _ (obj_identifer : String) (include_api_name : Bool) where
  abbrev pub marked : ℕ → List Value → Result (List Value)
  marked i objects = if include_api_name then mark_at obj_identifer i objects else ok objects

  abbrev pub position_of : Assoc ℕ → Value → Result ℕ
  position_of ex_obj o = stripped o >>= λ stripped_o. elim (lookup stripped_o ex_obj) [
    | none ↦ err (plain_exception "not found in this export")
    | some i ↦ ok i
  ]

  abbrev pub taken : Assoc ℕ → Value → List Value → Result (ℕ × List Value)
  taken ex_obj o objects =
      position_of ex_obj o >>= λ i. marked i objects >>= λ objects'. ok (i, objects')

  -- The positions of the objects, with the section as it then is.
  unfoldable pub collect : Assoc ℕ → List Value → List Value → Result (List ℕ) × List Value
  unfolding lookup mark_at
  collect ex_obj [] objects = (ok [], objects)
  collect ex_obj (o ∷ names) objects = elim (taken ex_obj o objects) [
    | err e ↦ (err e, objects)
    | ok found ↦
        let rest = collect ex_obj names found.1 in (rest.0 >>= λ is. ok (found.0 ∷ is), rest.1)
  ]

  abbrev pub collect_found :
      List Value → Result (List Value × Assoc ℕ) → Result (List ℕ) × List Value
  collect_found objects (err e) = (err e, objects)
  collect_found objects (ok (names, ex_obj)) = collect ex_obj names objects

  -- Nothing is read where nothing is wanted.
  unfoldable pub get_res_obj :
      (Value → Result Bool) → List Value → List Wanted → Result (List ℕ) × List Value
  unfolding get_obj_from_list all_resolved collect to_set
  get_res_obj condition objects [] = (ok [], objects)
  get_res_obj condition objects (wanted ∷ wanted_list) = collect_found objects (
      all_resolved obj_identifer objects (wanted ∷ wanted_list) >>= λ values.
      get_obj_from_list obj_identifer condition zero objects [] >>= λ ex_obj.
      to_set values >>= λ names. ok (names, ex_obj))
