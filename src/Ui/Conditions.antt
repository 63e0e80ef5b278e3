-- ===== src/Ui/Conditions.antt =====
-- resilient-lib/resilient_lib/ui/conditions.py: the conditions of a field, for the show_if of a tab or a
-- section.
use Prim.Native.String.{◌++◌ as ◌⧺◌}
use resilient_python_api.Prelude.{String, [], ◌∷◌}
use resilient_python_api.Value.{Value, str, dict_of}

pub data Condition : Type 0 where
  equals doesnt_equal contains doesnt_contain : Value → Condition
  has_value doesnt_have_value : Condition

abbrev pub condition_dto : String → Condition → Value
condition_dto name (equals v) =
    dict_of (("field", str ("incident." ⧺ name)) ∷ ("condition", str "equals") ∷ ("value", v) ∷ [])
condition_dto name (doesnt_equal v) =
    dict_of
      (("field", str ("incident." ⧺ name)) ∷ ("condition", str "not_equals") ∷ ("value", v) ∷ [])
condition_dto name (contains v) =
    dict_of
      (("field", str ("incident." ⧺ name)) ∷ ("condition", str "contains") ∷ ("value", v) ∷ [])
condition_dto name (doesnt_contain v) =
    dict_of
      (("field", str ("incident." ⧺ name)) ∷ ("condition", str "not_contains") ∷ ("value", v) ∷ [])
condition_dto name has_value =
    dict_of (("field", str ("incident." ⧺ name)) ∷ ("condition", str "has_a_value") ∷ [])
condition_dto name doesnt_have_value =
    dict_of (("field", str ("incident." ⧺ name)) ∷ ("condition", str "not_has_a_value") ∷ [])
