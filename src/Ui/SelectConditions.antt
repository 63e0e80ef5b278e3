-- ===== src/Ui/SelectConditions.antt =====
-- resilient-lib/resilient_lib/ui/conditions.py, SelectFieldCondition: a condition of a select field names
-- a value by its label, which is looked up in the types of the server. `cached_get` is that of the
-- client, and `text_of` is `str` on a value.
use Prim.Native.String.{◌++◌ as ◌⧺◌}
use resilient_python_api.Prelude.{String, List, [], ◌∷◌, if◌then◌else◌}
use resilient_python_api.Value.{Value, Fields, str, dict, dict_of, list_of, eq_value}
use resilient_python_api.Outcome.{
  Result, ok, err, integration_error, get_key, get_default, iterate, ◌>>=◌,
}
use resilient_python_api.Ui.Conditions.{
  Condition, equals, doesnt_equal, contains, doesnt_contain, has_value, doesnt_have_value,
  condition_dto,
}
use resilient_python_api.Ui.Layouts.{and_then}

pub data SelectCondition : Type 0 where
  plain : Condition → SelectCondition
  has_one_of doesnt_have_one_of : List Value → SelectCondition

-- The values that the type has for the field.
abbrev pub values_of_field : String → Value → Result (List Value)
values_of_field name inc_types = get_default inc_types "fields" (dict Fields.end) >>= λ fields.
    get_default fields name (dict Fields.end) >>= λ own.
    get_default own "values" (dict Fields.end) >>= iterate

module _ (text_of : Value → String) where
  unfoldable pub value_with_label : Value → List Value → Result Value
  unfolding eq_value
  value_with_label value [] = err integration_error
  value_with_label value (value_mapping ∷ mappings) =
      let rest = value_with_label value mappings in
      get_key value_mapping "label" >>= λ label.
      if eq_value label value
      then (get_key value_mapping "value" >>= λ id. ok (str (text_of id)))
      else rest

  module _ {W : Type 0} (cached_get : String → W → Result Value × W) where
    -- _get_value_for_select_field
    unfoldable pub get_value_for_select_field : String → Value → W → Result Value × W
    unfolding value_with_label iterate
    get_value_for_select_field name value w =
        and_then (cached_get "/types/incident" w)
          (λ inc_types w'. (values_of_field name inc_types >>= value_with_label value, w'))

    unfoldable pub get_values : String → List Value → W → Result (List Value) × W
    unfolding get_value_for_select_field
    get_values name [] w = (ok [], w)
    get_values name (value ∷ values) w =
        and_then (get_value_for_select_field name value w)
          (λ first w'. and_then (get_values name values w') (λ rest w''. (ok (first ∷ rest), w'')))

    abbrev pub condition_of_values : String → String → List Value → Value
    condition_of_values name condition values = dict_of (
        ("field", str ("incident." ⧺ name))
        ∷ ("condition", str condition)
        ∷ ("value", list_of values)
        ∷ [])

    unfoldable pub select_condition_dto : String → SelectCondition → W → Result Value × W
    unfolding get_values
    select_condition_dto name (plain (equals value)) w =
        and_then (get_value_for_select_field name value w)
          (λ id w'. (ok (condition_dto name (equals id)), w'))
    select_condition_dto name (plain (doesnt_equal value)) w =
        and_then (get_value_for_select_field name value w)
          (λ id w'. (ok (condition_dto name (doesnt_equal id)), w'))
    select_condition_dto name (plain (contains value)) w = (err integration_error, w)
    select_condition_dto name (plain (doesnt_contain value)) w = (err integration_error, w)
    select_condition_dto name (plain has_value) w = (ok (condition_dto name has_value), w)
    select_condition_dto name (plain doesnt_have_value) w =
        (ok (condition_dto name doesnt_have_value), w)
    select_condition_dto name (has_one_of values) w =
        and_then (get_values name values w) (λ ids w'. (ok (condition_of_values name "in" ids), w'))
    select_condition_dto name (doesnt_have_one_of values) w =
        and_then (get_values name values w)
          (λ ids w'. (ok (condition_of_values name "not_in" ids), w'))
