-- ===== src/Examples/InputRuns.antt =====
-- Runs of the validation of function inputs.
use resilient_python_api.Value.{eq_value}
use resilient_python_api.Prelude.{lookup, [], ◌∷◌, ◌≡◌, map}
use resilient_python_api.Value.{str, dict_of, list_of, of_entries}
use resilient_python_api.Outcome.{err, value_error}
use resilient_python_api.FunctionInputs.{validate_fields, placeholder_err_msg}
use resilient_python_api.FunctionInputs.Validation.{
  plain, with_placeholder, field_of, validate_fields_lem,
}

validate_fields_lem_example :
    validate_fields
      (list_of (map field_of (plain "host" ∷ with_placeholder "key" (str "<key>") ∷ [])))
      (dict_of (("host", str "h") ∷ ("key", str "<key>") ∷ []))
    ≡ err (value_error placeholder_err_msg)
unfolding lookup eq_value
validate_fields_lem_example =
    validate_fields_lem (of_entries (("host", str "h") ∷ ("key", str "<key>") ∷ []))
      (plain "host" ∷ with_placeholder "key" (str "<key>") ∷ [])
