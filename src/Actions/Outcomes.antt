-- ===== src/Actions/Outcomes.antt =====
-- Which of the values that the handlers of a function returned becomes its result.
use resilient_python_api.Prelude.{Option, none, some, List, [], ◌∷◌, ◌≡◌, refl, arith}
use resilient_python_api.Value.{Value}
use resilient_python_api.Actions.Results.{
  Returned, status_message, function_result, plain_value, first_result, take_result,
  function_statuses, or_default, function_outcome,
}

unfoldable pub first_plain : List Returned → Option Value
first_plain [] = none
first_plain (plain_value v ∷ values) = some v
first_plain (status_message t ∷ values) = first_plain values
first_plain (function_result v ∷ values) = first_plain values

unfoldable pub without_first_plain : List Returned → List Returned
without_first_plain [] = []
without_first_plain (plain_value v ∷ values) = values
without_first_plain (status_message t ∷ values) = status_message t ∷ without_first_plain values
without_first_plain (function_result v ∷ values) = function_result v ∷ without_first_plain values

take_result-some :
    (r : Value) (values : List Returned) → take_result (some r) values ≡ (some r, values)
unfolding take_result
take_result-some r [] = refl
take_result-some r (value ∷ values) = ground (arith, take_result-some r values)

take_result-none :
    (values : List Returned)
    → take_result none values ≡ (first_plain values, without_first_plain values)
unfolding take_result first_plain without_first_plain
take_result-none [] = refl
take_result-none (plain_value v ∷ values) = take_result-some v values
take_result-none (status_message t ∷ values) = ground (arith, take_result-none values)
take_result-none (function_result v ∷ values) = ground (arith, take_result-none values)

take_result-choice :
    (first : Option Value) (values : List Returned)
    → take_result first values ≡ elim first [
      | some v ↦ (some v, values)
      | none ↦ (first_plain values, without_first_plain values)
    ]
take_result-choice none values = take_result-none values
take_result-choice (some v) values = take_result-some v values

-- The result of a function is the first FunctionResult. Without one it is the first value that is no
-- StatusMessage, and then that value is no status message, even where it is a text; the texts and
-- StatusMessages among the others are, and "Completed" where there are none.
pub function_outcome-first_result :
    (values : List Returned)
    → function_outcome values ≡ elim (first_result values) [
      | some v ↦ (some v, or_default "Completed" (function_statuses values))
      | none ↦ (
        first_plain values,
        or_default "Completed" (function_statuses (without_first_plain values)),
      )
    ]
unfolding function_outcome
function_outcome-first_result values =
    ground (arith, take_result-choice (first_result values) values)
