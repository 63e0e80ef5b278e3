-- ===== src/FunctionInputs.antt =====
-- `validate_fields` of resilient-lib/resilient_lib/components/resilient_common.py: the inputs of a
-- function are checked, and the select inputs are replaced by their names. Tuples and namedtuples
-- are no values here: lists stand for the first, and of the second only the dictionary is read.
use resilient_python_api.Prelude.{
  String, Bool, true, false, none, some, List, [], ◌∷◌, if◌then◌else◌, not, ◌&&◌, ◌==◌, Assoc, ◌≡◌,
}
use resilient_python_api.Value.{
  Value, null, str, list, dict, dict_of, elements, of_elements, entries, Fields, get_field_or,
  truthy, eq_value,
}
use resilient_python_api.Outcome.{Error, Result, ok, err, ◌>>=◌, value_error, type_error}
pub mod Validation

abbrev pub mandatory_err_msg : String
mandatory_err_msg =
    "'{0}' is mandatory and is not set. You must set this value to run this function"

abbrev pub placeholder_err_msg : String
placeholder_err_msg =
    "'{0}' is mandatory and still has its placeholder value of '{1}'. You must set this value correctly to run this function"

-- The mandatory fields as a sequence.
abbrev pub as_list : Value → Result (List Value)
as_list (str s) = ok (str s ∷ [])
as_list (list xs) = ok (elements xs)
as_list _ = err (value_error "'field_list' must be of type list/tuple, not {0}")

abbrev pub as_fields : Value → Result Fields
as_fields (dict fs) = ok fs
as_fields _ = err (value_error "'kwargs' must be of type dict or namedtuple, not {0}")

-- provided_fields.get(field), where `field` may be any value
abbrev pub provided : Fields → Value → Result Value
provided fs (str k) = ok (get_field_or k null fs)
provided fs (list xs) = err type_error
provided fs (dict gs) = err type_error
provided fs _ = ok null

-- The three tests on the value of a mandatory field.
abbrev pub check_value : Value → Value → Result (Unit {0})
check_value placeholder_value null = err (value_error mandatory_err_msg)
check_value placeholder_value field_value =
    if eq_value field_value (str "")
    then err (value_error mandatory_err_msg)
    else if truthy placeholder_value && eq_value field_value placeholder_value
    then err (value_error placeholder_err_msg)
    else ok tt

-- The body of the loop over the mandatory fields.
unfoldable pub check_field : Fields → Value → Result (Unit {0})
check_field fs (dict gs) = do
  field_value ← provided fs (get_field_or "name" null gs)
  check_value (get_field_or "placeholder" null gs) field_value
check_field fs field = do field_value ← provided fs field; check_value null field_value

unfoldable pub check_fields : Fields → List Value → Result (Unit {0})
check_fields fs [] = ok tt
check_fields fs (field ∷ fields) = do _ ← check_field fs field; check_fields fs fields

-- f.get("name") if isinstance(f, dict) else f
abbrev pub name_of : Value → Value
name_of (dict fs) = get_field_or "name" null fs
name_of v = v

abbrev pub names_of : List Value → List Value
names_of [] = []
names_of (v ∷ vs) = name_of v ∷ names_of vs

-- What the loop over the provided fields puts in place of a value.
abbrev pub normalized : Value → Value
normalized (dict fs) =
    if truthy (get_field_or "name" null fs)
    then get_field_or "name" null fs
    else if truthy (get_field_or "content" null fs)
    then get_field_or "content" null fs
    else dict fs
normalized (list xs) = list (of_elements (names_of (elements xs)))
normalized v = v

abbrev pub normalized_fields : Assoc Value → Assoc Value
normalized_fields [] = []
normalized_fields ((field_name, field_value) ∷ items) =
    (field_name, normalized field_value) ∷ normalized_fields items

-- validate_fields: the dictionary that it returns, which is also what it leaves in `kwargs`.
unfoldable pub validate_fields : Value → Value → Result Value
unfolding check_fields
validate_fields field_list kwargs = do
  mandatory_fields ← as_list field_list
  provided_fields ← as_fields kwargs
  _ ← check_fields provided_fields mandatory_fields
  ok (dict_of (normalized_fields (entries provided_fields)))
