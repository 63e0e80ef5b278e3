-- ===== src/FunctionInputs/Validation.antt =====
-- Which inputs `validate_fields` accepts, and what it makes of them.
use resilient_python_api.Prelude.{
  String, Bool, true, false, Option, none, some, List, [], ◌∷◌, if◌then◌else◌, ◌==◌, ◌&&◌, Assoc,
  ◌≡◌, refl, map, arith, ◌∙◌, not, lookup, Bool-cases, inl, inr,
}
use resilient_python_api.Value.{
  Value, null, bool, int, str, list, dict, dict_of, list_of, entries, Fields, get_field_or, truthy,
  eq_value, of_entries, entries-of_entries, ℤ,
}
use resilient_python_api.Value.Laws.{elements-of_elements}
use resilient_python_api.Outcome.{Result, ok, err, ◌>>=◌, value_error}
use resilient_python_api.FunctionInputs.{
  mandatory_err_msg, placeholder_err_msg, check_field, check_fields, check_value, normalized,
  names_of, normalized_fields, validate_fields,
}

-- An entry of `field_list`: a name, or a dictionary with a placeholder.
pub data Mandatory : Type 0 where
  plain : String → Mandatory
  with_placeholder : String → Value → Mandatory

abbrev pub field_of : Mandatory → Value
field_of (plain n) = str n
field_of (with_placeholder n p) = dict_of (("name", str n) ∷ ("placeholder", p) ∷ [])

-- The value of a mandatory field is there.
abbrev pub is_set : Value → Bool
is_set v = not (eq_value v null) && not (eq_value v (str ""))

-- What is wrong with a field, if anything.
abbrev pub complaint : Fields → Mandatory → Option String
complaint fs (plain n) = if is_set (get_field_or n null fs) then none else some mandatory_err_msg
complaint fs (with_placeholder n p) =
    if is_set (get_field_or n null fs)
    then (if truthy p && eq_value (get_field_or n null fs) p
        then some placeholder_err_msg
        else none)
    else some mandatory_err_msg

abbrev pub first_complaint : Fields → List Mandatory → Option String
first_complaint fs [] = none
first_complaint fs (m ∷ ms) =
    let rest = first_complaint fs ms in
    elim (complaint fs m) [ none ↦ rest | some text ↦ some text ]

abbrev raised : Option String → Result (Unit {0})
raised none = ok tt
raised (some text) = err (value_error text)

raised-if :
    (b : Bool) (text : String)
    → (if b then err (value_error text) else ok tt) ≡ raised (if b then some text else none)
raised-if true text = refl
raised-if false text = refl

raised-then :
    (o rest : Option String)
    → (raised o >>= λ _. raised rest) ≡ raised (elim o [ none ↦ rest | some text ↦ some text ])
raised-then none rest = refl
raised-then (some text) rest = refl

check_value_cases :
    (p v : Value)
    → check_value p v
      ≡ raised (
          if is_set v
          then (if truthy p && eq_value v p then some placeholder_err_msg else none)
          else some mandatory_err_msg)
unfolding eq_value
check_value_cases p null = refl
check_value_cases p (bool b) = raised-if (truthy p && eq_value (bool b) p) placeholder_err_msg
check_value_cases p (int i) = raised-if (truthy p && eq_value (int i) p) placeholder_err_msg
check_value_cases p (str s) = elim (Bool-cases (s == "")) [
  | inl e ↦ rw e
  | inr e ↦ rw e (raised-if (truthy p && eq_value (str s) p) placeholder_err_msg)
]
check_value_cases p (list xs) = raised-if (truthy p && eq_value (list xs) p) placeholder_err_msg
check_value_cases p (dict fs) = raised-if (truthy p && eq_value (dict fs) p) placeholder_err_msg

check_field-complaint :
    (fs : Fields) (m : Mandatory) → check_field fs (field_of m) ≡ raised (complaint fs m)
unfolding check_field lookup
check_field-complaint fs (plain n) = rw (check_value_cases null (get_field_or n null fs))
check_field-complaint fs (with_placeholder n p) = check_value_cases p (get_field_or n null fs)

accepted_or_raised :
    (o : Option String) (v : Value)
    → (raised o >>= λ _. ok v) ≡ elim o [ none ↦ ok v | some text ↦ err (value_error text) ]
accepted_or_raised none v = refl
accepted_or_raised (some text) v = refl

check_fields-complaint :
    (fs : Fields) (ms : List Mandatory)
    → check_fields fs (map field_of ms) ≡ raised (first_complaint fs ms)
unfolding check_fields
check_fields-complaint fs [] = refl
check_fields-complaint fs (m ∷ ms) =
    rw (check_field-complaint fs m, check_fields-complaint fs ms)
      (raised-then (complaint fs m) (first_complaint fs ms))

-- On a list of names and of dictionaries with a name and a placeholder, the first field that is
-- missing, None, empty or equal to its truthy placeholder raises a ValueError; if there is none, the
-- result has the fields of `kwargs` in their order, each normalized.
pub validate_fields_lem :
    (fs : Fields) (ms : List Mandatory)
    → validate_fields (list_of (map field_of ms)) (dict fs) ≡ elim (first_complaint fs ms) [
      | none ↦ ok (dict_of (normalized_fields (entries fs)))
      | some text ↦ err (value_error text)
    ]
unfolding validate_fields
validate_fields_lem fs ms =
    rw (elements-of_elements (map field_of ms), check_fields-complaint fs ms)
      (accepted_or_raised (first_complaint fs ms) (dict_of (normalized_fields (entries fs))))

-- The values that the inputs of a function have.
pub data Input : Type 0 where
  plain_input : String → Input
  select : ℤ → String → Input
  multi_select : List (ℤ × String) → Input
  rich_text : String → String → Input

abbrev pub option_dto : ℤ × String → Value
option_dto (id, name) = dict_of (("id", int id) ∷ ("name", str name) ∷ [])

abbrev pub name_text : ℤ × String → Value
name_text (id, name) = str name

abbrev pub input_dto : Input → Value
input_dto (plain_input s) = str s
input_dto (select id name) = option_dto (id, name)
input_dto (multi_select options) = list_of (map option_dto options)
input_dto (rich_text format content) =
    dict_of (("format", str format) ∷ ("content", str content) ∷ [])

-- What the function reads.
abbrev pub chosen : Input → Value
chosen (plain_input s) = str s
chosen (select id name) = if name == "" then option_dto (id, name) else str name
chosen (multi_select options) = list_of (map name_text options)
chosen (rich_text format content) =
    if content == "" then input_dto (rich_text format content) else str content

abbrev pub inputs_dto : Assoc Input → Assoc Value
inputs_dto [] = []
inputs_dto ((n, i) ∷ m) = (n, input_dto i) ∷ inputs_dto m

abbrev pub chosen_fields : Assoc Input → Assoc Value
chosen_fields [] = []
chosen_fields ((n, i) ∷ m) = (n, chosen i) ∷ chosen_fields m

names_of-options :
    (options : List (ℤ × String)) → names_of (map option_dto options) ≡ map name_text options
unfolding lookup
names_of-options [] = refl
names_of-options ((id, name) ∷ options) = rw (names_of-options options)

names_of-names :
    (options : List (ℤ × String)) → names_of (map name_text options) ≡ map name_text options
names_of-names [] = refl
names_of-names ((id, name) ∷ options) = rw (names_of-names options)

normalized-input : (i : Input) → normalized (input_dto i) ≡ chosen i
unfolding lookup
normalized-input (plain_input s) = refl
normalized-input (select id name) = ground arith
normalized-input (multi_select options) =
    rw (elements-of_elements (map option_dto options), names_of-options options)
normalized-input (rich_text format content) = ground arith

normalized-chosen : (i : Input) → normalized (chosen i) ≡ chosen i
unfolding lookup
normalized-chosen (plain_input s) = refl
normalized-chosen (select id name) = elim (Bool-cases (name == "")) [
  | inl e ↦ rw (e, e)
  | inr e ↦ rw e
]
normalized-chosen (multi_select options) =
    rw (elements-of_elements (map name_text options), names_of-names options)
normalized-chosen (rich_text format content) = elim (Bool-cases (content == "")) [
  | inl e ↦ rw (e, e)
  | inr e ↦ rw e
]

normalized_fields-inputs : (m : Assoc Input) → normalized_fields (inputs_dto m) ≡ chosen_fields m
normalized_fields-inputs [] = refl
normalized_fields-inputs ((n, i) ∷ m) = rw (normalized-input i, normalized_fields-inputs m)

normalized_fields-chosen : (m : Assoc Input) → normalized_fields (chosen_fields m) ≡ chosen_fields m
normalized_fields-chosen [] = refl
normalized_fields-chosen ((n, i) ∷ m) = rw (normalized-chosen i, normalized_fields-chosen m)

-- Without mandatory fields, a select input becomes its name, a multi-select the list of its names,
-- and a rich text its content, and a second call changes nothing more; a select without a name, or
-- a rich text without a content, stays a dictionary.
pub validate_fields-inputs :
    (m : Assoc Input)
    → (validate_fields (list_of []) (dict_of (inputs_dto m)) ≡ ok (dict_of (chosen_fields m)))
      × (validate_fields (list_of []) (dict_of (chosen_fields m)) ≡ ok (dict_of (chosen_fields m)))
validate_fields-inputs m = (
  validate_fields_lem (of_entries (inputs_dto m)) []
      ∙ rw (entries-of_entries (inputs_dto m), normalized_fields-inputs m),
  validate_fields_lem (of_entries (chosen_fields m)) []
      ∙ rw (entries-of_entries (chosen_fields m), normalized_fields-chosen m),
)
