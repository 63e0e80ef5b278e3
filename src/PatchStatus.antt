-- ===== src/PatchStatus.antt =====
-- class PatchStatus of resilient/resilient/patch.py. The dictionary that the server sent is any
-- value, and each method reads it as Python does: a missing key or a wrong type raises.
use resilient_python_api.Prelude.{
  ℕ, suc, String, Bool, true, false, Option, none, some, List, [], ◌∷◌, if◌then◌else◌, ltb,
}
use resilient_python_api.Value.{Value, null, eq_value}
use resilient_python_api.Outcome.{
  Result, ok, err, value_error, type_error, ◌>>=◌, is_in, get_item, iterate,
}

-- `self.patch_status_dict`
pub record PatchStatus : Type 0 where
  pub patch_status_dict : Value

-- len(v)
count : List Value → ℕ
count [] = 0
count (v ∷ vs) = suc (count vs)

-- The loop of `_get_patch_failure`: the first failure whose "field" is the name.
unfoldable pub find_failure : Value → List Value → Result (Option Value)
find_failure field_name [] = ok none
find_failure field_name (failure ∷ rest) = do
  field ← get_item failure "field"
  if eq_value field field_name then ok (some failure) else find_failure field_name rest

unfoldable pub get_patch_failure : PatchStatus → Value → Bool → Result (Option Value)
unfolding find_failure
get_patch_failure status field_name should_raise = do
  failures ← get_item status.patch_status_dict "field_failures"
  items ← iterate failures
  found ← find_failure field_name items
  elim found [
    | some failure ↦ ok (some failure)
    | none ↦ if should_raise then err (value_error "No conflict found for field") else ok none
  ]

unfoldable pub is_success : PatchStatus → Result Value
is_success status = get_item status.patch_status_dict "success"

-- len(self.patch_status_dict["field_failures"]) > 0
some_failures : PatchStatus → Result Bool
unfolding count
some_failures status = do
  failures ← get_item status.patch_status_dict "field_failures"
  items ← iterate failures
  ok (ltb 0 (count items))

unfoldable pub has_field_failures : PatchStatus → Result Bool
unfolding some_failures
has_field_failures status = do
  present ← is_in "field_failures" status.patch_status_dict
  if present then some_failures status else ok false

unfoldable pub field_names : List Value → Result (List Value)
field_names [] = ok []
field_names (x ∷ xs) = do name ← get_item x "field"; names ← field_names xs; ok (name ∷ names)

unfoldable pub get_conflict_fields : PatchStatus → Result (List Value)
unfolding field_names
get_conflict_fields status = do
  failures ← get_item status.patch_status_dict "field_failures"
  items ← iterate failures
  field_names items

unfoldable pub is_conflict_field : PatchStatus → Value → Result Bool
unfolding get_patch_failure
is_conflict_field status field_name = do
  found ← get_patch_failure status field_name false
  ok (elim found [ none ↦ false | some _ ↦ true ])

-- The failure that `should_raise=True` promises; with `None` the subscript would raise.
abbrev found_item : Option Value → String → Result Value
found_item none key = err type_error
found_item (some failure) key = get_item failure key

unfoldable pub get_your_original_value : PatchStatus → Value → Result Value
unfolding get_patch_failure
get_your_original_value status field_name = do
  found ← get_patch_failure status field_name true
  found_item found "your_original_value"

unfoldable pub get_actual_current_value : PatchStatus → Value → Result Value
unfolding get_patch_failure
get_actual_current_value status field_name = do
  found ← get_patch_failure status field_name true
  found_item found "actual_current_value"

unfoldable pub get_message : PatchStatus → Result Value
get_message status = do
  present ← is_in "message" status.patch_status_dict
  if present then get_item status.patch_status_dict "message" else ok null
