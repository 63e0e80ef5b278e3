-- ===== src/Patch.antt =====
-- classes Change and Patch of resilient/resilient/patch.py. A method that changes the patch returns
-- its result, or what it raised, with the patch as it is then.
pub mod Changes
pub mod Reading
pub mod Overwrite
use resilient_python_api.Prelude.{
  String, Bool, true, false, Option, none, some, List, [], ◌∷◌, if◌then◌else◌, Assoc, lookup,
  insert, delete, has_key, values, map, split_dot,
}
use resilient_python_api.Value.{Value, null, str, list, dict, list_of, dict_of, truthy}
use resilient_python_api.Outcome.{
  Result, Exec, ok, err, value_error, type_error, key_error, ◌>>=◌, or_raise, is_in, get_item,
}
use resilient_python_api.PatchStatus.{
  PatchStatus, has_field_failures, get_conflict_fields, get_actual_current_value,
}

pub record Change : Type 0 where
  pub field_name : String
  pub new_value : Value
  pub old_value : Value

-- Change.to_dict
abbrev pub change_to_dict : Change → Value
change_to_dict change = dict_of (
    ("field", str change.field_name)
    ∷ ("new_value", dict_of (("object", change.new_value) ∷ []))
    ∷ ("old_value", dict_of (("object", change.old_value) ∷ []))
    ∷ [])

pub record Patch : Type 0 where
  pub previous_object : Value
  pub version : Value
  pub changes : Assoc Change

no_changes : Value → Value → Patch
no_changes previous_object version = record {
  previous_object = previous_object;
  version = version;
  changes = [];
}

-- Patch.__init__; a version that is left out is `None`.
unfoldable pub new_patch : Value → Value → Result Patch
unfolding no_changes
new_patch previous_object version =
    if truthy version then ok (no_changes previous_object version) else do
      has_vers ← is_in "vers" previous_object
      vers ← if has_vers then get_item previous_object "vers" else ok null
      ok (no_changes previous_object vers)

-- The loop of `_get_base_value`.
unfoldable pub walk : Value → List String → Result Value
walk val [] = ok val
walk val (part ∷ parts) = do
  found ← is_in part val
  if found then (get_item val part >>= λ next. walk next parts) else ok null

abbrev pub is_dict : Value → Bool
is_dict (dict fs) = true
is_dict _ = false

unfoldable pub get_base_value : Patch → String → Result Value
unfolding walk
get_base_value patch field_name =
    if truthy patch.previous_object
    then (do
      val ← walk patch.previous_object (split_dot field_name)
      if is_dict val then err (value_error "Invalid field_name parameter") else ok val)
    else err (value_error "Constructor previous_object or method old_value argument is required")

-- self.changes[field_name] = Change(field_name, new_value, old_value)
abbrev pub set_change : String → Value → Value → Patch → Patch
set_change field_name new_value old_value patch = record patch {
  changes =
      insert field_name
        (record { field_name = field_name; new_value = new_value; old_value = old_value })
        patch.changes;
}

-- A new change with the computed old value, or what computing it raised.
abbrev change_with_old : String → Value → Result Value → Exec Patch (Unit {0})
change_with_old field_name new_value (ok old_value) patch =
    (ok tt, set_change field_name new_value old_value patch)
change_with_old field_name new_value (err e) patch = (err e, patch)

-- Patch.add_value; `old_value` is `none` where the keyword is not given.
unfoldable pub add_value : String → Value → Option Value → Exec Patch (Unit {0})
add_value field_name new_value (some old_value) patch =
    change_with_old field_name new_value (ok old_value) patch
add_value field_name new_value none patch =
    change_with_old field_name new_value (get_base_value patch field_name) patch

unfoldable pub exchange_conflicting_value : PatchStatus → String → Value → Exec Patch (Unit {0})
exchange_conflicting_value status field_name new_value patch =
    change_with_old field_name new_value (get_actual_current_value status (str field_name)) patch

-- `field_name in self.changes` raises on a name that cannot be hashed.
unfoldable pub get_change_with_field_named : Patch → Value → Result (Option Change)
get_change_with_field_named patch (str field_name) = ok (lookup field_name patch.changes)
get_change_with_field_named patch (list xs) = err type_error
get_change_with_field_named patch (dict fs) = err type_error
get_change_with_field_named patch _ = ok none

-- The key of a change that was found: only a text has one.
abbrev key_of : Value → String
key_of (str field_name) = field_name
key_of _ = ""

-- change.old_value = ..., on the object that `self.changes` holds under the key
abbrev set_old_value : String → Change → Result Value → Exec Patch (Unit {0})
set_old_value key change (ok old_value) patch = (
  ok tt,
  record patch { changes = insert key (record change { old_value = old_value }) patch.changes },
)
set_old_value key change (err e) patch = (err e, patch)

unfoldable pub overwrite_found :
    PatchStatus → Value → Result (Option Change) → Exec Patch (Unit {0})
overwrite_found status field_name (err e) patch = (err e, patch)
overwrite_found status field_name (ok none) patch =
    (err (value_error "No change exists for field failure found in patch status"), patch)
overwrite_found status field_name (ok (some change)) patch =
    set_old_value (key_of field_name) change (get_actual_current_value status field_name) patch

-- The body of the loop in `update_for_overwrite`.
unfoldable pub overwrite_field : PatchStatus → Value → Exec Patch (Unit {0})
unfolding overwrite_found get_change_with_field_named
overwrite_field status field_name patch =
    overwrite_found status field_name (get_change_with_field_named patch field_name) patch

-- The next statement, if the one before did not raise.
abbrev pub and_then : {A B : Type 0} → Result A × Patch → (A → Exec Patch B) → Result B × Patch
and_then (ok a, patch) next = next a patch
and_then (err e, patch) next = (err e, patch)

unfoldable pub overwrite_fields : PatchStatus → List Value → Exec Patch (Unit {0})
overwrite_fields status [] patch = (ok tt, patch)
overwrite_fields status (field_name ∷ rest) patch =
    and_then (overwrite_field status field_name patch) (λ _. overwrite_fields status rest)

unfoldable pub update_for_overwrite : PatchStatus → Exec Patch (Unit {0})
unfolding overwrite_fields
update_for_overwrite status patch =
    and_then (has_field_failures status, patch)
      λ failures patch₁.
        if failures
        then and_then (get_conflict_fields status, patch₁) (overwrite_fields status)
        else (err (value_error "Expected field_failures in patch status return"), patch₁)

-- [change.old_value for field_name, change in self.changes.items()]
unfoldable pub get_old_values : Patch → List Value
get_old_values patch = map (λ change. change.old_value) (values patch.changes)

unfoldable pub has_changes : Patch → Bool
has_changes patch = elim patch.changes [ [] ↦ false | _ ∷ _ ↦ true ]

unfoldable pub get_old_value : Patch → String → Result Value
get_old_value patch field_name = do
  change ← or_raise (lookup field_name patch.changes) key_error
  ok change.old_value

unfoldable pub get_new_value : Patch → String → Result Value
get_new_value patch field_name = do
  change ← or_raise (lookup field_name patch.changes) key_error
  ok change.new_value

unfoldable pub delete_value : String → Patch → Patch
delete_value field_name patch =
    if has_key field_name patch.changes
    then record patch { changes = delete field_name patch.changes }
    else patch

-- Patch.to_dict
unfoldable pub to_dict : Patch → Value
to_dict patch =
    let changes : Value = list_of (map change_to_dict (values patch.changes)) in
    if truthy patch.version
    then dict_of (("changes", changes) ∷ ("version", patch.version) ∷ [])
    else dict_of (("changes", changes) ∷ [])
