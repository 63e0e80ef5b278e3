-- ===== src/Sdk/Minify.antt =====
-- resilient-sdk/resilient_sdk/util/sdk_helpers.py, minify_export. An export is a dict of lists of
-- objects, by the kind of object, and of a few other values. The export that is given is copied first
-- and never changed.
use resilient_python_api.Prelude.{
  ℕ, String, true, false, Option, none, some, List, [], ◌∷◌, ◌++◌, map, if◌then◌else◌, Assoc,
  lookup, insert, strip,
}
use resilient_python_api.Value.{
  Value, Fields, null, bool, int, str, list, dict, end, field, pos, truthy, eq_value, get_field,
  get_field_or, entries, of_entries, elements, dict_of, list_of,
}
use resilient_python_api.Outcome.{
  Result, ok, err, attribute_error, value_error, key_error, iterate, ◌>>=◌,
}
use resilient_python_api.Sdk.Scrub.{in_names, rm_pii, remove_tag_fields}
use resilient_python_api.Sdk.Hierarchy.{Found, find_parent_child_types}

-- The arguments of minify_export.
pub record Selection : Type 0 where
  pub keys_to_keep : List String
  pub message_destinations : List String
  pub functions : List String
  pub workflows : List String
  pub rules : List String
  pub fields : List String
  pub artifact_types : List String
  pub datatables : List String
  pub tasks : List String
  pub phases : List String
  pub scripts : List String
  pub incident_types : List String
  pub playbooks : List String

abbrev pub kept_keys : List String → List String
kept_keys [] = "export_date" ∷ "export_format_version" ∷ "id" ∷ "server_version" ∷ []
kept_keys (key ∷ keys) = key ∷ keys

abbrev pub names_of : List String → List Value
names_of = map str

-- For each kind of object, the attribute that names one and the names that are wanted.
unfoldable pub keys_to_minify : Selection → List Value → Assoc (String × List Value)
keys_to_minify selection parent_child_incident_types =
    ("message_destinations", ("programmatic_name", names_of selection.message_destinations))
    ∷ ("functions", ("export_key", names_of selection.functions))
    ∷ ("workflows", ("programmatic_name", names_of selection.workflows))
    ∷ ("actions", ("name", names_of selection.rules))
    ∷ ("fields", ("export_key", names_of selection.fields))
    ∷ ("incident_artifact_types", ("programmatic_name", names_of selection.artifact_types))
    ∷ ("types", ("type_name", names_of selection.datatables))
    ∷ ("automatic_tasks", ("programmatic_name", names_of selection.tasks))
    ∷ ("phases", ("export_key", names_of selection.phases))
    ∷ ("scripts", ("export_key", names_of selection.scripts))
    ∷ ("incident_types", ("name", parent_child_incident_types))
    ∷ ("playbooks", ("export_key", names_of selection.playbooks))
    ∷ []

-- v.strip()
abbrev pub stripped : Value → Result String
stripped (str s) = ok (strip s)
stripped _ = err attribute_error

-- [name.strip() for name in values]
unfoldable pub strip_all : List Value → Result (List String)
strip_all [] = ok []
strip_all (name ∷ names) = do first ← stripped name; rest ← strip_all names; ok (first ∷ rest)

-- items.remove(item)
unfoldable pub remove_item : Value → List Value → Result (List Value)
remove_item item [] = err (value_error "list.remove(x): x not in list")
remove_item item (other ∷ items) =
    let rest = remove_item item items >>= λ left. ok (other ∷ left) in
    if eq_value other item then ok items else rest

-- data.get(attribute_name, "").strip()
abbrev pub name_in : String → Value → Result String
name_in attribute_name (dict fs) = stripped (get_field_or attribute_name (str "") fs)
name_in attribute_name _ = err attribute_error

abbrev pub unless_wanted : List String → Value → List Value → String → Result (List Value)
unless_wanted wanted item current name =
    if in_names name wanted then ok current else remove_item item current

-- The loop over a copy of the section, of which the items that are left are given, with the section.
unfoldable pub remove_unwanted :
    String → List String → List Value → List Value → Result (List Value)
unfolding remove_item in_names
remove_unwanted attribute_name wanted [] current = ok current
remove_unwanted attribute_name wanted (item ∷ items) current =
    name_in attribute_name item >>= λ name. unless_wanted wanted item current name >>= λ left.
    remove_unwanted attribute_name wanted items left

-- A section that is no list has no items with a name: a dict and a text iterate over texts.
abbrev pub minify_section : String → List String → Value → Result Value
minify_section attribute_name wanted (list xs) = do
  left ← remove_unwanted attribute_name wanted (elements xs) (elements xs)
  ok (list_of left)
minify_section attribute_name wanted section =
    if truthy section then (iterate section >>= λ items. err attribute_error) else ok section

abbrev pub emptied : Value → Value
emptied (list xs) = list_of []
emptied (dict fs) = dict_of []
emptied _ = null

abbrev pub minify_named : Value → String × List Value → Result Value
minify_named value (attribute_name, values) = do
  wanted ← strip_all values
  minify_section attribute_name wanted value

-- One round of the loop over the keys.
unfoldable pub minify_key :
    List String → Assoc (String × List Value) → String → Value → Result Value
unfolding remove_unwanted strip_all lookup in_names iterate
minify_key keep by_name key value =
    if in_names key keep then ok value else elim (lookup key by_name) [
      | some wanted ↦ minify_named value wanted
      | none ↦ ok (if in_names key ("overrides" ∷ []) then null else emptied value)
    ]

unfoldable pub minify_keys : List String → Assoc (String × List Value) → Fields → Result Fields
unfolding minify_key
minify_keys keep by_name end = ok end
minify_keys keep by_name (field key value fs) = do
  left ← minify_key keep by_name key value
  rest ← minify_keys keep by_name fs
  ok (field key left rest)

-- DEFAULT_TIME is the time at which the module was loaded.
abbrev pub default_incident_type : (default_time : ℕ) → Value
default_incident_type default_time = dict_of (
    ("update_date", int (pos default_time))
    ∷ ("create_date", int (pos default_time))
    ∷ ("uuid", str "bfeec2d4-3770-11e8-ad39-4a0004044aa0")
    ∷ ("description", str "Customization Packages (internal)")
    ∷ ("export_key", str "Customization Packages (internal)")
    ∷ ("name", str "Customization Packages (internal)")
    ∷ ("enabled", bool false)
    ∷ ("system", bool false)
    ∷ ("parent_id", null)
    ∷ ("hidden", bool false)
    ∷ ("id", int (pos 0))
    ∷ [])

abbrev pub default_incident_field : Value
default_incident_field = dict_of (
    ("export_key", str "incident/internal_customizations_field")
    ∷ ("id", int (pos 0))
    ∷ ("input_type", str "text")
    ∷ ("internal", bool true)
    ∷ ("name", str "internal_customizations_field")
    ∷ ("read_only", bool true)
    ∷ ("text", str "Customizations Field (internal)")
    ∷ ("type_id", int (pos 0))
    ∷ ("uuid", str "bfeec2d4-3770-11e8-ad39-4a0004044aa1")
    ∷ [])

-- section.append(item)
abbrev pub append_to : Value → Value → Result Value
append_to (list xs) item = ok (list_of (elements xs ++ item ∷ []))
append_to _ item = err attribute_error

-- fs[key] = value
abbrev pub set_field : String → Value → Fields → Fields
set_field key value fs = of_entries (insert key value (entries fs))

unfoldable pub with_default_type : ℕ → Fields → Result Fields
with_default_type default_time fs =
    let types = get_field_or "incident_types" null fs in
    let item = default_incident_type default_time in
    if truthy types
    then (append_to types item >>= λ all. ok (set_field "incident_types" all fs))
    else ok (set_field "incident_types" (list_of (item ∷ [])) fs)

abbrev with_field_in : Fields → Option Value → Result Fields
with_field_in fs none = err key_error
with_field_in fs (some section) =
    append_to section default_incident_field >>= λ all. ok (set_field "fields" all fs)

unfoldable pub with_default_field : List String → Fields → Result Fields
unfolding in_names
with_default_field names fs =
    if in_names "incident/" names then ok fs else with_field_in fs (get_field "fields" fs)

abbrev pub pii_key_list : List String
pii_key_list = "creator" ∷ "creator_id" ∷ []

-- What follows the search for the parents of the incident types.
unfoldable pub minify_with : ℕ → Selection → Fields → List Value → Result Fields
unfolding minify_keys keys_to_minify with_default_type with_default_field rm_pii remove_tag_fields
minify_with default_time selection export parent_child_incident_types = do
  minified ←
      minify_keys (kept_keys selection.keys_to_keep)
        (keys_to_minify selection parent_child_incident_types) export
  typed ← with_default_type default_time minified
  whole ← with_default_field selection.fields typed
  ok (remove_tag_fields (rm_pii pii_key_list whole))

abbrev pub minify_found : ℕ → Selection → Fields → Found → Option (Result Fields)
minify_found default_time selection export none = none
minify_found default_time selection export (some (err e)) = some (err e)
minify_found default_time selection export (some (ok names)) =
    some (minify_with default_time selection export names)

-- minify_export, with fuel for the hierarchy of the incident types
unfoldable pub minify_export : ℕ → ℕ → Selection → Fields → Option (Result Fields)
unfolding minify_with find_parent_child_types
minify_export fuel default_time selection export = minify_found default_time selection export (
    find_parent_child_types fuel (get_field_or "incident_types" null export) "name"
      (names_of selection.incident_types))
