-- ===== src/Examples/ExportRuns.antt =====
-- Runs of the SDK's minify_export.
use resilient_python_api.Prelude.{
  ℕ, ◌<◌, true, none, List, [], ◌∷◌, ◌≡◌, ◌≢◌, arith, ◌==◌, eq_iff, if◌then◌else◌, lookup,
}
use resilient_python_api.Value.{
  Value, Items, Fields, null, bool, int, str, list, dict, dict_of, list_of, of_elements, of_entries,
  eq_value,
}
use resilient_python_api.Outcome.{iterate}
use resilient_python_api.Sdk.Hierarchy.{find_parent_child_types}
use resilient_python_api.Sdk.Hierarchy.Termination.{IsRanked, find_parent_child_types-ends}
use resilient_python_api.Sdk.Minify.{Selection}

abbrev malware : Value
malware = dict_of (("name", str "Malware") ∷ ("parent_id", null) ∷ ("creator", str "me") ∷ [])

abbrev worm : Value
worm = dict_of (("name", str "Worm") ∷ ("parent_id", str "Malware") ∷ [])

abbrev lost_device : Value
lost_device = dict_of (("name", str "Lost device") ∷ ("parent_id", null) ∷ [])

abbrev types : Items
types = of_elements (malware ∷ worm ∷ lost_device ∷ [])

abbrev owner : Value
owner = dict_of (("export_key", str "incident/owner ") ∷ ("tags", list_of (str "t" ∷ [])) ∷ [])

abbrev severity : Value
severity = dict_of (("export_key", str "incident/severity") ∷ [])

abbrev field_items : Items
field_items = of_elements (owner ∷ severity ∷ [])

abbrev whole_export : Fields
whole_export = of_entries (
    ("id", str "export 1")
    ∷ ("incident_types", list types)
    ∷ ("fields", list field_items)
    ∷ ("overrides", list_of (null ∷ []))
    ∷ ("layouts", list_of (null ∷ []))
    ∷ [])

abbrev selection : Selection
selection = record {
  keys_to_keep = [];
  message_destinations = [];
  functions = [];
  workflows = [];
  rules = [];
  fields = "incident/owner" ∷ [];
  artifact_types = [];
  datatables = [];
  tasks = [];
  phases = [];
  scripts = [];
  incident_types = "Worm" ∷ [];
  playbooks = [];
}

abbrev found : List Value
found = str "Worm" ∷ str "Malware" ∷ []

-- Malware is above Worm.
abbrev rank : Value → ℕ
rank (str name) = if name == "Malware" then 0 else 1
rank _ = 1

rank_of_worm :
    (name : Value)
    → eq_value (str "Worm") name ≡ true
    → true ≡ true
    → rank (str "Malware") < rank name
unfolding eq_value
rank_of_worm (str name) e t = rw (← (eq_iff "Worm" name).0 e) (omega arith)
rank_of_worm null e t = omega arith
rank_of_worm (bool b) e t = omega arith
rank_of_worm (int n) e t = omega arith
rank_of_worm (list xs) e t = omega arith
rank_of_worm (dict fs) e t = omega arith

ranked : IsRanked rank "name" (iterate (list types))
unfolding lookup iterate
ranked = ((λ name e t. absurd (cc)), (rank_of_worm, ((λ name e t. absurd (cc)), tt)))

find_parent_child_types-ends_example :
    find_parent_child_types 2 (list types) "name" (str "Worm" ∷ []) ≢ none
find_parent_child_types-ends_example =
    find_parent_child_types-ends rank (list types) "name" 1 (str "Worm" ∷ []) ranked
      (omega arith, tt)
