-- ===== src/Examples/WantedRuns.antt =====
-- Runs of the search for the wanted objects of an export.
use resilient_python_api.Prelude.{Bool, true, List, [], ◌∷◌, ◌≡◌, refl, lookup, insert, strip, some}
use resilient_python_api.Value.{Value, int, pos, str, dict_of, eq_value}
use resilient_python_api.Outcome.{Result, ok, err, plain_exception, get_key, ◌>>=◌}
use resilient_python_api.Sdk.Hierarchy.{to_set}
use resilient_python_api.Sdk.Objects.{
  named, referenced, all_resolved, get_res_obj, get_obj_from_list, collect, object_at,
}
use resilient_python_api.Sdk.Wanted.{AreChosen, get_res_obj-AreChosen}

abbrev scripts : List Value
scripts =
    dict_of (("name", str "helper") ∷ ("type_id", int (pos 0)) ∷ [])
    ∷ dict_of (("name", str " notify ") ∷ ("type_id", int (pos 1)) ∷ ("text", str "x") ∷ [])
    ∷ dict_of (("name", str "helper") ∷ ("type_id", int (pos 1)) ∷ [])
    ∷ []

-- o.get("type_id") == 1
abbrev of_incidents : Value → Result Bool
of_incidents o = get_key o "type_id" >>= λ type_id. ok (eq_value type_id (int (pos 1)))

missing_run :
    (get_res_obj "name" true of_incidents scripts (named "other" ∷ [])).0
    ≡ err (plain_exception "not found in this export")
unfolding get_res_obj lookup strip
missing_run = refl

get_res_obj-AreChosen_example :
    (values names : List Value) × (all_resolved "name" scripts
        (named "helper" ∷ named "notify " ∷ [])
      ≡ ok values)
    × (to_set values ≡ ok names)
    × AreChosen "name" of_incidents scripts names (2 ∷ 1 ∷ [])
unfolding get_res_obj get_obj_from_list all_resolved collect to_set lookup insert eq_value strip
get_res_obj-AreChosen_example =
    get_res_obj-AreChosen "name" of_incidents true scripts (named "helper" ∷ named "notify " ∷ [])
      (2 ∷ 1 ∷ []) refl

-- The object gets its name in the section, and a wanted entry may name it by another attribute.
marked_run :
    object_at 1 (get_res_obj "name" true of_incidents scripts (referenced "text" "x" ∷ [])).1
    ≡ some (
        dict_of (
          ("name", str " notify ")
          ∷ ("type_id", int (pos 1))
          ∷ ("text", str "x")
          ∷ ("x_api_name", str " notify ")
          ∷ []))
unfolding get_res_obj lookup object_at strip insert
marked_run = refl
