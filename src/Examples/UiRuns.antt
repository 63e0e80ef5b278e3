-- ===== src/Examples/UiRuns.antt =====
-- Runs of the models of resilient-lib/resilient_lib/ui.
use resilient_python_api.Prelude.{
  String, true, false, some, List, [], ◌∷◌, ◌++◌, ◌≡◌, refl, ◌==◌, if◌then◌else◌, map, lookup,
  insert, has_key,
}
use resilient_python_api.Value.{
  Value, Fields, null, int, pos, str, list_of, dict_of, eq_value, of_elements, of_entries, dict,
  get_field,
}
use resilient_python_api.Outcome.{Result, ok, err, key_error, integration_error, iterate, ◌>>=◌}
use resilient_python_api.Ui.Elements.{
  Basic, field, header, view, html, basic, basic_dto, Tab, tab_dto, missing_among, get_from_tabs,
  basic_exists_in, exists_in,
}
use resilient_python_api.Ui.Conditions.{condition_dto, equals, has_value}
use resilient_python_api.Ui.Layouts.{
  LayoutClient, tabs_of, add_tab_to_layout, create_tab, update_tab, add_missing_fields,
}
use resilient_python_api.Ui.Completed.{missing_among-completes}
use resilient_python_api.Ui.Valueless.{update_tab-key_error, this}
use resilient_python_api.Ui.Created.{add_tab_to_layout-get_from_tabs}
use resilient_python_api.Ui.SelectConditions.{select_condition_dto, has_one_of, plain}
use resilient_python_api.Ui.Summary.{with_new, with_new-behind_block}

-- The text of a block without its ends.
abbrev bare : String → String
bare s = if s == "<b>hi</b>" then "hi" else s

abbrev wanted : List Basic
wanted = field "city" ∷ html "<b>hi</b>" ∷ view "timer:list" ∷ []

abbrev held : List Value
held = basic_dto (html "hi") ∷ []

missing_among-completes_example :
    missing_among bare
      (map basic wanted)
      (held ++ basic_dto (field "city") ∷ basic_dto (view "timer:list") ∷ [])
    ≡ ok []
unfolding missing_among exists_in basic_exists_in eq_value lookup
missing_among-completes_example =
    missing_among-completes bare wanted held
      (basic_dto (field "city") ∷ basic_dto (view "timer:list") ∷ []) refl

abbrev incident_tab : Tab
incident_tab = record {
  uuid = "b27793a5";
  name = "Test tab";
  app_section = "fn_test";
  contains = basic (field "city") ∷ [];
  show_if = some (condition_dto "city" has_value ∷ []);
}

abbrev incident_layout : List Value → Value
incident_layout tabs =
    dict_of (("id", int (pos 7)) ∷ ("name", str "incident") ∷ ("content", list_of tabs) ∷ [])

unfoldable id_text : Value → String
unfolding eq_value
id_text v = if eq_value v (int (pos 6)) then "6" else "7"

-- The server keeps the layout that is sent.
abbrev server : LayoutClient Value
server = record {
  get = λ url layout. (
    if url == "/types"
        then ok (dict_of (("organization", dict_of (("type_id", int (pos 6)) ∷ [])) ∷ []))
        else ok (list_of (layout ∷ [])),
    layout,
  );
  put = λ url layout before. (ok layout, layout);
}

-- The tab is created in an empty layout.
create_tab_run :
    (create_tab server id_text bare incident_tab Fields.end false (incident_layout [])).1
    ≡ incident_layout (tab_dto incident_tab ∷ [])
unfolding create_tab lookup has_key id_text insert
create_tab_run = refl

-- The same tab once more: its own condition has no value.
update_tab-key_error_example :
    update_tab server id_text bare incident_tab
      (incident_layout (tab_dto incident_tab ∷ []))
      (incident_layout [])
    ≡ (err key_error, incident_layout [])
unfolding add_missing_fields get_from_tabs iterate lookup
update_tab-key_error_example =
    update_tab-key_error server id_text bare incident_tab
      (incident_layout (tab_dto incident_tab ∷ [])) (tab_dto incident_tab ∷ [])
      (record { before = []; tab_data = tab_dto incident_tab; behind = [] })
      (of_elements (condition_dto "city" has_value ∷ [])) (incident_layout []) refl refl refl refl
      (this refl)

abbrev newsfeed : Value
newsfeed = basic_dto (header "Newsfeed" true)

with_new-behind_block_example :
    with_new (some "Summary") (basic_dto (field "city") ∷ []) (
      list_of (
        (basic_dto (field "id") ∷ [])
        ++ (basic_dto (header "Summary" true) ∷ basic_dto (field "name") ∷ [])
        ++ (newsfeed ∷ [])))
    ≡ ok (
        list_of (
          (basic_dto (field "id") ∷ [])
          ++ (basic_dto (header "Summary" true) ∷ basic_dto (field "name") ∷ [])
          ++ ((basic_dto (field "city") ∷ []) ++ (newsfeed ∷ []))))
unfolding lookup eq_value with_new
with_new-behind_block_example =
    with_new-behind_block "Summary" (basic_dto (field "id") ∷ []) (basic_dto (field "name") ∷ [])
      (newsfeed ∷ []) (basic_dto (field "city") ∷ []) (basic_dto (header "Summary" true)) refl
      (((false, refl), refl), tt) refl refl (refl, tt) refl

abbrev other_tab : Value
other_tab = dict_of (("predefined_uuid", str "c31") ∷ [])

abbrev other_layout : Fields
other_layout =
    of_entries
      (("id", int (pos 7)) ∷ ("name", str "incident") ∷ ("content", list_of (other_tab ∷ [])) ∷ [])

add_tab_to_layout-get_from_tabs_example :
    (sent : Fields) × (add_tab_to_layout server id_text
        (dict other_layout)
        (tab_dto incident_tab)
        null
      ≡ (ok (dict sent), dict sent))
    × ((k : String)
        → get_field k sent ≡ (
            if "content" == k
            then some (list_of (other_tab ∷ tab_dto incident_tab ∷ []))
            else get_field k other_layout))
    × (tabs_of (dict sent) >>= get_from_tabs "b27793a5"
        ≡ ok (
            some
              (record { before = other_tab ∷ []; tab_data = tab_dto incident_tab; behind = [] })))
unfolding lookup get_from_tabs eq_value
add_tab_to_layout-get_from_tabs_example =
    add_tab_to_layout-get_from_tabs server id_text incident_tab other_layout (int (pos 7))
      (of_elements (other_tab ∷ [])) null refl refl refl

abbrev incident_types : Value
incident_types = dict_of (
    (
      "fields",
      dict_of (
          (
            "color",
            dict_of (
                (
                  "values",
                  list_of (
                      dict_of (("label", str "red") ∷ ("value", int (pos 6)) ∷ [])
                      ∷ dict_of (("label", str "blue") ∷ ("value", int (pos 7)) ∷ [])
                      ∷ []),
                )
                ∷ []),
          )
          ∷ []),
    )
    ∷ [])

abbrev cached : String → Value → Result Value × Value
cached url types = (ok types, types)

-- The ids of the labels, in the order that is asked for.
select_condition_dto_run :
    (select_condition_dto id_text cached "color"
      (has_one_of (str "blue" ∷ str "red" ∷ []))
      incident_types).0
    ≡ ok (
        dict_of (
          ("field", str "incident.color")
          ∷ ("condition", str "in")
          ∷ ("value", list_of (str "7" ∷ str "6" ∷ []))
          ∷ []))
unfolding select_condition_dto lookup id_text
select_condition_dto_run = refl

select_condition_dto_unknown :
    (select_condition_dto id_text cached "color" (plain (equals (str "green"))) incident_types).0
    ≡ err integration_error
unfolding select_condition_dto lookup
select_condition_dto_unknown = refl
