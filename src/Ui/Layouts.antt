-- ===== src/Ui/Layouts.antt =====
-- resilient-lib/resilient_lib/ui/common.py: the layouts that have the tabs and the summary of incidents.
-- A layout is copied before it is changed, and sent back whole. `LayoutClient` is what the code uses of
-- a REST client; `text_of` is `format` on an id.
use Prim.Native.String.{◌++◌ as ◌⧺◌}
use resilient_python_api.Prelude.{
  String, Bool, true, false, Option, none, some, List, [], ◌∷◌, ◌++◌, if◌then◌else◌, not, insert,
  delete, suc, zero,
}
use resilient_python_api.Value.{
  Value, Fields, null, bool, int, str, list, dict, list_of, pos, truthy, eq_value, entries,
  of_entries, elements, get_field, get_field_or,
}
use resilient_python_api.Outcome.{
  Result, ok, err, attribute_error, key_error, type_error, value_error, system_exit, any_eq,
  get_item, get_key, get_default, iterate, is_in, ◌>>=◌,
}
use resilient_python_api.RequestsCommon.{str_to_bool}
use resilient_python_api.Ui.Elements.{missing_among, missing_in, Tab, tab_dto, Found, get_from_tabs}

-- v[key] = value, for a dict
abbrev pub with_item : String → Value → Value → Result Value
with_item key value (dict fs) = ok (dict (of_entries (insert key value (entries fs))))
with_item key value _ = err type_error

-- items.extend(more)
abbrev pub extended_by : List Value → Value → Result Value
extended_by more (list xs) = ok (list_of (elements xs ++ more))
extended_by more _ = err attribute_error

-- The layout with the tab's data in place of what it had.
abbrev pub put_back : Value → Found → Value → Result Value
put_back layout found tab_data =
    with_item "content" (list_of (found.before ++ tab_data ∷ found.behind)) layout

abbrev pub tabs_of : Value → Result (List Value)
tabs_of layout = get_key layout "content" >>= iterate

module _ (clean_text : String → String) where
  abbrev pub extend_fields : Value → List Value → Found → Result Value
  extend_fields layout [] found = ok layout
  extend_fields layout (v ∷ missing) found = get_item found.tab_data "fields" >>= λ fields.
      extended_by (v ∷ missing) fields >>= λ all.
      with_item "fields" all found.tab_data >>= put_back layout found

  abbrev pub fields_added : Tab → Value → Option Found → Result Value
  fields_added tab layout none = ok layout
  fields_added tab layout (some found) =
      get_default found.tab_data "fields" (list_of []) >>= λ tab_fields.
      missing_in clean_text tab.contains tab_fields >>= λ missing.
      extend_fields layout missing found

  unfoldable pub add_missing_fields : Tab → Value → Result Value
  unfolding get_from_tabs missing_among iterate
  add_missing_fields tab layout =
      tabs_of layout >>= get_from_tabs tab.uuid >>= fields_added tab layout

-- condition.pop('value') where condition.get('value') is None
abbrev pub drop_null : Fields → Option Value → Result Value
drop_null fs none = err key_error
drop_null fs (some null) = ok (dict (of_entries (delete "value" (entries fs))))
drop_null fs (some v) = ok (dict fs)

abbrev pub without_null : Value → Result Value
without_null (dict fs) = drop_null fs (get_field "value" fs)
without_null _ = err attribute_error

unfoldable pub without_nulls : List Value → Result (List Value)
unfolding delete
without_nulls [] = ok []
without_nulls (condition ∷ conditions) = do
  first ← without_null condition
  rest ← without_nulls conditions
  ok (first ∷ rest)

-- condition not in present, for a dict `condition`
abbrev is_absent : Value → Value → Result Bool
is_absent condition (list xs) = ok (not (any_eq condition (elements xs)))
is_absent condition _ = err type_error

unfoldable pub absent_in : Value → List Value → Result (List Value)
unfolding eq_value
absent_in present [] = ok []
absent_in present (condition ∷ conditions) = do
  absent ← is_absent condition present
  rest ← absent_in present conditions
  ok (if absent then condition ∷ rest else rest)

-- get_missing_conditions, for a tab that is there
abbrev pub get_missing_conditions : Tab → Value → Result (List Value)
get_missing_conditions tab tab_data = elim tab.show_if [
  | none ↦ ok []
  | some required ↦
      get_default tab_data "show_if" (list_of []) >>= λ present. absent_in present required
]

abbrev pub extend_conditions : List Value → Value → Result Value
extend_conditions [] tab_data = ok tab_data
extend_conditions (c ∷ missing) tab_data = get_key tab_data "show_if" >>= λ held.
    extended_by (c ∷ missing) (if truthy held then held else list_of []) >>= λ all.
    with_item "show_if" all tab_data

-- The conditions of a tab, without the values None, and then with those that are missing.
unfoldable pub update_conditions : Tab → Value → Result Value
unfolding without_nulls absent_in iterate
update_conditions tab tab_data = get_key tab_data "show_if" >>= λ held.
    (if truthy held
      then (iterate held >>= without_nulls >>= λ conditions.
          with_item "show_if" (list_of conditions) tab_data)
      else ok tab_data)
    >>= λ cleaned.
        get_missing_conditions tab cleaned >>= λ missing. extend_conditions missing cleaned

abbrev pub conditions_added : Tab → Value → Option Found → Result Value
conditions_added tab layout none = err attribute_error
conditions_added tab layout (some found) =
    update_conditions tab found.tab_data >>= put_back layout found

unfoldable pub add_missing_conditions : Tab → Value → Result Value
unfolding get_from_tabs update_conditions
add_missing_conditions tab layout =
    tabs_of layout >>= get_from_tabs tab.uuid >>= conditions_added tab layout

-- str_to_bool of an option
abbrev is_locked : Value → Bool
is_locked (str s) = str_to_bool s
is_locked (bool b) = b
is_locked (int (pos (suc zero))) = true
is_locked _ = false

-- The sections of app.config are dicts.
unfoldable pub permission_to_edit : String → Fields → Result Bool
unfolding str_to_bool
permission_to_edit app_section_name opts =
    let own = get_field_or app_section_name null opts in
    let integrations = get_field_or "integrations" null opts in
    let resilient = get_field_or "resilient" null opts in
    if truthy own
    then (get_key own "ui_lock" >>= λ lock. ok (not (is_locked lock)))
    else (if truthy integrations
        then (get_key integrations "ui_lock" >>= λ lock. ok (not (is_locked lock)))
        else (if truthy resilient
            then (get_key resilient "ui_lock" >>= λ lock. ok (not (is_locked lock)))
            else ok true))

pub record LayoutClient (W : Type 0) : Type 0 where
  pub get : String → W → Result Value × W
  pub put : String → Value → W → Result Value × W

-- The layouts with a name.
unfoldable pub named_layouts : String → List Value → Result (List Value)
unfolding eq_value
named_layouts layout_name [] = ok []
named_layouts layout_name (v ∷ vs) = do
  name ← get_item v "name"
  rest ← named_layouts layout_name vs
  ok (if eq_value name (str layout_name) then v ∷ rest else rest)

abbrev pub only_layout : List Value → Result Value
only_layout [] = err (value_error "No UI tabs are received from the platform for the layout.")
only_layout (layout ∷ []) = ok layout
only_layout (layout ∷ (other ∷ layouts)) = err (value_error "Expected 1 tab for the layout")

abbrev pub and_then : {W A B : Type 0} → Result A × W → (A → W → Result B × W) → Result B × W
and_then (err e, w) next = (err e, w)
and_then (ok a, w) next = next a w

-- except Exception: the error is logged, and None returned. A SystemExit is no Exception.
abbrev pub or_logged : {W : Type 0} → Result Value × W → Result Value × W
or_logged (ok v, w) = (ok v, w)
or_logged (err (system_exit code), w) = (err (system_exit code), w)
or_logged (err e, w) = (ok null, w)

module _ {W : Type 0} (client : LayoutClient W) (text_of : Value → String) where
  unfoldable pub get_layout : Value → String → W → Result Value × W
  unfolding named_layouts iterate
  get_layout type_id layout_name w =
      and_then (client.get ("/layouts?type=" ⧺ text_of type_id) w)
        (λ layouts w'. (iterate layouts >>= named_layouts layout_name >>= only_layout, w'))

  abbrev organization_type_id : Value → Result Value
  organization_type_id types = is_in "organization" types >>= λ found.
      if found
      then (get_item types "organization" >>= λ organization. get_item organization "type_id")
      else err key_error

  unfoldable pub get_organization_layout : String → W → Result Value × W
  unfolding get_layout
  get_organization_layout layout_name w = and_then (client.get "/types" w) (λ types w'.
      and_then (organization_type_id types, w') (λ type_id. get_layout type_id layout_name))

  -- client.put(LAYOUT_FOR.format(layout['id']), payload=layout)
  abbrev pub put_layout : Value → W → Result Value × W
  put_layout layout w =
      and_then (get_item layout "id", w) (λ id. client.put ("/layouts/" ⧺ text_of id) layout)

  unfoldable pub add_tab_to_layout : Value → Value → W → Result Value × W
  add_tab_to_layout layout new_tab w =
      and_then
        (
          get_item layout "content" >>= extended_by (new_tab ∷ []) >>= λ all.
              with_item "content" all layout,
          w,
        )
        put_layout

  module _ (clean_text : String → String) where
    unfoldable pub update_tab : Tab → Value → W → Result Value × W
    unfolding add_missing_fields add_missing_conditions
    update_tab tab layout w =
        and_then (add_missing_fields clean_text tab layout >>= add_missing_conditions tab, w)
          put_layout

    abbrev pub create_or_update : Tab → Bool → Value → Option Found → W → Result Value × W
    create_or_update tab update_existing layout none = add_tab_to_layout layout (tab_dto tab)
    create_or_update tab true layout (some found) = update_tab tab layout
    create_or_update tab false layout (some found) = λ w. (ok null, w)

    abbrev pub if_permitted : Tab → Bool → Bool → W → Result Value × W
    if_permitted tab update_existing false w = (ok null, w)
    if_permitted tab update_existing true w =
        and_then (get_organization_layout "incident" w) (λ layout w'.
          and_then (tabs_of layout >>= get_from_tabs tab.uuid, w')
            (create_or_update tab update_existing layout))

    -- create_tab, where a client can be made
    unfoldable pub create_tab : Tab → Fields → (update_existing : Bool) → W → Result Value × W
    unfolding get_organization_layout get_from_tabs update_tab add_tab_to_layout permission_to_edit
    create_tab tab opts update_existing w =
        or_logged
          (and_then (permission_to_edit tab.app_section opts, w) (if_permitted tab update_existing))
