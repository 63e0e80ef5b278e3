-- ===== src/Ui/Created.antt =====
-- A tab that was added to a layout is found in what is sent
-- (resilient-lib/resilient_lib/ui/common.py, add_tab_to_layout).
use Prim.Native.String.{◌++◌ as ◌⧺◌}
use resilient_python_api.Prelude.{
  String, Bool, true, false, Option, none, some, List, [], ◌∷◌, ◌++◌, ◌≡◌, refl, ap, ◌∙◌,
  if◌then◌else◌, ◌==◌, lookup, insert, lookup-insert, lookup-insert_self, eq_iff, arith,
}
use resilient_python_api.Value.{
  Value, Fields, Items, null, str, dict, list, list_of, eq_value, get_field, elements, entries,
  of_entries, of_elements, entries-of_entries,
}
use resilient_python_api.Value.Laws.{elements-of_elements}
use resilient_python_api.Outcome.{Result, ok, get_key, get_item, iterate, ◌>>=◌}
use resilient_python_api.Ui.Elements.{Tab, Found, tab_dto, get_from_tabs, behind_one}
use resilient_python_api.Ui.Layouts.{LayoutClient, tabs_of, add_tab_to_layout}
use resilient_python_api.Outcome.Steps.{>>=-Between}

no_tab-behind : (v : Value) (o : Option Found) → ok (behind_one v o) ≡ ok none → o ≡ none
no_tab-behind v none h = refl
no_tab-behind v (some found) h = cc

one_behind :
    (uuid : String) (v : Value) (vs : List Value) (same : Bool) (longer : Result (Option Found))
    (last : Found)
    → (if same
        then ok (some (record { before = []; tab_data = v; behind = vs }))
        else (get_from_tabs uuid vs >>= λ found. ok (behind_one v found)))
      ≡ ok none
    → (get_from_tabs uuid vs ≡ ok none → longer ≡ ok (some last))
    → (ws : List Value)
    → (if same
        then ok (some (record { before = []; tab_data = v; behind = ws }))
        else (longer >>= λ found. ok (behind_one v found)))
      ≡ ok (some (record last { before = v ∷ last.before }))
one_behind uuid v vs true longer last h k ws = cc
one_behind uuid v vs false longer last h k ws =
    let (o, (found, left)) =
      >>=-Between (get_from_tabs uuid vs) (λ found. ok (behind_one v found)) h in
    rw (k (found ∙ ap ok (no_tab-behind v o left))) refl

get_from_tabs-append :
    (tab : Tab) (vs : List Value)
    → get_from_tabs tab.uuid vs ≡ ok none
    → get_from_tabs tab.uuid (vs ++ tab_dto tab ∷ [])
      ≡ ok (some (record { before = vs; tab_data = tab_dto tab; behind = [] }))
unfolding get_from_tabs lookup eq_value
get_from_tabs-append tab [] h = ground (arith, eq_iff tab.uuid tab.uuid)
get_from_tabs-append tab (v ∷ vs) h =
    let (other, (read, left)) = >>=-Between (get_key v "predefined_uuid") _ h in
    rw read (
      one_behind tab.uuid v vs (eq_value other (str tab.uuid)) _
        (record { before = vs; tab_data = tab_dto tab; behind = [] }) left
        (λ missing. get_from_tabs-append tab vs missing) _)

abbrev with_content : List Value → Fields → Value
with_content tabs fs = dict (of_entries (insert "content" (list_of tabs) (entries fs)))

get_field-with_content :
    (tabs : List Value) (fs : Fields)
    → get_field "content" (of_entries (insert "content" (list_of tabs) (entries fs)))
      ≡ some (list_of tabs)
get_field-with_content tabs fs =
    rw (entries-of_entries (insert "content" (list_of tabs) (entries fs)))
      (lookup-insert_self "content" (list_of tabs) (entries fs))

tabs_of-get_field :
    (gs : Fields) (xs : Items)
    → get_field "content" gs ≡ some (list xs)
    → tabs_of (dict gs) ≡ ok (elements xs)
unfolding iterate
tabs_of-get_field gs xs held = ap (λ o. ok (elim o [ none ↦ null | some v ↦ v ]) >>= iterate) held

tabs_of-with_content : (tabs : List Value) (fs : Fields) → tabs_of (with_content tabs fs) ≡ ok tabs
tabs_of-with_content tabs fs =
    tabs_of-get_field (of_entries (insert "content" (list_of tabs) (entries fs))) (of_elements tabs)
      (get_field-with_content tabs fs)
    ∙ ap ok (elements-of_elements tabs)

id-with_content :
    (tabs : List Value) (fs : Fields)
    → get_item (with_content tabs fs) "id" ≡ get_item (dict fs) "id"
id-with_content tabs fs =
    rw (entries-of_entries (insert "content" (list_of tabs) (entries fs)))
      (rw (lookup-insert "content" "id" (list_of tabs) (entries fs)) refl)

get_field-with_content_other :
    (tabs : List Value) (fs : Fields) (k : String)
    → get_field k (of_entries (insert "content" (list_of tabs) (entries fs)))
      ≡ (if "content" == k then some (list_of tabs) else get_field k fs)
get_field-with_content_other tabs fs k =
    rw (entries-of_entries (insert "content" (list_of tabs) (entries fs)))
      (lookup-insert "content" k (list_of tabs) (entries fs))

-- A layout, a dict with an id and a list of tabs, in which the tab is not found. With the tab added, one
-- request is made, with a whole layout: there the tab is found behind the others, as it was posted, the
-- tabs are the old ones with the new one behind them, and every other key has the value that it had.
pub add_tab_to_layout-get_from_tabs :
    {W : Type 0} (client : LayoutClient W) (text_of : Value → String) (tab : Tab) (fs : Fields)
    (id : Value) (tabs : Items) (w : W)
    → get_item (dict fs) "id" ≡ ok id
    → get_item (dict fs) "content" ≡ ok (list tabs)
    → get_from_tabs tab.uuid (elements tabs) ≡ ok none
    → (sent : Fields) × (add_tab_to_layout client text_of (dict fs) (tab_dto tab) w
        ≡ client.put ("/layouts/" ⧺ text_of id) (dict sent) w)
      × ((k : String)
          → get_field k sent ≡ (
              if "content" == k
              then some (list_of (elements tabs ++ tab_dto tab ∷ []))
              else get_field k fs))
      × (tabs_of (dict sent) >>= get_from_tabs tab.uuid
          ≡ ok (some (record { before = elements tabs; tab_data = tab_dto tab; behind = [] })))
unfolding add_tab_to_layout
add_tab_to_layout-get_from_tabs client text_of tab fs id tabs w named held missing =
    let all = elements tabs ++ tab_dto tab ∷ [] in
    (
      of_entries (insert "content" (list_of all) (entries fs)),
      rw held (rw (id-with_content all fs ∙ named) refl),
      get_field-with_content_other all fs,
      rw (tabs_of-with_content all fs) (get_from_tabs-append tab (elements tabs) missing),
    )
