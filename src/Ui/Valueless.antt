-- ===== src/Ui/Valueless.antt =====
-- The conditions of a tab without a value, when the tab is brought up to date
-- (resilient-lib/resilient_lib/ui/common.py).
use resilient_python_api.Prelude.{
  String, true, inl, inr, ◌⊎◌, Option, none, some, List, [], ◌∷◌, ◌≡◌, refl,
}
use resilient_python_api.Value.{
  Value, Fields, Items, null, bool, int, str, list, dict, get_field, elements, truthy,
}
use resilient_python_api.Outcome.{ok, err, key_error, get_key, iterate}
use resilient_python_api.Ui.Elements.{Tab, Found, get_from_tabs}
use resilient_python_api.Ui.Layouts.{
  drop_null, without_nulls, update_conditions, add_missing_conditions, add_missing_fields, tabs_of,
  LayoutClient, update_tab,
}

-- The conditions are dicts, and at least one has no "value".
pub data HasValueless : List Value → Type 0 where
  this : {fs : Fields} {vs : List Value} → get_field "value" fs ≡ none → HasValueless (dict fs ∷ vs)
  later : {fs : Fields} {vs : List Value} → HasValueless vs → HasValueless (dict fs ∷ vs)

drop_null-cases :
    (fs : Fields) (o : Option Value)
    → (drop_null fs o ≡ err key_error) ⊎ ((v : Value) × (drop_null fs o ≡ ok v))
drop_null-cases fs none = inl refl
drop_null-cases fs (some null) = inr (_, refl)
drop_null-cases fs (some (bool b)) = inr (_, refl)
drop_null-cases fs (some (int n)) = inr (_, refl)
drop_null-cases fs (some (str s)) = inr (_, refl)
drop_null-cases fs (some (list xs)) = inr (_, refl)
drop_null-cases fs (some (dict gs)) = inr (_, refl)

without_nulls-key_error : (vs : List Value) → HasValueless vs → without_nulls vs ≡ err key_error
unfolding without_nulls
without_nulls-key_error [] h = elim h [ ]
without_nulls-key_error (null ∷ vs) h = elim h [ ]
without_nulls-key_error (bool _ ∷ vs) h = elim h [ ]
without_nulls-key_error (int _ ∷ vs) h = elim h [ ]
without_nulls-key_error (str _ ∷ vs) h = elim h [ ]
without_nulls-key_error (list _ ∷ vs) h = elim h [ ]
without_nulls-key_error (dict fs ∷ vs) (this e) = rw e refl
without_nulls-key_error (dict fs ∷ vs) (later h) =
    elim (drop_null-cases fs (get_field "value" fs)) [
      | inl e ↦ rw e refl
      | inr (v, e) ↦ rw e (rw (without_nulls-key_error vs h))
    ]

truthy-valueless : (xs : Items) → HasValueless (elements xs) → truthy (list xs) ≡ true
truthy-valueless Items.nil h = elim h [ ]
truthy-valueless (Items.cons v xs) h = refl

update_conditions-key_error :
    (tab : Tab) (tab_data : Value) (xs : Items)
    → get_key tab_data "show_if" ≡ ok (list xs)
    → HasValueless (elements xs)
    → update_conditions tab tab_data ≡ err key_error
unfolding update_conditions iterate
update_conditions-key_error tab tab_data xs held valueless =
    rw held
      (rw (truthy-valueless xs valueless) (rw (without_nulls-key_error (elements xs) valueless)))

module _ {W : Type 0} (client : LayoutClient W) (text_of : Value → String)
    (clean_text : String → String) where
  -- A tab that has its fields, and whose conditions on the server are dicts of which one has no key
  -- "value": the update of the tab raises a KeyError, and nothing is sent.
  pub update_tab-key_error :
      (tab : Tab) (layout : Value) (tabs : List Value) (found : Found) (xs : Items) (w : W)
      → add_missing_fields clean_text tab layout ≡ ok layout
      → tabs_of layout ≡ ok tabs
      → get_from_tabs tab.uuid tabs ≡ ok (some found)
      → get_key found.tab_data "show_if" ≡ ok (list xs)
      → HasValueless (elements xs)
      → update_tab client text_of clean_text tab layout w ≡ (err key_error, w)
  unfolding update_tab add_missing_conditions
  update_tab-key_error tab layout tabs found xs w complete content there held valueless =
      rw complete (
        rw content
          (rw there (rw (update_conditions-key_error tab found.tab_data xs held valueless))))
