-- ===== src/Ui/Elements.antt =====
-- resilient-lib/resilient_lib/ui/elements.py and tab.py: what an element posts, and whether it is among
-- the fields of a tab. `clean_text` is clean_html of resilient_common.py on a text, which the package
-- bs4 does.
use resilient_python_api.Prelude.{
  String, Bool, true, false, Option, none, some, List, [], ◌∷◌, if◌then◌else◌, map, ◌&&◌, ◌||◌,
  ◌==◌,
}
use resilient_python_api.Value.{Value, bool, str, dict_of, list_of, eq_value}
use resilient_python_api.Outcome.{Result, ok, get_item, get_key, iterate, ◌>>=◌}

-- The elements that are no section.
pub data Basic : Type 0 where
  field datatable view html : String → Basic
  header : String → Bool → Basic

pub data Element : Type 0 where
  basic : Basic → Element
  section : List Basic → List Value → Bool → Element

-- ELEMENT_TYPE
abbrev pub element_type : Basic → String
element_type (field name) = "field"
element_type (datatable name) = "datatable"
element_type (view name) = "view"
element_type (html content) = "html"
element_type (header content link) = "header"

-- api_name
abbrev pub api_name : Basic → String
api_name (field name) = name
api_name (datatable name) = name
api_name (view name) = name
api_name (html content) = content
api_name (header content link) = content

abbrev pub basic_dto : Basic → Value
basic_dto (field name) =
    dict_of (("content", str name) ∷ ("element", str "field") ∷ ("field_type", str "incident") ∷ [])
basic_dto (datatable name) = dict_of (("element", str "datatable") ∷ ("content", str name) ∷ [])
basic_dto (view name) = dict_of (("element", str "view") ∷ ("content", str name) ∷ [])
basic_dto (html content) = dict_of (("element", str "html") ∷ ("content", str content) ∷ [])
basic_dto (header content link) =
    dict_of
      (("element", str "header") ∷ ("content", str content) ∷ ("show_link_header", bool link) ∷ [])

-- as_dto
abbrev pub as_dto : Element → Value
as_dto (basic b) = basic_dto b
as_dto (section fields show_if link) = dict_of (
    ("element", str "section")
    ∷ ("fields", list_of (map basic_dto fields))
    ∷ ("show_if", list_of show_if)
    ∷ ("show_link_header", bool link)
    ∷ [])

module _ (clean_text : String → String) where
  -- clean_html
  abbrev pub clean_html : Value → Value
  clean_html (str s) = if s == "" then str s else str (clean_text s)
  clean_html v = v

  -- The comparison of a field's content with that of the element.
  abbrev pub has_content : Basic → Value → Bool
  has_content (html content) v = eq_value (clean_html v) (clean_html (str content))
  has_content (field name) v = eq_value v (str name)
  has_content (datatable name) v = eq_value v (str name)
  has_content (view name) v = eq_value v (str name)
  has_content (header content link) v = eq_value v (str content)

  abbrev pub is_same : Basic → Value → Result Bool
  is_same b v = get_item v "element" >>= λ element.
      if eq_value element (str (element_type b))
      then (get_item v "content" >>= λ content. ok (has_content b content))
      else ok false

  -- exists_in: the fields behind one that matches are not looked at.
  unfoldable pub basic_exists_in : Basic → List Value → Result Bool
  unfolding eq_value
  basic_exists_in b [] = ok false
  basic_exists_in b (v ∷ vs) =
      let rest = basic_exists_in b vs in is_same b v >>= λ same. if same then ok true else rest

  unfoldable pub sections_in : List Value → Result (List Value)
  unfolding eq_value
  sections_in [] = ok []
  sections_in (v ∷ vs) = do
    element ← get_item v "element"
    rest ← sections_in vs
    ok (if eq_value element (str "section") then v ∷ rest else rest)

  -- all([field.exists_in(fields) for field in self.fields])
  unfoldable pub all_exist_in : List Basic → Value → Result Bool
  unfolding basic_exists_in iterate
  all_exist_in [] fields = ok true
  all_exist_in (b ∷ bs) fields = do
    items ← iterate fields
    here ← basic_exists_in b items
    rest ← all_exist_in bs fields
    ok (here && rest)

  unfoldable pub any_matches : List Basic → List Value → Result Bool
  unfolding all_exist_in
  any_matches bs [] = ok false
  any_matches bs (v ∷ vs) = do
    fields ← get_key v "fields"
    full ← all_exist_in bs fields
    rest ← any_matches bs vs
    ok (full || rest)

  unfoldable pub exists_in : Element → List Value → Result Bool
  unfolding basic_exists_in sections_in any_matches
  exists_in (basic b) vs = basic_exists_in b vs
  exists_in (section bs show_if link) vs = sections_in vs >>= λ sections. any_matches bs sections

  -- [field.as_dto() for field in cls.CONTAINS if not field.exists_in(tab_fields)]
  unfoldable pub missing_among : List Element → List Value → Result (List Value)
  unfolding exists_in
  missing_among [] vs = ok []
  missing_among (e ∷ es) vs = do
    there ← exists_in e vs
    rest ← missing_among es vs
    ok (if there then rest else as_dto e ∷ rest)

  -- The fields are looked at for each element only.
  abbrev pub missing_in : List Element → Value → Result (List Value)
  missing_in [] fields = ok []
  missing_in (e ∷ es) fields = iterate fields >>= missing_among (e ∷ es)

-- A subclass of Tab. `show_if` is none where the class has no SHOW_IF.
pub record Tab : Type 0 where
  pub uuid : String
  pub name : String
  pub app_section : String
  pub contains : List Element
  pub show_if : Option (List Value)

abbrev pub shown_if : Option (List Value) → List Value
shown_if none = []
shown_if (some conditions) = conditions

-- Tab.as_dto
abbrev pub tab_dto : Tab → Value
tab_dto tab = dict_of (
    ("step_label", str tab.name)
    ∷ ("fields", list_of (map as_dto tab.contains))
    ∷ ("show_if", list_of (shown_if tab.show_if))
    ∷ ("element", str "tab")
    ∷ ("field_type", str "incident")
    ∷ ("predefined_uuid", str tab.uuid)
    ∷ ("show_link_header", bool false)
    ∷ [])

-- get_from_tabs: the tab, with those before and behind it.
pub record Found : Type 0 where
  pub before : List Value
  pub tab_data : Value
  pub behind : List Value

abbrev pub behind_one : Value → Option Found → Option Found
behind_one v none = none
behind_one v (some found) = some (record found { before = v ∷ found.before })

unfoldable pub get_from_tabs : String → List Value → Result (Option Found)
unfolding eq_value
get_from_tabs uuid [] = ok none
get_from_tabs uuid (v ∷ vs) =
    let rest = get_from_tabs uuid vs >>= λ found. ok (behind_one v found) in
    get_key v "predefined_uuid" >>= λ other.
    if eq_value other (str uuid)
    then ok (some (record { before = []; tab_data = v; behind = vs }))
    else rest
