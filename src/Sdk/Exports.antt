-- ===== src/Sdk/Exports.antt =====
-- What `minify_export` makes of a whole export.
use resilient_python_api.Prelude.{
  ℕ, String, Bool, true, false, Option, none, some, List, [], ◌∷◌, ◌++◌, ◌≡◌, refl, sym, ◌∙◌, subst,
  ap, if◌then◌else◌, ◌==◌, Assoc, lookup, insert, lookup-insert, eq_iff, Bool-cases, inl, inr,
  mapped,
}
use resilient_python_api.Value.{
  Value, Items, Fields, list, end, field, nil, get_field, entries, elements, list_of,
  entries-of_entries,
}
use resilient_python_api.Outcome.{Result, ok, ◌>>=◌}
use resilient_python_api.Sdk.Scrub.{in_names, rm_pii, rm_pii_content, remove_tag_fields}
use resilient_python_api.Sdk.Scrubbed.{untagged}
use resilient_python_api.Sdk.Sections.{FitsAll, left_of, all_left}
use resilient_python_api.Sdk.Minify.{
  Selection, kept_keys, keys_to_minify, default_incident_type, default_incident_field, set_field,
  pii_key_list,
}

get_field-set_field :
    (key k : String) (v : Value) (fs : Fields)
    → get_field k (set_field key v fs) ≡ (if key == k then some v else get_field k fs)
get_field-set_field key k v fs =
    rw (entries-of_entries (insert key v (entries fs))) (lookup-insert key k v (entries fs))

module _ (keep : List String) (by_name : Assoc (String × List Value)) where
  abbrev left_at : String → Value → Value
  left_at key value = left_of (in_names key keep) (lookup key by_name) key value

  get_field-all_left :
      (k : String) (fs : Fields)
      → get_field k (all_left keep by_name fs) ≡ mapped (left_at k) (get_field k fs)
  unfolding lookup
  get_field-all_left k end = refl
  get_field-all_left k (field j v fs) = elim (Bool-cases (j == k)) [
    | inl e ↦ rw e (rw ((eq_iff j k).0 e))
    | inr n ↦ rw n (get_field-all_left k fs)
  ]

-- A section that is there stays a list.
left_of-list :
    (kept : Bool) (wanted : Option (String × List Value)) (key : String) (xs : Items)
    → in_names key ("overrides" ∷ []) ≡ false
    → (left : Items) × (left_of kept wanted key (list xs) ≡ list left)
left_of-list true wanted key xs h = (xs, refl)
left_of-list false none key xs h = (nil, rw h)
left_of-list false (some (attribute_name, names)) key xs h = (_, refl)

-- A section with one item more.
abbrev pub appended : Value → Value → Value
appended (list xs) item = list_of (elements xs ++ item ∷ [])
appended v item = v

-- The sections that get a default object.
abbrev pub with_defaults : ℕ → String → Value → Value
with_defaults default_time key value =
    if "incident_types" == key
    then appended value (default_incident_type default_time)
    else (if "fields" == key then appended value default_incident_field else value)

-- What the export has under a key in the end, by what it had there.
abbrev pub exported : ℕ → Selection → List Value → String → Value → Value
exported default_time selection names key value = untagged key (
    rm_pii_content pii_key_list (
      with_defaults default_time key (
        left_of (in_names key (kept_keys selection.keys_to_keep))
          (lookup key (keys_to_minify selection names)) key value)))

abbrev pub Shows : (String → Value → Value) → Fields → Fields → Type 0
Shows f fs result =
    (key : String)
    → get_field key result
      ≡ (if in_names key pii_key_list then none else mapped (f key) (get_field key fs))

module _ (default_time : ℕ) (selection : Selection) (fs : Fields) (names : List Value)
    (types fields : Items) (has_types : get_field "incident_types" fs ≡ some (list types))
    (has_fields : get_field "fields" fs ≡ some (list fields))
    (no_incident : in_names "incident/" selection.fields ≡ false)
    (fits : FitsAll (kept_keys selection.keys_to_keep) (keys_to_minify selection names) fs) where
  abbrev keep : List String
  keep = kept_keys selection.keys_to_keep

  abbrev wanted : Assoc (String × List Value)
  wanted = keys_to_minify selection names

  types_left : (left : Items) × (left_at keep wanted "incident_types" (list types) ≡ list left)
  unfolding in_names
  types_left =
      left_of-list (in_names "incident_types" keep) (lookup "incident_types" wanted)
        "incident_types" types refl

  fields_left : (left : Items) × (left_at keep wanted "fields" (list fields) ≡ list left)
  unfolding in_names
  fields_left = left_of-list (in_names "fields" keep) (lookup "fields" wanted) "fields" fields refl

  abbrev whole : Fields
  whole = set_field "fields" (appended (list fields_left.0) default_incident_field) (
      set_field "incident_types" (appended (list types_left.0) (default_incident_type default_time))
        (all_left keep wanted fs))

  abbrev finished : Result Fields → Result Fields
  finished r = r >>= λ all. ok (remove_tag_fields (rm_pii pii_key_list all))

  abbrev typed : Fields
  typed =
      set_field "incident_types" (appended (list types_left.0) (default_incident_type default_time))
        (all_left keep wanted fs)

  abbrev IsShown : String → Type 0
  IsShown key =
      get_field key whole
      ≡ mapped (λ v. with_defaults default_time key (left_at keep wanted key v)) (get_field key fs)

  shown_types : IsShown "incident_types"
  shown_types =
      get_field-set_field "fields" "incident_types"
        (appended (list fields_left.0) default_incident_field) typed
      ∙ get_field-set_field "incident_types" "incident_types"
          (appended (list types_left.0) (default_incident_type default_time))
          (all_left keep wanted fs)
      ∙ rw has_types
          (ap (λ v. some (appended v (default_incident_type default_time))) (sym types_left.1))

  shown_fields : IsShown "fields"
  shown_fields =
      get_field-set_field "fields" "fields" (appended (list fields_left.0) default_incident_field)
        typed
      ∙ rw has_fields (ap (λ v. some (appended v default_incident_field)) (sym fields_left.1))

  shown_other :
      (key : String) → ("incident_types" == key) ≡ false → ("fields" == key) ≡ false → IsShown key
  shown_other key not_types not_fields =
      get_field-set_field "fields" key (appended (list fields_left.0) default_incident_field) typed
      ∙ rw not_fields (
          get_field-set_field "incident_types" key
            (appended (list types_left.0) (default_incident_type default_time))
            (all_left keep wanted fs)
          ∙ rw not_types (get_field-all_left keep wanted key fs))

  shown : (key : String) → IsShown key
  shown key = elim (Bool-cases ("incident_types" == key)) [
    | inl e ↦ subst IsShown ((eq_iff "incident_types" key).0 e) shown_types
    | inr n ↦ elim (Bool-cases ("fields" == key)) [
      | inl e ↦ subst IsShown ((eq_iff "fields" key).0 e) shown_fields
      | inr m ↦ shown_other key n m
    ]
  ]
