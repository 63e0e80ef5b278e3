-- ===== src/Sdk/Scrubbed.antt =====
-- What `rm_pii` and `remove_tag` leave of an export.
use resilient_python_api.Prelude.{
  String, Bool, true, List, ◌≡◌, refl, arith, ◌==◌, ◌&&◌, not, mapped, none, if◌then◌else◌,
  Bool-cases, inl, inr,
}
use resilient_python_api.Value.{
  Value, Items, Fields, null, bool, int, str, list, dict, nil, cons, end, field, truthy, get_field,
}
use resilient_python_api.Prelude.{lookup, eq_iff}
use resilient_python_api.Sdk.Scrub.{
  in_names, rm_pii, rm_pii_content, rm_pii_elements, rm_pii_element, remove_tag, remove_tag_fields,
  remove_tag_value, remove_tag_elements,
}

-- A dict and the dicts that are reached from it through dicts and through lists of dicts have a property
-- of their entries. As in the code, a list that is an element of a list is not looked into.
module _ (allowed : String → Value → Bool) where
  unfoldable mutual
    pub entries_allowed : Fields → Bool
    entries_allowed end = true
    entries_allowed (field key value fs) =
        allowed key value && value_allowed value && entries_allowed fs

    pub value_allowed : Value → Bool
    value_allowed (dict fs) = entries_allowed fs
    value_allowed (list xs) = elements_allowed xs
    value_allowed null = true
    value_allowed (bool b) = true
    value_allowed (int n) = true
    value_allowed (str s) = true

    pub elements_allowed : Items → Bool
    elements_allowed nil = true
    elements_allowed (cons x xs) = element_allowed x && elements_allowed xs

    pub element_allowed : Value → Bool
    element_allowed (dict fs) = entries_allowed fs
    element_allowed (list xs) = true
    element_allowed null = true
    element_allowed (bool b) = true
    element_allowed (int n) = true
    element_allowed (str s) = true

abbrev pub is_unlisted : List String → String → Value → Bool
is_unlisted names key value = not (in_names key names)

abbrev pub is_untagged : String → Value → Bool
is_untagged key value = not (key == "tags" && truthy value)

module _ (names : List String) where
  mutual
    unfolding rm_pii rm_pii_content rm_pii_elements rm_pii_element entries_allowed value_allowed
        elements_allowed element_allowed

    rm_pii_entries : (fs : Fields) → entries_allowed (is_unlisted names) (rm_pii names fs) ≡ true
    rm_pii_entries end = refl
    rm_pii_entries (field k v fs) = ground (arith, rm_pii_value v, rm_pii_entries fs)

    rm_pii_value : (v : Value) → value_allowed (is_unlisted names) (rm_pii_content names v) ≡ true
    rm_pii_value (dict fs) = rm_pii_entries fs
    rm_pii_value (list xs) = rm_pii_items xs
    rm_pii_value null = refl
    rm_pii_value (bool b) = refl
    rm_pii_value (int n) = refl
    rm_pii_value (str s) = refl

    rm_pii_items :
        (xs : Items) → elements_allowed (is_unlisted names) (rm_pii_elements names xs) ≡ true
    rm_pii_items nil = refl
    rm_pii_items (cons x xs) = ground (arith, rm_pii_item x, rm_pii_items xs)

    rm_pii_item : (v : Value) → element_allowed (is_unlisted names) (rm_pii_element names v) ≡ true
    rm_pii_item (dict fs) = rm_pii_entries fs
    rm_pii_item (list xs) = refl
    rm_pii_item null = refl
    rm_pii_item (bool b) = refl
    rm_pii_item (int n) = refl
    rm_pii_item (str s) = refl

  pub rm_pii-entries_allowed :
      (fs : Fields) → entries_allowed (is_unlisted names) (rm_pii names fs) ≡ true
  rm_pii-entries_allowed fs = rm_pii_entries fs

mutual
  unfolding remove_tag remove_tag_fields remove_tag_value remove_tag_elements entries_allowed
      value_allowed elements_allowed element_allowed

  untagged_entries : (fs : Fields) → entries_allowed is_untagged (remove_tag_fields fs) ≡ true
  untagged_entries end = refl
  untagged_entries (field k v fs) =
      ground (arith, untagged_value v, untagged_truthy v, untagged_entries fs)

  untagged_value : (v : Value) → value_allowed is_untagged (remove_tag_value v) ≡ true
  untagged_value (dict fs) = untagged_entries fs
  untagged_value (list xs) = untagged_items xs
  untagged_value null = refl
  untagged_value (bool b) = refl
  untagged_value (int n) = refl
  untagged_value (str s) = refl

  untagged_truthy : (v : Value) → truthy (remove_tag_value v) ≡ truthy v
  untagged_truthy (dict end) = refl
  untagged_truthy (dict (field k v fs)) = refl
  untagged_truthy (list nil) = refl
  untagged_truthy (list (cons x xs)) = refl
  untagged_truthy null = refl
  untagged_truthy (bool b) = refl
  untagged_truthy (int n) = refl
  untagged_truthy (str s) = refl

  untagged_items : (xs : Items) → elements_allowed is_untagged (remove_tag_elements xs) ≡ true
  untagged_items nil = refl
  untagged_items (cons x xs) = ground (arith, untagged_item x, untagged_items xs)

  untagged_item : (v : Value) → element_allowed is_untagged (remove_tag v) ≡ true
  untagged_item (dict fs) = untagged_entries fs
  untagged_item (list xs) = refl
  untagged_item null = refl
  untagged_item (bool b) = refl
  untagged_item (int n) = refl
  untagged_item (str s) = refl

pub remove_tag_fields-entries_allowed :
    (fs : Fields) → entries_allowed is_untagged (remove_tag_fields fs) ≡ true
remove_tag_fields-entries_allowed fs = untagged_entries fs

-- Removing tags adds no key.
module _ (names : List String) where
  mutual
    unfolding remove_tag remove_tag_fields remove_tag_value remove_tag_elements entries_allowed
        value_allowed elements_allowed element_allowed

    still_entries :
        (fs : Fields)
        → entries_allowed (is_unlisted names) fs ≡ true
        → entries_allowed (is_unlisted names) (remove_tag_fields fs) ≡ true
    still_entries end h = refl
    still_entries (field k v fs) h = ground (arith, still_value v, still_entries fs)

    still_value :
        (v : Value)
        → value_allowed (is_unlisted names) v ≡ true
        → value_allowed (is_unlisted names) (remove_tag_value v) ≡ true
    still_value (dict fs) h = still_entries fs h
    still_value (list xs) h = still_items xs h
    still_value null h = refl
    still_value (bool b) h = refl
    still_value (int n) h = refl
    still_value (str s) h = refl

    still_items :
        (xs : Items)
        → elements_allowed (is_unlisted names) xs ≡ true
        → elements_allowed (is_unlisted names) (remove_tag_elements xs) ≡ true
    still_items nil h = refl
    still_items (cons x xs) h = ground (arith, still_item x, still_items xs)

    still_item :
        (v : Value)
        → element_allowed (is_unlisted names) v ≡ true
        → element_allowed (is_unlisted names) (remove_tag v) ≡ true
    still_item (dict fs) h = still_entries fs h
    still_item (list xs) h = refl
    still_item null h = refl
    still_item (bool b) h = refl
    still_item (int n) h = refl
    still_item (str s) h = refl

  pub remove_tag_fields-is_unlisted :
      (fs : Fields)
      → entries_allowed (is_unlisted names) fs ≡ true
      → entries_allowed (is_unlisted names) (remove_tag_fields fs) ≡ true
  remove_tag_fields-is_unlisted fs h = still_entries fs h

-- What is read of the result under a key.
pub lookup-rm_pii :
    (names : List String) (key : String) (fs : Fields)
    → get_field key (rm_pii names fs)
      ≡ (if in_names key names then none else mapped (rm_pii_content names) (get_field key fs))
unfolding rm_pii lookup
lookup-rm_pii names key end = ground arith
lookup-rm_pii names key (field k v fs) = ground (arith, lookup-rm_pii names key fs, eq_iff k key)

-- What becomes of an entry.
abbrev pub untagged : String → Value → Value
untagged key v = if key == "tags" && truthy v then list nil else remove_tag_value v

pub lookup-remove_tag :
    (key : String) (fs : Fields)
    → get_field key (remove_tag_fields fs) ≡ mapped (untagged key) (get_field key fs)
unfolding remove_tag_fields lookup
lookup-remove_tag key end = refl
lookup-remove_tag key (field k v fs) = elim (Bool-cases (k == key)) [
  | inl e ↦ rw e (rw ((eq_iff k key).0 e))
  | inr n ↦ rw n (lookup-remove_tag key fs)
]
