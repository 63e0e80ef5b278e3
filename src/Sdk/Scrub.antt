-- ===== src/Sdk/Scrub.antt =====
-- resilient-sdk/resilient_sdk/util/sdk_helpers.py, rm_pii, and resilient/resilient/helpers.py,
-- remove_tag. Both look into dicts, and into the dicts that are elements of a list.
use resilient_python_api.Prelude.{
  String, Bool, true, false, List, [], ◌∷◌, ◌==◌, ◌&&◌, if◌then◌else◌,
}
use resilient_python_api.Value.{
  Value, Items, Fields, null, bool, int, str, list, dict, nil, cons, end, field, truthy,
}

-- key in names
unfoldable pub in_names : String → List String → Bool
in_names key [] = false
in_names key (name ∷ names) = let rest = in_names key names in if name == key then true else rest

module _ (pii_key_list : List String) where
  unfoldable mutual
    unfolding in_names

    pub rm_pii : Fields → Fields
    rm_pii end = end
    rm_pii (field key content fs) =
        if in_names key pii_key_list
        then rm_pii fs
        else field key (rm_pii_content content) (rm_pii fs)

    pub rm_pii_content : Value → Value
    rm_pii_content (dict fs) = dict (rm_pii fs)
    rm_pii_content (list xs) = list (rm_pii_elements xs)
    rm_pii_content null = null
    rm_pii_content (bool b) = bool b
    rm_pii_content (int n) = int n
    rm_pii_content (str s) = str s

    pub rm_pii_elements : Items → Items
    rm_pii_elements nil = nil
    rm_pii_elements (cons x xs) = cons (rm_pii_element x) (rm_pii_elements xs)

    pub rm_pii_element : Value → Value
    rm_pii_element (dict fs) = dict (rm_pii fs)
    rm_pii_element (list xs) = list xs
    rm_pii_element null = null
    rm_pii_element (bool b) = bool b
    rm_pii_element (int n) = int n
    rm_pii_element (str s) = str s

unfoldable mutual
  pub remove_tag : Value → Value
  remove_tag (dict fs) = dict (remove_tag_fields fs)
  remove_tag (list xs) = list xs
  remove_tag null = null
  remove_tag (bool b) = bool b
  remove_tag (int n) = int n
  remove_tag (str s) = str s

  pub remove_tag_fields : Fields → Fields
  remove_tag_fields end = end
  remove_tag_fields (field key value fs) =
      field key (if key == "tags" && truthy value then list nil else remove_tag_value value)
        (remove_tag_fields fs)

  pub remove_tag_value : Value → Value
  remove_tag_value (dict fs) = dict (remove_tag_fields fs)
  remove_tag_value (list xs) = list (remove_tag_elements xs)
  remove_tag_value null = null
  remove_tag_value (bool b) = bool b
  remove_tag_value (int n) = int n
  remove_tag_value (str s) = str s

  pub remove_tag_elements : Items → Items
  remove_tag_elements nil = nil
  remove_tag_elements (cons x xs) = cons (remove_tag x) (remove_tag_elements xs)
