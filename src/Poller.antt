-- ===== src/Poller.antt =====
-- SOARCommon of resilient-lib/resilient_lib/components/poller_common.py: updating a case, and which
-- comments are new.
use resilient_python_api.Prelude.{
  String, Bool, true, false, Option, none, some, if◌then◌else◌, List, [], ◌∷◌, Assoc, insert, eqb,
  ◌==◌,
}
use resilient_python_api.Value.{Value, null, int, str, dict, dict_of, entries, ℤ}
use resilient_python_api.Outcome.{
  Error, Result, Exec, ok, err, ◌>>=◌, type_error, attribute_error, json_decode_error,
  integration_error, system_exit, Response, is_in, as_integration_error,
}
use resilient_python_api.Patch.{Patch, new_patch, add_value, and_then}
use resilient_python_api.RestClient.{RestClient, ObjectId, no_id, number, text, shown}
use resilient_python_api.Incidents.{add_values}
use Prim.Native.String.{◌++◌ as ◌⧺◌}
pub mod Updates
pub mod Comments

-- _chk_status with the default `rc`
unfoldable pub chk_status : Response → Result Value
chk_status resp =
    if eqb resp.status_code 200
    then elim resp.json [ none ↦ err json_decode_error | some v ↦ ok v ]
    else err integration_error

abbrev pub id_value : ObjectId → Value
id_value no_id = null
id_value (number n) = int n
id_value (text s) = str s

-- result['id'] = case_id
abbrev pub with_id : ObjectId → Value → Result Value
with_id case_id (dict fs) = ok (dict_of (insert "id" (id_value case_id) (entries fs)))
with_id case_id _ = err type_error

-- for field_name, field_value in properties.items(): patch.add_value(field_name, field_value)
abbrev pub add_properties : Value → Exec Patch (Unit {0})
add_properties (dict fs) patch = add_values (entries fs) patch
add_properties _ patch = (err attribute_error, patch)

unfoldable pub add_payload : Assoc Value → Exec Patch (Unit {0})
unfolding add_values
add_payload [] patch = (ok tt, patch)
add_payload ((name, value) ∷ payload) patch =
    if name == "properties"
    then and_then (add_properties value patch) (λ _. add_payload payload)
    else and_then (add_value name value none patch) (λ _. add_payload payload)

abbrev pub case_url : ObjectId → String
case_url case_id = "/incidents" ⧺ ("/" ⧺ shown case_id)

module _ {W : Type 0} (rest_client : RestClient W) where
  abbrev pub answered :
      ObjectId → Option ((Result Response × Patch) × W) → Option (Result Value × W)
  answered case_id none = none
  answered case_id (some ((response, patch), w)) =
      some (response >>= chk_status >>= with_id case_id, w)

  abbrev pub sent : ObjectId → Result (Unit {0}) × Patch → W → Option (Result Value × W)
  sent case_id (err e, patch) w = some (err e, w)
  sent case_id (ok _, patch) w = answered case_id (rest_client.patch (case_url case_id) patch w)

  abbrev pub filled : ObjectId → Assoc Value → Result Patch → W → Option (Result Value × W)
  filled case_id payload (err e) w = some (err e, w)
  filled case_id payload (ok patch) w = sent case_id (add_payload payload patch) w

  -- The body of the try statement in `_patch_case`.
  abbrev pub tried : ObjectId → Assoc Value → Result Value × W → Option (Result Value × W)
  tried case_id payload (err e, w) = some (err e, w)
  tried case_id payload (ok case, w) = filled case_id payload (new_patch case null) w

  abbrev pub caught : Option (Result Value × W) → Option (Result Value × W)
  caught none = none
  caught (some (result, w)) = some (as_integration_error result, w)

  -- _patch_case
  unfoldable pub patch_case : ObjectId → Assoc Value → W → Option (Result Value × W)
  unfolding add_payload chk_status
  patch_case case_id case_payload w =
      caught (tried case_id case_payload (rest_client.get (case_url case_id) w))

-- `clean_html` takes the text out of an HTML fragment with the package bs4.
module _ (clean_html : String → String) where
  abbrev pub contains_text : String → String → Bool
  contains_text part whole = elim (is_in part (str whole)) [ ok b ↦ b | err _ ↦ false ]

  -- [comment for comment in entity_comments if clean_html(filter_soar_header) not in clean_html(comment)]
  unfoldable pub without_header : String → List String → List String
  without_header header [] = []
  without_header header (comment ∷ comments) =
      let rest = without_header header comments in
      if contains_text (clean_html header) (clean_html comment) then rest else comment ∷ rest

  -- clean_html(comment) in [clean_html(soar_comment) for soar_comment in soar_comment_list]
  unfoldable pub already_synced : List String → String → Bool
  already_synced [] comment = false
  already_synced (soar_comment ∷ soar_comments) comment =
      let rest = already_synced soar_comments comment in
      if clean_html soar_comment == clean_html comment then true else rest

  unfoldable pub not_synced : List String → List String → List String
  unfolding already_synced
  not_synced soar_comments [] = []
  not_synced soar_comments (comment ∷ comments) =
      let rest = not_synced soar_comments comments in
      if already_synced soar_comments comment then rest else comment ∷ rest

  abbrev pub staged : Option String → List String → List String
  staged none comments = comments
  staged (some header) comments = if header == "" then comments else without_header header comments

  -- _filter_comments
  unfoldable pub filter_comments : List String → List String → Option String → List String
  unfolding without_header not_synced
  filter_comments [] entity_comments filter_soar_header = staged filter_soar_header entity_comments
  filter_comments (s ∷ ss) entity_comments filter_soar_header =
      not_synced (s ∷ ss) (staged filter_soar_header entity_comments)
