-- ===== src/Incidents.antt =====
-- close_incident and its helpers, of resilient-lib/resilient_lib/components/resilient_common.py. The
-- cache of the package cachetools, which may answer in place of the request for the fields, is a
-- parameter.
use resilient_python_api.Prelude.{
  String, Bool, true, false, Option, none, some, if◌then◌else◌, List, [], ◌∷◌, Assoc, lookup,
  has_key, insert, ◌==◌,
}
use resilient_python_api.Value.{Value, null, str, list, dict, nil, entries, eq_value}
use resilient_python_api.Outcome.{
  Result, Exec, ok, err, ◌>>=◌, value_error, type_error, get_key, Response,
}
use resilient_python_api.Patch.{Patch, new_patch, add_value, and_then}
use resilient_python_api.RestClient.{RestClient, ObjectId, is_given, shown}
use Prim.Native.String.{◌++◌ as ◌⧺◌}
pub mod Closing

-- [field for field in fields if fields[field].get("required") == "close"]
unfoldable pub required_of : Assoc Value → Result (List String)
required_of [] = ok []
required_of ((field, description) ∷ fields) = do
  required ← get_key description "required"
  rest ← required_of fields
  ok (if eq_value required (str "close") then field ∷ rest else rest)

-- Where `fields` is no dict: a loop over an empty sequence ends, and all else raises.
unfoldable pub required_fields : Value → Result (List String)
unfolding required_of
required_fields (dict fs) = required_of (entries fs)
required_fields (list nil) = ok []
required_fields (str s) = if s == "" then ok [] else err type_error
required_fields _ = err type_error

-- [field for field in required_fields if field not in kwargs]
abbrev pub missing : List String → Assoc Value → List String
missing [] kwargs = []
missing (field ∷ fields) kwargs =
    let rest = missing fields kwargs in if has_key field kwargs then rest else field ∷ rest

abbrev pub with_plan_status : Assoc Value → Assoc Value
with_plan_status kwargs =
    if has_key "plan_status" kwargs then kwargs else insert "plan_status" (str "C") kwargs

-- for field in close_fields: patch.add_value(field, close_fields[field])
unfoldable pub add_values : Assoc Value → Exec Patch (Unit {0})
add_values [] patch = (ok tt, patch)
add_values ((field, value) ∷ fields) patch =
    and_then (add_value field value none patch) (λ _. add_values fields)

abbrev pub incident_uri : ObjectId → Bool → String
incident_uri incident_id handle_names =
    let uri = "/incidents/" ⧺ shown incident_id in
    if handle_names then uri ⧺ "?handle_format=names" else uri

module _ {W : Type 0} (res_client : RestClient W) where
  abbrev pub get_incident_fields : W → Result Value × W
  get_incident_fields w =
      let (response, w') = res_client.get "/types/incident" w in
      (response >>= λ found. get_key found "fields", w')

  -- The response of `res_client.patch`; the patch is dropped.
  abbrev pub response_of : Option ((Result Response × Patch) × W) → Option (Result Response × W)
  response_of none = none
  response_of (some ((response, patch), w)) = some (response, w)

  abbrev pub sent : String → Result (Unit {0}) × Patch → W → Option (Result Response × W)
  sent uri (err e, patch) w = some (err e, w)
  sent uri (ok _, patch) w = response_of (res_client.patch uri patch w)

  abbrev pub filled : String → Assoc Value → Result Patch → W → Option (Result Response × W)
  filled uri close_fields (err e) w = some (err e, w)
  filled uri close_fields (ok patch) w = sent uri (add_values close_fields patch) w

  abbrev pub patched : String → Assoc Value → Result Value × W → Option (Result Response × W)
  patched uri close_fields (err e, w) = some (err e, w)
  patched uri close_fields (ok previous_object, w) =
      filled uri close_fields (new_patch previous_object null) w

  unfoldable pub patch_to_close_incident :
      ObjectId → Assoc Value → Bool → W → Option (Result Response × W)
  unfolding add_values
  patch_to_close_incident incident_id close_fields handle_names w =
      patched (incident_uri incident_id handle_names) close_fields
        (res_client.get (incident_uri incident_id handle_names) w)

  abbrev pub closed_unless :
      List String → ObjectId → Assoc Value → Bool → W → Option (Result Response × W)
  closed_unless [] incident_id kwargs handle_names w =
      patch_to_close_incident incident_id (with_plan_status kwargs) handle_names w
  closed_unless (field ∷ fields) incident_id kwargs handle_names w =
      some (err (value_error "Missing mandatory field(s) to close an incident: {0}"), w)

  abbrev pub closed :
      Result (List String) → ObjectId → Assoc Value → Bool → W → Option (Result Response × W)
  closed (err e) incident_id kwargs handle_names w = some (err e, w)
  closed (ok required) incident_id kwargs handle_names w =
      closed_unless (missing required kwargs) incident_id kwargs handle_names w

  abbrev pub closed_with :
      Result Value × W → ObjectId → Assoc Value → Bool → Option (Result Response × W)
  closed_with (fields, w) incident_id kwargs handle_names =
      closed (fields >>= required_fields) incident_id kwargs handle_names w

  -- close_incident, where `cached` is the cache around `get_incident_fields`.
  unfoldable pub close_incident :
      ((W → Result Value × W) → W → Result Value × W)
      → ObjectId
      → Assoc Value
      → Bool
      → W
      → Option (Result Response × W)
  unfolding patch_to_close_incident required_fields
  close_incident cached incident_id kwargs handle_names w =
      if is_given incident_id
      then closed_with (cached get_incident_fields w) incident_id kwargs handle_names
      else some (err (value_error "'incident_id' must be specified"), w)
