-- ===== src/Attachments.antt =====
-- get_file_attachment, get_file_attachment_metadata and get_file_attachment_name of
-- resilient-lib/resilient_lib/components/resilient_common.py.
use resilient_python_api.Prelude.{String, Bool, true, false, if◌then◌else◌, ◌&&◌}
use resilient_python_api.Value.{Value}
use resilient_python_api.Outcome.{Result, ok, err, ◌>>=◌, value_error, get_item}
use resilient_python_api.BaseClient.Requests.{Reply}
use resilient_python_api.RestClient.{RestClient, ObjectId, is_given, shown}
use Prim.Native.String.{◌++◌ as ◌⧺◌}
pub mod Agreement

-- "/incidents/{}/artifacts/{}", "/tasks/{}/attachments/{}" and "/incidents/{}/attachments/{}"
abbrev pub artifact_uri : ObjectId → ObjectId → String
artifact_uri incident_id artifact_id =
    "/incidents/" ⧺ (shown incident_id ⧺ ("/artifacts/" ⧺ shown artifact_id))

abbrev pub task_attachment_uri : ObjectId → ObjectId → String
task_attachment_uri task_id attachment_id =
    "/tasks/" ⧺ (shown task_id ⧺ ("/attachments/" ⧺ shown attachment_id))

abbrev pub incident_attachment_uri : ObjectId → ObjectId → String
incident_attachment_uri incident_id attachment_id =
    "/incidents/" ⧺ (shown incident_id ⧺ ("/attachments/" ⧺ shown attachment_id))

-- A request, where the arguments say which one.
abbrev pub with_uri :
    {A W : Type 0} → Result String → (String → W → Result A × W) → W → Result A × W
with_uri (err e) send w = (err e, w)
with_uri (ok uri) send w = send uri w

abbrev pub mapped : {A B W : Type 0} → Result A × W → (A → Result B) → Result B × W
mapped (result, w) next = (result >>= next, w)

unfoldable pub data_uri : ObjectId → ObjectId → ObjectId → ObjectId → Result String
data_uri incident_id artifact_id task_id attachment_id =
    if is_given incident_id && is_given artifact_id
    then ok (artifact_uri incident_id artifact_id ⧺ "/contents")
    else if is_given attachment_id
    then (if is_given task_id
        then ok (task_attachment_uri task_id attachment_id ⧺ "/contents")
        else if is_given incident_id
        then ok (incident_attachment_uri incident_id attachment_id ⧺ "/contents")
        else err (value_error "task_id or incident_id must be specified with attachment"))
    else err (value_error "artifact or attachment or incident id must be specified")

module _ {W : Type 0} (res_client : RestClient W) where
  unfoldable pub get_file_attachment :
      ObjectId → ObjectId → ObjectId → ObjectId → W → Result Reply × W
  unfolding data_uri
  get_file_attachment incident_id artifact_id task_id attachment_id w =
      with_uri (data_uri incident_id artifact_id task_id attachment_id) res_client.get_content w

  unfoldable pub get_file_attachment_metadata :
      ObjectId → ObjectId → ObjectId → ObjectId → W → Result Value × W
  get_file_attachment_metadata incident_id artifact_id task_id attachment_id w =
      if is_given incident_id && is_given artifact_id
      then mapped (res_client.get (artifact_uri incident_id artifact_id) w)
          (λ found. get_item found "attachment")
      else if is_given attachment_id
      then (if is_given task_id
          then res_client.get (task_attachment_uri task_id attachment_id) w
          else if is_given incident_id
          then res_client.get (incident_attachment_uri incident_id attachment_id) w
          else (
            err (
                value_error "If attachment_id is defined, you must specify task_id OR incident_id"),
            w,
          ))
      else (
        err (
            value_error
              "artifact_id AND incident_id, OR attachment_id AND (task_id OR incident_id) must be specified"),
        w,
      )

  unfoldable pub get_file_attachment_name :
      ObjectId → ObjectId → ObjectId → ObjectId → W → Result Value × W
  get_file_attachment_name incident_id artifact_id task_id attachment_id w =
      if is_given incident_id && is_given artifact_id
      then mapped (res_client.get (artifact_uri incident_id artifact_id) w)
          (λ found. get_item found "attachment" >>= λ attachment. get_item attachment "name")
      else if is_given attachment_id
      then (if is_given task_id
          then mapped (res_client.get (task_attachment_uri task_id attachment_id) w)
              (λ found. get_item found "name")
          else if is_given incident_id
          then mapped (res_client.get (incident_attachment_uri incident_id attachment_id) w)
              (λ found. get_item found "name")
          else (err (value_error "task_id or incident_id must be specified with attachment"), w))
      else (err (value_error "artifact or attachment or incident id must be specified"), w)
