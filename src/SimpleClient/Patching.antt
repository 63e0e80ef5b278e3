-- ===== src/SimpleClient/Patching.antt =====
-- The patch requests of SimpleClient: _patch, _handle_patch_response, the two callbacks, patch and
-- patch_with_callback.
use resilient_python_api.Prelude.{
  ℕ, zero, suc, String, Bool, true, false, Option, none, some, if◌then◌else◌, eqb, List, [], ◌∷◌,
}
use resilient_python_api.Value.{Value, str, truthy, dict_of, eq_values}
use resilient_python_api.Outcome.{
  Result, Exec, ok, err, ◌>>=◌, Response, no_change, value_error, simple_http, patch_conflict,
  json_decode_error,
}
use resilient_python_api.Http.{Session, Request, org_url, http_patch}
use resilient_python_api.BaseClient.{BaseClient, make_headers, request, execute_request}
use resilient_python_api.PatchStatus.{PatchStatus, is_success, has_field_failures}
use resilient_python_api.Patch.{Patch, to_dict, get_old_values, has_changes, update_for_overwrite}

-- A callback may change the patch, and raises or returns.
abbrev pub Callback : Type 0
Callback = Response → PatchStatus → Exec Patch (Unit {0})

-- _patch_overwrite_callback
abbrev pub patch_overwrite_callback : Callback
patch_overwrite_callback response status = update_for_overwrite status

-- _patch_raise_callback
abbrev pub patch_raise_callback : Callback
patch_raise_callback response status patch =
    (err (patch_conflict response status.patch_status_dict), patch)

-- not patch_status.is_success() and patch_status.has_field_failures()
unfoldable pub is_conflict : PatchStatus → Result Bool
is_conflict status = do
  success ← is_success status
  if truthy success then ok false else has_field_failures status

-- Once the callback has returned.
unfoldable pub after_callback : List Value → Exec Patch Bool
after_callback before patch =
    if has_changes patch
    then (if eq_values before (get_old_values patch)
        then (
          err (value_error "invoked callback did not change the patch object, but returned True"),
          patch,
        )
        else (ok true, patch))
    else (ok false, patch)

abbrev pub called_back : List Value → Result (Unit {0}) × Patch → Result Bool × Patch
called_back before (ok _, patch) = after_callback before patch
called_back before (err no_change, patch) = (ok false, patch)
called_back before (err e, patch) = (err e, patch)

-- The branch of a response with status 200, whose status is read.
abbrev pub handle_status : Callback → Response → PatchStatus → Result Bool → Exec Patch Bool
handle_status callback response status (err e) patch = (err e, patch)
handle_status callback response status (ok true) patch =
    called_back (get_old_values patch) (callback response status patch)
handle_status callback response status (ok false) patch = (ok false, patch)

abbrev pub handle_json : Callback → Response → Option Value → Exec Patch Bool
handle_json callback response none patch = (err json_decode_error, patch)
handle_json callback response (some json) patch =
    let status : PatchStatus = record { patch_status_dict = json } in
    handle_status callback response status (is_conflict status) patch

-- _handle_patch_response: whether the patch is to be sent again.
unfoldable pub handle_patch_response : Callback → Response → Exec Patch Bool
unfolding is_conflict after_callback
handle_patch_response callback response patch =
    if eqb response.status_code 409
    then (ok true, patch)
    else if eqb response.status_code 200
    then handle_json callback response response.json patch
    else (err (simple_http response), patch)

module _ {W : Type 0} (session : Session W) (client : BaseClient) (uri : String)
    (co3_context_token : Value) where
  abbrev pub patch_request : Patch → Request
  patch_request patch =
      request client http_patch (org_url client.base_url client.org_id uri) (some (to_dict patch))
        (make_headers client co3_context_token (dict_of (("handle_format", str "names") ∷ [])))

  -- _patch
  unfoldable pub send_patch : Patch → W → Result Response × W
  send_patch patch w = execute_request session client (patch_request patch) w

  abbrev pub again_if :
      Response
      → Result Bool × Patch
      → W
      → (Patch → W → Option ((Result Response × Patch) × W))
      → Option ((Result Response × Patch) × W)
  again_if response (ok true, patch) w again = again patch w
  again_if response (ok false, patch) w again = some ((ok response, patch), w)
  again_if response (err e, patch) w again = some ((err e, patch), w)

  abbrev pub answered :
      Callback
      → Patch
      → Result Response × W
      → (Patch → W → Option ((Result Response × Patch) × W))
      → Option ((Result Response × Patch) × W)
  answered callback patch (err e, w) again = some ((err e, patch), w)
  answered callback patch (ok response, w) again =
      again_if response (handle_patch_response callback response patch) w again

  -- patch_with_callback, on fuel: `none` means that the rounds ran out.
  unfoldable pub patch_with_callback :
      ℕ → Callback → Patch → W → Option ((Result Response × Patch) × W)
  patch_with_callback zero callback patch w = none
  patch_with_callback (suc fuel) callback patch w =
      answered callback patch (send_patch patch w) (patch_with_callback fuel callback)

  -- patch
  unfoldable pub patch : ℕ → Bool → Patch → W → Option ((Result Response × Patch) × W)
  patch fuel overwrite_conflict p w =
      patch_with_callback fuel
        (if overwrite_conflict then patch_overwrite_callback else patch_raise_callback) p w
