-- ===== src/Examples/ClientRuns.antt =====
-- Requests.
use resilient_python_api.Prelude.{arith}
use resilient_python_api.Http.Attempts.{Fails, untried, failed}
use resilient_python_api.Prelude.{
  true, false, some, ◌≡◌, ◌⊎◌, refl, [], ◌∷◌, arith, lookup, insert, has_key,
}
use resilient_python_api.Value.{null, eq_values, eq_value}
use resilient_python_api.Outcome.{Result, ok, retry_http, Response, iterate}
use resilient_python_api.Http.{is_retried}
use resilient_python_api.BaseClient.{raise_if_error, execute_request, judged}
use resilient_python_api.BaseClient.Requests.{attempt, get_reply}
use resilient_python_api.BaseClient.Retrying.{get_attempt, get_call, get_recovers}
use resilient_python_api.Patch.{
  Patch, get_old_values, has_changes, update_for_overwrite, overwrite_field,
}
use resilient_python_api.PatchStatus.{
  has_field_failures, get_conflict_fields, get_actual_current_value, is_success,
}
use resilient_python_api.Patch.Changes.{Revises}
use resilient_python_api.Patch.Overwrite.{reply_of}
use resilient_python_api.SimpleClient.Patching.{
  patch, send_patch, handle_patch_response, patch_overwrite_callback, is_conflict,
}
use resilient_python_api.SimpleClient.Conflicts.{handle_patch_response-again}
use resilient_python_api.SimpleClient.Overwriting.{patch-Revises, patch_overwrites, overwritten}
use resilient_python_api.Examples.Script.{Script, scripted, retrying, client, answered_with}
use resilient_python_api.Examples.PatchRuns.{renamed, name_failure, name_AllChanged}

abbrev conflicting : Response
conflicting = answered_with 200 (reply_of false (name_failure ∷ []))

abbrev accepting : Response
accepting = answered_with 200 (reply_of true [])

abbrev unavailable : Response
unavailable = answered_with 503 null

abbrev conflicted : Response
conflicted = answered_with 409 null

sends :
    (p : Patch) (r : Response) (rs : Script)
    → send_patch scripted client "/incidents/1" null p (r ∷ rs) ≡ (ok r, rs)
unfolding send_patch execute_request
sends p r rs = refl

old_values_differ :
    eq_values (get_old_values renamed) (get_old_values (overwritten false name_failure [] renamed))
    ≡ false
unfolding insert eq_values update_for_overwrite is_conflict get_old_values has_field_failures
    has_key lookup iterate get_conflict_fields overwrite_field get_actual_current_value eq_value
old_values_differ = refl

renamed-has_changes : has_changes renamed ≡ true
unfolding insert has_changes
renamed-has_changes = refl

accepted : is_conflict (record { patch_status_dict = reply_of true [] }) ≡ ok false
unfolding is_conflict is_success lookup
accepted = refl

overwritten_run :
    patch scripted client "/incidents/1" null 2 true renamed (conflicting ∷ accepting ∷ [])
    ≡ some ((ok accepting, overwritten false name_failure [] renamed), [])
overwritten_run =
    (patch_overwrites scripted client "/incidents/1" null 0 renamed name_failure []
      (conflicting ∷ accepting ∷ []) (accepting ∷ []) [] conflicting accepting (reply_of true [])
      (sends renamed conflicting (accepting ∷ [])) refl refl name_AllChanged renamed-has_changes
      old_values_differ (sends _ accepting []) refl refl accepted).0

patch_overwrites_example :
    (patch scripted client "/incidents/1" null 2 true renamed (conflicting ∷ accepting ∷ [])
      ≡ some ((ok accepting, overwritten false name_failure [] renamed), []))
    × Revises renamed (overwritten false name_failure [] renamed)
patch_overwrites_example =
    patch_overwrites scripted client "/incidents/1" null 0 renamed name_failure []
      (conflicting ∷ accepting ∷ []) (accepting ∷ []) [] conflicting accepting (reply_of true [])
      (sends renamed conflicting (accepting ∷ [])) refl refl name_AllChanged renamed-has_changes
      old_values_differ (sends _ accepting []) refl refl accepted

patch-Revises_example :
    Revises renamed (overwritten false name_failure [] renamed)
    × (true ≡ false → overwritten false name_failure [] renamed ≡ renamed)
patch-Revises_example =
    patch-Revises scripted client "/incidents/1" null 2 true renamed
      (overwritten false name_failure [] renamed) (ok accepting) (conflicting ∷ accepting ∷ []) []
      overwritten_run

handle_patch_response-again_example :
    ((conflicted.status_code ≡ 409) × (renamed ≡ renamed))
    ⊎ ((conflicted.status_code ≡ 200)
        × (eq_values (get_old_values renamed) (get_old_values renamed) ≡ false)
        × (has_changes renamed ≡ true))
unfolding handle_patch_response
handle_patch_response-again_example =
    handle_patch_response-again patch_overwrite_callback conflicted renamed renamed refl

abbrev attempt_get : Script → Result Response × Script
attempt_get = get_attempt scripted retrying client "/incidents" null false false null

-- The service is unavailable twice, and then answers.
twice_unavailable :
    (rs : Script) → Fails is_retried attempt_get 2 (unavailable ∷ unavailable ∷ rs) rs
unfolding attempt execute_request raise_if_error
twice_unavailable rs =
    failed (retry_http unavailable) refl refl (failed (retry_http unavailable) refl refl untried)

get_recovers_example :
    get_call scripted retrying client "/incidents" null false false null
      (unavailable ∷ unavailable ∷ accepting ∷ [])
    ≡ judged {W = Script} (ok accepting, []) (get_reply false)
unfolding attempt execute_request raise_if_error
get_recovers_example =
    get_recovers scripted retrying client "/incidents" null false false null 2
      (unavailable ∷ unavailable ∷ accepting ∷ []) (accepting ∷ []) [] (ok accepting)
      (twice_unavailable (accepting ∷ [])) (omega arith) refl tt

five_unavailable : Script
five_unavailable = unavailable ∷ unavailable ∷ unavailable ∷ unavailable ∷ unavailable ∷ []

five_failures : Fails is_retried attempt_get 5 five_unavailable []
unfolding five_unavailable attempt execute_request raise_if_error
five_failures = failed (retry_http unavailable) refl refl (
    failed (retry_http unavailable) refl refl (
      failed (retry_http unavailable) refl refl (
        failed (retry_http unavailable) refl refl
          (failed (retry_http unavailable) refl refl untried))))
