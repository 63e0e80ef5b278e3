-- ===== src/RequestsCommon/Execute.antt =====
-- `execute`. A response may be handled by a callback, which returns a value of any type.
use resilient_python_api.Prelude.{
  ℕ, String, Bool, Option, none, some, if◌then◌else◌, ◌&&◌, ltb, leb, ◌⊎◌, inl, inr,
}
use resilient_python_api.Value.{ℤ}
use resilient_python_api.Outcome.{
  Error, Result, ok, err, Response, http_error, as_integration_error,
}
use resilient_python_api.Http.{RetryOn}
use resilient_python_api.RequestsCommon.{RequestsCommon, Environment, HttpRequest, prepare}

-- response.raise_for_status() of requests raises for the statuses from 400 to 599.
unfoldable pub raise_for_status : Response → Result (Unit {0})
raise_for_status response =
    if leb 400 response.status_code && ltb response.status_code 600
    then err (http_error response)
    else ok tt

module _ {W B : Type 0} (request_obj : HttpRequest → W → Result Response × W)
    (callback : Option (Response → W → Result B × W)) where
  abbrev pub accepted : Response → Result (Unit {0}) → Result (Response ⊎ B)
  accepted response (ok _) = ok (inl response)
  accepted response (err e) = err e

  abbrev pub called : Result B × W → Result (Response ⊎ B) × W
  called (ok b, w) = (ok (inr b), w)
  called (err e, w) = (err e, w)

  abbrev pub handle_response : Result Response × W → Result (Response ⊎ B) × W
  handle_response (err e, w) = (err e, w)
  handle_response (ok response, w) = elim callback [
    | none ↦ (accepted response (raise_for_status response), w)
    | some call ↦ called (call response w)
  ]

  -- __execute_request_retriable
  unfoldable pub attempt : HttpRequest → W → Result (Response ⊎ B) × W
  unfolding raise_for_status
  attempt request w = handle_response (request_obj request w)

  abbrev pub raised_again : Result (Response ⊎ B) × W → Result (Response ⊎ B) × W
  raised_again (result, w) = (as_integration_error result, w)

  module _ {retried : Error → Bool} (retry : RetryOn retried W) (int_of : String → Result ℤ)
      (env : Environment) (self : RequestsCommon) where
    abbrev pub call_with_retry : (tries : ℕ) → Result HttpRequest → W → Result (Response ⊎ B) × W
    call_with_retry tries (err e) w = (err e, w)
    call_with_retry tries (ok request) w = retry.retry_call tries (attempt request) w

    unfoldable pub execute : (tries : ℕ) → HttpRequest → W → Result (Response ⊎ B) × W
    unfolding attempt prepare
    execute tries given w = raised_again (call_with_retry tries (prepare int_of env self given) w)
