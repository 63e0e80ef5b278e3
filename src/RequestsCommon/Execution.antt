-- ===== src/RequestsCommon/Execution.antt =====
-- How often `execute` makes a request, and what it returns or raises.
use resilient_python_api.Prelude.{ℕ, ◌-◌, ◌<◌, String, Bool, Option, ◌≡◌, ap, ◌∙◌, arith, ◌⊎◌}
use resilient_python_api.Value.{ℤ}
use resilient_python_api.Outcome.{Error, Result, ok, Response, as_integration_error}
use resilient_python_api.Http.{RetryOn}
use resilient_python_api.Http.Attempts.{retry_call_times, Fails, IsFinal, try_times-Fails}
use resilient_python_api.RequestsCommon.{RequestsCommon, Environment, HttpRequest, prepare}
use resilient_python_api.RequestsCommon.Execute.{attempt, raised_again, call_with_retry, execute}

module _ {W B : Type 0} (request_obj : HttpRequest → W → Result Response × W)
    (callback : Option (Response → W → Result B × W)) {retried : Error → Bool}
    (retry : RetryOn retried W) (int_of : String → Result ℤ) (env : Environment)
    (self : RequestsCommon) where
  -- Where the arguments can be prepared, and fewer than `retry_tries` attempts in a row raise an error
  -- that is to be tried again, `execute` returns what the next one returns if that is final, and raises
  -- an IntegrationError, or ends the process, if that raises.
  pub execute_recovers :
      (tries k : ℕ) (given request : HttpRequest) (w w' w'' : W) (r : Result (Response ⊎ B))
      → prepare int_of env self given ≡ ok request
      → Fails retried (attempt request_obj callback request) k w w'
      → k < tries
      → attempt request_obj callback request w' ≡ (r, w'')
      → IsFinal retried r
      → execute request_obj callback retry int_of env self tries given w
        ≡ (as_integration_error r, w'')
  unfolding execute
  execute_recovers tries k given request w w' w'' r p fails h e final =
      ap
        (λ prepared.
          raised_again request_obj callback
            (call_with_retry request_obj callback retry int_of env self tries prepared w))
        p
      ∙ ap (raised_again request_obj callback) (
          retry_call_times retried retry tries (attempt request_obj callback request) w
            (omega arith)
          ∙ try_times-Fails retried (attempt request_obj callback request) (tries - 1) k w w' w'' r
              fails (omega arith) e final)
