-- ===== src/BaseClient/Retrying.antt =====
-- Which answers a request accepts, tries again or gives up on, and how often it is made.
use resilient_python_api.Prelude.{
  ℕ, suc, ◌<◌, ◌≤◌, String, Bool, true, false, none, ◌≡◌, ◌∙◌, arith, ◌↔◌, ◌≢◌, ap, subst, ◌-◌,
}
use resilient_python_api.Value.{Value, null, int, pos}
use resilient_python_api.Outcome.{
  Error, Result, ok, err, Response, retry_http, basic_http, system_exit, any_eq,
}
use resilient_python_api.Http.{Session, Retry, is_retried, http_get}
use resilient_python_api.Http.Attempts.{
  try_times, retry_call_times, Fails, IsFinal, try_times-Fails, try_times_exhausted,
}
use resilient_python_api.BaseClient.{
  BaseClient, raise_if_error, fix_list, make_headers, request, judged,
}
use resilient_python_api.BaseClient.Requests.{Reply, get, attempt, url_of, get_reply}

-- Whether the caller listed the status among those that are not tried again.
abbrev pub skipped : Response → Value → Bool
skipped response skip_retry = any_eq (int (pos response.status_code)) (fix_list skip_retry)

-- A response is accepted exactly if its status is below 300; 401 ends the process with the code 21;
-- any other is raised as an error to be tried again exactly if the caller did not list its status,
-- and as a plain one if so.
pub raise_if_error_cases :
    (response : Response) (skip_retry : Value)
    → ((raise_if_error response skip_retry ≡ ok tt) ↔ (response.status_code < 300))
      × ((raise_if_error response skip_retry ≡ err (system_exit 21)) ↔ (response.status_code ≡ 401))
      × ((raise_if_error response skip_retry ≡ err (retry_http response)) ↔ (
          (300 ≤ response.status_code)
          × (response.status_code ≢ 401)
          × (skipped response skip_retry ≡ false)))
      × ((raise_if_error response skip_retry ≡ err (basic_http response)) ↔ (
          (300 ≤ response.status_code)
          × (response.status_code ≢ 401)
          × (skipped response skip_retry ≡ true)))
unfolding raise_if_error
raise_if_error_cases response skip_retry = (
  (λ h. ground arith, λ h. ground arith),
  (λ h. ground arith, λ h. ground arith),
  (λ h. ground arith, λ h. ground arith),
  (λ h. ground arith, λ h. ground arith),
)

module _ {W : Type 0} (session : Session W) (retry : Retry W) (client : BaseClient) (uri : String)
    (token : Value) (is_absolute as_object : Bool) (skip_retry : Value) where
  -- One attempt of `get`.
  abbrev pub get_attempt : W → Result Response × W
  get_attempt =
      attempt session client
        (request client http_get (url_of client uri is_absolute) none
          (make_headers client token null))
        skip_retry

  abbrev pub get_call : W → Result Reply × W
  get_call = get session retry client uri token is_absolute as_object skip_retry

  get-try_times :
      (w : W)
      → 0 < client.request_max_retries
      → get_call w
        ≡ judged
            (try_times is_retried (client.request_max_retries - 1) get_attempt (get_attempt w))
            (get_reply as_object)
  unfolding get
  get-try_times w h =
      ap (λ (x : Result Response × W). judged x (get_reply as_object))
        (retry_call_times is_retried retry client.request_max_retries get_attempt w h)

  -- If fewer than `request_max_retries` attempts in a row end in an error that is to be tried again,
  -- and the next one is answered or ends in any other error, `get` returns or raises what that one
  -- gives; so no attempt follows a final one.
  pub get_recovers :
      (k : ℕ) (w w' w'' : W) (r : Result Response)
      → Fails is_retried get_attempt k w w'
      → k < client.request_max_retries
      → get_attempt w' ≡ (r, w'')
      → IsFinal is_retried r
      → get_call w ≡ judged (r, w'') (get_reply as_object)
  get_recovers k w w' w'' r fails h e final =
      get-try_times w (omega arith)
      ∙ ap (λ (x : Result Response × W). judged x (get_reply as_object))
          (try_times-Fails is_retried get_attempt (client.request_max_retries - 1) k w w' w'' r
            fails (omega arith) e final)

  -- If `request_max_retries` attempts in a row end in an error that is to be tried again, `get` raises
  -- such an error after exactly that many.
  pub get_gives_up :
      (w w' : W)
      → 0 < client.request_max_retries
      → Fails is_retried get_attempt client.request_max_retries w w'
      → (e : Error) × (get_call w ≡ (err e, w')) × (is_retried e ≡ true)
  get_gives_up w w' h fails =
      let t : client.request_max_retries ≡ suc (client.request_max_retries - 1) = omega arith in
      let (x, e, again) =
        try_times_exhausted is_retried get_attempt (client.request_max_retries - 1) w w'
          (subst (λ n. Fails is_retried get_attempt n w w') t fails) in
      (
        x,
        get-try_times w h ∙ ap (λ (y : Result Response × W). judged y (get_reply as_object)) e,
        again,
      )
