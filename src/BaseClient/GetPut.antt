-- ===== src/BaseClient/GetPut.antt =====
-- `_get_put` and `get_put` of BaseClient: get an object, apply a function to it, put it back, and
-- start again on a conflict.
use resilient_python_api.Prelude.{
  ℕ, zero, suc, String, true, false, Option, none, some, if◌then◌else◌, eqb,
}
use resilient_python_api.Value.{Value, null, truthy}
use resilient_python_api.Outcome.{Result, ok, err, ◌>>=◌, Response, no_change}
use resilient_python_api.Http.{Session, Request, http_get, http_put, org_url}
use resilient_python_api.BaseClient.{
  BaseClient, raise_if_error, make_headers, request, loads, execute_request, judged,
}

-- `apply_func(payload)`: what it raises, if it does, and the object as it leaves it.
abbrev pub Apply : Type 0
Apply = Value → Result (Unit {0}) × Value

-- What the answer to the put makes of it; None asks for another round.
abbrev pub put_outcome : Value → Response → Result Value
put_outcome skip_retry response =
    if eqb response.status_code 200
    then loads response
    else if eqb response.status_code 409
    then ok null
    else do _ ← raise_if_error response skip_retry; ok null

abbrev pub loaded : Value → Response → Result Value
loaded skip_retry response = do _ ← raise_if_error response skip_retry; loads response

-- if obj: return obj, and else the next round
abbrev pub until_truthy :
    {W : Type 0} → Result Value × W → (W → Option (Result Value × W)) → Option (Result Value × W)
until_truthy (err e, w) again = some (err e, w)
until_truthy (ok obj, w) again = elim (truthy obj) [ true ↦ some (ok obj, w) | false ↦ again w ]

module _ {W : Type 0} (session : Session W) (client : BaseClient) (uri : String) where
  abbrev pub get_request : Value → Request
  get_request co3_context_token =
      request client http_get (org_url client.base_url client.org_id uri) none
        (make_headers client co3_context_token null)

  abbrev pub put_request : Value → Value → Request
  put_request co3_context_token payload =
      request client http_put (org_url client.base_url client.org_id uri) (some payload)
        (make_headers client co3_context_token null)

  -- The function was applied: put the object, unless it raised.
  unfoldable pub put_applied : Value → Value → Result (Unit {0}) × Value → W → Result Value × W
  put_applied co3_context_token skip_retry (ok _, payload) w =
      judged (execute_request session client (put_request co3_context_token payload) w)
        (put_outcome skip_retry)
  put_applied co3_context_token skip_retry (err no_change, payload) w = (ok payload, w)
  put_applied co3_context_token skip_retry (err e, payload) w = (err e, w)

  unfoldable pub apply_and_put : Apply → Value → Value → Result Value × W → Result Value × W
  unfolding put_applied
  apply_and_put apply_func co3_context_token skip_retry (ok payload, w) =
      put_applied co3_context_token skip_retry (apply_func payload) w
  apply_and_put apply_func co3_context_token skip_retry (err e, w) = (err e, w)

  -- _get_put
  unfoldable pub get_put_round : Apply → Value → Value → W → Result Value × W
  unfolding apply_and_put
  get_put_round apply_func co3_context_token skip_retry w =
      apply_and_put apply_func co3_context_token skip_retry (
        judged (execute_request session client (get_request co3_context_token) w)
          (loaded skip_retry))

  -- get_put, on fuel: `none` means that the rounds ran out.
  unfoldable pub get_put : ℕ → Apply → Value → W → Option (Result Value × W)
  get_put zero apply_func co3_context_token w = none
  get_put (suc fuel) apply_func co3_context_token w =
      until_truthy (get_put_round apply_func co3_context_token null w)
        (get_put fuel apply_func co3_context_token)
