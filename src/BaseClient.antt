-- ===== src/BaseClient.antt =====
-- class BaseClient of resilient/resilient/co3base.py: its state, its headers, and how one request is
-- made and judged. The requests themselves are in Requests, the session in Login, and the
-- get/apply/put loop in GetPut.
pub mod Requests
pub mod GetPut
pub mod Login
pub mod Retrying
pub mod Updating
pub mod Organizations
use resilient_python_api.Prelude.{
  ℕ, suc, String, Bool, true, false, Option, none, some, List, [], ◌∷◌, ◌≡◌, Assoc, insert,
  if◌then◌else◌, eqb, leb,
}
use resilient_python_api.Value.{
  Value, null, bool, int, pos, str, list, dict, elements, Fields, entries, eq_value,
}
use resilient_python_api.Outcome.{
  Error, Result, ok, err, ◌>>=◌, Response, retry_http, basic_http, system_exit, json_decode_error,
  or_raise, any_eq,
}
use resilient_python_api.Http.{Request, Session, Url, Method}

-- The fields of the client that its requests read. `cookies` is None until a session is connected.
pub record BaseClient : Type 0 where
  pub base_url : String
  pub org_name : Value
  pub org_id : Value
  pub all_orgs : List Value
  pub user_id : Value
  pub headers : Assoc Value
  pub cookies : Value
  pub authdata : Value
  pub use_api_key : Bool
  pub api_key_id : Value
  pub api_key_secret : Value
  pub api_key_handle : Value
  -- none for -1, which is no limit
  pub max_connection_retries : Option ℕ
  pub request_max_retries : ℕ

-- ERROR_CODE_CONNECTION_UNAUTHORIZED
abbrev pub error_code_unauthorized : ℕ
error_code_unauthorized = 21

-- fix_list
unfoldable pub fix_list : Value → List Value
fix_list null = []
fix_list (list xs) = elements xs
fix_list value = value ∷ []

-- RetryHTTPException.raise_if_error
unfoldable pub raise_if_error : Response → Value → Result (Unit {0})
unfolding fix_list eq_value
raise_if_error response skip_retry =
    if eqb response.status_code 401
    then err (system_exit error_code_unauthorized)
    else if leb 300 response.status_code
    then (if any_eq (int (pos response.status_code)) (fix_list skip_retry)
        then err (basic_http response)
        else err (retry_http response))
    else ok tt

-- dict.update
abbrev pub update : Assoc Value → Assoc Value → Assoc Value
update d [] = d
update d ((k, v) ∷ m) = update (insert k v d) m

abbrev with_token : Value → Assoc Value → Assoc Value
with_token null headers = headers
with_token token headers = insert "X-Co3ContextToken" token headers

abbrev with_additional : Value → Assoc Value → Assoc Value
with_additional (dict fs) headers = update headers (entries fs)
with_additional _ headers = headers

-- make_headers
unfoldable pub make_headers : BaseClient → Value → Value → Assoc Value
make_headers client co3_context_token additional_headers =
    with_additional additional_headers (with_token co3_context_token client.headers)

-- The arguments that every request takes from the client.
abbrev pub request : BaseClient → Method → Url → Option Value → Assoc Value → Request
request client method url payload headers = record {
  method = method;
  url = url;
  payload = payload;
  headers = headers;
  cookies = client.cookies;
  auth = none;
}

-- json.loads(response.text)
abbrev pub loads : Response → Result Value
loads response = or_raise response.json json_decode_error

module _ {W : Type 0} (session : Session W) where
  -- _execute_request
  unfoldable pub execute_request : BaseClient → Request → W → Result Response × W
  execute_request client req w =
      if client.use_api_key
      then session.send (record req { auth = some (client.api_key_id, client.api_key_secret) })
          (session.clear_cookies w)
      else session.send req w

-- A judgement of the response of a request that was answered.
abbrev pub judged : {W A : Type 0} → Result Response × W → (Response → Result A) → Result A × W
judged (ok response, w) judge = (judge response, w)
judged (err e, w) judge = (err e, w)
