-- ===== src/BaseClient/Requests.antt =====
-- The requests of BaseClient: get, get_const, get_content, post, put and delete.
use resilient_python_api.Prelude.{String, Bool, none, some, if◌then◌else◌, eqb}
use resilient_python_api.Value.{Value, null}
use resilient_python_api.Outcome.{Result, ok, ◌>>=◌, Response}
use resilient_python_api.Http.{
  Session, Retry, Request, Url, org_url, rest_url, http_get, http_post, http_put, http_delete,
}
use resilient_python_api.BaseClient.{
  BaseClient, raise_if_error, make_headers, request, loads, execute_request, judged,
}

-- What a request returns: the response, the JSON in it, its raw content, or None.
pub data Reply : Type 0 where
  response_object : Response → Reply
  json_value : Value → Reply
  content_of : Response → Reply
  no_content : Reply

-- RetryHTTPException.raise_if_error(r, skip_retry); return r
abbrev pub checked : Value → Response → Result Response
checked skip_retry response = do _ ← raise_if_error response skip_retry; ok response

abbrev pub url_of : BaseClient → String → Bool → Url
url_of client uri is_uri_absolute =
    if is_uri_absolute
    then rest_url client.base_url uri
    else org_url client.base_url client.org_id uri

-- return json.loads(response.text)
abbrev pub as_json : Response → Result Reply
as_json response = do value ← loads response; ok (json_value value)

abbrev pub get_reply : Bool → Response → Result Reply
get_reply get_response_object response =
    if get_response_object then ok (response_object response) else as_json response

-- `post` gives the content back where the text is no JSON.
abbrev json_or_content : Response → Result Reply
json_or_content response = elim response.json [
  | none ↦ ok (content_of response)
  | some value ↦ ok (json_value value)
]

abbrev pub post_reply : Bool → Value → Response → Result Reply
post_reply get_response_object skip_retry response = do
  _ ← raise_if_error response skip_retry
  if get_response_object then ok (response_object response) else json_or_content response

-- __delete: 204 is a success with no content.
abbrev pub delete_reply : Value → Response → Result Reply
delete_reply skip_retry response =
    if eqb response.status_code 204
    then ok no_content
    else do _ ← raise_if_error response skip_retry; as_json response

module _ {W : Type 0} (session : Session W) where
  -- __get and __post: one attempt, with its check.
  unfoldable pub attempt : BaseClient → Request → Value → W → Result Response × W
  attempt client req skip_retry w =
      judged (execute_request session client req w) (checked skip_retry)

  unfoldable pub attempt_delete : BaseClient → Request → Value → W → Result Reply × W
  attempt_delete client req skip_retry w =
      judged (execute_request session client req w) (delete_reply skip_retry)

  unfoldable pub get_const : BaseClient → Value → W → Result Reply × W
  unfolding attempt
  get_const client co3_context_token w =
      judged
        (attempt client
          (request client http_get (rest_url client.base_url "/const") none
            (make_headers client co3_context_token null))
          null w)
        as_json

  unfoldable pub get_content : BaseClient → String → Value → Value → W → Result Reply × W
  unfolding attempt
  get_content client uri co3_context_token skip_retry w =
      judged
        (attempt client
          (request client http_get (org_url client.base_url client.org_id uri) none
            (make_headers client co3_context_token null))
          skip_retry w)
        (λ response. ok (content_of response))

  unfoldable pub put : BaseClient → String → Value → Value → Value → Value → W → Result Reply × W
  unfolding attempt
  put client uri payload co3_context_token headers skip_retry w =
      judged
        (attempt client
          (request client http_put (org_url client.base_url client.org_id uri) (some payload)
            (make_headers client co3_context_token headers))
          skip_retry w)
        as_json

module _ {W : Type 0} (session : Session W) (retry : Retry W) where
  unfoldable pub get : BaseClient → String → Value → Bool → Bool → Value → W → Result Reply × W
  get client uri co3_context_token is_uri_absolute get_response_object skip_retry w =
      judged
        (retry.retry_call client.request_max_retries
          (attempt session client
            (request client http_get (url_of client uri is_uri_absolute) none
              (make_headers client co3_context_token null))
            skip_retry)
          w)
        (get_reply get_response_object)

  unfoldable pub post :
      BaseClient → String → Value → Value → Value → Value → Bool → Bool → W → Result Reply × W
  post client uri payload co3_context_token headers skip_retry is_uri_absolute get_response_object
        w =
      judged
        (retry.retry_call client.request_max_retries
          (attempt session client
            (request client http_post (url_of client uri is_uri_absolute) (some payload)
              (make_headers client co3_context_token headers))
            skip_retry)
          w)
        (post_reply get_response_object skip_retry)

  unfoldable pub delete : BaseClient → String → Value → Value → W → Result Reply × W
  delete client uri co3_context_token skip_retry w =
      retry.retry_call client.request_max_retries
        (attempt_delete session client
          (request client http_delete (org_url client.base_url client.org_id uri) none
            (make_headers client co3_context_token null))
          skip_retry)
        w
