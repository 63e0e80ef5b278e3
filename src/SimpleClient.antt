-- ===== src/SimpleClient.antt =====
-- class SimpleClient of resilient/resilient/co3.py: the requests of BaseClient with their exceptions
-- converted. The patch loop is in Patching.
pub mod Conversion
pub mod Patching
pub mod Conflicts
pub mod Overwriting
use resilient_python_api.Prelude.{
  ℕ, suc, String, Bool, true, false, Option, none, some, ◌≡◌, if◌then◌else◌, eqb,
}
use resilient_python_api.Value.{Value}
use resilient_python_api.Outcome.{
  Error, Result, ok, err, ◌>>=◌, Response, retry_http, basic_http, simple_http,
}
use resilient_python_api.Http.{Session, Retry, rest_url, http_post, http_get}
use resilient_python_api.BaseClient.{BaseClient, request, make_headers, execute_request, judged}
use resilient_python_api.BaseClient.Requests
use resilient_python_api.BaseClient.Requests.{Reply, no_content, as_json}
use resilient_python_api.BaseClient.GetPut
use resilient_python_api.BaseClient.GetPut.{Apply}
use resilient_python_api.BaseClient.Login
use resilient_python_api.BaseClient.Login.{Login}

-- _raise_if_error
unfoldable pub raise_unless_200 : Response → Result (Unit {0})
raise_unless_200 response =
    if eqb response.status_code 200 then ok tt else err (simple_http response)

-- except co3base.BasicHTTPException as ex: _raise_if_error(ex.get_response()), and what is returned
-- where that does not raise
unfoldable pub converted {ℓ} : {A : Type ℓ} → A → Result A → Result A
unfolding raise_unless_200
converted nothing (err (retry_http response)) = do _ ← raise_unless_200 response; ok nothing
converted nothing (err (basic_http response)) = do _ ← raise_unless_200 response; ok nothing
converted nothing result = result

abbrev pub converted_at : {A W : Type 0} → A → Result A × W → Result A × W
converted_at nothing (result, w) = (converted nothing result, w)

module _ {W : Type 0} (session : Session W) where
  unfoldable pub get_const : BaseClient → Value → W → Result Reply × W
  get_const client co3_context_token w =
      converted_at no_content (Requests.get_const session client co3_context_token w)

  unfoldable pub get_content : BaseClient → String → Value → Value → W → Result Reply × W
  get_content client uri co3_context_token skip_retry w =
      converted_at no_content
        (Requests.get_content session client uri co3_context_token skip_retry w)

  unfoldable pub put : BaseClient → String → Value → Value → Value → Value → W → Result Reply × W
  put client uri payload co3_context_token headers skip_retry w =
      converted_at no_content
        (Requests.put session client uri payload co3_context_token headers skip_retry w)

  -- `search` raises for itself.
  unfoldable pub search_ex : BaseClient → Value → Value → W → Result Reply × W
  search_ex client payload co3_context_token w =
      judged
        (execute_request session client
          (request client http_post (rest_url client.base_url "/search_ex") (some payload)
            (make_headers client co3_context_token Value.null))
          w)
        (λ response. raise_unless_200 response >>= λ _. as_json response)

  unfoldable pub get_put : BaseClient → String → ℕ → Apply → Value → W → Option (Result Value × W)
  get_put client uri fuel apply_func co3_context_token w =
      elim (GetPut.get_put session client uri fuel apply_func co3_context_token w) [
        | none ↦ none
        | some result ↦ some (converted_at Value.null result)
      ]

module _ {W : Type 0} (session : Session W) (retry : Retry W) where
  unfoldable pub get : BaseClient → String → Value → Bool → Bool → Value → W → Result Reply × W
  get client uri co3_context_token is_uri_absolute get_response_object skip_retry w =
      converted_at no_content (
        Requests.get session retry client uri co3_context_token is_uri_absolute get_response_object
          skip_retry w)

  unfoldable pub post :
      BaseClient → String → Value → Value → Value → Value → Bool → Bool → W → Result Reply × W
  post client uri payload co3_context_token headers skip_retry is_uri_absolute get_response_object
        w =
      converted_at no_content (
        Requests.post session retry client uri payload co3_context_token headers skip_retry
          is_uri_absolute get_response_object w)

  unfoldable pub delete : BaseClient → String → Value → Value → W → Result Reply × W
  delete client uri co3_context_token skip_retry w =
      converted_at no_content
        (Requests.delete session retry client uri co3_context_token skip_retry w)

  unfoldable pub connect : BaseClient → Value → Value → W → Login W
  connect client email password w =
      let ((result, client'), w') = Login.connect session retry client email password w in
      ((converted Value.null result, client'), w')
