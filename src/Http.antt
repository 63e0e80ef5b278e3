-- ===== src/Http.antt =====
-- What the clients use of the packages `requests` and `retry`, which are not part of this
-- repository: a session that answers requests, and a call that is tried again.
pub mod Attempts
use resilient_python_api.Prelude.{ℕ, suc, String, Bool, true, false, Option, ◌≡◌, Assoc}
use resilient_python_api.Value.{Value}
use resilient_python_api.Outcome.{Error, Result, ok, err, Response, retry_http, connection_error}

pub data Method : Type 0 where
  http_get http_post http_put http_patch http_delete : Method

-- A URL, by the parts that the code's format strings join: "{0}/rest/orgs/{1}{2}", "{0}/rest{1}" and
-- "{0}/rest/session?include_permissions={1}".
pub data Url : Type 0 where
  org_url : String → Value → String → Url
  rest_url : String → String → Url
  session_url : String → Bool → Url

-- The arguments of one call of a session's method. Proxies, certificates and timeouts are passed on
-- unread, and are not modelled.
pub record Request : Type 0 where
  pub method : Method
  pub url : Url
  pub payload : Option Value
  pub headers : Assoc Value
  pub cookies : Value
  -- HTTPBasicAuth(api_key_id, api_key_secret)
  pub auth : Option (Value × Value)

-- `requests.Session`. `World` is all that a request may depend on or change, the session's cookies
-- and the server included.
pub record Session (World : Type 0) : Type 0 where
  pub send : Request → World → Result Response × World
  -- session.cookies.clear()
  pub clear_cookies : World → World

-- exceptions=(RetryHTTPException, ConnectionError)
abbrev pub is_retried : Error → Bool
is_retried (retry_http r) = true
is_retried connection_error = true
is_retried _ = false

-- `retry_call` of the package `retry`, with a limit on the attempts and the exceptions after which to
-- try again; the delays are no part of the world. Its documentation says that the function is called
-- until it returns or raises an exception that is not listed, and at most `tries` times.
pub record RetryOn (retried : Error → Bool) (World : Type 0) : Type 1 where
  pub retry_call : {A : Type 0} → ℕ → (World → Result A × World) → World → Result A × World
  -- With tries=-1, where that returns: it tries without a limit.
  pub retry_unlimited : {A : Type 0} → (World → Result A × World) → World → Result A × World
  pub call_returns :
      {A : Type 0} (tries : ℕ) (f : World → Result A × World) (w w' : World) (a : A)
      → f w ≡ (ok a, w')
      → retry_call (suc tries) f w ≡ (ok a, w')
  pub call_raises :
      {A : Type 0} (tries : ℕ) (f : World → Result A × World) (w w' : World) (e : Error)
      → f w ≡ (err e, w')
      → retried e ≡ false
      → retry_call (suc tries) f w ≡ (err e, w')
  pub last_try :
      {A : Type 0} (f : World → Result A × World) (w w' : World) (e : Error)
      → f w ≡ (err e, w')
      → retry_call 1 f w ≡ (err e, w')
  pub next_try :
      {A : Type 0} (tries : ℕ) (f : World → Result A × World) (w w' : World) (e : Error)
      → f w ≡ (err e, w')
      → retried e ≡ true
      → retry_call (suc (suc tries)) f w ≡ retry_call (suc tries) f w'

-- With the exceptions that the client lists.
abbrev pub Retry : Type 0 → Type 1
Retry World = RetryOn is_retried World
