-- ===== src/RequestsCommon.antt =====
-- class RequestsCommon of resilient-lib/resilient_lib/components/requests_common.py: which proxies,
-- timeout, certificates and check of certificates a request uses, and how it is made. What `int` reads
-- in a text is a parameter, and the values of the environment are arguments.
pub mod Execute
pub mod Precedence
pub mod Execution
use resilient_python_api.Prelude.{
  ℕ, suc, ◌+◌, String, Bool, true, false, Option, none, some, if◌then◌else◌, List, [], ◌∷◌, not,
  ◌&&◌, ◌||◌, eqb, leb, ltb, ◌==◌, ◌⊎◌, inl, inr, Assoc,
}
use resilient_python_api.Value.{Value, ℤ, null, bool, int, pos, str, dict_of, truthy}
use resilient_python_api.Outcome.{
  Error, Result, ok, err, ◌>>=◌, get_key, get_default, type_error, integration_error, system_exit,
  http_error, Response,
}
use resilient_python_api.Http.{RetryOn}
use Prim.Native.Char.{code}
use Prim.Native.String.{[] as empty, ◌∷◌ as ◌◂◌}

-- s.lower() == word, for a word of small Latin letters and digits without k
unfoldable pub lowers_to : (s word : String) → Bool
lowers_to empty empty = true
lowers_to empty (◌◂◌ d word) = false
lowers_to (◌◂◌ c s) empty = false
lowers_to (◌◂◌ c s) (◌◂◌ d word) =
    let rest = lowers_to s word in
    if eqb (code c) (code d) || (leb 65 (code c) && leb (code c) 90 && eqb (code c + 32) (code d))
    then rest
    else false

-- s.lower() in words
unfoldable pub lowers_to_any : String → List String → Bool
lowers_to_any s [] = false
lowers_to_any s (word ∷ words) =
    let rest = lowers_to_any s words in if lowers_to s word then true else rest

-- str_to_bool of resilient_common.py, on a text
unfoldable pub str_to_bool : String → Bool
unfolding lowers_to lowers_to_any
str_to_bool s = lowers_to_any s ("1" ∷ "true" ∷ "yes" ∷ "on" ∷ [])

-- `function_opts` and `integration_options` are a dict or None.
pub record RequestsCommon : Type 0 where
  pub integration_options : Value
  pub function_opts : Value

-- __init__
unfoldable pub new_requests_common : (opts function_opts : Value) → Result RequestsCommon
new_requests_common opts function_opts = do
  integrations ← if truthy opts then get_key opts "integrations" else ok null
  ok (record { integration_options = integrations; function_opts = function_opts })

-- What os.getenv gives for HTTPS_PROXY and HTTP_PROXY.
pub record Environment : Type 0 where
  pub https_proxy : Option String
  pub http_proxy : Option String

abbrev pub has_value : Option String → Bool
has_value none = false
has_value (some s) = not (s == "")

-- is_env_proxies_set of resilient/resilient/helpers.py
unfoldable pub is_env_proxies_set : Environment → Bool
is_env_proxies_set env = has_value env.https_proxy || has_value env.http_proxy

-- The proxies of a section, where it has any, and those that were found before otherwise.
abbrev pub section_proxies : (section proxies : Value) → Result Value
section_proxies section proxies = do
  http ← get_key section "http_proxy"
  https ← get_key section "https_proxy"
  ok (
      if truthy http || truthy https
      then dict_of (("http", http) ∷ ("https", https) ∷ [])
      else proxies)

abbrev pub proxies_or : (section proxies : Value) → Result Value
proxies_or section proxies = if truthy section then section_proxies section proxies else ok proxies

unfoldable pub get_proxies : Environment → RequestsCommon → Result Value
unfolding is_env_proxies_set
get_proxies env self =
    if is_env_proxies_set env
    then ok null
    else proxies_or self.integration_options null >>= proxies_or self.function_opts

abbrev pub timeout_or : (section timeout : Value) → Result Value
timeout_or section timeout =
    if truthy section
    then (do found ← get_key section "timeout"; ok (if truthy found then found else timeout))
    else ok timeout

abbrev pub default_timeout : Value
default_timeout = int (pos 30)

abbrev pub to_int : (int_of : String → Result ℤ) → Value → Result ℤ
to_int int_of (int z) = ok z
to_int int_of (bool b) = ok (pos (if b then 1 else 0))
to_int int_of (str s) = int_of s
to_int int_of _ = err type_error

unfoldable pub get_timeout : (int_of : String → Result ℤ) → RequestsCommon → Result ℤ
get_timeout int_of self =
    (timeout_or self.integration_options default_timeout >>= timeout_or self.function_opts)
    >>= to_int int_of

-- A certificate: None, what the caller gives, or the pair of the paths in the section.
pub data ClientAuth : Type 0 where
  no_auth : ClientAuth
  given_auth : Value → ClientAuth
  cert_and_key : Value → Value → ClientAuth

unfoldable pub get_client_auth : RequestsCommon → Result ClientAuth
get_client_auth self =
    if truthy self.function_opts
    then (do
      cert ← get_key self.function_opts "client_auth_cert"
      key ← get_key self.function_opts "client_auth_key"
      ok (if truthy cert && truthy key then cert_and_key cert key else no_auth))
    else ok no_auth

abbrev pub is_none : Value → Bool
is_none null = true
is_none _ = false

-- section.get("verify", True), where nothing was found before
abbrev pub verify_or : (section verify : Value) → Result Value
verify_or section verify =
    if is_none verify && truthy section then get_default section "verify" (bool true) else ok verify

-- Texts that stand for a Boolean become one.
unfoldable pub as_verify : Value → Value
unfolding lowers_to_any lowers_to str_to_bool
as_verify (str s) = if lowers_to_any s ("false" ∷ "true" ∷ []) then bool (str_to_bool s) else str s
as_verify verify = verify

unfoldable pub get_verify : RequestsCommon → Result Value
unfolding as_verify
get_verify self = do
  own ← verify_or self.function_opts null
  verify ← verify_or self.integration_options own
  ok (as_verify verify)

-- The arguments of `requests.request`.
pub record HttpRequest : Type 0 where
  pub method : String
  pub url : String
  pub timeout : Value
  pub proxies : Value
  pub cert : ClientAuth
  pub verify : Value

abbrev pub methods : List String
methods = "get" ∷ "post" ∷ "put" ∷ "patch" ∷ "delete" ∷ "head" ∷ "options" ∷ []

abbrev pub auth_or : ClientAuth → Result ClientAuth → Result ClientAuth
auth_or no_auth found = found
auth_or (given_auth v) found = if truthy v then ok (given_auth v) else found
auth_or (cert_and_key c k) found = ok (cert_and_key c k)

abbrev pub as_value : Result ℤ → Result Value
as_value (ok z) = ok (int z)
as_value (err e) = err e

-- The request of `execute`: what the caller does not give comes from the sections.
unfoldable pub prepare :
    (int_of : String → Result ℤ) → Environment → RequestsCommon → HttpRequest → Result HttpRequest
unfolding lowers_to_any lowers_to get_proxies get_timeout get_client_auth get_verify
prepare int_of env self given =
    if lowers_to_any given.method methods
    then (do
      proxies ← if truthy given.proxies then ok given.proxies else get_proxies env self
      timeout ←
          if truthy given.timeout then ok given.timeout else as_value (get_timeout int_of self)
      cert ← auth_or given.cert (get_client_auth self)
      verify ← if is_none given.verify then get_verify self else ok given.verify
      ok (record {
        method = given.method;
        url = given.url;
        timeout = timeout;
        proxies = proxies;
        cert = cert;
        verify = verify;
      }))
    else err integration_error
