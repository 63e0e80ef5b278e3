-- ===== src/Oauth.antt =====
-- resilient-lib/resilient_lib/components/oauth2_client_credentials_session.py,
-- OAuth2ClientCredentialsSession: a session of `requests` that gets a token, puts it into each request
-- and renews it. Its `post` calls its own `request`, also for a token, so that the calls nest: the fuel
-- is how deep they may, and where it runs out the interpreter raises a RecursionError, which no handler
-- here catches. Proxies are passed on unread. Times are whole seconds.
pub mod Renewal
use resilient_python_api.Prelude.{
  ℕ, zero, suc, ◌+◌, ◌-◌, String, Bool, true, false, Option, none, some, List, [], ◌∷◌, Assoc,
  if◌then◌else◌, ltb, eqb, ◌==◌, ◌||◌, not, ◌&&◌, lookup,
}
use resilient_python_api.Value.{
  Value, ℤ, pos, negsuc, null, str, dict, dict_of, truthy, get_field, get_field_or, Fields,
}
use resilient_python_api.Outcome.{
  Result, Error, ok, err, Response, value_error, key_error, attribute_error, json_decode_error,
}
use resilient_python_api.RequestsCommon.Execute.{raise_for_status}

pub record OAuthSession : Type 0 where
  pub authorization_url : String
  pub client_id : String
  pub client_secret : String
  pub scope : Value
  pub oauth_token_data : Value
  pub expires_in : Value
  pub access_token : Value
  pub token_type : Value
  pub expiration_time : Option ℤ

-- The arguments of a request. `body` stands for the keyword arguments that are passed on.
pub record Call : Type 0 where
  pub method : String
  pub url : String
  pub headers : Assoc Value
  pub body : Value

-- The request that is made. The header "Authorization", which replaces one of the call's headers, is
-- given by the parts that its format string joins, "{} {}".
pub record Sent : Type 0 where
  pub call : Call
  pub token_type : Value
  pub access_token : Value

-- time.time() + int(expires_in)
abbrev pub add_seconds : ℕ → ℤ → ℤ
add_seconds time (pos n) = pos (time + n)
add_seconds time (negsuc n) = if ltb n time then pos (time - suc n) else negsuc (n - time)

-- expiration_time < time.time()
abbrev pub is_before : ℤ → ℕ → Bool
is_before (pos n) time = ltb n time
is_before (negsuc n) time = true

-- AUTHORIZATION_ERROR_CODES
abbrev pub is_authorization_error : Response → Bool
is_authorization_error response = eqb response.status_code 401 || eqb response.status_code 403

abbrev pub is_null : Value → Bool
is_null null = true
is_null _ = false

-- Code that uses the session and the world: its result with both, and `none` for a RecursionError.
abbrev pub Run : Type 0 → Type 0 → Type 0
Run W A = OAuthSession → W → Option (Result A × OAuthSession × W)

abbrev pub go_on :
    {W A B : Type 0}
    → Option (Result A × OAuthSession × W)
    → (A → Run W B)
    → Option (Result B × OAuthSession × W)
go_on none next = none
go_on (some (err e, self, w)) next = some (err e, self, w)
go_on (some (ok a, self, w)) next = next a self w

abbrev pub given_session : String → String → String → Value → OAuthSession
given_session url client_id client_secret scope = record {
  authorization_url = url;
  client_id = client_id;
  client_secret = client_secret;
  scope = scope;
  oauth_token_data = null;
  expires_in = null;
  access_token = null;
  token_type = null;
  expiration_time = none;
}

-- get_token
abbrev pub token_data : OAuthSession → Assoc Value
token_data self =
    ("client_id", str self.client_id)
    ∷ ("client_secret", str self.client_secret)
    ∷ ("grant_type", str "client_credentials")
    ∷ (if truthy self.scope then ("scope", self.scope) ∷ [] else [])

abbrev pub token_call : OAuthSession → Call
token_call self = record {
  method = "POST";
  url = self.authorization_url;
  headers = [];
  body = dict_of (token_data self);
}

-- add_authorization_header
abbrev pub with_token : OAuthSession → Call → Sent
with_token self call = record {
  call = call;
  token_type = self.token_type;
  access_token = self.access_token;
}

-- Whether `except ValueError` catches it. A JSONDecodeError is a ValueError.
abbrev is_value_error : Error → Bool
is_value_error (value_error text) = true
is_value_error json_decode_error = true
is_value_error _ = false

-- update_token, after authenticate
abbrev pub renewed :
    {W : Type 0}
    → Option (Result (Unit {0}) × OAuthSession × W)
    → Option (Result (Unit {0}) × OAuthSession × W)
renewed none = none
renewed (some (ok u, self, w)) = some (ok u, self, w)
renewed (some (err e, self, w)) = some (
  err (
      if is_value_error e
      then value_error "Can't update the token, did the credentials change?"
      else e),
  self,
  w,
)

module _ {W : Type 0} (send : Sent → W → Result Response × W) (time : W → ℕ × W)
    (int_of : Value → Result ℤ) where
  abbrev pub store_access : Fields → Run W (Unit {0})
  store_access fs self w = elim (get_field "access_token" fs) [
    | none ↦ some (err key_error, self, w)
    | some token ↦ some (
      ok tt,
      record self { access_token = token; token_type = get_field_or "token_type" null fs },
      w,
    )
  ]

  abbrev pub store_expiry :
      Fields → OAuthSession → ℕ × W → Option (Result (Unit {0}) × OAuthSession × W)
  store_expiry fs self (t, w) = elim (int_of self.expires_in) [
    | err e ↦ some (err e, self, w)
    | ok n ↦ store_access fs (record self { expiration_time = some (add_seconds t n) }) w
  ]

  -- authenticate, once the response is read: what is stored before an exception stays.
  abbrev pub store_token : Value → Run W (Unit {0})
  store_token (dict fs) self w =
      let held = record self {
        oauth_token_data = dict fs;
        expires_in = get_field_or "expires_in" null fs;
      } in
      if is_null held.expires_in
      then store_access fs (record held { expiration_time = none }) w
      else store_expiry fs held (time w)
  store_token v self w = some (err attribute_error, record self { oauth_token_data = v }, w)

  abbrev pub read_token : Response → Run W (Unit {0})
  read_token response self w = elim (raise_for_status response) [
    | err e ↦ some (err e, self, w)
    | ok u ↦ elim response.json [
      | none ↦ some (err json_decode_error, self, w)
      | some v ↦ store_token v self w
    ]
  ]

  -- authenticate, where `request` makes the request for a token
  unfoldable pub authenticate : (Call → Run W Response) → Run W (Unit {0})
  unfolding lookup raise_for_status
  authenticate request self w = go_on (request (token_call self) self w) read_token

  abbrev pub update_token : (Call → Run W Response) → Run W (Unit {0})
  update_token request self w = renewed (authenticate request self w)

  -- super().request
  abbrev pub made : Sent → Run W Response
  made sent self w = let (result, w') = send sent w in some (result, self, w')

  abbrev pub sent_again : (Call → Run W Response) → Sent → Response → Run W Response
  sent_again request sent response self w =
      if is_authorization_error response
      then go_on (update_token request self w) (λ u. made sent)
      else some (ok response, self, w)

  abbrev pub sent_call : (Call → Run W Response) → Call → Unit {0} → Run W Response
  sent_call request call u self w =
      let sent = with_token self call in go_on (made sent self w) (sent_again request sent)

  abbrev pub is_expired : ℕ × W → ℤ → Bool
  is_expired (t, w) expiration = is_before expiration t

  abbrev pub renew_if : (Call → Run W Response) → Bool → Run W (Unit {0})
  renew_if request true = update_token request
  renew_if request false = λ self w. some (ok tt, self, w)

  abbrev pub renew_by : (Call → Run W Response) → Call → Option ℤ → Run W (Unit {0})
  renew_by request call none self w = some (ok tt, self, w)
  renew_by request call (some expiration) self w =
      if call.url == self.authorization_url
      then some (ok tt, self, w)
      else renew_if request (is_expired (time w) expiration) self (time w).1

  abbrev pub renew_if_expired : (Call → Run W Response) → Call → Run W (Unit {0})
  renew_if_expired request call self w = renew_by request call self.expiration_time self w

  -- request
  unfoldable pub request : ℕ → Call → Run W Response
  unfolding authenticate
  request zero call self w = none
  request (suc depth) call self w =
      go_on (renew_if_expired (request depth) call self w) (sent_call (request depth) call)

  -- __init__ of a new object; what the attributes are before the fields are checked is not seen.
  unfoldable pub new_session :
      ℕ → String → String → String → Value → W → Option (Result (Unit {0}) × OAuthSession × W)
  unfolding request authenticate
  new_session depth url client_id client_secret scope w =
      let self = given_session url client_id client_secret scope in
      if url == "" || client_id == "" || client_secret == ""
      then some (err (value_error "Missing fields required for OAuth2 authentication."), self, w)
      else authenticate (request depth) self w
