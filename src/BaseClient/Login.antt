-- ===== src/BaseClient/Login.antt =====
-- How BaseClient opens a session: set_api_key, connect and _extract_org_id.
use resilient_python_api.Prelude.{
  ℕ, Bool, true, false, Option, none, some, List, [], ◌∷◌, if◌then◌else◌, insert, lookup,
}
use resilient_python_api.Value.{Value, null, bool, str, list, nil, truthy, dict_of, eq_value}
use resilient_python_api.Outcome.{
  Result, ok, err, ◌>>=◌, Response, plain_exception, type_error, key_error, or_raise, get_default,
  get_key, get_item, iterate, require,
}
use resilient_python_api.Http.{Session, Retry, Request, session_url, http_get, http_post}
use resilient_python_api.BaseClient.{BaseClient, make_headers, request, loads, judged}
use resilient_python_api.BaseClient.Requests.{checked}

-- [org.get("name") for org in orgs], joined: a name that is no text cannot be joined.
joined_names : List Value → Result (Unit {0})
joined_names [] = ok tt
joined_names (org ∷ orgs) = do
  name ← get_key org "name"
  _ ← joined_names orgs
  elim name [ str s ↦ ok tt | _ ↦ err type_error ]

org_matches_name : Value → Value → Result Bool
org_matches_name app_config_org_value o = do
  name ← get_default o "name" (str "")
  ok (eq_value app_config_org_value name)

org_matches_uuid : Value → Value → Result Bool
unfolding org_matches_name
org_matches_uuid app_config_org_value o = do
  uuid ← get_default o "uuid" (str "")
  if eq_value app_config_org_value uuid then ok true else org_matches_name app_config_org_value o

-- Whether an organization is the one that app.config names: by account, by uuid, or by name.
unfoldable pub org_matches : Value → Value → Result Bool
unfolding org_matches_uuid
org_matches app_config_org_value o = do
  account ← get_default o "cloud_account" (str "")
  if eq_value app_config_org_value account then ok true else org_matches_uuid app_config_org_value o

-- The loop of `_extract_org_id`: the first organization that matches.
unfoldable pub select_org : Value → List Value → Result (Option Value)
select_org app_config_org_value [] = ok none
select_org app_config_org_value (o ∷ orgs) = do
  found ← org_matches app_config_org_value o
  if found then ok (some o) else select_org app_config_org_value orgs

unfoldable pub enabled_orgs : List Value → Result (List Value)
enabled_orgs [] = ok []
enabled_orgs (org ∷ orgs) = do
  enabled ← get_key org "enabled"
  rest ← enabled_orgs orgs
  ok (if truthy enabled then org ∷ rest else rest)

unfoldable pub set_org : BaseClient → List Value → Value → Result BaseClient
unfolding enabled_orgs
set_org client orgs selected_org = do
  all_orgs ← enabled_orgs orgs
  org_id ← get_key selected_org "id"
  ok (record client { all_orgs = all_orgs; org_id = org_id })

unfoldable pub with_org : BaseClient → List Value → Value → Result BaseClient
unfolding set_org
with_org client orgs selected_org = do
  enabled ← get_default selected_org "enabled" (bool false)
  if truthy enabled
      then set_org client orgs selected_org
      else err (plain_exception "This organization is not accessible to you.")

-- `if not selected_org`
unfoldable pub selected : BaseClient → List Value → Option Value → Result BaseClient
unfolding with_org
selected client orgs none =
    err (plain_exception "The user is not a member of the specified organization")
selected client orgs (some o) =
    if truthy o
    then with_org client orgs o
    else err (plain_exception "The user is not a member of the specified organization")

unfoldable pub ask_for_org : List Value → Result BaseClient
unfolding joined_names
ask_for_org orgs = do
  _ ← joined_names orgs
  err (plain_exception "Please specify the organization name to which you want to connect.")

unfoldable pub choose_org : BaseClient → List Value → Result BaseClient
unfolding selected select_org
choose_org client orgs = do found ← select_org client.org_name orgs; selected client orgs found

-- _extract_org_id: the client with `all_orgs` and `org_id` set.
unfoldable pub extract_org_id : BaseClient → Value → Result BaseClient
extract_org_id client response = do
  found ← get_default response "orgs" (list nil)
  _ ← require (truthy found) (plain_exception "User is not a member of any orgs")
  orgs ← iterate found
  if truthy client.org_name then choose_org client orgs else ask_for_org orgs

-- Statements that set fields of the client one after another: what raises leaves what was set.
abbrev then_set :
    {A B : Type 0} → BaseClient → Result A → (A → Result B × BaseClient) → Result B × BaseClient
then_set client (ok a) next = next a
then_set client (err e) next = (err e, client)

-- set_api_key, from `json.loads` on.
unfoldable pub open_api_key : BaseClient → Response → Result Value × BaseClient
open_api_key client response = then_set client (loads response) λ opened.
    then_set client (extract_org_id client opened) λ client₁.
      then_set client₁ (get_key opened "api_key_handle")
        λ handle. (ok opened, record client₁ { api_key_handle = handle })

-- _connect, from `json.loads` on.
unfoldable pub open_session : BaseClient → Response → Result Value × BaseClient
open_session client response = then_set client (loads response) λ opened.
    then_set client (extract_org_id client opened) λ client₁.
      then_set client₁ (get_item opened "csrf_token") λ token.
        let client₂ : BaseClient = record client₁ {
          headers = insert "X-sess-id" token client₁.headers;
        } in
        then_set client₂ (or_raise (lookup "JSESSIONID" response.cookies) key_error) λ cookie.
          let client₃ : BaseClient = record client₂ {
            cookies = dict_of (("JSESSIONID", cookie) ∷ []);
          } in
          then_set client₃ (get_item opened "user_id")
            λ user_id. (ok opened, record client₃ { user_id = user_id })

abbrev api_key_request : BaseClient → Bool → Request
api_key_request client include_permissions =
    record (request client http_get (session_url client.base_url include_permissions) none
      (make_headers client null null)) { auth = some (client.api_key_id, client.api_key_secret) }

abbrev connect_request : BaseClient → Bool → Request
connect_request client include_permissions =
    record (request client http_post (session_url client.base_url include_permissions)
      (some client.authdata) (make_headers client null null)) { cookies = null }

module _ {W : Type 0} (session : Session W) where
  -- __set_api_key and __connect: they call the session itself.
  unfoldable pub login_attempt : Request → W → Result Response × W
  login_attempt req w = judged (session.send req w) (checked null)

-- What was answered, the client, and the world.
abbrev pub Login : Type 0 → Type 0
Login W = (Result Value × BaseClient) × W

abbrev finish :
    {W : Type 0}
    → BaseClient
    → (BaseClient → Response → Result Value × BaseClient)
    → Result Response × W
    → Login W
finish client opens (ok response, w) = (opens client response, w)
finish client opens (err e, w) = ((err e, client), w)

-- retry_call with tries=self.max_connection_retries
abbrev pub retry_connection :
    {W A : Type 0} → Retry W → Option ℕ → (W → Result A × W) → W → Result A × W
retry_connection retry none f = retry.retry_unlimited f
retry_connection retry (some tries) f = retry.retry_call tries f

module _ {W : Type 0} (session : Session W) (retry : Retry W) where
  -- set_api_key
  unfoldable pub set_api_key : BaseClient → Value → Value → Bool → W → Login W
  unfolding login_attempt
  set_api_key client api_key_id api_key_secret include_permissions w =
      let client₁ : BaseClient = record client {
        api_key_id = api_key_id;
        api_key_secret = api_key_secret;
        use_api_key = true;
      } in
      finish client₁ open_api_key (
        retry_connection retry client.max_connection_retries
          (login_attempt session (api_key_request client₁ include_permissions)) w)

  -- connect, which calls `_connect` without permissions
  unfoldable pub connect : BaseClient → Value → Value → W → Login W
  unfolding login_attempt
  connect client email password w =
      let client₁ : BaseClient = record client {
        authdata = dict_of (("email", email) ∷ ("password", password) ∷ []);
      } in
      finish client₁ open_session (
        retry_connection retry client.max_connection_retries
          (login_attempt session (connect_request client₁ false)) w)
