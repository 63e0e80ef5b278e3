-- ===== src/Examples/OauthRuns.antt =====
-- Runs of OAuth2ClientCredentialsSession.
use resilient_python_api.Prelude.{ℕ, none, some, [], ◌∷◌, ◌≡◌, refl, lookup, zero, inr}
use resilient_python_api.Value.{Value, ℤ, pos, null, str, int, dict, of_entries, Fields}
use resilient_python_api.Outcome.{Result, ok, err, Response, value_error}
use resilient_python_api.RequestsCommon.Execute.{raise_for_status}
use resilient_python_api.Oauth.{OAuthSession, Call, Sent, given_session, request, new_session}
use resilient_python_api.Oauth.Renewal.{
  new_session-recursion_error, holding, request-resends, request-renews,
}
use resilient_python_api.Examples.Script.{Script, answer, answered_with}

abbrev session : OAuthSession
session = record (given_session "https://a/token" "id" "secret" null) {
  access_token = str "old";
  token_type = str "Bearer";
}

abbrev call : Call
call = record { method = "GET"; url = "https://a/users"; headers = []; body = null }

abbrev token : Fields
token = of_entries (
    ("access_token", str "new")
    ∷ ("token_type", str "Bearer")
    ∷ ("expires_in", int (pos 3600))
    ∷ [])

abbrev renewed : OAuthSession
renewed = holding token (str "new") (some (pos 3700)) session

abbrev clock : Script → ℕ × Script
clock w = (100, w)

abbrev int_of : Value → Result ℤ
int_of (int n) = ok n
int_of v = err (value_error "invalid literal for int()")

abbrev script : Sent → Script → Result Response × Script
script sent w = answer w

-- The world counts the requests, and answers one made with the old token by 401.
abbrev refusing : Sent → ℕ → Result Response × ℕ
refusing sent w = (ok (answered_with 401 null), w)

new_session-recursion_error_example :
    new_session refusing (λ w. (w, w)) int_of 7 "https://a/token" "id" "secret" null 0 ≡ none
new_session-recursion_error_example =
    new_session-recursion_error refusing (λ w. (w, w)) int_of "https://a/token" "id" "secret" null
      (λ sent w e. refl) refl 7 0

request-resends_example :
    request script clock int_of 2 call session (
      answered_with 401 null
      ∷ answered_with 200 (dict token)
      ∷ answered_with 200 (str "users")
      ∷ [])
    ≡ some (ok (answered_with 200 (str "users")), renewed, [])
unfolding lookup raise_for_status
request-resends_example =
    request-resends script clock int_of token (str "new") (answered_with 200 (dict token)) refl refl
      refl refl zero call session
      (answered_with 401 null
        ∷ answered_with 200 (dict token)
        ∷ answered_with 200 (str "users")
        ∷ [])
      (answered_with 401 null
        ∷ answered_with 200 (dict token)
        ∷ answered_with 200 (str "users")
        ∷ [])
      (answered_with 200 (dict token) ∷ answered_with 200 (str "users") ∷ [])
      (answered_with 200 (str "users") ∷ []) (answered_with 200 (str "users") ∷ [])
      (answered_with 401 null) (some (pos 3700)) refl refl refl refl
      (inr (pos 3600, refl, refl, refl, refl))

abbrev expired : OAuthSession
expired = record session { expiration_time = some (pos 50) }

request-renews_example :
    request script clock int_of 2 call expired
      (answered_with 200 (dict token) ∷ answered_with 200 (str "users") ∷ [])
    ≡ some (ok (answered_with 200 (str "users")), renewed, [])
unfolding lookup raise_for_status
request-renews_example =
    request-renews script clock int_of token (str "new") (answered_with 200 (dict token)) refl refl
      refl refl zero call expired
      (answered_with 200 (dict token) ∷ answered_with 200 (str "users") ∷ [])
      (answered_with 200 (str "users") ∷ []) (answered_with 200 (str "users") ∷ []) [] (pos 50)
      (some (pos 3700)) (ok (answered_with 200 (str "users"))) refl refl refl refl
      (inr (pos 3600, refl, refl, refl, refl)) refl refl
