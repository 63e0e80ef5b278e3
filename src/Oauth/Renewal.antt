-- ===== src/Oauth/Renewal.antt =====
-- How a session renews its token.
use resilient_python_api.Prelude.{
  ℕ, zero, suc, String, true, false, Option, none, some, ◌≡◌, refl, arith, ap, ◌∙◌, ◌==◌, eq_iff,
  ◌||◌, ◌⊎◌, inl, inr,
}
use resilient_python_api.Value.{Value, ℤ, null, dict, get_field, get_field_or, Fields}
use resilient_python_api.Outcome.{Result, ok, err, Response}
use resilient_python_api.RequestsCommon.Execute.{raise_for_status}
use resilient_python_api.Oauth.{
  OAuthSession, Call, Sent, is_null, add_seconds, is_before, is_authorization_error, go_on,
  token_call, with_token, made, authenticate, update_token, renew_by, renew_if, renew_if_expired,
  request, given_session, new_session, sent_call, sent_again, read_token, renewed, store_token,
  store_access, store_expiry,
}

-- The session, once a token was stored.
abbrev pub holding : Fields → Value → Option ℤ → OAuthSession → OAuthSession
holding fs token expiration self = record self {
  oauth_token_data = dict fs;
  expires_in = get_field_or "expires_in" null fs;
  expiration_time = expiration;
  access_token = token;
  token_type = get_field_or "token_type" null fs;
}

module _ {W : Type 0} (send : Sent → W → Result Response × W) (time : W → ℕ × W)
    (int_of : Value → Result ℤ) where
  renew_if_expired-token_call :
      (post : Call → OAuthSession → W → Option (Result Response × OAuthSession × W))
      (self : OAuthSession) (w : W)
      → renew_if_expired send time int_of post (token_call self) self w ≡ some (ok tt, self, w)
  renew_if_expired-token_call post self w =
      ground (arith, eq_iff self.authorization_url self.authorization_url)

  -- The answer is a refusal.
  abbrev pub IsRefused : Result Response × W → Type 0
  IsRefused (ok response, w) = is_authorization_error response ≡ true
  IsRefused (err e, w) = ⊥

  module _ (url : String)
      (refuses : (sent : Sent) (w : W) → sent.call.url ≡ url → IsRefused (send sent w)) where
    refused-again :
        (post : Call → OAuthSession → W → Option (Result Response × OAuthSession × W)) (sent : Sent)
        (self : OAuthSession) (answer : Result Response × W)
        → IsRefused answer
        → ((w : W) → post (token_call self) self w ≡ none)
        → go_on (some (answer.0, self, answer.1)) (sent_again send time int_of post sent) ≡ none
    unfolding authenticate
    refused-again post sent self (ok response, w) h ends = rw h (rw (ends w))
    refused-again post sent self (err e, w) h ends = absurd h

    token-recursion_error :
        (depth : ℕ) (self : OAuthSession) (w : W)
        → self.authorization_url ≡ url
        → request send time int_of depth (token_call self) self w ≡ none
    unfolding request
    token-recursion_error zero self w e = refl
    token-recursion_error (suc depth) self w e =
        let post = request send time int_of depth in
        let sent = with_token self (token_call self) in
        ap (λ r. go_on r (sent_call send time int_of post (token_call self)))
          (renew_if_expired-token_call post self w)
        ∙ refused-again post sent self (send sent w) (refuses sent w e)
            (λ w'. token-recursion_error depth self w' e)

  -- Where every request to the authorization URL is answered with status 401 or 403, creating a session
  -- that has its fields ends in a RecursionError, however deep the calls may nest: each request for a
  -- token makes another one within itself.
  pub new_session-recursion_error :
      (url client_id client_secret : String) (scope : Value)
      → ((sent : Sent) (w : W) → sent.call.url ≡ url → IsRefused (send sent w))
      → ((url == "") || (client_id == "") || (client_secret == "")) ≡ false
      → (depth : ℕ) (w : W)
      → new_session send time int_of depth url client_id client_secret scope w ≡ none
  unfolding new_session authenticate
  new_session-recursion_error url client_id client_secret scope refuses given depth w = rw given (
      rw (
        token-recursion_error url refuses depth (given_session url client_id client_secret scope) w
          refl))

  -- An exception, or a response that is no refusal.
  abbrev pub IsFinal : Result Response → Type 0
  IsFinal (ok response) = is_authorization_error response ≡ false
  IsFinal (err e) = Unit {0}

  final-returned :
      (post : Call → OAuthSession → W → Option (Result Response × OAuthSession × W)) (sent : Sent)
      (self : OAuthSession) (w : W) (result : Result Response)
      → IsFinal result
      → go_on (some (result, self, w)) (sent_again send time int_of post sent)
        ≡ some (result, self, w)
  final-returned post sent self w (ok response) final = rw final
  final-returned post sent self w (err e) final = refl

  renew_if_expired-renews :
      (post : Call → OAuthSession → W → Option (Result Response × OAuthSession × W)) (call : Call)
      (self : OAuthSession) (w : W) (expiration : ℤ)
      → (call.url == self.authorization_url) ≡ false
      → self.expiration_time ≡ some expiration
      → is_before expiration (time w).0 ≡ true
      → renew_if_expired send time int_of post call self w
        ≡ update_token send time int_of post self (time w).1
  renew_if_expired-renews post call self w expiration other expires before =
      ap (λ o. renew_by send time int_of post call o self w) expires
      ∙ rw other (ap (λ b. renew_if send time int_of post b self (time w).1) before)

  -- When a token expires of which "expires_in" is said at a time, and the world once that is known:
  -- never, or as many seconds after the time as `int` reads.
  abbrev pub Expires : Value → W → Option ℤ → W → Type 0
  Expires expires_in w expiration w' =
      (is_null expires_in ≡ true) × (expiration ≡ none) × (w' ≡ w)
      ⊎ (n : ℤ) × (is_null expires_in ≡ false)
        × (int_of expires_in ≡ ok n)
        × (expiration ≡ some (add_seconds (time w).0 n))
        × (w' ≡ (time w).1)

  module _ (fs : Fields) (token : Value) (response : Response)
      (accepted : raise_for_status response ≡ ok tt)
      (not_refused : is_authorization_error response ≡ false)
      (json : response.json ≡ some (dict fs))
      (has_token : get_field "access_token" fs ≡ some token) where
    request-token_call :
        (depth : ℕ) (self : OAuthSession) (w w' : W)
        → send (with_token self (token_call self)) w ≡ (ok response, w')
        → request send time int_of (suc depth) (token_call self) self w
          ≡ some (ok response, self, w')
    unfolding request
    request-token_call depth self w w' answers =
        ap
          (λ r.
            go_on r (sent_call send time int_of (request send time int_of depth) (token_call self)))
          (renew_if_expired-token_call (request send time int_of depth) self w)
        ∙ rw answers (rw not_refused)

    store_token_lem :
        (self : OAuthSession) (w w' : W) (expiration : Option ℤ)
        → Expires (get_field_or "expires_in" null fs) w expiration w'
        → store_token send time int_of (dict fs) self w
          ≡ some (ok tt, holding fs token expiration self, w')
    store_token_lem self w w' expiration (inl (absent, never, same)) =
        rw absent (rw (never, same) (rw (has_token, store_access)))
    store_token_lem self w w' expiration (inr (n, given, seconds, at_time, later)) =
        rw given (rw (seconds, store_expiry) (rw (at_time, later) (rw (has_token, store_access))))

    read_token_lem :
        (self : OAuthSession) (w w' : W) (expiration : Option ℤ)
        → Expires (get_field_or "expires_in" null fs) w expiration w'
        → read_token send time int_of response self w
          ≡ some (ok tt, holding fs token expiration self, w')
    read_token_lem self w w' expiration expires =
        rw (accepted, read_token)
          (rw (json, read_token) (store_token_lem self w w' expiration expires))

    update_token_lem :
        (depth : ℕ) (self : OAuthSession) (w w' w'' : W) (expiration : Option ℤ)
        → send (with_token self (token_call self)) w ≡ (ok response, w')
        → Expires (get_field_or "expires_in" null fs) w' expiration w''
        → update_token send time int_of (request send time int_of (suc depth)) self w
          ≡ some (ok tt, holding fs token expiration self, w'')
    unfolding authenticate
    update_token_lem depth self w w' w'' expiration answers expires =
        rw (request-token_call depth self w w' answers)
          (ap renewed (read_token_lem self w' w'' expiration expires))

    -- The authorization URL answers the request for a token with a success: a dict that has a token, and
    -- either no "expires_in" or one that `int` reads. Then a token that is refused with status 401 or 403
    -- is renewed, but the request is made again as it was: with the refused token, not with the one that
    -- the session holds now.
    pub request-resends :
        (depth : ℕ) (call : Call) (self : OAuthSession) (w w0 w1 w2 w3 : W) (refusal : Response)
        (expiration : Option ℤ)
        → renew_if_expired send time int_of (request send time int_of (suc depth)) call self w
          ≡ some (ok tt, self, w0)
        → send (with_token self call) w0 ≡ (ok refusal, w1)
        → is_authorization_error refusal ≡ true
        → send (with_token self (token_call self)) w1 ≡ (ok response, w2)
        → Expires (get_field_or "expires_in" null fs) w2 expiration w3
        → request send time int_of (suc (suc depth)) call self w
          ≡ made send time int_of (with_token self call) (holding fs token expiration self) w3
    unfolding request
    request-resends depth call self w w0 w1 w2 w3 refusal expiration fresh first refused answers
          expires =
        let post = request send time int_of (suc depth) in
        ap (λ r. go_on r (sent_call send time int_of post call)) fresh
        ∙ rw first (
            rw refused (
              ap (λ r. go_on r (λ u. made send time int_of (with_token self call)))
                (update_token_lem depth self w1 w2 w3 expiration answers expires)))

    -- The authorization URL answers the request for a token with a success: a dict that has a token, and
    -- either no "expires_in" or one that `int` reads. Then a token that is known to be expired is renewed
    -- before a request to another URL, which is made with the new one; what it gives is returned or
    -- raised, unless it is a refusal. The time at which the new token expires is kept.
    pub request-renews :
        (depth : ℕ) (call : Call) (self : OAuthSession) (w w1 w2 w3 : W) (expiration : ℤ)
        (later : Option ℤ) (result : Result Response)
        → (call.url == self.authorization_url) ≡ false
        → self.expiration_time ≡ some expiration
        → is_before expiration (time w).0 ≡ true
        → send (with_token self (token_call self)) (time w).1 ≡ (ok response, w1)
        → Expires (get_field_or "expires_in" null fs) w1 later w2
        → send (with_token (holding fs token later self) call) w2 ≡ (result, w3)
        → IsFinal result
        → request send time int_of (suc (suc depth)) call self w
          ≡ some (result, holding fs token later self, w3)
    unfolding request
    request-renews depth call self w w1 w2 w3 expiration later result other expires before answers
          expires_later made_with final =
        let post = request send time int_of (suc depth) in
        let held = holding fs token later self in
        ap (λ r. go_on r (sent_call send time int_of post call))
          (renew_if_expired-renews post call self w expiration other expires before
            ∙ update_token_lem depth self (time w).1 w1 w2 later answers expires_later)
        ∙ rw made_with (final-returned post (with_token held call) held w3 result final)
