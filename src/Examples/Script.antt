-- ===== src/Examples/Script.antt =====
-- A session that answers from a list, and a `retry_call` for it.
use resilient_python_api.Prelude.{ℕ, zero, suc, Bool, true, false, none, some, ◌≡◌, List, [], ◌∷◌}
use resilient_python_api.Value.{Value, null, str, int, pos}
use resilient_python_api.Outcome.{Error, Result, ok, err, Response, connection_error}
use resilient_python_api.Http.{Session, Retry, RetryOn, is_retried}
use resilient_python_api.BaseClient.{BaseClient}
use resilient_python_api.Http.Attempts.{try_times}

abbrev pub Script : Type 0
Script = List Response

abbrev pub answer : Script → Result Response × Script
answer [] = (err connection_error, [])
answer (r ∷ rs) = (ok r, rs)

abbrev pub scripted : Session Script
scripted = record { send = λ req w. answer w; clear_cookies = λ w. w }

module _ (retried : Error → Bool) where
  abbrev pub attempts : {A : Type 0} → ℕ → (Script → Result A × Script) → Script → Result A × Script
  attempts zero f w = f w
  attempts (suc n) f w = try_times retried n f (f w)

  pub attempts_returns :
      {A : Type 0} (tries : ℕ) (f : Script → Result A × Script) (w w' : Script) (a : A)
      → f w ≡ (ok a, w')
      → attempts (suc tries) f w ≡ (ok a, w')
  unfolding try_times
  attempts_returns zero f w w' a e = rw e
  attempts_returns (suc n) f w w' a e = rw (e, try_times)

  pub attempts_raises :
      {A : Type 0} (tries : ℕ) (f : Script → Result A × Script) (w w' : Script) (x : Error)
      → f w ≡ (err x, w')
      → retried x ≡ false
      → attempts (suc tries) f w ≡ (err x, w')
  unfolding try_times
  attempts_raises zero f w w' x e h = rw e
  attempts_raises (suc n) f w w' x e h = rw (e, try_times, h)

  pub attempts_next :
      {A : Type 0} (tries : ℕ) (f : Script → Result A × Script) (w w' : Script) (x : Error)
      → f w ≡ (err x, w')
      → retried x ≡ true
      → attempts (suc (suc tries)) f w ≡ attempts (suc tries) f w'
  unfolding try_times
  attempts_next n f w w' x e h = rw (e, try_times, h)

  pub attempts_last :
      {A : Type 0} (f : Script → Result A × Script) (w w' : Script) (x : Error)
      → f w ≡ (err x, w')
      → attempts 1 f w ≡ (err x, w')
  unfolding try_times
  attempts_last f w w' x e = e

  abbrev pub retrying_on : RetryOn retried Script
  retrying_on = record {
    retry_call = attempts;
    retry_unlimited = attempts 100;
    call_returns = attempts_returns;
    call_raises = attempts_raises;
    last_try = attempts_last;
    next_try = attempts_next;
  }

abbrev pub retrying : Retry Script
retrying = retrying_on is_retried

abbrev pub client : BaseClient
client = record {
  base_url = "https://soar.example.com:443";
  org_name = str "Acme";
  org_id = int (pos 201);
  all_orgs = [];
  user_id = null;
  headers = ("content-type", str "application/json") ∷ [];
  cookies = null;
  authdata = null;
  use_api_key = true;
  api_key_id = str "id";
  api_key_secret = str "key";
  api_key_handle = null;
  max_connection_retries = none;
  request_max_retries = 5;
}

abbrev pub answered_with : ℕ → Value → Response
answered_with status value = record {
  status_code = status;
  reason = "";
  text = "";
  json = some value;
  cookies = [];
}
