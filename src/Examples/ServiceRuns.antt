-- ===== src/Examples/ServiceRuns.antt =====
-- Runs of RequestsCommon, and of the reloading of app.config.
use resilient_python_api.Prelude.{
  String, Bool, true, false, none, some, ◌≡◌, refl, [], ◌∷◌, arith, lookup, ◌⊎◌, inl,
}
use resilient_python_api.Value.{Value, ℤ, null, bool, int, str, pos, dict_of}
use resilient_python_api.Outcome.{Error, Result, ok, err, Response, http_error, value_error}
use resilient_python_api.Http.Attempts.{untried, failed}
use resilient_python_api.RequestsCommon.{RequestsCommon, Environment, HttpRequest, no_auth, prepare}
use resilient_python_api.RequestsCommon.Execute.{attempt, execute}
use resilient_python_api.RequestsCommon.Execution.{execute_recovers}
use resilient_python_api.Restart.{App, new_app, reload_config}
use resilient_python_api.Restart.Reloads.{
  changed, Run, rest, step_then, timer_pending, new_app-timer_pending, reload_config-IsStuck,
}
use resilient_python_api.Examples.Script.{Script, answer, answered_with, retrying_on}

abbrev env : Environment
env = record { https_proxy = none; http_proxy = some "" }

abbrev shared : Value
shared =
    dict_of
      (("https_proxy", str "proxy:1") ∷ ("verify", str "/ca.pem") ∷ ("timeout", int (pos 5)) ∷ [])

abbrev own : Value
own = dict_of (("http_proxy", str "proxy:2") ∷ [])

abbrev int_of : String → Result ℤ
int_of text = err (value_error "invalid literal for int()")

abbrev common : RequestsCommon
common = record { integration_options = shared; function_opts = own }

abbrev given : HttpRequest
given = record {
  method = "Get";
  url = "https://example.com";
  timeout = null;
  proxies = null;
  cert = no_auth;
  verify = null;
}

abbrev prepared : HttpRequest
prepared = record given {
  timeout = int (pos 5);
  proxies = dict_of (("http", str "proxy:2") ∷ ("https", null) ∷ []);
  verify = bool true;
}

abbrev is_http_error : Error → Bool
is_http_error (http_error r) = true
is_http_error _ = false

abbrev unavailable : Response
unavailable = answered_with 503 null

abbrev answered : Response
answered = answered_with 200 null

abbrev one_attempt : HttpRequest → Script → Result (Response ⊎ Response) × Script
one_attempt = attempt (λ request w. answer w) none

execute_recovers_example :
    execute {B = Response}
      (λ request w. answer w)
      none
      (retrying_on is_http_error)
      int_of
      env
      common
      2
      given
      (unavailable ∷ answered ∷ [])
    ≡ (ok (inl answered), [])
unfolding attempt prepare lookup
execute_recovers_example =
    execute_recovers {B = Response} (λ request w. answer w) none (retrying_on is_http_error) int_of
      env common 2 1 given prepared (unavailable ∷ answered ∷ []) (answered ∷ []) []
      (ok (inl answered)) refl (failed (http_error unavailable) refl refl untried) (omega arith)
      refl tt

-- The file changes once.
abbrev reloading_app : App
reloading_app = record new_app {
  reloading = true;
  reload_timer = some 0;
  next_timer = 1;
  pending_timers = 0 ∷ [];
  pending_reloads = 1;
}

one_change : Run true new_app reloading_app
unfolding new_app reload_config
one_change = step_then (changed (ok tt) (λ e. tt)) rest

new_app-timer_pending_example : timer_pending reloading_app ≡ true
unfolding new_app
new_app-timer_pending_example = new_app-timer_pending reloading_app one_change refl

abbrev stuck_app : App
stuck_app = (reload_config (err (value_error "no file")) new_app).1

-- It changes again, and can be read then.
later_change : Run false stuck_app stuck_app
unfolding new_app reload_config
later_change = step_then (changed (ok tt) (λ e. tt)) rest

reload_config-IsStuck_example : (stuck_app.reloading ≡ true) × (stuck_app ≡ stuck_app)
unfolding new_app
reload_config-IsStuck_example =
    reload_config-IsStuck (value_error "no file") new_app stuck_app refl refl refl later_change
