-- ===== src/RequestsCommon/Precedence.antt =====
-- Which section of app.config decides about the proxies, the timeout and the check of certificates.
use resilient_python_api.Prelude.{
  String, Bool, true, if◌then◌else◌, [], ◌∷◌, ◌≡◌, refl, arith, ◌||◌, not, ◌&&◌, lookup,
}
use resilient_python_api.Value.{
  Value, null, bool, int, str, list, dict, dict_of, truthy, end, field, get_field_or,
}
use resilient_python_api.Outcome.{ok}
use resilient_python_api.RequestsCommon.{
  Environment, is_env_proxies_set, get_proxies, get_verify, as_verify, is_none, proxies_or,
  verify_or,
}

-- The value of a section that is a dict, and of None.
abbrev pub option_of : Value → String → Value → Value
option_of (dict fs) key default = get_field_or key default fs
option_of _ key default = default

abbrev pub IsSection : Value → Type 0
IsSection null = Unit {0}
IsSection (dict fs) = Unit {0}
IsSection _ = ⊥

abbrev pub has_proxies : Value → Bool
has_proxies section =
    truthy (option_of section "http_proxy" null) || truthy (option_of section "https_proxy" null)

abbrev pub proxies_of : Value → Value
proxies_of section = dict_of (
    ("http", option_of section "http_proxy" null)
    ∷ ("https", option_of section "https_proxy" null)
    ∷ [])

proxies_or-IsSection :
    (section proxies : Value)
    → IsSection section
    → proxies_or section proxies ≡ ok (if has_proxies section then proxies_of section else proxies)
unfolding lookup
proxies_or-IsSection null proxies s = refl
proxies_or-IsSection (dict end) proxies s = refl
proxies_or-IsSection (dict (field k v fs)) proxies s = refl
proxies_or-IsSection (bool _) proxies s = absurd s
proxies_or-IsSection (int _) proxies s = absurd s
proxies_or-IsSection (str _) proxies s = absurd s
proxies_or-IsSection (list _) proxies s = absurd s

verify_or-IsSection :
    (section verify : Value)
    → IsSection section
    → verify_or section verify
      ≡ ok (
          if is_none verify && truthy section
          then option_of section "verify" (bool true)
          else verify)
verify_or-IsSection null verify s = ground arith
verify_or-IsSection (dict fs) verify s = ground arith
verify_or-IsSection (bool _) verify s = absurd s
verify_or-IsSection (int _) verify s = absurd s
verify_or-IsSection (str _) verify s = absurd s
verify_or-IsSection (list _) verify s = absurd s

-- The environment decides first, then the function's section, then [integrations]; a section decides
-- where it has a proxy for http or https, and then about both.
pub get_proxies_lem :
    (env : Environment) (integration_options function_opts : Value)
    → IsSection integration_options
    → IsSection function_opts
    → get_proxies env
        (record { integration_options = integration_options; function_opts = function_opts })
      ≡ ok (
          if is_env_proxies_set env
          then null
          else if has_proxies function_opts
          then proxies_of function_opts
          else if has_proxies integration_options
          then proxies_of integration_options
          else null)
unfolding get_proxies
get_proxies_lem env integrations own s s' = ground (
  arith,
  proxies_or-IsSection integrations null s,
  proxies_or-IsSection own (if has_proxies integrations then proxies_of integrations else null) s',
)

-- What is passed on as `verify`: the value of the function's section, True where that section is not
-- empty and has none; only for an empty section, or for a value None, that of [integrations].
pub get_verify_lem :
    (integration_options function_opts : Value)
    → IsSection integration_options
    → IsSection function_opts
    → get_verify
        (record { integration_options = integration_options; function_opts = function_opts })
      ≡ ok (
          as_verify (
            if truthy function_opts && not (is_none (option_of function_opts "verify" (bool true)))
            then option_of function_opts "verify" (bool true)
            else if truthy integration_options
            then option_of integration_options "verify" (bool true)
            else null))
unfolding get_verify
get_verify_lem integrations own s s' = ground (
  arith,
  verify_or-IsSection own null s',
  verify_or-IsSection integrations (if truthy own then option_of own "verify" (bool true) else null)
      s,
)
