-- ===== src/Examples/SecretRuns.antt =====
-- Runs of the substitution of secrets.
use resilient_python_api.Prelude.{
  Option, none, some, if◌then◌else◌, ◌≡◌, ◌≢◌, refl, [], ◌∷◌, ◌==◌, lookup, arith,
}
use resilient_python_api.Value.{str}
use resilient_python_api.Outcome.{ok}
use resilient_python_api.AppConfig.{
  SecretManager, ProtectedSecretsManager, AppConfigManager, secrets, getitem,
  replace_secret_in_config, get_secret, lstrip_dollar,
}
use resilient_python_api.AppConfig.Substitution.{
  Template, part, last, WellFormed, Expands, expand_last, expand_part, replace_secret_in_config_lem,
}
use resilient_python_api.AppConfig.Items.{dollar, caret}
use resilient_python_api.AppConfig.Termination.{getitem-ends}

-- The variable TABLE of the environment refers to the plugin.
abbrev manager : ProtectedSecretsManager
manager = record {
  secret_data = [];
  decrypt = λ token key. none;
  environ = λ name. if name == "TABLE" then some "t_^{ENV}" else none;
}

abbrev vault : SecretManager
vault name default = ok (some (if name == "ENV" then "prod" else default))

abbrev config_with : Option SecretManager → AppConfigManager
config_with plugin = record {
  config_data = ("sql", str "from ${TABLE};") ∷ [];
  protected_secrets_manager = manager;
  pam_plugin = plugin;
}

abbrev sql : Template
sql = part "from " "TABLE" (last ";")

abbrev resolved : Template
resolved = part "from t_" "ENV" (last ";")

sql-WellFormed : WellFormed dollar (secrets manager) refl sql
sql-WellFormed = ground arith

resolved-WellFormed : WellFormed caret vault refl resolved
resolved-WellFormed = ground arith

sql-Expands : Expands dollar (secrets manager) refl sql "from t_^{ENV};"
unfolding get_secret lstrip_dollar lookup
sql-Expands = expand_part "from " "TABLE" "t_^{ENV}" ";" (last ";") refl (expand_last ";")

resolved-Expands : Expands caret vault refl resolved "from t_prod;"
resolved-Expands = expand_part "from t_" "ENV" "prod" ";" (last ";") refl (expand_last ";")

replace_secret_in_config_lem_example :
    replace_secret_in_config "from t_^{ENV};" vault "^{" ≡ some (ok "from t_prod;")
replace_secret_in_config_lem_example =
    replace_secret_in_config_lem caret vault refl resolved "from t_prod;" resolved-WellFormed
      resolved-Expands

getitem-ends_example : getitem (config_with (some vault)) "sql" ≢ none
getitem-ends_example = getitem-ends (config_with (some vault)) "sql"
