-- ===== src/AppConfig.antt =====
-- resilient/resilient/app_config.py: ProtectedSecretsManager.get, and AppConfigManager's `get`,
-- `__getitem__` and `replace_secret_in_config`. The decryption of the package jwcrypto, the
-- environment and the PAM plugin are parameters; a manager answers with a text or with None.
use resilient_python_api.Prelude.{
  ℕ, zero, suc, ◌-◌, String, Bool, true, false, Option, none, some, if◌then◌else◌, Assoc, lookup,
  eqb, List, ◌==◌,
}
use resilient_python_api.Value.{Value, str}
use resilient_python_api.Outcome.{Error, Result, ok, err, ◌>>=◌, or_raise, key_error, type_error}
use Prim.Native.Char.{Char, code}
use Prim.Native.String.{[], ◌∷◌, count, ◌++◌ as ◌⧺◌}
pub mod Substitution
pub mod Termination
pub mod Items

-- What is left of a text after a prefix of it.
unfoldable pub strip : String → String → Option String
strip [] s = some s
strip (p ∷ ps) [] = none
strip (p ∷ ps) (c ∷ s) = let rest = strip ps s in if eqb (code c) (code p) then rest else none

-- item[:i] and item[i:] for the index `i` of a prefix that is not empty.
unfoldable pub index_of : String → String → Option (String × String)
unfolding strip
index_of prefix [] = none
index_of prefix (c ∷ s) =
    let found = strip prefix (c ∷ s) in
    let later = index_of prefix s in
    elim found [
      | some _ ↦ some ([], c ∷ s)
      | none ↦ elim later [ none ↦ none | some (before, rest) ↦ some (c ∷ before, rest) ]
    ]

-- item[start:end+1] and item[end+1:]
unfoldable pub to_brace : String → String × String
to_brace [] = ([], [])
to_brace (c ∷ s) =
    let (front, rest) = to_brace s in if eqb (code c) b'}' then (c ∷ [], s) else (c ∷ front, rest)

-- s.replace(part, ""), where the first `skip` characters belong to a part that was found.
unfoldable pub remove_from : String → ℕ → String → String
unfolding strip
remove_from part skip [] = []
remove_from part (suc skip) (c ∷ s) = remove_from part skip s
remove_from part zero (c ∷ s) =
    let found = strip part (c ∷ s) in
    let removed = remove_from part (count part - 1) s in
    let kept = remove_from part zero s in elim found [ some _ ↦ removed | none ↦ c ∷ kept ]

-- prefixed_item.replace(secret_prefix, "").replace("}", "")
unfoldable pub unprefixed : String → String → String
unfolding remove_from
unprefixed secret_prefix prefixed_item =
    remove_from "}" zero (remove_from secret_prefix zero prefixed_item)

-- secret_manager.get(unprefixed_item, prefixed_item)
abbrev pub SecretManager : Type 0
SecretManager = String → String → Result (Option String)

-- The part of `after` up to the next prefix, and the rest from there.
unfoldable pub next_secret : String → String → String × String
unfolding index_of
next_secret secret_prefix after = elim (index_of secret_prefix after) [
  | none ↦ (after, [])
  | some parts ↦ parts
]

-- The round of the loop once the manager has answered: `before` is item[:start], `rest` is
-- item[start:], and `after` is item[end+1:].
abbrev pub substituted :
    String
    → String
    → String
    → String
    → Result (Option String)
    → (String → String → Option (Result String))
    → Option (Result String)
substituted secret_prefix before rest after (err e) again = some (err e)
substituted secret_prefix before rest after (ok none) again = some (ok (before ⧺ rest))
substituted secret_prefix before rest after (ok (some secret_value)) again =
    again (before ⧺ (secret_value ⧺ (next_secret secret_prefix after).0))
      (next_secret secret_prefix after).1

-- The loop of `replace_secret_in_config`, on fuel.
unfoldable pub substitute : ℕ → SecretManager → String → String → String → Option (Result String)
unfolding next_secret
substitute fuel secret_manager secret_prefix before [] = some (ok before)
substitute zero secret_manager secret_prefix before (c ∷ s) = none
substitute (suc fuel) secret_manager secret_prefix before (c ∷ s) =
    substituted secret_prefix before (c ∷ s) (to_brace (c ∷ s)).1
      (secret_manager (unprefixed secret_prefix (to_brace (c ∷ s)).0) (to_brace (c ∷ s)).0)
      (substitute fuel secret_manager secret_prefix)

unfoldable pub replace_secret_in_config : String → SecretManager → String → Option (Result String)
unfolding substitute index_of
replace_secret_in_config item secret_manager secret_prefix = elim (index_of secret_prefix item) [
  | none ↦ some (ok item)
  | some (before, rest) ↦ substitute (count item) secret_manager secret_prefix before rest
]

-- config_key.lstrip("$")
unfoldable pub lstrip_dollar : String → String
lstrip_dollar [] = []
lstrip_dollar (c ∷ s) = let rest = lstrip_dollar s in if eqb (code c) b'$' then rest else c ∷ s

-- `decrypt tkn key` is `none` where the package raises. A secret whose token could not be read is
-- held as None.
pub record ProtectedSecretsManager : Type 0 where
  pub secret_data : Assoc (Option (String × Value))
  pub decrypt : String → Value → Option String
  pub environ : String → Option String

-- helpers.get_config_from_env
abbrev pub get_config_from_env : ProtectedSecretsManager → String → Option String → Option String
get_config_from_env manager config_name default = elim (manager.environ config_name) [
  | none ↦ default
  | some v ↦ some v
]

-- protected_secret if protected_secret else ...
abbrev pub truthy_or : Option String → Option String → Option String
truthy_or none other = other
truthy_or (some s) other = if s == "" then other else some s

abbrev pub protected_secret :
    ProtectedSecretsManager
    → String
    → Option String
    → Option (Option (String × Value))
    → Result (Option String)
protected_secret manager config_key default none =
    ok (get_config_from_env manager config_key default)
protected_secret manager config_key default (some none) = err type_error
protected_secret manager config_key default (some (some (tkn, key))) =
    ok (truthy_or (manager.decrypt tkn key) (get_config_from_env manager config_key default))

-- ProtectedSecretsManager.get
unfoldable pub get_secret :
    ProtectedSecretsManager → String → Option String → Result (Option String)
unfolding lstrip_dollar lookup
get_secret manager config_key default =
    if config_key == ""
    then ok default
    else protected_secret manager (lstrip_dollar config_key) default
        (lookup (lstrip_dollar config_key) manager.secret_data)

abbrev pub secrets : ProtectedSecretsManager → SecretManager
secrets manager config_key default = get_secret manager config_key (some default)

-- `prefix in item` and item.startswith(prefix)
abbrev pub contains : String → String → Bool
contains prefix item = elim (index_of prefix item) [ none ↦ false | some _ ↦ true ]

abbrev pub has_prefix : String → String → Bool
has_prefix prefix item = elim (strip prefix item) [ none ↦ false | some _ ↦ true ]

-- The substitutions of one manager: with brackets anywhere, or without at the start.
unfoldable pub resolve : SecretManager → String → String → String → Option (Result String)
unfolding replace_secret_in_config
resolve secret_manager with_bracket prefix item =
    if contains with_bracket item
    then replace_secret_in_config item secret_manager with_bracket
    else if has_prefix prefix item
    then replace_secret_in_config item secret_manager prefix
    else some (ok item)

abbrev pub resolve_pam : Option SecretManager → String → Option (Result String)
resolve_pam none item = some (ok item)
resolve_pam (some pam_plugin) item = resolve pam_plugin "^{" "^" item

abbrev pub then_pam : Option SecretManager → Option (Result String) → Option (Result String)
then_pam pam_plugin none = none
then_pam pam_plugin (some (err e)) = some (err e)
then_pam pam_plugin (some (ok item)) = resolve_pam pam_plugin item

abbrev pub as_item : Option (Result String) → Option (Result Value)
as_item none = none
as_item (some (err e)) = some (err e)
as_item (some (ok item)) = some (ok (str item))

-- An AppConfigManager: what it holds, and its plugin.
pub record AppConfigManager : Type 0 where
  pub config_data : Assoc Value
  pub protected_secrets_manager : ProtectedSecretsManager
  pub pam_plugin : Option SecretManager

unfoldable pub resolve_item : AppConfigManager → Value → Option (Result Value)
unfolding resolve
resolve_item config (str item) =
    as_item (
      then_pam config.pam_plugin (resolve (secrets config.protected_secrets_manager) "${" "$" item))
resolve_item config item = some (ok item)

-- __getitem__
unfoldable pub getitem : AppConfigManager → String → Option (Result Value)
unfolding resolve_item lookup
getitem config key = elim (lookup key config.config_data) [
  | none ↦ some (err key_error)
  | some item ↦ resolve_item config item
]

abbrev or_given : Value → Option (Result Value) → Option (Result Value)
or_given default none = none
or_given default (some (err key_error)) = some (ok default)
or_given default (some (err e)) = some (err e)
or_given default (some (ok item)) = some (ok item)

-- get
unfoldable pub get_item_or : AppConfigManager → String → Value → Option (Result Value)
get_item_or config key default = or_given default (getitem config key)
