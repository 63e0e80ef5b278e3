-- ===== src/AppConfig/Items.antt =====
-- What reading an item of app.config gives.
use resilient_python_api.Prelude.{
  String, true, false, Option, none, some, ◌≡◌, refl, lookup, ap, ◌∙◌, eqb,
}
use resilient_python_api.Value.{str}
use resilient_python_api.Outcome.{ok}
use Prim.Native.Char.{Char, code}
use Prim.Native.String.{◌∷◌, ◌++◌ as ◌⧺◌}
use resilient_python_api.AppConfig.{
  SecretManager, resolve, resolve_item, getitem, AppConfigManager, secrets, then_pam, as_item,
  contains, resolve_pam,
}
use resilient_python_api.AppConfig.Substitution.{
  Template, part, written, WellFormed, Expands, replace_secret_in_config_lem, index_of-text,
  close_brace,
}

resolve_lem :
    (mark : Char) (get : SecretManager) (differs : eqb (code mark) b'}' ≡ false)
    (text name expanded unbracketed : String) (rest : Template)
    → WellFormed mark get differs (part text name rest)
    → Expands mark get differs (part text name rest) expanded
    → resolve get (mark ∷ "{") unbracketed (written mark get differs (part text name rest))
      ≡ some (ok expanded)
unfolding resolve
resolve_lem mark get differs text name expanded unbracketed rest h e =
    let found : contains (mark ∷ "{") (written mark get differs (part text name rest)) ≡ true =
      ap (λ (o : Option (String × String)). elim o [ none ↦ false | some _ ↦ true ])
        (index_of-text mark get differs text (name ⧺ (close_brace ∷ written mark get differs rest))
          h.0) in
    rw (found, resolve)
      (replace_secret_in_config_lem mark get differs (part text name rest) expanded h e)

abbrev pub dollar : Char
dollar = "$"

abbrev pub caret : Char
caret = "^"

module _ (config : AppConfigManager) (key text name expanded : String) (rest : Template)
    (held : lookup key config.config_data
      ≡ some (
          str
            (written dollar (secrets config.protected_secrets_manager) refl (part text name rest))))
    (formed : WellFormed dollar
      (secrets config.protected_secrets_manager)
      refl
      (part text name rest))
    (expands : Expands dollar
      (secrets config.protected_secrets_manager)
      refl
      (part text name rest)
      expanded) where
  first :
      resolve
        (secrets config.protected_secrets_manager)
        "${"
        "$"
        (written dollar (secrets config.protected_secrets_manager) refl (part text name rest))
      ≡ some (ok expanded)
  first =
      resolve_lem dollar (secrets config.protected_secrets_manager) refl text name expanded "$" rest
        formed expands

  -- Without a PAM plugin, an item that is written with one name or more in `${}` reads as that item
  -- with the values that the protected secrets manager has for the names.
  pub getitem_secrets : config.pam_plugin ≡ none → getitem config key ≡ some (ok (str expanded))
  unfolding getitem resolve_item
  getitem_secrets no_plugin =
      rw (held, getitem)
        (ap (λ r. as_item (then_pam config.pam_plugin r)) first
          ∙ ap (λ (p : Option SecretManager). as_item (resolve_pam p expanded)) no_plugin)

  -- With a PAM plugin, where such an item has, with the values of the protected secrets put in, one
  -- name or more in `^{}`, it reads as that with the plugin's values for these names: a protected
  -- secret may refer to the plugin's.
  pub getitem_plugin :
      (plugin : SecretManager) (text' name' final : String) (rest' : Template)
      → config.pam_plugin ≡ some plugin
      → expanded ≡ written caret plugin refl (part text' name' rest')
      → WellFormed caret plugin refl (part text' name' rest')
      → Expands caret plugin refl (part text' name' rest') final
      → getitem config key ≡ some (ok (str final))
  unfolding getitem resolve_item
  getitem_plugin plugin text' name' final rest' is_plugin same h e =
      rw (held, getitem)
        (ap (λ r. as_item (then_pam config.pam_plugin r)) first
          ∙ ap (λ (p : Option SecretManager). as_item (resolve_pam p expanded)) is_plugin
          ∙ ap (λ (t : String). as_item (resolve plugin "^{" "^" t)) same
          ∙ ap as_item (resolve_lem caret plugin refl text' name' final "^" rest' h e))
