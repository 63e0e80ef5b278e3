-- ===== src/AppConfig/Termination.antt =====
-- The loop of `replace_secret_in_config` ends on every item.
use resilient_python_api.Prelude.{
  ℕ, zero, suc, ◌≤◌, String, Option, none, some, eqb, ◌≡◌, refl, ◌≢◌, arith, Bool-cases,
  Option-cases, inl, inr, subst, lookup,
}
use resilient_python_api.Value.{Value, null, bool, int, str, list, dict}
use resilient_python_api.Outcome.{Result, ok, err}
use Prim.Native.Char.{Char, code}
use Prim.Native.String.{[], ◌∷◌, count, ◌++◌ as ◌⧺◌}
use Prim.Native.String.count.{cons}
use resilient_python_api.AppConfig.{
  strip, index_of, to_brace, unprefixed, SecretManager, next_secret, substituted, substitute,
  replace_secret_in_config, getitem, resolve_item, resolve, AppConfigManager, as_item, then_pam,
  resolve_pam, secrets,
}

-- What is left after the index of a prefix is no longer than the text.
abbrev rest_length : Option (String × String) → ℕ
rest_length none = 0
rest_length (some (before, rest)) = count rest

index_of-length : (prefix s : String) → rest_length (index_of prefix s) ≤ count s
unfolding index_of
index_of-length prefix [] = omega arith
index_of-length prefix (c ∷ s) =
    let ih = index_of-length prefix s in
    rw (cons c s) (elim (Option-cases (strip prefix (c ∷ s))) [
      | inl e ↦ elim (Option-cases (index_of prefix s)) [
        | inl e' ↦ rw (e, index_of, e') (omega arith)
        | inr (p, e') ↦
            rw (e, index_of, e')
              (let ih' : count p.1 ≤ count s =
                  subst (λ (o : Option (String × String)). rest_length o ≤ count s) e' ih in
                omega arith)
      ]
      | inr (r, e) ↦ rw (e, index_of, cons c s) (omega arith)
    ])

next_secret-length : (prefix s : String) → count (next_secret prefix s).1 ≤ count s
unfolding next_secret
next_secret-length prefix s =
    let h = index_of-length prefix s in
    elim (Option-cases (index_of prefix s)) [
      | inl e ↦ rw (e, next_secret) (omega arith)
      | inr (p, e) ↦
          rw (e, next_secret)
            (subst (λ (o : Option (String × String)). rest_length o ≤ count s) e h)
    ]

to_brace-length : (s : String) → count (to_brace s).1 ≤ count s
unfolding to_brace
to_brace-length [] = omega arith
to_brace-length (c ∷ s) =
    let ih = to_brace-length s in
    rw (cons c s) (elim (Bool-cases (eqb (code c) b'}')) [
      | inl e ↦ rw e (omega arith)
      | inr e ↦ rw e (omega arith)
    ])

to_brace-shorter : (c : Char) (s : String) → count (to_brace (c ∷ s)).1 ≤ count s
unfolding to_brace
to_brace-shorter c s =
    let h = to_brace-length s in
    elim (Bool-cases (eqb (code c) b'}')) [ inl e ↦ rw e (omega arith) | inr e ↦ rw e h ]

module _ (get : SecretManager) (prefix : String) where
  substituted-ends :
      (before rest after : String) (answer : Result (Option String))
      (again : String → String → Option (Result String))
      → ((b r : String) → count r ≤ count after → again b r ≢ none)
      → substituted prefix before rest after answer again ≢ none
  substituted-ends before rest after (err e) again h = ground arith
  substituted-ends before rest after (ok none) again h = ground arith
  substituted-ends before rest after (ok (some v)) again h =
      h (before ⧺ (v ⧺ (next_secret prefix after).0)) (next_secret prefix after).1
        (next_secret-length prefix after)

  substitute-ends :
      (fuel : ℕ) (before rest : String)
      → count rest ≤ fuel
      → substitute fuel get prefix before rest ≢ none
  unfolding substitute
  substitute-ends zero before [] h = ground arith
  substitute-ends (suc fuel) before [] h = ground arith
  substitute-ends zero before (c ∷ s) h =
      let e : count (c ∷ s) ≡ suc (count s) = cons c s in absurd (omega arith)
  substitute-ends (suc fuel) before (c ∷ s) h =
      substituted-ends before (c ∷ s) (to_brace (c ∷ s)).1
        (get (unprefixed prefix (to_brace (c ∷ s)).0) (to_brace (c ∷ s)).0)
        (substitute fuel get prefix)
        (λ b r k.
          let e : count (c ∷ s) ≡ suc (count s) = cons c s in
          let shorter = to_brace-shorter c s in substitute-ends fuel b r (omega arith))

  replace-ends : (item : String) → replace_secret_in_config item get prefix ≢ none
  unfolding replace_secret_in_config
  replace-ends item =
      let h = index_of-length prefix item in
      elim (Option-cases (index_of prefix item)) [
        | inl e ↦ rw (e, replace_secret_in_config) (ground arith)
        | inr (p, e) ↦
            rw (e, replace_secret_in_config)
              (substitute-ends (count item) p.0 p.1
                (subst (λ (o : Option (String × String)). rest_length o ≤ count item) e h))
      ]

resolve-ends :
    (get : SecretManager) (bracket prefix item : String) → resolve get bracket prefix item ≢ none
unfolding resolve
resolve-ends get bracket prefix item =
    ground (arith, replace-ends get bracket item, replace-ends get prefix item)

resolve_pam-ends : (pam : Option SecretManager) (item : String) → resolve_pam pam item ≢ none
resolve_pam-ends none item = ground arith
resolve_pam-ends (some plugin) item = resolve-ends plugin "^{" "^" item

then_pam-ends :
    (pam : Option SecretManager) (r : Option (Result String)) → r ≢ none → then_pam pam r ≢ none
then_pam-ends pam none h = absurd (h refl)
then_pam-ends pam (some (err e)) h = ground arith
then_pam-ends pam (some (ok item)) h = resolve_pam-ends pam item

as_item-ends : (r : Option (Result String)) → r ≢ none → as_item r ≢ none
as_item-ends none h = absurd (h refl)
as_item-ends (some (err e)) h = ground arith
as_item-ends (some (ok item)) h = ground arith

resolve_item-ends : (config : AppConfigManager) (item : Value) → resolve_item config item ≢ none
unfolding resolve_item
resolve_item-ends config (str item) =
    let manager = secrets config.protected_secrets_manager in
    as_item-ends (then_pam config.pam_plugin (resolve manager "${" "$" item)) (
      then_pam-ends config.pam_plugin (resolve manager "${" "$" item)
        (resolve-ends manager "${" "$" item))
resolve_item-ends config null = ground arith
resolve_item-ends config (bool b) = ground arith
resolve_item-ends config (int i) = ground arith
resolve_item-ends config (list xs) = ground arith
resolve_item-ends config (dict fs) = ground arith

-- Whatever the items, the prefixes in them and the answers of the managers are, reading an item ends
-- with a value or an exception: the fuel of the loop, the length of the item, is enough.
pub getitem-ends : (config : AppConfigManager) (key : String) → getitem config key ≢ none
unfolding getitem
getitem-ends config key = elim (Option-cases (lookup key config.config_data)) [
  | inl e ↦ rw (e, getitem) (ground arith)
  | inr (item, e) ↦ rw (e, getitem) (resolve_item-ends config item)
]
