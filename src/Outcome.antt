-- ===== src/Outcome.antt =====
-- Responses, exceptions, and code that may raise while it changes an object.
pub mod Steps
use resilient_python_api.Prelude.{
  Assoc, ℕ, String, Bool, true, false, Option, none, some, if◌then◌else◌, List, [], ◌∷◌, has_key,
}
use resilient_python_api.Value.{
  null, Value, str, list, dict, entries, elements, get_field, get_field_or, characters, Fields,
  eq_value,
}
use text.Mathlib.Text.{find?}

-- `requests.Response`, as far as the code reads it. `json` is what `response.json()` or
-- `json.loads(response.text)` gives, `none` where the text is no JSON.
pub record Response : Type 0 where
  pub status_code : ℕ
  pub reason : String
  pub text : String
  pub json : Option Value
  pub cookies : Assoc Value

-- The exceptions that the code raises or lets through.
pub data Error : Type 0 where
  value_error : String → Error
  key_error type_error attribute_error json_decode_error connection_error no_change
        integration_error index_error :
      Error
  plain_exception : String → Error
  simple_http retry_http basic_http http_error : Response → Error
  patch_conflict : Response → Value → Error
  -- `sys.exit`
  system_exit : ℕ → Error

pub data Result {ℓ} (A : Type ℓ) : Type ℓ where
  ok : A → Result A
  err : Error → Result A

-- A method that changes an object of type `S`: what was written before a raise stays written.
abbrev pub Exec : Type 0 → Type 0 → Type 0
Exec S A = S → Result A × S

infixl 8 ◌>>=◌
abbrev pub ◌>>=◌ {ℓ κ} : {T : Type ℓ} {U : Type κ} → Result T → (T → Result U) → Result U
◌>>=◌ (err raised) next = err raised
◌>>=◌ (ok value) next = next value

-- `if not b: raise e`
abbrev pub require : Bool → Error → Result (Unit {0})
require true e = ok tt
require false e = err e

abbrev pub or_raise {ℓ} : {A : Type ℓ} → Option A → Error → Result A
or_raise none e = err e
or_raise (some a) e = ok a

abbrev pub any_eq : Value → List Value → Bool
any_eq v [] = false
any_eq v (x ∷ xs) = let rest = any_eq v xs in if eq_value x v then true else rest

-- `k in v` for a text `k`: on a text it looks for a part of it.
abbrev pub is_in : String → Value → Result Bool
is_in k (dict fs) = ok (has_key k (entries fs))
is_in k (list xs) = ok (any_eq (str k) (elements xs))
is_in k (str s) = ok (elim (find? s k) [ none ↦ false | some _ ↦ true ])
is_in k _ = err type_error

-- `v[k]` for a text `k`
abbrev pub get_item : Value → String → Result Value
get_item (dict fs) k = or_raise (get_field k fs) key_error
get_item _ k = err type_error

-- `v.get(k, default)` and `v.get(k)`
abbrev pub get_default : Value → String → Value → Result Value
get_default (dict fs) k default = ok (get_field_or k default fs)
get_default _ k default = err attribute_error

abbrev pub get_key : Value → String → Result Value
get_key v k = get_default v k null

keys_of : Fields → List Value
keys_of Fields.end = []
keys_of (Fields.field k v fs) = str k ∷ keys_of fs

-- `for x in v`
unfoldable pub iterate : Value → Result (List Value)
unfolding keys_of
iterate (list xs) = ok (elements xs)
iterate (dict fs) = ok (keys_of fs)
iterate (str s) = ok (characters s)
iterate _ = err type_error

-- except Exception as err: raise IntegrationError. A system exit is no Exception.
abbrev pub as_integration_error {ℓ} : {A : Type ℓ} → Result A → Result A
as_integration_error (ok a) = ok a
as_integration_error (err (system_exit code)) = err (system_exit code)
as_integration_error (err e) = err integration_error
