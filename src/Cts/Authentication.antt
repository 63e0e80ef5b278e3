-- ===== src/Cts/Authentication.antt =====
-- rc-cts/rc_cts/components/threat_webservice.py: check_authentication.
use Prim.Native.Char.{Char, code}
use Prim.Native.String.{[] as empty, ◌∷◌ as ◌◂◌}
use resilient_python_api.Prelude.{
  String, Bool, true, false, Option, none, some, List, [], ◌∷◌, ◌≡◌, ◌≢◌, refl, if◌then◌else◌, eqb,
  arith, ◌==◌, eq_iff, Bool-cases, inl, inr, subst,
}
use resilient_python_api.Value.{Value, null, str, eq_value}
use resilient_python_api.Outcome.{Result, ok, err, index_error, ◌>>=◌}

pub record AuthSettings : Type 0 where
  pub auth_user : Value
  pub auth_password : Value

abbrev pub attach_to : Bool → Char → List String → List String
attach_to is_separator c [] = []
attach_to true c (part ∷ parts) = empty ∷ (part ∷ parts)
attach_to false c (part ∷ parts) = (c ◂ part) ∷ parts

-- s.split(":")
unfoldable pub split_colon : String → List String
split_colon empty = empty ∷ []
split_colon (c ◂ s) = attach_to (eqb (code c) b':') c (split_colon s)

abbrev texts : List String → List Value
texts [] = []
texts (part ∷ parts) = str part ∷ texts parts

-- _get_authentication_headers: without the word "Basic" in the header "Authorization" there are no
-- credentials; `some` has the text that base64 gives for what follows it, or what that raised.
unfoldable pub get_authentication_headers : Option (Result String) → Result (List Value)
unfolding split_colon
get_authentication_headers none = ok (null ∷ null ∷ [])
get_authentication_headers (some (err e)) = err e
get_authentication_headers (some (ok user_password)) = ok (texts (split_colon user_password))

-- _is_authenticated: the second item is read only where the first is the user.
abbrev pub is_password : AuthSettings → List Value → Result Bool
is_password self (password ∷ rest) = ok (eq_value self.auth_password password)
is_password self [] = err index_error

unfoldable pub is_authenticated : AuthSettings → List Value → Result Bool
unfolding eq_value
is_authenticated self [] = err index_error
is_authenticated self (user ∷ rest) =
    if eq_value self.auth_user user then is_password self rest else ok false

unfoldable pub check_authentication : AuthSettings → Option (Result String) → Result Bool
unfolding get_authentication_headers is_authenticated
check_authentication self credentials =
    get_authentication_headers credentials >>= is_authenticated self

abbrev pub has_colon : String → Bool
has_colon empty = false
has_colon (c ◂ s) = let rest = has_colon s in if eqb (code c) b':' then true else rest

abbrev NoneHasColon : List String → Type 0
NoneHasColon [] = Unit {0}
NoneHasColon (part ∷ parts) = (has_colon part ≡ false) × NoneHasColon parts

attach_to-NoneHasColon :
    (b : Bool) (c : Char) (parts : List String)
    → eqb (code c) b':' ≡ b
    → NoneHasColon parts
    → NoneHasColon (attach_to b c parts)
attach_to-NoneHasColon b c [] e h = tt
attach_to-NoneHasColon true c (part ∷ parts) e h = (refl, h)
attach_to-NoneHasColon false c (part ∷ parts) e h = (rw e h.0, h.1)

split_colon-NoneHasColon : (s : String) → NoneHasColon (split_colon s)
unfolding split_colon
split_colon-NoneHasColon empty = (refl, tt)
split_colon-NoneHasColon (c ◂ s) =
    attach_to-NoneHasColon (eqb (code c) b':') c (split_colon s) refl (split_colon-NoneHasColon s)

other_password :
    (password part : String)
    → has_colon password ≡ true
    → has_colon part ≡ false
    → (password == part) ≡ false
other_password password part colon none_in = elim (Bool-cases (password == part)) [
  | inl e ↦
      let same = (eq_iff password part).0 e in
      let colon_in_part : has_colon part ≡ true = subst (λ s. has_colon s ≡ true) same colon in
      absurd (cc)
  | inr n ↦ n
]

is_authenticated-colon :
    (user : Value) (password : String) (parts : List String)
    → has_colon password ≡ true
    → NoneHasColon parts
    → is_authenticated (record { auth_user = user; auth_password = str password }) (texts parts)
      ≢ ok true
unfolding is_authenticated eq_value
is_authenticated-colon user password [] colon h = λ e. cc
is_authenticated-colon user password (part ∷ []) colon h = ground arith
is_authenticated-colon user password (part ∷ (next ∷ parts)) colon h =
    ground (arith, other_password password next colon h.1.0)

-- With a password that has a colon in it, nobody is authenticated, whatever the credentials are: those
-- with the right password neither.
pub check_authentication-colon :
    (user : Value) (password : String) (credentials : Option (Result String))
    → has_colon password ≡ true
    → check_authentication (record { auth_user = user; auth_password = str password }) credentials
      ≢ ok true
unfolding check_authentication
check_authentication-colon user password none colon = ground arith
check_authentication-colon user password (some (err e)) colon = λ p. cc
check_authentication-colon user password (some (ok user_password)) colon =
    is_authenticated-colon user password (split_colon user_password) colon
      (split_colon-NoneHasColon user_password)
