-- ===== src/RestClient.antt =====
-- What the library functions use of a REST client, and the ids that they put into its URIs.
use resilient_python_api.Prelude.{
  ℕ, zero, suc, String, Bool, true, false, Option, if◌then◌else◌, ltb, not, ◌==◌, ◌≡◌, refl,
}
use resilient_python_api.Value.{Value, ℤ, pos, negsuc}
use resilient_python_api.Outcome.{Result, Response}
use resilient_python_api.BaseClient.Requests.{Reply}
use resilient_python_api.Patch.{Patch}
use Prim.Native.Nat.{◌/◌, ◌%◌}
use Prim.Native.String.{[], ◌∷◌, ◌++◌ as ◌⧺◌}

-- `get` is a request for JSON, and `patch` the loop of `SimpleClient.patch` without overwriting: none
-- where it goes on for ever.
pub record RestClient (W : Type 0) : Type 0 where
  pub get : String → W → Result Value × W
  pub get_content : String → W → Result Reply × W
  pub patch : String → Patch → W → Option ((Result Response × Patch) × W)

-- An id: an int or a str, or None.
pub data ObjectId : Type 0 where
  no_id : ObjectId
  number : ℤ → ObjectId
  text : String → ObjectId

-- bool(id)
abbrev pub is_given : ObjectId → Bool
is_given no_id = false
is_given (number (pos zero)) = false
is_given (number (pos (suc n))) = true
is_given (number (negsuc n)) = true
is_given (text s) = not (s == "")

abbrev digit_in : String → ℕ → String
digit_in [] n = []
digit_in (c ∷ s) zero = c ∷ []
digit_in (c ∷ s) (suc n) = digit_in s n

-- The digits of a number before a text; a number has at most as many as it counts.
decimal_before : ℕ → ℕ → String → String
decimal_before zero n s = digit_in "0123456789" n ⧺ s
decimal_before (suc fuel) n s =
    let longer = decimal_before fuel (n / 10) (digit_in "0123456789" (n % 10) ⧺ s) in
    if ltb n 10 then digit_in "0123456789" n ⧺ s else longer

-- "{}".format(id)
unfoldable pub shown : ObjectId → String
unfolding decimal_before
shown no_id = "None"
shown (number (pos n)) = decimal_before n n ""
shown (number (negsuc n)) = "-" ⧺ decimal_before (suc n) (suc n) ""
shown (text s) = s

shown_number : shown (number (pos 2095)) ≡ "2095"
unfolding shown decimal_before
shown_number = refl
