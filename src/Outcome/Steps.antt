-- ===== src/Outcome/Steps.antt =====
-- Results compared, and two steps of code that may raise: if the whole returns, so did both.
use resilient_python_api.Prelude.{◌≡◌, ◌≢◌, refl}
use resilient_python_api.Outcome.{Error, Result, ok, err, ◌>>=◌}

-- The value between two steps that both return.
abbrev pub Between : {A B : Type 0} → (A → Result B) → B → Result A → A → Type 0
Between next last first a = (first ≡ ok a) × (next a ≡ ok last)

pub >>=-Between :
    {A B : Type 0} {last : B} (first : Result A) (next : A → Result B)
    → first >>= next ≡ ok last
    → (a : A) × Between next last first a
>>=-Between (err e) next returned = cc
>>=-Between (ok a) next returned = (a, (refl, returned))

pub ok-eq : {A : Type 0} {a b : A} → ok a ≡ ok b → a ≡ b
ok-eq h = cc

pub err_not_ok : {A : Type 0} {e : Error} {a : A} → err e ≢ ok a
err_not_ok h = cc
