-- ===== src/SimpleClient/Conversion.antt =====
-- Which exceptions of BaseClient leave SimpleClient.
use resilient_python_api.Prelude.{String, Bool, ◌≡◌, ◌≢◌, arith, inl, inr, ◌⊎◌, eqb, Bool-cases}
use resilient_python_api.Value.{Value}
use resilient_python_api.Outcome.{
  ◌>>=◌, Error, Result, ok, err, Response, retry_http, basic_http, simple_http,
}
use resilient_python_api.Http.{Session, Retry}
use resilient_python_api.BaseClient.{BaseClient}
use resilient_python_api.BaseClient.Requests
use resilient_python_api.BaseClient.Requests.{Reply, no_content}
use resilient_python_api.SimpleClient.{raise_unless_200, converted, get}

-- The result is not one of BaseClient's HTTP exceptions.
abbrev pub IsConverted : {A : Type 0} → Result A → Type 0
IsConverted (ok a) = Unit {0}
IsConverted (err e) = ((r : Response) → e ≢ retry_http r) × ((r : Response) → e ≢ basic_http r)

raised-IsConverted :
    {A : Type 0} (nothing : A) (r : Response) → IsConverted (raise_unless_200 r >>= λ _. ok nothing)
unfolding raise_unless_200
raised-IsConverted nothing r = elim (Bool-cases (eqb r.status_code 200)) [
  | inl e ↦ rw e tt
  | inr e ↦ rw e (λ r' h. ground arith, λ r' h. ground arith)
]

converted-IsConverted :
    {A : Type 0} (nothing : A) (r : Result A) → IsConverted (converted nothing r)
unfolding converted
converted-IsConverted nothing (ok a) = tt
converted-IsConverted nothing (err (retry_http r)) = raised-IsConverted nothing r
converted-IsConverted nothing (err (basic_http r)) = raised-IsConverted nothing r
converted-IsConverted nothing (err _) = (λ r h. ground arith, λ r h. ground arith)

raise_unless_200-other :
    {A : Type 0} (nothing : A) (r : Response)
    → r.status_code ≢ 200
    → (raise_unless_200 r >>= λ _. ok nothing) ≡ err (simple_http r)
unfolding raise_unless_200
raise_unless_200-other nothing r other = elim (Bool-cases (eqb r.status_code 200)) [
  | inl e ↦ absurd (ground arith)
  | inr e ↦ rw e
]

module _ {W : Type 0} (session : Session W) (retry : Retry W) (client : BaseClient) (uri : String)
    (token : Value) (absolute response_object : Bool) (skip_retry : Value) where
  -- Neither of BaseClient's HTTP exceptions leaves `get` of SimpleClient.
  pub get-IsConverted :
      (w : W)
      → IsConverted (get session retry client uri token absolute response_object skip_retry w).0
  unfolding get
  get-IsConverted w =
      converted-IsConverted no_content
        (Requests.get session retry client uri token absolute response_object skip_retry w).0

  -- Where `get` of BaseClient raises one of its HTTP exceptions with a response whose status is not
  -- 200, `get` of SimpleClient raises a SimpleHTTPException with the same response.
  pub get_converts :
      (w w' : W) (e : Error) (r : Response)
      → (e ≡ retry_http r) ⊎ (e ≡ basic_http r)
      → Requests.get session retry client uri token absolute response_object skip_retry w
        ≡ (err e, w')
      → r.status_code ≢ 200
      → get session retry client uri token absolute response_object skip_retry w
        ≡ (err (simple_http r), w')
  unfolding get converted
  get_converts w w' e r (inl is_retry) raised other =
      rw (raised, is_retry, raise_unless_200-other no_content r other)
  get_converts w w' e r (inr is_basic) raised other =
      rw (raised, is_basic, raise_unless_200-other no_content r other)
