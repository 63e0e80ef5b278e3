-- ===== src/BaseClient/Updating.antt =====
-- What the get/apply/put loop returns, and when it goes on.
use resilient_python_api.Prelude.{
  ℕ, zero, suc, ◌+◌, String, true, false, Option, none, some, ◌≡◌, refl, arith, ◌∙◌,
}
use resilient_python_api.Value.{Value, null, truthy}
use resilient_python_api.Outcome.{Result, ok, err, Response, no_change}
use resilient_python_api.Http.{Session}
use resilient_python_api.BaseClient.{BaseClient, execute_request, judged}
use resilient_python_api.BaseClient.GetPut.{
  Apply, get_request, put_request, put_outcome, get_put_round, get_put, until_truthy, loaded,
}

truthy_ends :
    {W : Type 0} (v : Value) (w : W) (again : W → Option (Result Value × W))
    → truthy v ≡ true
    → until_truthy (ok v, w) again ≡ some (ok v, w)
truthy_ends v w again t = rw (t, until_truthy)

falsy_repeats :
    {W : Type 0} (v : Value) (w : W) (again : W → Option (Result Value × W))
    → truthy v ≡ false
    → until_truthy (ok v, w) again ≡ again w
falsy_repeats v w again t = rw (t, until_truthy)

module _ {W : Type 0} (session : Session W) (client : BaseClient) (uri : String)
    (apply_func : Apply) (token : Value) where
  -- `Read w v w'`: from `w` the get is accepted, and its JSON is `v`.
  abbrev pub Read : W → Value → W → Type 0
  Read w v w' =
      judged (execute_request session client (get_request session client uri token) w) (loaded null)
      ≡ (ok v, w')

  -- `Updated w r w'`: from `w` the get is accepted, the function returns, and the put of the object
  -- that it leaves is answered with `r`.
  pub data Updated (w : W) (r : Response) (w' : W) : Type 0 where
    update :
        {w₁ : W} (payload payload' : Value)
        → Read w payload w₁
        → apply_func payload ≡ (ok tt, payload')
        → execute_request session client (put_request session client uri token payload') w₁
          ≡ (ok r, w')
        → Updated w r w'

  -- `Conflicts n w w'`: `n` times in a row the put is answered with status 409.
  pub data Conflicts : ℕ → W → W → Type 0 where
    settled : {w : W} → Conflicts zero w w
    conflict :
        {n : ℕ} {w w₁ w₂ : W} (r : Response)
        → Updated w r w₁
        → r.status_code ≡ 409
        → Conflicts n w₁ w₂
        → Conflicts (suc n) w w₂

  Updated-round :
      (w w' : W) (r : Response)
      → Updated w r w'
      → get_put_round session client uri apply_func token null w ≡ (put_outcome null r, w')
  unfolding get_put_round
  Updated-round w w' r (update payload payload' read applied answered) =
      rw (read, applied, answered)

  put_conflict : (r : Response) → r.status_code ≡ 409 → put_outcome null r ≡ ok null
  put_conflict r status = ground arith

  put_accepted :
      (r : Response) (v : Value) → r.status_code ≡ 200 → r.json ≡ some v → put_outcome null r ≡ ok v
  put_accepted r v status has = ground arith

  -- After any number of conflicts, in each of which the object was read anew and the function applied
  -- to it, a put that is answered with status 200 and a truthy object makes `get_put` return that
  -- object; one round more than there were conflicts suffices.
  pub get_put_retries :
      (fuel n : ℕ) (w w₁ w₂ : W) (r : Response) (v : Value)
      → Conflicts n w w₁
      → Updated w₁ r w₂
      → r.status_code ≡ 200
      → r.json ≡ some v
      → truthy v ≡ true
      → get_put session client uri (n + suc fuel) apply_func token w ≡ some (ok v, w₂)
  unfolding get_put
  get_put_retries fuel zero w _ w₂ r v settled updated status has t =
      let e : zero + suc fuel ≡ suc fuel = omega arith in
      rw (e, Updated-round w w₂ r updated, put_accepted r v status has)
        (truthy_ends v w₂ (get_put session client uri fuel apply_func token) t)
  get_put_retries fuel (suc n) w w₁ w₂ r v (conflict {w₁ = w'} r' updated' busy rest) updated status
        has t =
      let e : suc n + suc fuel ≡ suc (n + suc fuel) = omega arith in
      rw (e, Updated-round w w' r' updated', put_conflict r' busy)
        (get_put_retries fuel n w' w₁ w₂ r v rest updated status has t)

  -- If the function raises NoChange, `get_put` returns the object as the function left it, provided
  -- that it is truthy, and makes no put.
  pub get_put_no_change :
      (fuel : ℕ) (w w₁ : W) (payload payload' : Value)
      → Read w payload w₁
      → apply_func payload ≡ (err no_change, payload')
      → truthy payload' ≡ true
      → get_put session client uri (suc fuel) apply_func token w ≡ some (ok payload', w₁)
  unfolding get_put get_put_round
  get_put_no_change fuel w w₁ payload payload' read applied t =
      rw (read, applied)
        (truthy_ends payload' w₁ (get_put session client uri fuel apply_func token) t)

  -- Where every put is answered with status 200 and a falsy object, such as an empty dictionary,
  -- `get_put` never returns, although each of its puts was accepted.
  pub get_put_repeats :
      ((w : W)
        → (r : Response) × (w' : W) × (v : Value) × Updated w r w'
          × (r.status_code ≡ 200)
          × (r.json ≡ some v)
          × (truthy v ≡ false))
      → (fuel : ℕ) (w : W) → get_put session client uri fuel apply_func token w ≡ none
  unfolding get_put
  get_put_repeats answers zero w = refl
  get_put_repeats answers (suc fuel) w =
      let (r, w', v, updated, status, has, f) = answers w in
      rw (Updated-round w w' r updated, put_accepted r v status has)
        (falsy_repeats v w' (get_put session client uri fuel apply_func token) f
          ∙ get_put_repeats answers fuel w')
