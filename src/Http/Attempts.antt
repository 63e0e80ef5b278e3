-- ===== src/Http/Attempts.antt =====
-- The package `retry` against a loop: at most the given number of attempts.
use resilient_python_api.Prelude.{
  ℕ, zero, suc, ◌<◌, ◌≤◌, Bool, true, false, ◌≡◌, refl, ◌∙◌, arith, Bool-cases, inl, inr, ◌-◌,
}
use resilient_python_api.Outcome.{Error, Result, ok, err}
use resilient_python_api.Http.{RetryOn}

module _ (retried : Error → Bool) where
  -- A reference for `retry_call`: at most the given number of attempts, the next one only after an
  -- error that is to be tried again.
  unfoldable pub try_times : {W A : Type 0} → ℕ → (W → Result A × W) → Result A × W → Result A × W
  try_times zero f outcome = outcome
  try_times (suc n) f (ok a, w) = (ok a, w)
  try_times (suc n) f (err e, w) = elim (retried e) [
    | true ↦ try_times n f (f w)
    | false ↦ (err e, w)
  ]

  module _ {W : Type 0} (retry : RetryOn retried W) where
    retry_call-try_times :
        {A : Type 0} (n : ℕ) (f : W → Result A × W) (w w' : W) (r : Result A)
        → f w ≡ (r, w')
        → retry.retry_call (suc n) f w ≡ try_times n f (r, w')
    unfolding try_times
    retry_call-try_times zero f w w' (ok a) e = retry.call_returns 0 f w w' a e
    retry_call-try_times zero f w w' (err x) e = retry.last_try f w w' x e
    retry_call-try_times (suc n) f w w' (ok a) e = retry.call_returns (suc n) f w w' a e
    retry_call-try_times (suc n) f w w' (err x) e = elim (Bool-cases (retried x)) [
      | inl h ↦
          rw (h, try_times)
            (retry.next_try n f w w' x e h ∙ retry_call-try_times n f w' (f w').1 (f w').0 refl)
      | inr h ↦ rw (h, try_times) (retry.call_raises (suc n) f w w' x e h)
    ]

    pub retry_call_times :
        {A : Type 0} (tries : ℕ) (f : W → Result A × W) (w : W)
        → 0 < tries
        → retry.retry_call tries f w ≡ try_times (tries - 1) f (f w)
    retry_call_times zero f w h = absurd (omega arith)
    retry_call_times (suc n) f w h =
        let e : suc n - 1 ≡ n = omega arith in
        rw e (retry_call-try_times n f w (f w).1 (f w).0 refl)

  -- `Fails f n w w'`: `n` times in a row an attempt ends in an error that is to be tried again.
  pub data Fails {W A : Type 0} (f : W → Result A × W) : ℕ → W → W → Type 0 where
    untried : {w : W} → Fails f zero w w
    failed :
        {n : ℕ} {w w₁ w₂ : W} (e : Error)
        → f w ≡ (err e, w₁)
        → retried e ≡ true
        → Fails f n w₁ w₂
        → Fails f (suc n) w w₂

  -- An outcome that is not to be tried again.
  abbrev pub IsFinal : {A : Type 0} → Result A → Type 0
  IsFinal (ok a) = Unit {0}
  IsFinal (err e) = retried e ≡ false

  try_times_final :
      {W A : Type 0} (f : W → Result A × W) (n : ℕ) (w : W) (r : Result A)
      → IsFinal r
      → try_times n f (r, w) ≡ (r, w)
  unfolding try_times
  try_times_final f zero w r h = refl
  try_times_final f (suc n) w (ok a) h = refl
  try_times_final f (suc n) w (err e) h = rw (h, try_times)

  pub try_times-Fails :
      {W A : Type 0} (f : W → Result A × W) (n k : ℕ) (w w' w'' : W) (r : Result A)
      → Fails f k w w'
      → k ≤ n
      → f w' ≡ (r, w'')
      → IsFinal r
      → try_times n f (f w) ≡ (r, w'')
  unfolding try_times
  try_times-Fails f n zero w _ w'' r untried h e final = rw e (try_times_final f n w'' r final)
  try_times-Fails f zero (suc k) w w' w'' r fails h e final = absurd (omega arith)
  try_times-Fails f (suc n) (suc k) w w' w'' r (failed {w₁} x e₁ again rest) h e final =
      rw (e₁, try_times, again) (try_times-Fails f n k w₁ w' w'' r rest (omega arith) e final)

  pub try_times_exhausted :
      {W A : Type 0} (f : W → Result A × W) (n : ℕ) (w w' : W)
      → Fails f (suc n) w w'
      → (e : Error) × (try_times n f (f w) ≡ (err e, w')) × (retried e ≡ true)
  unfolding try_times
  try_times_exhausted f zero w _ (failed x e again untried) = (x, e, again)
  try_times_exhausted f (suc n) w w' (failed {w₁} x e again rest) =
      let (x', e', again') = try_times_exhausted f n w₁ w' rest in
      (x', rw (e, try_times, again) e', again')
