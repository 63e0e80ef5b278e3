-- ===== src/Restart/Reloads.antt =====
-- The runs of the application: the configuration file changes, a reload completes, or a timer fires.
use resilient_python_api.Prelude.{
  ℕ, suc, Bool, true, false, none, some, if◌then◌else◌, List, [], ◌∷◌, ◌≡◌, refl, arith, eqb,
  eqb_iff, sym, ap, ◌∙◌, subst,
}
use resilient_python_api.Outcome.{Result, Error, ok, err}
use resilient_python_api.Restart.{
  App, new_app, reload_config, reload_complete, reload_timeout, without_timer,
}

abbrev pub is_pending : ℕ → List ℕ → Bool
is_pending timer [] = false
is_pending timer (other ∷ timers) =
    let rest = is_pending timer timers in if eqb other timer then true else rest

abbrev pub IsOk : Result (Unit {0}) → Type 0
IsOk (ok _) = Unit {0}
IsOk (err _) = ⊥

-- Where `reads`, app.config can always be read.
pub data Step (reads : Bool) : App → App → Type 0 where
  changed :
      {app : App} (opts : Result (Unit {0}))
      → (reads ≡ true → IsOk opts)
      → Step reads app (reload_config opts app).1
  completed :
      {app : App} (n : ℕ)
      → app.pending_reloads ≡ suc n
      → Step reads app (reload_complete (record app { pending_reloads = n }))
  timed_out :
      {app : App} (timer : ℕ)
      → is_pending timer app.pending_timers ≡ true
      → Step reads app
          (reload_timeout (record app { pending_timers = without_timer timer app.pending_timers }))

pub data Run (reads : Bool) : App → App → Type 0 where
  rest : {app : App} → Run reads app app
  step_then :
      {app app' app'' : App} → Step reads app app' → Run reads app' app'' → Run reads app app''

abbrev pub timer_pending : App → Bool
timer_pending app = elim app.reload_timer [
  | none ↦ false
  | some timer ↦ is_pending timer app.pending_timers
]

reload_config-timer_pending :
    (opts : Result (Unit {0})) (app : App)
    → IsOk opts
    → (app.reloading ≡ true → timer_pending app ≡ true)
    → timer_pending (reload_config opts app).1 ≡ true
unfolding reload_config
reload_config-timer_pending (ok u) app o h =
    ground (arith, h, eqb_iff app.next_timer app.next_timer)
reload_config-timer_pending (err e) app o h = absurd o

Step-timer_pending :
    {app app' : App}
    → Step true app app'
    → (app.reloading ≡ true → timer_pending app ≡ true)
    → app'.reloading ≡ true
    → timer_pending app' ≡ true
unfolding reload_complete reload_timeout
Step-timer_pending {app} (changed opts reads) h r =
    reload_config-timer_pending opts app (reads refl) h
Step-timer_pending (completed n e) h r = ground (arith, r)
Step-timer_pending (timed_out timer p) h r = ground (arith, r)

Run-timer_pending :
    {app app' : App}
    → Run true app app'
    → (app.reloading ≡ true → timer_pending app ≡ true)
    → app'.reloading ≡ true
    → timer_pending app' ≡ true
Run-timer_pending rest h = h
Run-timer_pending (step_then step run) h = Run-timer_pending run (Step-timer_pending step h)

-- In every run of a new application in which app.config can be read whenever it changes, a timer is
-- pending while a reload is in progress, so that it ends even if the reload never completes.
pub new_app-timer_pending :
    (app : App) → Run true new_app app → app.reloading ≡ true → timer_pending app ≡ true
unfolding new_app
new_app-timer_pending app run = Run-timer_pending run (λ r. ground (arith, r))

-- Nothing happens any more: no timer is pending and no reload is in progress, though one is expected.
abbrev pub IsStuck : App → Type 0
IsStuck app = (app.reloading ≡ true) × (app.pending_timers ≡ []) × (app.pending_reloads ≡ 0)

Step-IsStuck : {reads : Bool} {app app' : App} → Step reads app app' → IsStuck app → app' ≡ app
unfolding reload_config
Step-IsStuck {app = app} (changed opts given) h = ground (arith, h)
Step-IsStuck (completed n e) h = ground (arith, h, e)
Step-IsStuck {app = app} (timed_out timer p) h = ground (arith, h, p)

Run-IsStuck : {reads : Bool} {app app' : App} → Run reads app app' → IsStuck app → app' ≡ app
Run-IsStuck rest h = refl
Run-IsStuck (step_then step run) h =
    let e = Step-IsStuck step h in Run-IsStuck run (subst IsStuck (sym e) h) ∙ e

-- Where app.config could not be read when it changed, and no timer was pending and no reload in
-- progress, every later change is ignored, for ever: no run changes the application.
pub reload_config-IsStuck :
    (e : Error) (app app' : App)
    → app.reloading ≡ false
    → app.pending_timers ≡ []
    → app.pending_reloads ≡ 0
    → Run false (reload_config (err e) app).1 app'
    → (app'.reloading ≡ true) × (app' ≡ (reload_config (err e) app).1)
unfolding reload_config
reload_config-IsStuck e app app' r t p run =
    let after = (reload_config (err e) app).1 in
    let stuck : IsStuck after = ground (arith, r, t, p) in
    let same = Run-IsStuck run stuck in (ap (λ a. a.reloading) same ∙ stuck.0, same)
