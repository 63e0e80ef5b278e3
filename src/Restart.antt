-- ===== src/Restart.antt =====
-- resilient-circuits/resilient_circuits/app_restartable.py: what happens when the file app.config
-- changes while the application runs. Reading the file, and setting the levels and limits of the log,
-- may raise; what they give is an argument of an event. A timer that is unregistered fires no event.
pub mod Reloads
use resilient_python_api.Prelude.{
  ℕ, suc, Bool, true, false, Option, none, some, if◌then◌else◌, List, [], ◌∷◌, eqb,
}
use resilient_python_api.Outcome.{Result, Exec, ok, err}

-- AppRestartable, with the timers that are registered and did not fire, and the number of reload events
-- that were fired and are not complete.
pub record App : Type 0 where
  pub reloading : Bool
  pub reload_timer : Option ℕ
  pub next_timer : ℕ
  pub pending_timers : List ℕ
  pub pending_reloads : ℕ

-- AppRestartable.__init__
unfoldable pub new_app : App
new_app = record {
  reloading = false;
  reload_timer = none;
  next_timer = 0;
  pending_timers = [];
  pending_reloads = 0;
}

-- The Timer for reload_timeout, and the reload event.
abbrev pub start_reload : App → App
start_reload app = record app {
  reload_timer = some app.next_timer;
  next_timer = suc app.next_timer;
  pending_timers = app.next_timer ∷ app.pending_timers;
  pending_reloads = suc app.pending_reloads;
}

-- ConfigFileUpdateHandler.reload_config, where reading app.config and resetting the log gives `opts`
unfoldable pub reload_config : (opts : Result (Unit {0})) → Exec App (Unit {0})
reload_config opts app = if app.reloading then (ok tt, app) else elim opts [
  | err e ↦ (err e, record app { reloading = true })
  | ok _ ↦ (ok tt, start_reload (record app { reloading = true }))
]

abbrev pub without_timer : ℕ → List ℕ → List ℕ
without_timer timer [] = []
without_timer timer (other ∷ timers) =
    let rest = without_timer timer timers in if eqb other timer then rest else other ∷ rest

abbrev pub unregister_timer : App → App
unregister_timer app = elim app.reload_timer [
  | none ↦ app
  | some timer ↦ record app {
    reload_timer = none;
    pending_timers = without_timer timer app.pending_timers;
  }
]

unfoldable pub reload_complete : App → App
reload_complete app = record (unregister_timer app) { reloading = false }

unfoldable pub reload_timeout : App → App
reload_timeout app = record app { reloading = false }
