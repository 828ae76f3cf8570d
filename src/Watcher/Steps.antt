-- ===== src/Watcher/Steps.antt =====
-- The daemon of watcher.py as a transition system: notifications, rounds of the two loops, the
-- single pass, and signals, in any order.
use ronzz_nextcloud.Prelude.{String, false, true, ℕ, ◌≡◌, ◌⊎◌}
use ronzz_nextcloud.Config.{MailwatchConfig}
use ronzz_nextcloud.Errors.{exit_auth_failure}
use ronzz_nextcloud.World.{Env}
use ronzz_nextcloud.Watcher.{
  Daemon, catch_up_pass, is_held, on_auth_failure, on_inbox_notification, on_junk_notification,
  on_redirect_notification, run_once, training_pass,
}
use ronzz_nextcloud.Pipeline.{Detectors}
use ronzz_nextcloud.Backoff.{Uniform}

-- The exit code tells an authentication failure that stopped the daemon, and nothing else.
abbrev pub IsSound : Daemon → Type 0
IsSound d = (d.exit_code ≡ 0) ⊎ ((d.exit_code ≡ exit_auth_failure) × (d.stopped ≡ true))

abbrev pub NoneHeld : Daemon → Type 0
NoneHeld d = (email : String) → is_held d.locks email ≡ false

module _ (env : Env) (monotonic : ℕ → ℕ) (random : ℕ → Uniform) (cfg : MailwatchConfig)
    (detectors : Detectors) where
  pub data Step (d : Daemon) : Daemon → Type 0 where
    inbox :
        (email event : String)
        → Step d (on_inbox_notification env monotonic random cfg detectors email event d)
    junk :
        (email event : String)
        → Step d (on_junk_notification env monotonic random cfg detectors email event d)
    redirect :
        (email event : String)
        → Step d (on_redirect_notification env monotonic random cfg detectors email event d)
    catch_up : Step d (catch_up_pass env monotonic random cfg detectors cfg.accounts d)
    training : Step d (training_pass env monotonic random cfg detectors cfg.accounts d)
    once : Step d (run_once env monotonic random cfg detectors d).1
    auth_failure_while_idle :
        (email : String) → Step d (on_auth_failure env monotonic random cfg detectors email d)
    signalled : Step d (record d { stopped = true })

  pub data Reaches (d : Daemon) : Daemon → Type 0 where
    start : Reaches d d
    next : {e f : Daemon} → Reaches d e → Step e f → Reaches d f
