-- ===== src/Watcher/Stopping.antt =====
-- A pass of watcher.py that stops the daemon.
use ronzz_nextcloud.Prelude.{
  Bool, String, false, if◌then◌else◌, refl, true, ℕ, ◌∙◌, ◌≡◌, List, Option, [], ◌∷◌,
}
use ronzz_nextcloud.Config.{MailwatchConfig, AccountConfig}
use ronzz_nextcloud.World.{Env}
use ronzz_nextcloud.Watcher.{Daemon, catch_up_pass, training_pass, scheduled, catch_up_scan}
use ronzz_nextcloud.Pipeline.{Detectors}
use ronzz_nextcloud.Training.{scan_account}
use ronzz_nextcloud.Backoff.{Uniform}

module _ (env : Env) (monotonic : ℕ → ℕ) (random : ℕ → Uniform) (cfg : MailwatchConfig)
    (detectors : Detectors) where
  otherwise : (b : Bool) (d x : Daemon) → b ≡ false → (if b then d else x) ≡ x
  otherwise true d x h = absurd cc
  otherwise false d x h = refl

  stays : (b : Bool) (d x : Daemon) → b ≡ true → (if b then d else x) ≡ d
  stays true d x h = refl
  stays false d x h = absurd cc

  catch_up_pass-stopped :
      (accounts : List AccountConfig) (d : Daemon)
      → d.stopped ≡ true
      → catch_up_pass env monotonic random cfg detectors accounts d ≡ d
  unfolding catch_up_pass
  catch_up_pass-stopped [] d h = refl
  catch_up_pass-stopped (a ∷ accounts) d h = stays d.stopped d _ h

  training_pass-stopped :
      (accounts : List AccountConfig) (d : Daemon)
      → d.stopped ≡ true
      → training_pass env monotonic random cfg detectors accounts d ≡ d
  unfolding training_pass
  training_pass-stopped [] d h = refl
  training_pass-stopped (a ∷ accounts) d h = stays d.stopped d _ h

  -- In a daemon that is not stopped, a round of the catch-up loop in which the scan of an account
  -- stops it leaves the accounts after that one alone, and so does a round of the training loop:
  -- the state is the one that the scan of that account left.
  pub passes_stop :
      (a : AccountConfig) (accounts : List AccountConfig) (d : Daemon)
      → d.stopped ≡ false
      → let pw : Option String = env.password d.world.history a.email in
        let x : Daemon =
          scheduled env monotonic random cfg detectors
            (catch_up_scan env monotonic random cfg detectors a)
            pw
            a.email
            d in
        let y : Daemon =
          scheduled env monotonic random cfg detectors
            (scan_account env cfg.daemon.training a)
            pw
            a.email
            d in
        (x.stopped ≡ true → catch_up_pass env monotonic random cfg detectors (a ∷ accounts) d ≡ x)
        × (y.stopped ≡ true → training_pass env monotonic random cfg detectors (a ∷ accounts) d ≡ y)
  unfolding catch_up_pass training_pass
  passes_stop a accounts d h = (
    λ k. otherwise d.stopped d _ h ∙ catch_up_pass-stopped accounts _ k,
    λ k. otherwise d.stopped d _ h ∙ training_pass-stopped accounts _ k,
  )
