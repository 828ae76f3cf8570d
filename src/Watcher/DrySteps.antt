-- ===== src/Watcher/DrySteps.antt =====
-- Every step of watcher.py in a dry run.
use ronzz_nextcloud.Prelude.{
  Bool, List, Option, String, [], ap, false, if◌then◌else◌, none, refl, some, str_eq, true, ℕ, ◌+◌,
  ◌∙◌, ◌∷◌, ◌≡◌,
}
use ronzz_nextcloud.Config.{AccountConfig, MailwatchConfig}
use ronzz_nextcloud.Errors.{Exec}
use ronzz_nextcloud.World.{Env, World, emit, startup}
use ronzz_nextcloud.World.Writes.{written}
use ronzz_nextcloud.Watcher.{
  Daemon, attempt, catch_up_pass, find_account, inbox_for, junk_for, locked, on_inbox_notification,
  on_junk_notification, on_redirect_notification, on_success, once_pass, redirect_for, run_once,
  scheduled, training_pass,
}
use ronzz_nextcloud.Watcher.Steps.{
  Reaches, Step, auth_failure_while_idle, catch_up, inbox, junk, next, once, redirect, signalled,
  start, training,
}
use ronzz_nextcloud.Watcher.DryRun.{
  OnlyReads, Unchanged, catch_up_scan-OnlyReads, locked-Unchanged, on_auth_failure-Silent,
  on_success-Silent, once_scan-OnlyReads, process-OnlyReads, redirector-OnlyReads,
  training-OnlyReads,
}
use ronzz_nextcloud.Pipeline.{Detectors}
use ronzz_nextcloud.Backoff.{Uniform, should_attempt}

module _ (env : Env) (monotonic : ℕ → ℕ) (random : ℕ → Uniform) (cfg : MailwatchConfig)
    (detectors : Detectors) (dry : cfg.daemon.dry_run ≡ true) where
  abbrev Same : (Daemon → Daemon) → Type 0
  Same f = Unchanged env monotonic random cfg detectors dry f

  notified-Same :
      {A : Type 0} (m : Exec World A) (email : String)
      → OnlyReads m
      → Same (
          locked env monotonic random cfg detectors m
            (on_success env monotonic random cfg detectors)
            email)
  notified-Same m email k =
      locked-Unchanged env monotonic random cfg detectors dry m _ email k
        (on_success-Silent env monotonic random cfg detectors dry email)

  if_same :
      (b : Bool) (x y d : Daemon)
      → written x.world.history ≡ written d.world.history
      → written y.world.history ≡ written d.world.history
      → written (if b then x else y).world.history ≡ written d.world.history
  if_same true x y d h k = h
  if_same false x y d h k = k

  scheduled-Same :
      {A : Type 0} (m : Exec World A) (pw : Option String) (email : String)
      → OnlyReads m
      → Same (scheduled env monotonic random cfg detectors m pw email)
  unfolding scheduled attempt
  scheduled-Same m none email k d = refl
  scheduled-Same m (some pw) email k d =
      let waited : Daemon = record d { calls = d.calls + 1 } in
      if_same (should_attempt d.backoff (monotonic d.calls) email) _ waited d
        (notified-Same m email k waited) refl

  catch_up_pass-Same :
      (accounts : List AccountConfig)
      → Same (catch_up_pass env monotonic random cfg detectors accounts)
  unfolding catch_up_pass
  catch_up_pass-Same [] d = refl
  catch_up_pass-Same (a ∷ accounts) d = if_same d.stopped d _ d refl (
      catch_up_pass-Same accounts _
      ∙ scheduled-Same _ _ a.email
          (catch_up_scan-OnlyReads env monotonic random cfg detectors dry a) d)

  training_pass-Same :
      (accounts : List AccountConfig)
      → Same (training_pass env monotonic random cfg detectors accounts)
  unfolding training_pass
  training_pass-Same [] d = refl
  training_pass-Same (a ∷ accounts) d = if_same d.stopped d _ d refl (
      training_pass-Same accounts _
      ∙ scheduled-Same _ _ a.email (training-OnlyReads env monotonic random cfg detectors dry a) d)

  once_pass-Same :
      (accounts : List AccountConfig) → Same (once_pass env monotonic random cfg detectors accounts)
  unfolding once_pass
  once_pass-Same [] d = refl
  once_pass-Same (a ∷ accounts) d =
      once_pass-Same accounts _
      ∙ locked-Unchanged env monotonic random cfg detectors dry _ (λ email d. d) a.email
          (once_scan-OnlyReads env monotonic random cfg detectors dry a) (λ d. refl) d

  inbox-Same :
      (email event_type : String)
      → Same (on_inbox_notification env monotonic random cfg detectors email event_type)
  unfolding on_inbox_notification inbox_for
  inbox-Same email event_type d =
      if_same (str_eq event_type "exists") _ d d (found (find_account cfg.accounts email)) refl
    where
      found :
          (o : Option AccountConfig)
          → written (inbox_for env monotonic random cfg detectors o email d).world.history
            ≡ written d.world.history
      found none = refl
      found (some a) =
          notified-Same _ email (process-OnlyReads env monotonic random cfg detectors dry a) d

  junk-Same :
      (email event_type : String)
      → Same (on_junk_notification env monotonic random cfg detectors email event_type)
  unfolding on_junk_notification junk_for
  junk-Same email event_type d =
      if_same (str_eq event_type "exists") _ d d (found (find_account cfg.accounts email)) refl
    where
      found :
          (o : Option AccountConfig)
          → written (junk_for env monotonic random cfg detectors o email d).world.history
            ≡ written d.world.history
      found none = refl
      found (some a) =
          notified-Same _ email (training-OnlyReads env monotonic random cfg detectors dry a) d

  redirect-Same :
      (email event_type : String)
      → Same (on_redirect_notification env monotonic random cfg detectors email event_type)
  unfolding on_redirect_notification redirect_for
  redirect-Same email event_type d =
      if_same (str_eq event_type "exists") _ d d (found (find_account cfg.accounts email)) refl
    where
      found :
          (o : Option AccountConfig)
          → written (redirect_for env monotonic random cfg detectors o email d).world.history
            ≡ written d.world.history
      found none = refl
      found (some a) =
          if_same a.redirect.enabled _ d d
            (notified-Same _ email (redirector-OnlyReads env monotonic random cfg detectors dry a)
              d)
            refl

  run_once-Same :
      (d : Daemon)
      → written (run_once env monotonic random cfg detectors d).1.world.history
        ≡ written d.world.history
  unfolding run_once emit
  run_once-Same d = once_pass-Same cfg.accounts (record d { world = (emit startup d.world).1 })

  Step-Same :
      {d e : Daemon}
      → Step env monotonic random cfg detectors d e
      → written e.world.history ≡ written d.world.history
  Step-Same {d} (inbox email event_type) = inbox-Same email event_type d
  Step-Same {d} (junk email event_type) = junk-Same email event_type d
  Step-Same {d} (redirect email event_type) = redirect-Same email event_type d
  Step-Same {d} catch_up = catch_up_pass-Same cfg.accounts d
  Step-Same {d} training = training_pass-Same cfg.accounts d
  Step-Same {d} once = run_once-Same d
  Step-Same {d} (auth_failure_while_idle email) =
      ap written (on_auth_failure-Silent env monotonic random cfg detectors dry email d)
  Step-Same {d} signalled = refl

  -- In a dry run the daemon, after any steps from any state, whatever the servers answer and the
  -- detectors find, has sent no command that changes a mailbox or a Sieve script.
  pub dry_daemon_only_reads :
      {d e : Daemon}
      → Reaches env monotonic random cfg detectors d e
      → written e.world.history ≡ written d.world.history
  dry_daemon_only_reads start = refl
  dry_daemon_only_reads (next r s) = Step-Same s ∙ dry_daemon_only_reads r
