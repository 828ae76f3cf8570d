-- ===== src/Watcher/Soundness.antt =====
-- What every state of the daemon of watcher.py has.
use ronzz_nextcloud.Watcher.Steps.{
  IsSound, NoneHeld, Reaches, Step, auth_failure_while_idle, catch_up, inbox, junk, next, once,
  redirect, signalled, start, training,
}
use ronzz_nextcloud.Prelude.{
  inl, str_eq, inl, str_eq, Bool, String, false, if◌then◌else◌, inr, refl, true, ℕ, ◌∙◌, ◌≡◌, List,
  Option, [], none, some, ◌+◌, ◌∷◌,
}
use ronzz_nextcloud.Config.{MailwatchConfig, AccountConfig}
use ronzz_nextcloud.Errors.{
  Exec, Exn, Result, auth_error, connection_error, exit_auth_failure, imap_abort, imap_error, ok,
  os_error, other_error, raised, runtime_error,
}
use ronzz_nextcloud.World.{Env, World, emit, startup}
use ronzz_nextcloud.Watcher.{
  Daemon, back_off, catch_up_pass, guarded, hold, locked, on_auth_failure, on_connection_failure,
  on_exception, on_inbox_notification, on_junk_notification, on_redirect_notification, on_success,
  run_once, settle, training_pass, attempt, once_pass, scheduled, find_account, inbox_for, junk_for,
  redirect_for,
}
use ronzz_nextcloud.Watcher.Failures.{is_held-release, release_lem}
use ronzz_nextcloud.Pipeline.{Detectors}
use ronzz_nextcloud.Backoff.{Uniform, should_attempt}

module _ (env : Env) (monotonic : ℕ → ℕ) (random : ℕ → Uniform) (cfg : MailwatchConfig)
    (detectors : Detectors) where
  IsGood : Daemon → Type 0
  IsGood d = IsSound d × NoneHeld d

  abbrev Moves : (Daemon → Daemon) → Type 0
  Moves f = (d : Daemon) → (IsSound d → IsSound (f d)) × ((f d).locks ≡ d.locks)

  back_off-Moves : (email : String) → Moves (back_off env monotonic random cfg detectors email)
  unfolding back_off
  back_off-Moves email d = (λ h. h, refl)

  on_success-Moves : (email : String) → Moves (on_success env monotonic random cfg detectors email)
  unfolding on_success
  on_success-Moves email d = (λ h. h, refl)

  auth_branches :
      (d told : Daemon) (email : String) (stopped stop : Bool)
      → (IsSound d → IsSound told)
      → told.locks ≡ d.locks
      → let after : Daemon =
          if stopped
          then d
          else if stop
          then record told { exit_code = exit_auth_failure; stopped = true }
          else back_off env monotonic random cfg detectors email told in
        (IsSound d → IsSound after) × (after.locks ≡ d.locks)
  auth_branches d told email true stop s l = (λ h. h, refl)
  auth_branches d told email false true s l = (λ h. inr (refl, refl), l)
  auth_branches d told email false false s l =
      (λ h. (back_off-Moves email told).0 (s h), (back_off-Moves email told).1 ∙ l)

  on_auth_failure-Moves :
      (email : String) → Moves (on_auth_failure env monotonic random cfg detectors email)
  unfolding on_auth_failure emit
  on_auth_failure-Moves email d =
      auth_branches d _ email d.stopped cfg.daemon.connection.stop_on_auth_failure (λ h. h) refl

  on_exception-Moves :
      (e : Exn) (email : String) → Moves (on_exception env monotonic random cfg detectors e email)
  unfolding on_exception on_connection_failure
  on_exception-Moves auth_error email d = on_auth_failure-Moves email d
  on_exception-Moves connection_error email d = back_off-Moves email d
  on_exception-Moves imap_error email d = (λ h. h, refl)
  on_exception-Moves imap_abort email d = (λ h. h, refl)
  on_exception-Moves os_error email d = (λ h. h, refl)
  on_exception-Moves runtime_error email d = (λ h. h, refl)
  on_exception-Moves other_error email d = (λ h. h, refl)

  module _ {A : Type 0} (done : String → Daemon → Daemon)
      (done-Moves : (email : String) → Moves (done email)) where
    settle-Moves :
        (r : Result A) (email : String)
        → Moves (settle env monotonic random cfg detectors done r email)
    unfolding settle
    settle-Moves (ok a) email d = done-Moves email d
    settle-Moves (raised e) email d = on_exception-Moves e email d

    locked-IsGood :
        (m : Exec World A) (email : String) (d : Daemon)
        → IsGood d
        → IsGood (locked env monotonic random cfg detectors m done email d)
    unfolding IsGood locked guarded
    locked-IsGood m email d h =
        let x = record (hold email d) { world = (m d.world).1 } in
        let y = settle env monotonic random cfg detectors done (m d.world).0 email x in
        let moved = settle-Moves (m d.world).0 email x in
        let left = release_lem email y in
        rw (h.1 email) (
          rw (left.1, left.2) (moved.0 h.0),
          λ f. is_held-release email f d y (h.1 email) moved.1 ∙ h.1 f,
        )

  module _ {A : Type 0} (m : Exec World A) where
    notified :
        (email : String) (d : Daemon)
        → IsGood d
        → IsGood (
            locked env monotonic random cfg detectors m
              (on_success env monotonic random cfg detectors)
              email
              d)
    notified email d h =
        locked-IsGood (on_success env monotonic random cfg detectors) on_success-Moves m email d h

    scheduled-IsGood :
        (pw : Option String) (email : String) (d : Daemon)
        → IsGood d
        → IsGood (scheduled env monotonic random cfg detectors m pw email d)
    unfolding scheduled attempt
    scheduled-IsGood none email d h = h
    scheduled-IsGood (some pw) email d h =
        tried (should_attempt d.backoff (monotonic d.calls) email)
      where
        waited : Daemon
        waited = record d { calls = d.calls + 1 }

        tried :
            (b : Bool)
            → IsGood (
                if b
                then locked env monotonic random cfg detectors m
                    (on_success env monotonic random cfg detectors)
                    email
                    waited
                else waited)
        tried true = notified email waited (unfold IsGood in h)
        tried false = unfold IsGood in h

  unless : (b : Bool) (d x : Daemon) → IsGood d → IsGood x → IsGood (if b then d else x)
  unless true d x h k = h
  unless false d x h k = k

  catch_up_pass-IsGood :
      (accounts : List AccountConfig) (d : Daemon)
      → IsGood d
      → IsGood (catch_up_pass env monotonic random cfg detectors accounts d)
  unfolding catch_up_pass
  catch_up_pass-IsGood [] d h = h
  catch_up_pass-IsGood (a ∷ accounts) d h =
      unless d.stopped d _ h (catch_up_pass-IsGood accounts _ (scheduled-IsGood _ _ a.email d h))

  training_pass-IsGood :
      (accounts : List AccountConfig) (d : Daemon)
      → IsGood d
      → IsGood (training_pass env monotonic random cfg detectors accounts d)
  unfolding training_pass
  training_pass-IsGood [] d h = h
  training_pass-IsGood (a ∷ accounts) d h =
      unless d.stopped d _ h (training_pass-IsGood accounts _ (scheduled-IsGood _ _ a.email d h))

  once_pass-IsGood :
      (accounts : List AccountConfig) (d : Daemon)
      → IsGood d
      → IsGood (once_pass env monotonic random cfg detectors accounts d)
  unfolding once_pass
  once_pass-IsGood [] d h = h
  once_pass-IsGood (a ∷ accounts) d h =
      once_pass-IsGood accounts _
        (locked-IsGood (λ email d. d) (λ email d. (λ h. h, refl)) _ a.email d h)

  on_inbox_notification-IsGood :
      (email event_type : String) (d : Daemon)
      → IsGood d
      → IsGood (on_inbox_notification env monotonic random cfg detectors email event_type d)
  unfolding on_inbox_notification
  on_inbox_notification-IsGood email event_type d h =
      unless (str_eq event_type "exists") _ d (found (find_account cfg.accounts email)) h
    where
      found :
          (o : Option AccountConfig)
          → IsGood (inbox_for env monotonic random cfg detectors o email d)
      found none = unfold inbox_for in h
      found (some a) = unfold inbox_for in notified _ email d h

  on_junk_notification-IsGood :
      (email event_type : String) (d : Daemon)
      → IsGood d
      → IsGood (on_junk_notification env monotonic random cfg detectors email event_type d)
  unfolding on_junk_notification
  on_junk_notification-IsGood email event_type d h =
      unless (str_eq event_type "exists") _ d (found (find_account cfg.accounts email)) h
    where
      found :
          (o : Option AccountConfig)
          → IsGood (junk_for env monotonic random cfg detectors o email d)
      found none = unfold junk_for in h
      found (some a) = unfold junk_for in notified _ email d h

  on_redirect_notification-IsGood :
      (email event_type : String) (d : Daemon)
      → IsGood d
      → IsGood (on_redirect_notification env monotonic random cfg detectors email event_type d)
  unfolding on_redirect_notification
  on_redirect_notification-IsGood email event_type d h =
      unless (str_eq event_type "exists") _ d (found (find_account cfg.accounts email)) h
    where
      found :
          (o : Option AccountConfig)
          → IsGood (redirect_for env monotonic random cfg detectors o email d)
      found none = unfold redirect_for in h
      found (some a) = unfold redirect_for in unless a.redirect.enabled _ d (notified _ email d h) h

  run_once-IsGood :
      (d : Daemon) → IsGood d → IsGood (run_once env monotonic random cfg detectors d).1
  unfolding run_once IsGood emit
  run_once-IsGood d h =
      once_pass-IsGood cfg.accounts (record d { world = (emit startup d.world).1 }) h

  on_auth_failure-IsGood :
      (email : String) (d : Daemon)
      → IsGood d
      → IsGood (on_auth_failure env monotonic random cfg detectors email d)
  unfolding IsGood
  on_auth_failure-IsGood email d h =
      let moved = on_auth_failure-Moves email d in (moved.0 h.0, λ f. rw (moved.1) (h.1 f))

  stopped-IsGood : (d : Daemon) → IsGood d → IsGood (record d { stopped = true })
  unfolding IsGood
  stopped-IsGood d h = (elim h.0 [ inl p ↦ inl p | inr p ↦ inr (p.0, refl) ], h.1)

  Step-IsGood : {d e : Daemon} → Step env monotonic random cfg detectors d e → IsGood d → IsGood e
  Step-IsGood {d} (inbox email event_type) h = on_inbox_notification-IsGood email event_type d h
  Step-IsGood {d} (junk email event_type) h = on_junk_notification-IsGood email event_type d h
  Step-IsGood {d} (redirect email event_type) h =
      on_redirect_notification-IsGood email event_type d h
  Step-IsGood {d} catch_up h = catch_up_pass-IsGood cfg.accounts d h
  Step-IsGood {d} training h = training_pass-IsGood cfg.accounts d h
  Step-IsGood {d} once h = run_once-IsGood d h
  Step-IsGood {d} (auth_failure_while_idle email) h = on_auth_failure-IsGood email d h
  Step-IsGood {d} signalled h = stopped-IsGood d h

  -- From a state with exit code 0 and no lock held, after any notifications, rounds, passes,
  -- failures of IDLE threads and signals, in any order: the exit code is 0, or it is the one of
  -- an authentication failure and the daemon is stopped; and no account's lock is held.
  pub Reaches-IsSound :
      {d e : Daemon}
      → Reaches env monotonic random cfg detectors d e
      → d.exit_code ≡ 0
      → NoneHeld d
      → IsSound e × NoneHeld e
  unfolding IsGood
  Reaches-IsSound start h k = (inl h, k)
  Reaches-IsSound (next r s) h k = Step-IsGood s (Reaches-IsSound r h k)
