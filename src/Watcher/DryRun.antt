-- ===== src/Watcher/DryRun.antt =====
-- The whole daemon of watcher.py in a dry run.
use mathlib.Core.Path.{subst}
use ronzz_nextcloud.Watcher.Failures.{release_lem}
use ronzz_nextcloud.Watcher.{
  Daemon, back_off, catch_up_scan, guarded, has_target, hold, is_held, locked, on_auth_failure,
  on_connection_failure, on_exception, on_success, once_scan, run_redirector, settle,
}
use ronzz_nextcloud.Prelude.{
  Bool, Option, false, if◌then◌else◌, none, refl, some, true, ◌∙◌, ◌≡◌, String, ap, sym, ℕ, ◌&&◌,
}
use ronzz_nextcloud.Config.{AccountConfig, RedirectTarget, MailwatchConfig}
use ronzz_nextcloud.Errors.{
  Exec, Result, ok, proceed, pure, raised, ◌>>=◌, auth_error, connection_error, exit_auth_failure,
  imap_abort, imap_error, os_error, other_error, runtime_error,
}
use ronzz_nextcloud.World.{Env, World, auth_failure, emit}
use ronzz_nextcloud.World.Writes.{written}
use ronzz_nextcloud.Pipeline.{Detectors, process_account}
use ronzz_nextcloud.Pipeline.Guard.{dry_run_changes_no_mail}
use ronzz_nextcloud.Redirector.{redirect_account, redirect_to}
use ronzz_nextcloud.Redirector.DryRun.{dry_run_only_reads}
use ronzz_nextcloud.Training.{scan_account}
use ronzz_nextcloud.Training.Scans.{scan_account_lem}
use ronzz_nextcloud.Backoff.{Uniform}

-- An action, whether it returns or raises, sends no command that changes a mailbox.
abbrev pub OnlyReads : {A : Type 0} → Exec World A → Type 0
OnlyReads m = (w : World) → written (m w).1.history ≡ written w.history

OnlyReads-bind :
    {A B : Type 0} (m : Exec World A) (f : A → Exec World B)
    → OnlyReads m
    → ((a : A) → OnlyReads (f a))
    → OnlyReads (m >>= f)
unfolding ◌>>=◌
OnlyReads-bind {A} {B} m f k l w = goes_on (m w).0 (m w).1 (k w)
  where
    goes_on :
        (r : Result A) (v : World)
        → written v.history ≡ written w.history
        → written (proceed r f v).1.history ≡ written w.history
    goes_on (ok a) v h = l a v ∙ h
    goes_on (raised e) v h = h

OnlyReads-if :
    {A : Type 0} (b : Bool) (m n : Exec World A)
    → OnlyReads m
    → OnlyReads n
    → OnlyReads (if b then m else n)
OnlyReads-if true m n k l = k
OnlyReads-if false m n k l = l

OnlyReads-pure : {A : Type 0} (a : A) → OnlyReads (pure a)
unfolding pure
OnlyReads-pure a w = refl

redirect_to-none : (env : Env) (a : AccountConfig) → OnlyReads (redirect_to env a true none)
unfolding redirect_to
redirect_to-none env a = OnlyReads-pure 0

redirect_account-OnlyReads :
    (env : Env) (a : AccountConfig) → OnlyReads (redirect_account env a true)
unfolding redirect_account
redirect_account-OnlyReads env a w = found a.redirect.target refl
  where
    found :
        (t : Option RedirectTarget)
        → a.redirect.target ≡ t
        → written (redirect_account env a true w).1.history ≡ written w.history
    found (some t) h = dry_run_only_reads env a t w h
    found none h =
        OnlyReads-if a.redirect.enabled _ _
          (subst (λ o. OnlyReads (redirect_to env a true o)) (sym h) (redirect_to-none env a))
          (OnlyReads-pure 0) w

module _ (env : Env) (monotonic : ℕ → ℕ) (random : ℕ → Uniform) (cfg : MailwatchConfig)
    (detectors : Detectors) (dry : cfg.daemon.dry_run ≡ true) where
  pub process-OnlyReads :
      (a : AccountConfig) → OnlyReads (process_account env cfg.daemon a detectors "INBOX")
  process-OnlyReads a w =
      (dry_run_changes_no_mail env cfg.daemon a detectors "INBOX" w dry).commands

  pub training-OnlyReads : (a : AccountConfig) → OnlyReads (scan_account env cfg.daemon.training a)
  training-OnlyReads a w = (scan_account_lem env cfg.daemon.training a w "" "" "").2

  pub redirector-OnlyReads :
      (a : AccountConfig) → OnlyReads (run_redirector env monotonic random cfg detectors a)
  unfolding run_redirector
  redirector-OnlyReads a w = rw (dry) (redirect_account-OnlyReads env a w)

  pub catch_up_scan-OnlyReads :
      (a : AccountConfig) → OnlyReads (catch_up_scan env monotonic random cfg detectors a)
  unfolding catch_up_scan
  catch_up_scan-OnlyReads a = OnlyReads-bind _ _ (process-OnlyReads a) λ n.
      OnlyReads-if (a.redirect.enabled && has_target a) _ _ (redirector-OnlyReads a)
        (OnlyReads-pure 0)

  pub once_scan-OnlyReads :
      (a : AccountConfig) → OnlyReads (once_scan env monotonic random cfg detectors a)
  unfolding once_scan
  once_scan-OnlyReads a = OnlyReads-bind _ _ (process-OnlyReads a) λ n.
      OnlyReads-bind _ _
        (OnlyReads-if cfg.daemon.training.enabled _ _
          (OnlyReads-bind _ _ (training-OnlyReads a) (λ s. OnlyReads-pure true))
          (OnlyReads-pure false))
        λ b.
          OnlyReads-if (a.redirect.enabled && has_target a) _ _ (redirector-OnlyReads a)
            (OnlyReads-pure 0)

  -- The daemon's own bookkeeping sends no command.
  abbrev pub Silent : (Daemon → Daemon) → Type 0
  Silent f = (d : Daemon) → (f d).world.history ≡ d.world.history

  back_off-Silent : (email : String) → Silent (back_off env monotonic random cfg detectors email)
  unfolding back_off
  back_off-Silent email d = refl

  pub on_success-Silent :
      (email : String) → Silent (on_success env monotonic random cfg detectors email)
  unfolding on_success
  on_success-Silent email d = refl

  pub on_auth_failure-Silent :
      (email : String) → Silent (on_auth_failure env monotonic random cfg detectors email)
  unfolding on_auth_failure emit
  on_auth_failure-Silent email d = branches d.stopped cfg.daemon.connection.stop_on_auth_failure
    where
      told : Daemon
      told = record d {
        world = (emit (auth_failure email cfg.daemon.connection.stop_on_auth_failure) d.world).1;
      }

      branches :
          (stopped stop : Bool)
          → (if stopped
              then d
              else if stop
              then record told { exit_code = exit_auth_failure; stopped = true }
              else back_off env monotonic random cfg detectors email told).world.history
            ≡ d.world.history
      branches true stop = refl
      branches false true = refl
      branches false false = back_off-Silent email told

  settle-Silent :
      {A : Type 0} (done : String → Daemon → Daemon) (r : Result A) (email : String)
      → Silent (done email)
      → Silent (settle env monotonic random cfg detectors done r email)
  unfolding settle on_exception on_connection_failure
  settle-Silent done (ok a) email k d = k d
  settle-Silent done (raised auth_error) email k d = on_auth_failure-Silent email d
  settle-Silent done (raised connection_error) email k d = back_off-Silent email d
  settle-Silent done (raised imap_error) email k d = refl
  settle-Silent done (raised imap_abort) email k d = refl
  settle-Silent done (raised os_error) email k d = refl
  settle-Silent done (raised runtime_error) email k d = refl
  settle-Silent done (raised other_error) email k d = refl

  abbrev pub Unchanged : (Daemon → Daemon) → Type 0
  Unchanged f = (d : Daemon) → written (f d).world.history ≡ written d.world.history

  pub locked-Unchanged :
      {A : Type 0} (m : Exec World A) (done : String → Daemon → Daemon) (email : String)
      → OnlyReads m
      → Silent (done email)
      → Unchanged (locked env monotonic random cfg detectors m done email)
  unfolding locked guarded
  locked-Unchanged m done email k s d = branches (is_held d.locks email)
    where
      x : Daemon
      x = record (hold email d) { world = (m d.world).1 }

      y : Daemon
      y = settle env monotonic random cfg detectors done (m d.world).0 email x

      branches :
          (b : Bool)
          → let r : Bool × Daemon = if b then (false, d) else (true, hold email d) in
            written
              (if r.0
                then guarded env monotonic random cfg detectors m done email r.1
                else r.1).world.history
            ≡ written d.world.history
      branches true = refl
      branches false =
          ap (λ w. written w.history) ((release_lem email y).3)
          ∙ ap written (settle-Silent done (m d.world).0 email s x)
          ∙ k d.world
