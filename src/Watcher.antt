-- ===== src/Watcher.antt =====
-- mailwatch/src/mailwatch/watcher.py: MailwatchDaemon, with AccountLock of pipeline.py. A handler
-- is one step: it holds its account's lock from its first command to its last. The monotonic
-- clock and the random source of the backoff are parameters, read once for each call.
pub mod Steps
pub mod Soundness
pub mod Stopping
pub mod Failures
pub mod DryRun
pub mod DrySteps
pub mod Commands
pub mod Started
pub mod Schedulers
mod Tests
use ronzz_nextcloud.Prelude.{
  Bool, List, Option, String, [], false, if◌then◌else◌, none, some, str_eq, true, ℕ, ◌&&◌, ◌++◌,
  ◌+◌, ◌∷◌,
}
use ronzz_nextcloud.Prelude.Dict
use ronzz_nextcloud.Prelude.Dict.{Dict, get, put}
use ronzz_nextcloud.Config.{AccountConfig, MailwatchConfig, resolved_junk_folder}
use ronzz_nextcloud.Errors.{
  Exec, Exn, Result, auth_error, connection_error, exit_auth_failure, ok, pure, raised, ◌>>=◌, ◌>>◌,
}
use ronzz_nextcloud.World.{Env, History, World, auth_failure, emit, shutdown, startup, target}
use ronzz_nextcloud.Domain.{lower}
use ronzz_nextcloud.Pipeline.{Detectors, process_account}
use ronzz_nextcloud.Redirector.{redirect_account}
use ronzz_nextcloud.Training.{scan_account, trained}
use ronzz_nextcloud.Backoff.{Backoff, Uniform, record_failure, record_success, should_attempt}

pub record Daemon : Type 0 where
  pub world : World
  pub backoff : Backoff
  pub locks : Dict Bool
  pub exit_code : ℕ
  pub stopped : Bool
  pub calls : ℕ

-- A lock that was never asked for is not held.
abbrev pub is_true : Option Bool → Bool
is_true none = false
is_true (some b) = b

unfoldable pub is_held : Dict Bool → String → Bool
is_held locks email = is_true (Dict.get locks email)

abbrev pub hold : String → Daemon → Daemon
hold email d = record d { locks = Dict.put d.locks email true }

-- AccountLock.acquire: a lock that another thread holds is not freed within the timeout.
unfoldable pub acquire : String → Daemon → Bool × Daemon
acquire email d = if is_held d.locks email then (false, d) else (true, hold email d)

abbrev pub free : Option Bool → String → Daemon → Daemon
free none email d = d
free (some b) email d = record d { locks = Dict.put d.locks email false }

-- AccountLock.release
unfoldable pub release : String → Daemon → Daemon
release email d = free (Dict.get d.locks email) email d

unfoldable pub find_account : List AccountConfig → String → Option AccountConfig
find_account [] email = none
find_account (a ∷ accounts) email =
    if str_eq (lower a.email) (lower email) then some a else find_account accounts email

-- The handler of an IDLE thread.
pub data Handler : Type 0 where
  on_inbox on_junk on_redirect : Handler

abbrev pub has_target : AccountConfig → Bool
has_target a = elim a.redirect.target [ none ↦ false | some t ↦ true ]

module _ (env : Env) (monotonic : ℕ → ℕ) (random : ℕ → Uniform) (cfg : MailwatchConfig)
    (detectors : Detectors) where
  -- An OverflowError of record_failure is not passed on here: the state is the one that it leaves.
  unfoldable pub back_off : String → Daemon → Daemon
  back_off email d = record d {
    backoff = (record_failure d.backoff (random d.calls) (monotonic d.calls) email).1;
    calls = d.calls + 1;
  }

  -- `_on_auth_failure`
  unfoldable pub on_auth_failure : String → Daemon → Daemon
  on_auth_failure email d =
      let stop = cfg.daemon.connection.stop_on_auth_failure in
      let told = record d { world = (emit (auth_failure email stop) d.world).1 } in
      if d.stopped
      then d
      else if stop
      then record told { exit_code = exit_auth_failure; stopped = true }
      else back_off email told

  -- `_on_connection_failure`
  unfoldable pub on_connection_failure : String → Daemon → Daemon
  on_connection_failure email d = back_off email d

  unfoldable pub on_success : String → Daemon → Daemon
  on_success email d = record d { backoff = record_success d.backoff email }

  -- The handlers of the `try`, in their order.
  unfoldable pub on_exception : Exn → String → Daemon → Daemon
  on_exception auth_error email d = on_auth_failure email d
  on_exception connection_error email d = on_connection_failure email d
  on_exception _ email d = d

  unfoldable pub settle :
      {A : Type 0} → (String → Daemon → Daemon) → Result A → String → Daemon → Daemon
  settle done (ok a) email d = done email d
  settle done (raised e) email d = on_exception e email d

  -- The body of the `try`, what follows it, and the `finally`.
  unfoldable pub guarded :
      {A : Type 0} → Exec World A → (String → Daemon → Daemon) → String → Daemon → Daemon
  guarded m done email d =
      release email (settle done (m d.world).0 email (record d { world = (m d.world).1 }))

  unfoldable pub locked :
      {A : Type 0} → Exec World A → (String → Daemon → Daemon) → String → Daemon → Daemon
  unfolding acquire
  locked m done email d = let r = acquire email d in if r.0 then guarded m done email r.1 else r.1

  unfoldable pub inbox_for : Option AccountConfig → String → Daemon → Daemon
  inbox_for none email d = d
  inbox_for (some a) email d =
      locked (process_account env cfg.daemon a detectors "INBOX") on_success email d

  unfoldable pub on_inbox_notification : String → String → Daemon → Daemon
  on_inbox_notification email event d =
      if str_eq event "exists" then inbox_for (find_account cfg.accounts email) email d else d

  unfoldable pub junk_for : Option AccountConfig → String → Daemon → Daemon
  junk_for none email d = d
  junk_for (some a) email d = locked (scan_account env cfg.daemon.training a) on_success email d

  unfoldable pub on_junk_notification : String → String → Daemon → Daemon
  on_junk_notification email event d =
      if str_eq event "exists" then junk_for (find_account cfg.accounts email) email d else d

  unfoldable pub run_redirector : AccountConfig → Exec World ℕ
  run_redirector a = redirect_account env a cfg.daemon.dry_run

  unfoldable pub redirect_for : Option AccountConfig → String → Daemon → Daemon
  redirect_for none email d = d
  redirect_for (some a) email d =
      if a.redirect.enabled then locked (run_redirector a) on_success email d else d

  unfoldable pub on_redirect_notification : String → String → Daemon → Daemon
  on_redirect_notification email event d =
      if str_eq event "exists" then redirect_for (find_account cfg.accounts email) email d else d

  unfoldable pub catch_up_scan : AccountConfig → Exec World ℕ
  catch_up_scan a = do
    n ← process_account env cfg.daemon a detectors "INBOX"
    if a.redirect.enabled && has_target a then run_redirector a else pure 0

  -- An account in a scheduled pass: without a password, or within its backoff, it is left out.
  unfoldable pub attempt : {A : Type 0} → Exec World A → String → Daemon → Daemon
  attempt m email d =
      let waited = record d { calls = d.calls + 1 } in
      if should_attempt d.backoff (monotonic d.calls) email
      then locked m on_success email waited
      else waited

  unfoldable pub scheduled : {A : Type 0} → Exec World A → Option String → String → Daemon → Daemon
  scheduled m none email d = d
  scheduled m (some pw) email d = attempt m email d

  -- One round of `_catch_up_loop`.
  unfoldable pub catch_up_pass : List AccountConfig → Daemon → Daemon
  catch_up_pass [] d = d
  catch_up_pass (a ∷ accounts) d =
      let rest =
        catch_up_pass accounts
          (scheduled (catch_up_scan a) (env.password d.world.history a.email) a.email d) in
      if d.stopped then d else rest

  -- One round of `_training_loop`.
  unfoldable pub training_pass : List AccountConfig → Daemon → Daemon
  training_pass [] d = d
  training_pass (a ∷ accounts) d =
      let rest = training_pass accounts (
        scheduled (scan_account env cfg.daemon.training a) (env.password d.world.history a.email)
          a.email d) in
      if d.stopped then d else rest

  unfoldable pub once_scan : AccountConfig → Exec World ℕ
  once_scan a = do
    n ← process_account env cfg.daemon a detectors "INBOX"
    scanned_too ←
        if cfg.daemon.training.enabled
        then (do s ← scan_account env cfg.daemon.training a; pure true)
        else pure false
    if a.redirect.enabled && has_target a then run_redirector a else pure 0

  unfoldable pub once_pass : List AccountConfig → Daemon → Daemon
  once_pass [] d = d
  once_pass (a ∷ accounts) d = once_pass accounts (locked (once_scan a) (λ email d. d) a.email d)

  -- The exit code, and the state.
  unfoldable pub run_once : Daemon → ℕ × Daemon
  run_once d =
      let started = record d { world = (emit startup d.world).1 } in
      let passed = once_pass cfg.accounts started in
      (passed.exit_code, record passed { world = (emit shutdown passed.world).1 })

  -- The folders that an account's IDLE threads watch, with their handlers.
  unfoldable pub idle_folders : AccountConfig → List (String × Handler)
  idle_folders a =
      ("INBOX", on_inbox)
        ∷ (if cfg.daemon.training.enabled then (resolved_junk_folder a, on_junk) ∷ [] else [])
      ++ (if a.redirect.enabled && has_target a
          then (a.redirect.source_folder, on_redirect) ∷ []
          else [])

  unfoldable pub start_idle_threads :
      History → List AccountConfig → List (String × List (String × Handler))
  start_idle_threads h [] = []
  start_idle_threads h (a ∷ accounts) =
      let rest = start_idle_threads h accounts in
      elim (env.password h a.email) [ none ↦ rest | some pw ↦ (a.email, idle_folders a) ∷ rest ]
