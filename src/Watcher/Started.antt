-- ===== src/Watcher/Started.antt =====
-- What main starts, and what the password command leaves.
mod Tests
use ronzz_nextcloud.Prelude.Dict.{get-put}
use ronzz_nextcloud.Prelude.{
  refl, true, ℕ, ◌≡◌, Bool, Bool-cases, String, arith, false, if◌then◌else◌, inl, inr, some, str_eq,
}
use ronzz_nextcloud.Errors.{Result}
use ronzz_nextcloud.Config.{MailwatchConfig}
use ronzz_nextcloud.Config.Toml.{Failure, Loaded, Python, attribute, failed, loaded, overflow}
use ronzz_nextcloud.Config.Daemon.{ConfigFile, load_config}
use ronzz_nextcloud.Config.Valid.{IsWellFormed, load_config-IsWellFormed}
use ronzz_nextcloud.Watcher.Commands.{
  Ending, LockFile, RunArgs, main, ran, run_loaded, Keyring, account_key, acquire_instance,
  cmd_password, config_error, configured, exited, get_password, run_locked, set,
}

-- Of a run that reached the daemon: its configuration is valid, and dry if that was asked for.
abbrev pub StartsValid : RunArgs → Ending → Type 0
StartsValid args (ran cfg r) = IsWellFormed cfg × (args.dry_run ≡ true → cfg.daemon.dry_run ≡ true)
StartsValid args _ = Unit

IsWellFormed-configured :
    (args : RunArgs) (cfg : MailwatchConfig) → IsWellFormed cfg → IsWellFormed (configured args cfg)
unfolding configured
IsWellFormed-configured args cfg v = record {
  daemon_valid = record {
    positive = v.daemon_valid.positive;
    at_most_one = v.daemon_valid.at_most_one;
    base = v.daemon_valid.base;
    ordered = v.daemon_valid.ordered;
  };
  some_account = v.some_account;
  addresses = v.addresses;
  different = v.different;
}

dry-configured :
    (args : RunArgs) (cfg : MailwatchConfig)
    → args.dry_run ≡ true
    → (configured args cfg).daemon.dry_run ≡ true
unfolding configured
dry-configured args cfg h = rw h refl

StartsValid-config_error : (args : RunArgs) (e : Failure) → StartsValid args (config_error e)
unfolding config_error
StartsValid-config_error args overflow = tt
StartsValid-config_error args attribute = tt
StartsValid-config_error args _ = tt

StartsValid-run_locked :
    (daemon : MailwatchConfig → Result ℕ) (pid : ℕ) (args : RunArgs) (cfg : MailwatchConfig)
    (f : LockFile) (once : Bool)
    → IsWellFormed cfg
    → StartsValid args (run_locked daemon pid once (configured args cfg) f).0
unfolding run_locked
StartsValid-run_locked daemon pid args cfg f true v =
    (IsWellFormed-configured args cfg v, dry-configured args cfg)
StartsValid-run_locked daemon pid args cfg f false v =
    elim (Bool-cases (acquire_instance pid f).0) [
      | inl e ↦ rw e (IsWellFormed-configured args cfg v, dry-configured args cfg)
      | inr e ↦ rw e tt
    ]

-- The daemon is only ever started with a configuration that is well formed, and with a dry one
-- if the command line asks for a dry run.
pub StartsValid-main :
    (py : Python) (file : ConfigFile) (daemon : MailwatchConfig → Result ℕ) (pid : ℕ)
    (args : RunArgs) (f : LockFile)
    → StartsValid args (main py file daemon pid args f).0
unfolding main
StartsValid-main py file daemon pid args f = by_config (load_config py file) refl
  where
    by_config :
        (m : Loaded MailwatchConfig)
        → load_config py file ≡ m
        → StartsValid args (run_loaded daemon pid args m f).0
    by_config (failed e) h = StartsValid-config_error args e
    by_config (loaded cfg) h =
        StartsValid-run_locked daemon pid args cfg f args.once
          (load_config-IsWellFormed py file cfg h)

-- After a successful `password set`, the password is found under the address in lower case, and
-- every other entry is as before.
pub get_password-cmd_password :
    (password email : String) (k : Keyring) (other : String)
    → (cmd_password (set password) email k).0 ≡ 0
    → get_password (cmd_password (set password) email k).1 other
      ≡ (if str_eq (account_key email) other then some password else get_password k other)
unfolding cmd_password get_password
get_password-cmd_password password email k other h =
    ground (arith, get-put k.passwords (account_key email) other password)

-- A second process that finds the instance running ends with the code 1 and leaves the lock with
-- its holder, but the text of the lock file is lost.
second_instance_lem :
    (daemon : MailwatchConfig → Result ℕ) (pid p : ℕ) (cfg : MailwatchConfig) (old : String)
    → run_locked daemon pid false cfg (record { holder = some p; content = old })
      ≡ (exited 1, record { holder = some p; content = "" })
unfolding run_locked
second_instance_lem daemon pid p cfg old = refl
