-- ===== src/Watcher/Commands.antt =====
-- The command line of mailwatch/src/mailwatch/watcher.py: main, the instance lock and the password
-- command, over keyring.py. Arguments are parsed; signals, logging and printed lines are left out.
use ronzz_nextcloud.Prelude.{
  Bool, Option, String, false, if◌then◌else◌, none, not, some, str_eq, true, ℕ, ◌&&◌, ◌||◌,
}
use ronzz_nextcloud.Prelude.Dict.{Dict, get, put, remove}
use ronzz_nextcloud.Prelude.Decimal.{decimal}
use ronzz_nextcloud.Domain.{is_space, lower, lstrip, rstrip, strip}
use ronzz_nextcloud.Errors.{Result}
use ronzz_nextcloud.Config.{MailwatchConfig}
use ronzz_nextcloud.Config.Toml.{Failure, Loaded, Python, attribute, failed, loaded, overflow}
use ronzz_nextcloud.Config.Daemon.{ConfigFile, load_config}
use Prim.Native.String.{◌++◌ as cat}

-- The entries of the system keyring by account, under the prefix of mailwatch, and whether its
-- backend answers.
pub record Keyring : Type 0 where
  pub passwords : Dict String
  pub available : Bool

-- get_password, set_password and delete_password of keyring.py: any exception is a failure.
unfoldable pub get_password : Keyring → String → Option String
unfolding get
get_password k email = if k.available then get k.passwords email else none

unfoldable pub set_password : Keyring → String → String → Bool × Keyring
unfolding put
set_password k email password =
    if k.available
    then (true, record k { passwords = put k.passwords email password })
    else (false, k)

unfoldable pub delete_password : Keyring → String → Bool × Keyring
unfolding get remove
delete_password k email =
    if k.available && has_entry (get k.passwords email)
    then (true, record k { passwords = remove k.passwords email })
    else (false, k)
  where
    has_entry : Option String → Bool
    has_entry none = false
    has_entry (some p) = true

-- `mailwatch password set`, with what getpass reads, and `mailwatch password check`.
pub data PasswordAction : Type 0 where
  set : String → PasswordAction
  check : PasswordAction

-- `if pw:`
abbrev pub is_given : Option String → Bool
is_given none = false
is_given (some p) = not (str_eq p "")

-- `args.email.lower().strip()`
unfoldable pub account_key : String → String
unfolding lower lstrip rstrip is_space
account_key email = strip is_space (lower email)

-- _cmd_password: the exit code and the keyring.
unfoldable pub cmd_password : PasswordAction → String → Keyring → ℕ × Keyring
unfolding account_key set_password get_password
cmd_password (set password) email k =
    let r = set_password k (account_key email) password in
    if str_eq password "" then (1, k) else (if r.0 then 0 else 1, r.1)
cmd_password check email k = (if is_given (get_password k (account_key email)) then 0 else 1, k)

-- The lock file: the process whose flock holds, and the text.
pub record LockFile : Type 0 where
  pub holder : Option ℕ
  pub content : String

-- SingleInstanceLock.acquire of a process: the file is truncated before the lock is tried.
abbrev pub try_lock : ℕ → Option ℕ → LockFile → Bool × LockFile
try_lock pid none f = (true, record { holder = some pid; content = cat (decimal pid) "\n" })
try_lock pid (some p) f = (false, record f { content = "" })

unfoldable pub acquire_instance : ℕ → LockFile → Bool × LockFile
unfolding decimal
acquire_instance pid f = try_lock pid f.holder f

-- SingleInstanceLock.release of the holder.
unfoldable pub release_instance : LockFile → LockFile
release_instance f = record f { holder = none }

pub record RunArgs : Type 0 where
  pub dry_run : Bool
  pub once : Bool
  pub debug : Bool

-- The options override the configuration.
unfoldable pub configured : RunArgs → MailwatchConfig → MailwatchConfig
configured args cfg = record cfg {
  daemon = record cfg.daemon {
    dry_run = args.dry_run || cfg.daemon.dry_run;
    log_level = if args.debug then "DEBUG" else cfg.daemon.log_level;
  };
}

-- How main ends: the daemon ran with a configuration and returned or raised, main returned an exit
-- code before, or an exception that main does not catch left it.
pub data Ending : Type 0 where
  ran : MailwatchConfig → Result ℕ → Ending
  exited : ℕ → Ending
  escaped : Failure → Ending

-- `daemon.run()` with the instance lock; a single pass takes none.
unfoldable pub run_locked :
    (MailwatchConfig → Result ℕ) → ℕ → Bool → MailwatchConfig → LockFile → Ending × LockFile
unfolding acquire_instance release_instance
run_locked daemon pid true cfg f = (ran cfg (daemon cfg), f)
run_locked daemon pid false cfg f =
    let r = acquire_instance pid f in
    if r.0 then (ran cfg (daemon cfg), release_instance r.1) else (exited 1, r.1)

-- `except ConfigError`
unfoldable pub config_error : Failure → Ending
config_error overflow = escaped overflow
config_error attribute = escaped attribute
config_error _ = exited 2

abbrev pub run_loaded :
    (MailwatchConfig → Result ℕ)
    → ℕ
    → RunArgs
    → Loaded MailwatchConfig
    → LockFile
    → Ending × LockFile
run_loaded daemon pid args (failed e) f = (config_error e, f)
run_loaded daemon pid args (loaded cfg) f = run_locked daemon pid args.once (configured args cfg) f

-- main, for the command `run`
unfoldable pub main :
    Python → ConfigFile → (MailwatchConfig → Result ℕ) → ℕ → RunArgs → LockFile → Ending × LockFile
unfolding run_locked config_error configured
main py file daemon pid args f = run_loaded daemon pid args (load_config py file) f
