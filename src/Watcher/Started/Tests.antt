-- ===== src/Watcher/Started/Tests.antt =====
-- Tests of the commands, and the theorem on main at a concrete document.
use ronzz_nextcloud.Prelude.{[], false, none, refl, true, ◌≡◌}
use ronzz_nextcloud.Errors.{ok}
use ronzz_nextcloud.Config.Toml.{Python, array, cons, empty, field, nil, table, text}
use ronzz_nextcloud.Config.Daemon.{ConfigFile, document}
use ronzz_nextcloud.Watcher.Commands.{
  Keyring, LockFile, RunArgs, cmd_password, get_password, main, set,
}
use ronzz_nextcloud.Watcher.Started.{StartsValid, StartsValid-main}

abbrev python : Python
python = record { int_of = λ s. none; float_of = λ s. none; shown = λ v. "" }

abbrev one_account : ConfigFile
one_account =
    document
      (field "accounts" (array (cons (table (field "email" (text "me@x.org") empty)) nil)) empty)

abbrev dry_args : RunArgs
dry_args = record { dry_run = true; once = false; debug = false }

abbrev free_lock : LockFile
free_lock = record { holder = none; content = "" }

StartsValid-main_example :
    StartsValid dry_args (main python one_account (λ cfg. ok 0) 42 dry_args free_lock).0
StartsValid-main_example = StartsValid-main python one_account (λ cfg. ok 0) 42 dry_args free_lock

abbrev no_passwords : Keyring
no_passwords = record { passwords = []; available = true }

-- The password of an address with a capital is stored, and not found by the daemon.
lost_password : get_password (cmd_password (set "pw") "Me@x.org" no_passwords).1 "Me@x.org" ≡ none
unfolding cmd_password get_password
lost_password = refl
