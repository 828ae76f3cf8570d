-- ===== src/Config/Load.antt =====
-- load_config of mailwatch/src/mailwatch/config.py, from the file to the records.
use ronzz_nextcloud.Prelude.{
  List, Option, String, [], false, if◌then◌else◌, leb, none, not, some, str_eq, true, ℕ, ◌&&◌, ◌+◌,
  ◌-◌, ◌∷◌,
}
use ronzz_nextcloud.Prelude.Decimal.{decimal}
use ronzz_nextcloud.Prelude.Int.{pos}
use ronzz_nextcloud.Domain.{has_at, is_space, nth, strip}
use ronzz_nextcloud.Config.{AccountConfig, RedirectConfig, RedirectTarget}
use ronzz_nextcloud.Config.Toml.{
  Fields, Loaded, Python, Value, Values, attribute, cons, email_invalid, email_required, empty,
  failed, field, get_value, invalid_account, is_falsy, loaded, nil, overflow, parse_bool, parse_int,
  require, table, table_or_empty, text_field, ◌>>=◌, ◌>>◌,
}
use Prim.Native.String.{◌++◌ as cat}
use Prim.Native.Char.{code}

-- The path of a key in a message.
abbrev pub at_key : String → String → String
at_key place key = cat place (cat "." key)

-- RedirectConfig()
abbrev pub no_redirect : RedirectConfig
no_redirect = record {
  enabled = false;
  source_folder = "send-to-hesk";
  after_move_folder = "";
  target = none;
}

-- `s.upper()`, of ASCII letters
abbrev pub capitals : String
capitals = "ABCDEFGHIJKLMNOPQRSTUVWXYZ"

unfoldable pub upper : String → String
unfolding nth
upper String.[] = ""
upper (String.◌∷◌ c s) =
    String.◌∷◌ (if leb 97 (code c) && leb (code c) 122 then nth capitals (code c - 97) c else c)
      (upper s)

-- `str(raw.get("email", "")).strip()`, which must not be empty and must have an `@`.
unfoldable pub parse_email : Python → Fields → String → Loaded String
parse_email py raw place = do
  let email = strip is_space (text_field py raw "email" "")
  require (not (str_eq email "")) (email_required place)
  require (has_at email) (email_invalid place email)
  loaded email

-- _parse_redirect_target of a table that is not empty
unfoldable pub parse_target : Python → Fields → String → Loaded RedirectTarget
parse_target py raw account = do
  let place = cat "accounts[" (cat account "].redirect.target")
  email ← parse_email py raw place
  port ← parse_int py (get_value raw "imap_port") (at_key place "imap_port") (pos 993)
  ssl ← parse_bool (get_value raw "imap_use_ssl") (at_key place "imap_use_ssl") true
  loaded (record {
    email = email;
    imap_host = text_field py raw "imap_host" "imap.migadu.com";
    imap_port = port;
    imap_use_ssl = ssl;
    username = text_field py raw "username" "";
    destination_folder = text_field py raw "destination_folder" "INBOX";
    after_move_folder = text_field py raw "after_move_folder" "";
  })

-- _parse_redirect_target: no target in an empty table.
unfoldable pub parse_redirect_target : Python → Fields → String → Loaded (Option RedirectTarget)
parse_redirect_target py empty account = loaded none
parse_redirect_target py (field k v fs) account = do
  target ← parse_target py (field k v fs) account
  loaded (some target)

-- _parse_redirect of a table that is not empty
unfoldable pub parse_redirect_table : Python → Fields → String → Loaded RedirectConfig
parse_redirect_table py raw account = do
  target_raw ← table_or_empty (get_value raw "target")
  target ← parse_redirect_target py target_raw account
  enabled ←
      parse_bool (get_value raw "enabled") (cat "accounts[" (cat account "].redirect.enabled"))
        false
  loaded (record {
    enabled = enabled;
    source_folder = text_field py raw "source_folder" "send-to-hesk";
    after_move_folder = text_field py raw "after_move_folder" "";
    target = target;
  })

-- _parse_redirect
unfoldable pub parse_redirect : Python → Option Value → String → Loaded RedirectConfig
parse_redirect py none account = loaded no_redirect
parse_redirect py (some (table empty)) account = loaded no_redirect
parse_redirect py (some (table (field k v fs))) account =
    parse_redirect_table py (field k v fs) account
parse_redirect py (some v) account = if is_falsy v then loaded no_redirect else failed attribute

-- `except ConfigError: raise`, and any other exception is an invalid account.
abbrev pub as_invalid : {A : Type 0} → ℕ → Loaded A → Loaded A
as_invalid index (failed overflow) = failed (invalid_account index)
as_invalid index (failed attribute) = failed (invalid_account index)
as_invalid index m = m

abbrev pub account_place : ℕ → String
unfolding decimal
account_place index = cat "accounts[" (cat (decimal index) "]")

-- The fields of an account behind its address.
unfoldable pub parse_fields : Python → Fields → ℕ → String → Loaded AccountConfig
parse_fields py raw index email = do
  let place = account_place index
  port ← parse_int py (get_value raw "imap_port") (at_key place "imap_port") (pos 993)
  ssl ← parse_bool (get_value raw "imap_use_ssl") (at_key place "imap_use_ssl") true
  sieve_port ← parse_int py (get_value raw "sieve_port") (at_key place "sieve_port") (pos 4190)
  sieve_tls ← parse_bool (get_value raw "sieve_use_tls") (at_key place "sieve_use_tls") true
  redirect ← parse_redirect py (get_value raw "redirect") email
  loaded (record {
    email = email;
    imap_host = text_field py raw "imap_host" "imap.migadu.com";
    imap_port = port;
    imap_use_ssl = ssl;
    username = text_field py raw "username" "";
    junk_folder = text_field py raw "junk_folder" "";
    sieve_host = text_field py raw "sieve_host" "";
    sieve_port = sieve_port;
    sieve_use_tls = sieve_tls;
    redirect = redirect;
  })

-- _parse_account: a value that is no table has no `get`, which is not caught.
unfoldable pub parse_account : Python → Value → ℕ → Loaded AccountConfig
parse_account py (table raw) index = do
  email ← parse_email py raw (account_place index)
  as_invalid index (parse_fields py raw index email)
parse_account py v index = failed attribute

-- `[_parse_account(a, i) for i, a in enumerate(accounts_raw)]`
unfoldable pub parse_accounts : Python → Values → ℕ → Loaded (List AccountConfig)
parse_accounts py nil index = loaded []
parse_accounts py (cons v vs) index = do
  account ← parse_account py v index
  rest ← parse_accounts py vs (index + 1)
  loaded (account ∷ rest)
