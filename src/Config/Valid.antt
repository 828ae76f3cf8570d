-- ===== src/Config/Valid.antt =====
-- What a configuration that was loaded keeps to.
use ronzz_nextcloud.Config.Daemon.{
  ConfigFile, account_values, all_different, broken, check_daemon, document, load_config,
  load_document, lower_emails, missing,
}
use ronzz_nextcloud.Config.{DaemonConfig}
use ronzz_nextcloud.Prelude.Int.{pos, ◌≤ℤ◌, leb_ℤ, ltb_ℤ}
use ronzz_nextcloud.Prelude.{
  Bool, Option, String, false, none, refl, some, true, ◌≡◌, ◌≢◌, All, arith, eq_iff, not, str_eq, ℕ,
  ◌+◌, [], if◌then◌else◌, ◌&&◌, List, any, ◌∷◌,
}
use ronzz_nextcloud.Domain.{has_at, is_space, strip}
use ronzz_nextcloud.Config.{RedirectTarget, AccountConfig, RedirectConfig, MailwatchConfig}
use ronzz_nextcloud.Config.Ensures.{
  Ensures, Ensures-any, Ensures-at, Ensures-bind, Ensures-map, Ensures-require, failure, value,
}
use ronzz_nextcloud.Config.Toml.{
  Fields, Loaded, Python, failed, loaded, Value, Values, cons, empty, field, get_value, nil, table,
  text_field, accounts_not_a_list, array, attribute, is_falsy, no_accounts, overflow,
}
use ronzz_nextcloud.Config.Load.{
  parse_email, parse_target, as_invalid, parse_account, parse_accounts, parse_fields,
  parse_redirect, parse_redirect_table, parse_redirect_target, no_redirect,
}

abbrev pub IsAddress : String → Type 0
IsAddress email = (email ≢ "") × (has_at email ≡ true)

filled : (s : String) → not (str_eq s "") ≡ true → s ≢ ""
filled s h = ground (arith, eq_iff s "")

parse_email-IsAddress :
    (py : Python) (raw : Fields) (place : String) → Ensures IsAddress (parse_email py raw place)
unfolding parse_email
parse_email-IsAddress py raw place =
    let email = strip is_space (text_field py raw "email" "") in
    Ensures-bind _ _ (Ensures-require _ _)
      λ u given. Ensures-bind _ _ (Ensures-require _ _) λ v at. value (filled email given, at)

-- A redirect goes to an address, if it has a target.
abbrev pub HasTarget : Option RedirectTarget → Type 0
HasTarget none = Unit
HasTarget (some t) = IsAddress t.email

parse_target-HasTarget :
    (py : Python) (raw : Fields) (account : String)
    → Ensures (λ t. IsAddress t.email) (parse_target py raw account)
unfolding parse_target
parse_target-HasTarget py raw account =
    Ensures-bind _ _ (parse_email-IsAddress py raw _)
      λ email a. Ensures-any _ _ λ port. Ensures-any _ _ λ ssl. value a

parse_redirect_target-HasTarget :
    (py : Python) (raw : Fields) (account : String)
    → Ensures HasTarget (parse_redirect_target py raw account)
unfolding parse_redirect_target
parse_redirect_target-HasTarget py empty account = value tt
parse_redirect_target-HasTarget py (field k v fs) account =
    Ensures-bind _ _ (parse_target-HasTarget py (field k v fs) account) λ t a. value a

-- Where the redirector has a target, it is an address.
abbrev pub IsRedirect : RedirectConfig → Type 0
IsRedirect r = HasTarget r.target

parse_redirect_table-IsRedirect :
    (py : Python) (raw : Fields) (account : String)
    → Ensures IsRedirect (parse_redirect_table py raw account)
unfolding parse_redirect_table
parse_redirect_table-IsRedirect py raw account = Ensures-any _ _ λ target_raw.
    Ensures-bind _ _ (parse_redirect_target-HasTarget py target_raw account)
      λ t a. Ensures-any _ _ λ enabled. value a

absent : (b : Bool) → Ensures IsRedirect (if b then loaded no_redirect else failed attribute)
absent true = value tt
absent false = failure

parse_redirect-IsRedirect :
    (py : Python) (v : Option Value) (account : String)
    → Ensures IsRedirect (parse_redirect py v account)
unfolding parse_redirect
parse_redirect-IsRedirect py none account = value tt
parse_redirect-IsRedirect py (some (table empty)) account = value tt
parse_redirect-IsRedirect py (some (table (field k v fs))) account =
    parse_redirect_table-IsRedirect py (field k v fs) account
parse_redirect-IsRedirect py (some v) account = absent (is_falsy v)

-- The address of an account and the target of its redirect are addresses.
pub record IsAccount (a : AccountConfig) : Type 0 where
  pub address : IsAddress a.email
  pub redirects : IsRedirect a.redirect

as_invalid-Ensures {κ} :
    {A : Type 0} {P : A → Type κ} (index : ℕ) (m : Loaded A)
    → Ensures P m
    → Ensures P (as_invalid index m)
as_invalid-Ensures index (loaded a) (value p) = value p
as_invalid-Ensures index (failed overflow) q = failure
as_invalid-Ensures index (failed attribute) q = failure
as_invalid-Ensures index (failed _) q = failure

parse_fields-IsAccount :
    (py : Python) (raw : Fields) (index : ℕ) (email : String)
    → IsAddress email
    → Ensures IsAccount (parse_fields py raw index email)
unfolding parse_fields
parse_fields-IsAccount py raw index email a = Ensures-any _ _ λ port. Ensures-any _ _ λ ssl.
    Ensures-any _ _ λ sieve_port. Ensures-any _ _ λ sieve_tls.
      Ensures-bind _ _ (parse_redirect-IsRedirect py (get_value raw "redirect") email)
        λ r h. value (record { address = a; redirects = h })

parse_account-IsAccount :
    (py : Python) (v : Value) (index : ℕ) → Ensures IsAccount (parse_account py v index)
unfolding parse_account
parse_account-IsAccount py (table raw) index =
    Ensures-bind _ _ (parse_email-IsAddress py raw _)
      λ email a. as_invalid-Ensures index _ (parse_fields-IsAccount py raw index email a)
parse_account-IsAccount py _ index = failure

parse_accounts-IsAccount :
    (py : Python) (vs : Values) (index : ℕ) → Ensures (All IsAccount) (parse_accounts py vs index)
unfolding parse_accounts
parse_accounts-IsAccount py nil index = value tt
parse_accounts-IsAccount py (cons v vs) index =
    Ensures-bind _ _ (parse_account-IsAccount py v index)
      λ a h. Ensures-bind _ _ (parse_accounts-IsAccount py vs (index + 1)) λ rest hs. value (h, hs)

rejected :
    (b : Bool)
    → Ensures (λ vs. vs ≢ nil) (if b then failed no_accounts else failed accounts_not_a_list)
rejected true = failure
rejected false = failure

account_values_lem : (v : Option Value) → Ensures (λ vs. vs ≢ nil) (account_values v)
unfolding account_values
account_values_lem none = failure
account_values_lem (some (array nil)) = failure
account_values_lem (some (array (cons v vs))) = value (λ e. cc)
account_values_lem (some v) = rejected (is_falsy v)

-- What the checks of the daemon's part ensure.
pub record IsDaemon (d : DaemonConfig) : Type 0 where
  pub positive : pos 1 ≤ℤ d.spam_threshold
  pub at_most_one : d.spam_threshold ≤ℤ pos 10000
  pub base : pos 1 ≤ℤ d.connection.base_delay_seconds
  pub ordered : d.connection.base_delay_seconds ≤ℤ d.connection.max_delay_seconds

abbrev pub AreDistinct : List String → Type 0
AreDistinct [] = Unit
AreDistinct (e ∷ emails) = All (λ x. x ≢ e) emails × AreDistinct emails

All-ne :
    (e : String) (emails : List String)
    → any (λ x. str_eq x e) emails ≡ false
    → All (λ x. x ≢ e) emails
All-ne e [] h = tt
All-ne e (x ∷ emails) h = (ground (arith, eq_iff x e), All-ne e emails (ground arith))

all_different-AreDistinct :
    (emails : List String) → all_different emails ≡ true → AreDistinct emails
unfolding all_different
all_different-AreDistinct [] h = tt
all_different-AreDistinct (e ∷ emails) h =
    (All-ne e emails (ground arith), all_different-AreDistinct emails (ground arith))

pub record IsWellFormed (c : MailwatchConfig) : Type 0 where
  pub daemon_valid : IsDaemon c.daemon
  pub some_account : c.accounts ≢ []
  pub addresses : All IsAccount c.accounts
  pub different : AreDistinct (lower_emails c.accounts)

IsDaemon-tests :
    (d : DaemonConfig)
    → (ltb_ℤ (pos 0) d.spam_threshold && leb_ℤ d.spam_threshold (pos 10000)) ≡ true
    → ltb_ℤ (pos 0) d.connection.base_delay_seconds ≡ true
    → leb_ℤ d.connection.base_delay_seconds d.connection.max_delay_seconds ≡ true
    → IsDaemon d
IsDaemon-tests d t b m = record {
  positive = ground arith;
  at_most_one = ground arith;
  base = ground arith;
  ordered = ground arith;
}

check_daemon-IsDaemon : (d : DaemonConfig) → Ensures (λ u. IsDaemon d) (check_daemon d)
unfolding check_daemon
check_daemon-IsDaemon d = Ensures-bind _ _ (Ensures-require _ _) λ u t.
    Ensures-bind _ _ (Ensures-require _ _)
      λ v b. Ensures-map _ (λ w m. IsDaemon-tests d t b m) (Ensures-require _ _)

parse_accounts_some :
    (py : Python) (vs : Values) (index : ℕ)
    → vs ≢ nil
    → Ensures (λ accounts. All IsAccount accounts × (accounts ≢ [])) (parse_accounts py vs index)
unfolding parse_accounts
parse_accounts_some py nil index h = absurd (h refl)
parse_accounts_some py (cons v vs) index h =
    Ensures-bind _ _ (parse_account-IsAccount py v index) λ a k.
      Ensures-bind _ _ (parse_accounts-IsAccount py vs (index + 1))
        λ rest ks. value ((k, ks), λ e. cc)

load_document-IsWellFormed :
    (py : Python) (raw : Fields) → Ensures IsWellFormed (load_document py raw)
unfolding load_document
load_document-IsWellFormed py raw = Ensures-any _ _ λ daemon_raw. Ensures-any _ _ λ daemon.
    Ensures-bind _ _ (check_daemon-IsDaemon daemon) λ u d.
      Ensures-bind _ _ (account_values_lem (get_value raw "accounts")) λ vs given.
        Ensures-bind _ _ (parse_accounts_some py vs 0 given) λ accounts ok.
          Ensures-bind _ _ (Ensures-require _ _) λ w e. value (record {
            daemon_valid = d;
            addresses = ok.0;
            some_account = ok.1;
            different = all_different-AreDistinct (lower_emails accounts) e;
          })

-- A configuration that load_config returns has a spam threshold above 0 and at most 1, a base
-- delay above 0 and at most the largest delay, at least one account, for each account and each
-- target of a redirect an address with an `@`, and no two accounts whose addresses differ in
-- letter case at most.
pub load_config-IsWellFormed :
    (py : Python) (file : ConfigFile) (c : MailwatchConfig)
    → load_config py file ≡ loaded c
    → IsWellFormed c
unfolding load_config
load_config-IsWellFormed py missing c e = cc
load_config-IsWellFormed py broken c e = cc
load_config-IsWellFormed py (document raw) c e =
    Ensures-at (load_document py raw) (load_document-IsWellFormed py raw) e
