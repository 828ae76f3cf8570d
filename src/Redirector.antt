-- ===== src/Redirector.antt =====
-- mailwatch/src/mailwatch/redirector.py: Redirector.
pub mod Pass
pub mod Trace
pub mod DryRun
mod Tests
use ronzz_nextcloud.Prelude.{
  Bool, List, Option, String, [], false, if◌then◌else◌, none, some, str_eq, true, ℕ, ◌+◌, ◌∷◌,
}
use ronzz_nextcloud.Errors.{
  Exec, Exn, is_connection_error, ok, pure, raised, try_except, try_finally, ◌>>=◌, ◌>>◌,
}
use ronzz_nextcloud.World.{Env, World, appended, emit, get_password, redirect_event, source, target}
use ronzz_nextcloud.Config.{AccountConfig, RedirectTarget, RedirectConfig}
use ronzz_nextcloud.Imap.{
  append_message, connect, disconnect, expunge, fetch_raw, move_message, search, select_folder_ex,
  set_deleted_flag,
}

-- `target.imap_username`
abbrev pub target_username : RedirectTarget → String
target_username t = if str_eq t.username "" then t.email else t.username

abbrev pub account_username : AccountConfig → String
account_username a = if str_eq a.username "" then a.email else a.username

module _ (env : Env) (account : AccountConfig) (dry_run : Bool) where
  -- any exception of the search is an empty list
  unfoldable pub list_source_uids : Exec World (List ℕ)
  list_source_uids = do
    found ← select_folder_ex env source account.redirect.source_folder true
    if found then try_except (search env source "ALL") (λ e. pure []) else pure []

  -- `try: client.conn.expunge()`, where an exception is a failure
  unfoldable pub expunge_source : Exec World Bool
  expunge_source = try_except (do expunge env source; pure true) (λ e. pure false)

  unfoldable pub remove_source : ℕ → Exec World Bool
  remove_source uid =
      if str_eq account.redirect.after_move_folder ""
      then (do
        flagged ← set_deleted_flag env source uid account.redirect.source_folder
        if flagged then expunge_source else pure false)
      else move_message env source uid account.redirect.source_folder
          account.redirect.after_move_folder

  abbrev audit_redirect : ℕ → String → Bool → Exec World (Unit {0})
  audit_redirect uid detail done = emit (redirect_event account.email uid detail done)

  -- The rest of the loop's body after the APPEND.
  unfoldable pub after_append : ℕ → Bool → Exec World ℕ
  after_append uid false = do audit_redirect uid "append_failed" false; pure 0
  after_append uid true = do remove_source uid; audit_redirect uid "ok" true; pure 1

  -- The loop's body after the fetch: 1 if the message was redirected.
  unfoldable pub redirect_fetched : RedirectTarget → ℕ → Option String → Exec World ℕ
  redirect_fetched t uid none = pure 0
  redirect_fetched t uid (some raw) =
      if dry_run
      then (do audit_redirect uid "dry-run" false; pure 0)
      else (do done ← append_message env target t.destination_folder raw; after_append uid done)

  unfoldable pub redirect_uids : RedirectTarget → List ℕ → ℕ → Exec World ℕ
  redirect_uids t [] ok_count = pure ok_count
  redirect_uids t (uid ∷ uids) ok_count = do
    raw ← fetch_raw env source uid account.redirect.source_folder
    n ← redirect_fetched t uid raw
    redirect_uids t uids (ok_count + n)

  unfoldable pub disconnect_both : World → World
  disconnect_both w = disconnect env target (disconnect env source w)

  -- `except IMAPConnectionError`: both clients are disconnected, and the exception goes on.
  unfoldable pub on_connect_error : Exn → Exec World (Unit {0})
  on_connect_error e w =
      if is_connection_error e then (raised e, disconnect_both w) else (raised e, w)

  unfoldable pub redirect_with : RedirectTarget → Option String → Option String → Exec World ℕ
  redirect_with t none dst_pw = pure 0
  redirect_with t (some src_pw) none = pure 0
  redirect_with t (some src_pw) (some dst_pw) = do
    try_except
        (do
          connect env source (account_username account) src_pw
          connect env target (target_username t) dst_pw)
        on_connect_error
    try_finally (do uids ← list_source_uids; redirect_uids t uids 0) disconnect_both

  unfoldable pub redirect_to : Option RedirectTarget → Exec World ℕ
  redirect_to none = pure 0
  redirect_to (some t) = do
    src_pw ← get_password env account.email
    dst_pw ← get_password env t.email
    redirect_with t src_pw dst_pw

  unfoldable pub redirect_account : Exec World ℕ
  redirect_account =
      if account.redirect.enabled then redirect_to account.redirect.target else pure 0
