-- ===== src/Redirector/Pass.antt =====
-- The rule for a whole pass of redirector.py: what its search and its loop keep, it keeps.
use mathlib.Core.Path.{subst}
use ronzz_nextcloud.Prelude.{
  Bool, List, Option, String, [], false, if◌then◌else◌, none, some, sym, true, ℕ, ◌≡◌,
}
use ronzz_nextcloud.Errors.{Exn, Result, is_connection_error, raised}
use ronzz_nextcloud.Errors.Runs.{
  Keeps, Post, Runs-bind, Runs-finally, Runs-if, Runs-post, Runs-pure, Runs-try,
}
use ronzz_nextcloud.World.{Env, World, record_event, searched, selected, source, target}
use ronzz_nextcloud.Config.{AccountConfig, RedirectTarget}
use ronzz_nextcloud.Imap.Rules.{
  IgnoresSessions, connect-Keeps, disconnect-keeps, get_password-Runs, search-Keeps,
  select_folder_ex-Keeps,
}
use ronzz_nextcloud.Redirector.{
  disconnect_both, list_source_uids, on_connect_error, redirect_account, redirect_to, redirect_uids,
  redirect_with,
}

module _ (env : Env) (account : AccountConfig) (dry_run : Bool) {P : World → Type 0}
    (s : IgnoresSessions P) where
  pub disconnect_both-keeps : (w : World) → P w → P (disconnect_both env account dry_run w)
  unfolding disconnect_both
  disconnect_both-keeps w h = disconnect-keeps s env target _ (disconnect-keeps s env source w h)

  pub list_source_uids-Keeps :
      ((w : World) (r : Result Bool)
        → P w
        → P (record_event (selected source account.redirect.source_folder true r) w))
      → ((w : World) (r : Result (Option (List ℕ)))
          → P w
          → P (record_event (searched source "ALL" r) w))
      → Keeps P (list_source_uids env account dry_run)
  unfolding list_source_uids
  list_source_uids-Keeps f g = Runs-bind _ _ (select_folder_ex-Keeps env source _ true f) λ found.
      Runs-if found _ _
        (λ e. Runs-try _ _ (search-Keeps env source "ALL" g) (λ e. Runs-pure [] (λ w h. h)))
        (λ e. Runs-pure [] (λ w h. h))

  on_connect_error-Keeps : (e : Exn) → Keeps P (on_connect_error env account dry_run e)
  unfolding on_connect_error
  on_connect_error-Keeps e = record { at = λ w h. goes_on w h (is_connection_error e) }
    where
      goes_on :
          (w : World)
          → P w
          → (b : Bool)
          → let r : Result (Unit {0}) × World =
              if b then (raised e, disconnect_both env account dry_run w) else (raised e, w) in
            Post (λ a. P) (λ e. P) r.0 r.1
      goes_on w h true = disconnect_both-keeps w h
      goes_on w h false = h

  -- The whole pass keeps what its search and its loop keep.
  pub redirect_account-Keeps :
      (t : RedirectTarget)
      → account.redirect.target ≡ some t
      → Keeps P (list_source_uids env account dry_run)
      → ((uids : List ℕ) → Keeps P (redirect_uids env account dry_run t uids 0))
      → Keeps P (redirect_account env account dry_run)
  unfolding redirect_account redirect_to redirect_with
  redirect_account-Keeps t e lists loops =
      Runs-if account.redirect.enabled _ _
        (λ h. subst (λ o. Keeps P (redirect_to env account dry_run o)) (sym e) started)
        (λ h. Runs-pure 0 (λ w h. h))
    where
      runs :
          (src_pw dst_pw : Option String)
          → Keeps P (redirect_with env account dry_run t src_pw dst_pw)
      runs none dst_pw = Runs-pure 0 (λ w h. h)
      runs (some a) none = Runs-pure 0 (λ w h. h)
      runs (some a) (some b) =
          Runs-bind _ _
            (Runs-try _ _
              (Runs-bind _ _ (connect-Keeps s env source _ a) (λ u. connect-Keeps s env target _ b))
              on_connect_error-Keeps)
            λ u. Runs-finally _ _ (
              Runs-post _ (Runs-bind _ _ lists loops) (λ n w h. disconnect_both-keeps w h)
                (λ e w h. disconnect_both-keeps w h))

      started : Keeps P (redirect_to env account dry_run (some t))
      started =
          Runs-bind _ _ (get_password-Runs env account.email (λ w h. h))
            λ a. Runs-bind _ _ (get_password-Runs env t.email (λ w h. h)) (λ b. runs a b)
