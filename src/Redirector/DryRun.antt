-- ===== src/Redirector/DryRun.antt =====
-- In a dry run redirector.py only reads.
use ronzz_nextcloud.Prelude.{List, Option, String, [], none, refl, some, true, ℕ, ◌+◌, ◌∷◌, ◌≡◌}
use ronzz_nextcloud.Errors.Runs.{Keeps, Runs-at, Runs-bind, Runs-pure}
use ronzz_nextcloud.World.Writes.{written}
use ronzz_nextcloud.World.{Env, History, World, source}
use ronzz_nextcloud.Config.{AccountConfig, RedirectTarget}
use ronzz_nextcloud.Imap.Rules.{IgnoresSessions, emit-Runs, fetch_raw-Keeps}
use ronzz_nextcloud.Redirector.{redirect_account, redirect_fetched, redirect_uids}
use ronzz_nextcloud.Redirector.Pass.{list_source_uids-Keeps, redirect_account-Keeps}

module _ (env : Env) (account : AccountConfig) (t : RedirectTarget) (h : History) where
  abbrev Unwritten : World → Type 0
  Unwritten w = written w.history ≡ written h

  Unwritten-ignores : IgnoresSessions Unwritten
  Unwritten-ignores = record {
    connects = λ w p b e. e;
    opens = λ w p r e. e;
    logs_in = λ w p u r e. e;
    logs_out = λ w p e. e;
  }

  dry_fetched-Keeps :
      (uid : ℕ) (raw : Option String)
      → Keeps Unwritten (redirect_fetched env account true t uid raw)
  unfolding redirect_fetched
  dry_fetched-Keeps uid none = Runs-pure 0 (λ w e. e)
  dry_fetched-Keeps uid (some raw) =
      Runs-bind _ _ (emit-Runs _ (λ w e. e)) (λ u. Runs-pure 0 (λ w e. e))

  dry_uids-Keeps :
      (uids : List ℕ) (n : ℕ) → Keeps Unwritten (redirect_uids env account true t uids n)
  unfolding redirect_uids
  dry_uids-Keeps [] n = Runs-pure n (λ w e. e)
  dry_uids-Keeps (uid ∷ uids) n =
      Runs-bind _ _ (fetch_raw-Keeps env source uid _ (λ w r e. e) (λ w r e. e))
        λ raw. Runs-bind _ _ (dry_fetched-Keeps uid raw) (λ k. dry_uids-Keeps uids (n + k))

-- A dry run sends no command that changes a mailbox or a script, whatever the servers answer.
pub dry_run_only_reads :
    (env : Env) (account : AccountConfig) (t : RedirectTarget) (w : World)
    → account.redirect.target ≡ some t
    → written (redirect_account env account true w).1.history ≡ written w.history
dry_run_only_reads env account t w e =
    Runs-at (redirect_account env account true)
      (redirect_account-Keeps env account true (Unwritten-ignores env account t w.history) t e
        (list_source_uids-Keeps env account true (Unwritten-ignores env account t w.history)
          (λ w r e. e) (λ w r e. e))
        (λ uids. dry_uids-Keeps env account t w.history uids 0))
      w refl
