-- ===== src/Redirector/Tests.antt =====
-- The theorems on redirector.py at a concrete pass.
use ronzz_nextcloud.Prelude.{[], false, refl, true, ◌≡◌}
use ronzz_nextcloud.Errors.{ok, try_except, try_finally, ◌>>=◌}
use ronzz_nextcloud.World.{emit, get_password}
use ronzz_nextcloud.World.Writes.{written}
use ronzz_nextcloud.Imap.{
  append_message, call, connect, expunge, fetch_raw, login, open_conn, search, select_folder,
  select_folder_ex, set_deleted_flag, store_deleted,
}
use ronzz_nextcloud.Samples.{sample_account, sample_env, sample_target, sample_world}
use ronzz_nextcloud.Redirector.{
  after_append, expunge_source, list_source_uids, redirect_account, redirect_fetched, redirect_to,
  redirect_uids, redirect_with, remove_source,
}
use ronzz_nextcloud.Redirector.DryRun.{dry_run_only_reads}

-- The message is redirected.
one_redirected : (redirect_account sample_env sample_account false sample_world).0 ≡ ok 1
unfolding redirect_account redirect_to redirect_with redirect_uids redirect_fetched after_append
    remove_source expunge_source list_source_uids ◌>>=◌ try_except try_finally get_password connect
    open_conn login call search select_folder_ex select_folder fetch_raw append_message
    set_deleted_flag store_deleted expunge emit
one_redirected = refl

dry_run_only_reads_example :
    written (redirect_account sample_env sample_account true sample_world).1.history ≡ []
dry_run_only_reads_example =
    dry_run_only_reads sample_env sample_account sample_target sample_world refl
