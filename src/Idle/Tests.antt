-- ===== src/Idle/Tests.antt =====
-- The theorems on idle.py at concrete rounds.
use ronzz_nextcloud.Prelude.{All, List, [], arith, false, length, none, refl, true, ◌∷◌, ◌≡◌, ◌≤◌}
use ronzz_nextcloud.Idle.{
  Attempt, Round, Thread, auth_failed, exists, failed, listen, notified, notify, pushed, refused,
  retry_delay, run, run_idle_loop, watch, watching,
}
use ronzz_nextcloud.Idle.Manager.{
  restarts, Key, Manager, perform_all, restart_for_account, start_for_account, starts, stop_all,
  stop_for_account, thread_of, with_thread, without_thread,
}
use ronzz_nextcloud.Idle.Manager.Lost.{stop_all_lem}
use ronzz_nextcloud.Idle.Rounds.{
  IsDelay, delays-run, failures, gives_up, idle_less, never_gives_up, one_if, refusals,
  refusals-run,
}

abbrev fresh : Thread
fresh = record { stopped = false; reconnect_count = 0; connected = false }

abbrev free_round : Attempt → Round
free_round a = record { attempt = a; stop_before = false; stop_within = false }

-- Two failures, a session in which a message arrives, and a refusal.
abbrev some_rounds : List Round
some_rounds =
    free_round failed
    ∷ free_round failed
    ∷ free_round (
        watching (
          record {
            stop = false;
            entered = true;
            turns = record { stop = false; elapsed = 10; poll = pushed "* 3 EXISTS" } ∷ [];
            leftover = none;
          }
          ∷ []))
    ∷ free_round refused
    ∷ []

notified_then_refused : (run some_rounds fresh).calls ≡ notified exists ∷ auth_failed ∷ []
unfolding run run_idle_loop watch listen notify
notified_then_refused = refl

waits_start_again : (run some_rounds fresh).delays ≡ 30 ∷ 60 ∷ 30 ∷ []
unfolding run run_idle_loop watch listen notify retry_delay
waits_start_again = refl

delays-run_example : All IsDelay (run some_rounds fresh).delays
delays-run_example = delays-run some_rounds fresh

refusals-run_example :
    refusals (run some_rounds fresh).calls ≤ one_if (run some_rounds fresh).thread.stopped
refusals-run_example = refusals-run some_rounds fresh

gives_up_example : length (run (failures 20) fresh).unused ≡ 9
gives_up_example = (gives_up 20 fresh refl (omega arith)).0

never_gives_up_example : length (run (idle_less 20) fresh).delays ≡ 20
never_gives_up_example = (never_gives_up 20 fresh refl).1

abbrev no_threads : Manager
no_threads = record { threads = []; alive = λ i. false; created = 0 }

abbrev inbox_key : Key
inbox_key = ("me@x.org", "INBOX")

stop_all_lem_example :
    (stop_all
        (λ i. true)
        (perform_all
          (λ i. true)
          (starts inbox_key ∷ starts inbox_key ∷ restarts inbox_key ∷ [])
          no_threads)).alive
      1
    ≡ false
stop_all_lem_example =
    stop_all_lem (λ i. true) (λ i. refl)
      (starts inbox_key ∷ starts inbox_key ∷ restarts inbox_key ∷ []) no_threads 1 (λ j. refl)

-- The second start finds the thread of the first, and the restart replaces it.
second_thread_runs :
    (perform_all
      (λ i. true)
      (starts inbox_key ∷ starts inbox_key ∷ restarts inbox_key ∷ [])
      no_threads).threads
    ≡ (inbox_key, 1) ∷ []
unfolding start_for_account stop_for_account restart_for_account thread_of with_thread
    without_thread
second_thread_runs = refl
