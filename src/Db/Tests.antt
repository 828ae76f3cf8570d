-- ===== src/Db/Tests.antt =====
-- Tests of the database wrapper, and its theorems at concrete inputs.
use ronzz_nextcloud.Prelude.{false, none, refl, ℕ, ◌+◌, ◌≡◌, some, true}
use ronzz_nextcloud.Errors.{Exec, ok, os_error, other_error, raised}
use ronzz_nextcloud.Db.{Db, broken, done, ended, execute, failed, opened, rolled_back, transaction}
use ronzz_nextcloud.Db.Atomic.{Outcome, transaction_lem}

abbrev counter : Db ℕ
counter = record { committed = 4; pending = none; write_locked = false }

abbrev add_and_fail : Exec ℕ ℕ
add_and_fail n = (raised os_error, n + 1)

undone :
    transaction (record { begin = ok tt; end = ended }) add_and_fail counter
    ≡ (raised os_error, counter)
unfolding transaction
undone = refl

-- A full disk: SQLite has rolled back, and ROLLBACK raises.
full_disk :
    (transaction
      (record { begin = ok tt; end = failed other_error rolled_back })
      add_and_fail
      counter).1
    ≡ counter
unfolding transaction
full_disk = refl

-- An INSERT that raises leaves a transaction open; the next one cannot begin, and keeps the lock.
abbrev after_insert : Db ℕ
unfolding execute
after_insert = (execute (broken os_error opened) done ended (some (λ n. n + 1)) counter).1

stuck :
    (transaction (record { begin = ok tt; end = ended }) add_and_fail after_insert).1.write_locked
    ≡ true
unfolding transaction after_insert
stuck = refl

transaction_lem_example :
    Outcome add_and_fail
      (ok tt)
      (raised os_error)
      ended
      counter
      (transaction (record { begin = ok tt; end = ended }) add_and_fail counter)
transaction_lem_example =
    transaction_lem add_and_fail (record { begin = ok tt; end = ended }) counter
