-- ===== src/Db/Atomic.antt =====
-- A transaction happens as a whole or not at all.
use ronzz_nextcloud.Prelude.{Option, false, none, refl, some, true, ◌≡◌, ap}
use ronzz_nextcloud.Errors.{Exec, Result, ok, other_error, raised, Exn}
use ronzz_nextcloud.Db.{
  Answers, Db, End, Left, as_before, begin_answer, ended, failed, opened, rolled_back, transaction,
  Attempt, after, broken, busy, done, execute, finish, retry, seen,
}

-- What is left of a transaction with the view `s` after an exception.
abbrev pub left_of {ℓ} : {S : Type ℓ} → Left → S → Option S
left_of as_before s = some s
left_of opened s = some s
left_of rolled_back s = none

module _ {S A : Type 0} (body : Exec S A) where
  -- What a transaction leaves, by what BEGIN, the body, and COMMIT or ROLLBACK gave: the answer, the
  -- tables, the open transaction, and the lock.
  abbrev pub Outcome : Result (Unit {0}) → Result A → End → Db S → Result A × Db S → Type 0
  Outcome (raised e) answer end d r =
      (r.0 ≡ raised e)
      × (r.1.committed ≡ d.committed)
      × (r.1.pending ≡ d.pending)
      × (r.1.write_locked ≡ true)
  Outcome (ok u) (ok a) ended d r =
      (r.0 ≡ ok a)
      × (r.1.committed ≡ (body d.committed).1)
      × (r.1.pending ≡ none)
      × (r.1.write_locked ≡ false)
  Outcome (ok u) (raised e) ended d r =
      (r.0 ≡ raised e)
      × (r.1.committed ≡ d.committed)
      × (r.1.pending ≡ none)
      × (r.1.write_locked ≡ false)
  Outcome (ok u) answer (failed e left) d r =
      (r.0 ≡ raised e)
      × (r.1.committed ≡ d.committed)
      × (r.1.pending ≡ left_of left (body d.committed).1)
      × (r.1.write_locked ≡ false)

  split_body :
      (end : End) (d : Db S) (answer : Result A)
      → (body d.committed).0 ≡ answer
      → d.pending ≡ none
      → Outcome (ok tt) answer end d (transaction (record { begin = ok tt; end = end }) body d)
  unfolding transaction
  split_body ended d (ok a) e h = rw (h, e) (refl, refl, refl, refl)
  split_body ended d (raised x) e h = rw (h, e) (refl, refl, refl, refl)
  split_body (failed y as_before) d (ok a) e h = rw (h, e) (refl, refl, refl, refl)
  split_body (failed y opened) d (ok a) e h = rw (h, e) (refl, refl, refl, refl)
  split_body (failed y rolled_back) d (ok a) e h = rw (h, e) (refl, refl, refl, refl)
  split_body (failed y as_before) d (raised x) e h = rw (h, e) (refl, refl, refl, refl)
  split_body (failed y opened) d (raised x) e h = rw (h, e) (refl, refl, refl, refl)
  split_body (failed y rolled_back) d (raised x) e h = rw (h, e) (refl, refl, refl, refl)

  not_begun :
      (e : Exn) (begin : Result (Unit {0})) (end : End) (d : Db S)
      → begin_answer begin d.pending ≡ raised e
      → Outcome
          (raised e)
          (body d.committed).0
          end
          d
          (transaction (record { begin = begin; end = end }) body d)
  unfolding transaction
  not_begun e begin end d h = rw h (refl, refl, refl, refl)

  -- A transaction whose BEGIN, body and COMMIT succeed returns the body's answer and commits what
  -- the body wrote; if the body raises, its exception goes on and nothing is committed; in both
  -- cases no transaction stays open and the write lock is free again. If COMMIT or ROLLBACK raises,
  -- that exception goes on, nothing is committed and the lock is free, and the transaction stays
  -- open or not as SQLite left it. If BEGIN raises, as it does if a transaction is already open,
  -- nothing changes but that the write lock stays held.
  pub transaction_lem :
      (answers : Answers) (d : Db S)
      → Outcome
          (begin_answer answers.begin d.pending)
          (body d.committed).0
          answers.end
          d
          (transaction answers body d)
  transaction_lem answers d = by_pending answers.begin answers.end d.pending refl
    where
      by_pending :
          (begin : Result (Unit {0})) (end : End) (pending : Option S)
          → d.pending ≡ pending
          → Outcome
              (begin_answer begin pending)
              (body d.committed).0
              end
              d
              (transaction (record { begin = begin; end = end }) body d)
      by_pending (ok u) end none h = split_body end d (body d.committed).0 refl h
      by_pending (raised e) end none h = not_begun e (raised e) end d (rw h refl)
      by_pending begin end (some s) h = not_begun other_error begin end d (rw h refl)

-- What a statement is: an effect on the tables, or none.
abbrev pub applied {ℓ} : {S : Type ℓ} → Option (S → S) → S → S
applied none s = s
applied (some f) s = f s

-- An exception, with the tables as committed before.
abbrev pub Fails {ℓ} : {S : Type ℓ} → Exn → S → Result (Unit {0}) × Db S → Type ℓ
Fails e s r = (r.0 ≡ raised e) × (r.1.committed ≡ s)

-- The end of a statement that was done.
abbrev pub Finished {ℓ} :
    {S : Type ℓ} → End → Option (S → S) → S → Result (Unit {0}) × Db S → Type ℓ
Finished end none s r = (r.0 ≡ ok tt) × (r.1.committed ≡ s)
Finished ended (some f) s r = (r.0 ≡ ok tt) × (r.1.committed ≡ f s) × (r.1.pending ≡ none)
Finished (failed e left) (some f) s r = Fails e s r × (r.1.pending ≡ left_of left (f s))

-- The transaction that an exception leaves open where there was one or not.
abbrev pub open_after {ℓ} : {S : Type ℓ} → Left → S → Option S → Option S
open_after as_before s pending = pending
open_after opened s pending = some s
open_after rolled_back s pending = none

abbrev pub Executed {ℓ} :
    {S : Type ℓ}
    → Attempt
    → Attempt
    → End
    → Option (S → S)
    → Db S
    → Result (Unit {0}) × Db S
    → Type ℓ
Executed done second end f d r = Finished end f d.committed r
Executed (busy left) done end f d r = Finished end f d.committed r
Executed (busy left) (busy l) end f d r =
    Fails other_error d.committed r
    × (r.1.pending ≡ open_after l d.committed (open_after left d.committed none))
Executed (busy left) (broken e l) end f d r =
    Fails e d.committed r
    × (r.1.pending ≡ open_after l d.committed (open_after left d.committed none))
Executed (broken e left) second end f d r =
    Fails e d.committed r × (r.1.pending ≡ open_after left d.committed none)

finish_lem :
    {S : Type 0} (end : End) (f : Option (S → S)) (d : Db S)
    → seen d ≡ d.committed
    → Finished end f d.committed (finish end f d)
unfolding finish
finish_lem end none d h = (refl, refl)
finish_lem ended (some f) d h = (refl, ap f h, refl)
finish_lem (failed e as_before) (some f) d h = ((refl, refl), ap (λ s. some (f s)) h)
finish_lem (failed e opened) (some f) d h = ((refl, refl), ap (λ s. some (f s)) h)
finish_lem (failed e rolled_back) (some f) d h = ((refl, refl), refl)

-- A failed attempt outside a transaction.
after_lem :
    {S : Type 0} (left : Left) (d : Db S)
    → d.pending ≡ none
    → (seen (after left d) ≡ d.committed)
      × ((after left d).committed ≡ d.committed)
      × ((after left d).pending ≡ open_after left d.committed none)
after_lem as_before d h = (rw h refl, refl, h)
after_lem opened d h = (rw h refl, refl, rw h refl)
after_lem rolled_back d h = (refl, refl, refl)

after_twice :
    {S : Type 0} (l left : Left) (d : Db S)
    → d.pending ≡ none
    → ((after l (after left d)).committed ≡ d.committed)
      × ((after l (after left d)).pending
          ≡ open_after l d.committed (open_after left d.committed none))
after_twice as_before left d h = let a = after_lem left d h in (a.1, a.2)
after_twice opened left d h = let a = after_lem left d h in (a.1, ap (λ s. some s) a.0)
after_twice rolled_back left d h = let a = after_lem left d h in (a.1, refl)

Finished-after :
    {S : Type 0} (left : Left) (end : End) (f : Option (S → S)) (d : Db S)
    → d.pending ≡ none
    → Finished end f d.committed (finish end f (after left d))
Finished-after as_before end f d h = finish_lem end f d (after_lem as_before d h).0
Finished-after opened end f d h = finish_lem end f (after opened d) (after_lem opened d h).0
Finished-after rolled_back end f d h = finish_lem end f (after rolled_back d) refl

-- A statement outside a transaction is done at the first attempt, or at the second where the
-- database was busy at the first, and is committed at once, if the commit does not raise; else its
-- exception goes on, the tables are as before, and a transaction may stay open, as the sqlite3
-- module and SQLite left it.
pub execute_lem :
    {S : Type 0} (first second : Attempt) (end : End) (f : Option (S → S)) (d : Db S)
    → d.pending ≡ none
    → Executed first second end f d (execute first second end f d)
unfolding execute retry
execute_lem done second end f d h = finish_lem end f d (rw h refl)
execute_lem (busy left) done end f d h = Finished-after left end f d h
execute_lem (busy left) (busy l) end f d h = let a = after_twice l left d h in ((refl, a.0), a.1)
execute_lem (busy left) (broken e l) end f d h =
    let a = after_twice l left d h in ((refl, a.0), a.1)
execute_lem (broken e left) second end f d h = let a = after_lem left d h in ((refl, a.1), a.2)
