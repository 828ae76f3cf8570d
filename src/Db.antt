-- ===== src/Db.antt =====
-- MailwatchDB of mailwatch/src/mailwatch/db.py: one connection of a thread over the tables `S`, and the
-- write lock that the threads share. What SQLite answers is given. A statement with an effect begins
-- a transaction by itself, as the sqlite3 module does; after an exception that may still be open, and
-- after some (a full disk, an I/O error) SQLite has rolled the transaction back by itself.
pub mod Atomic
mod Tests
use ronzz_nextcloud.Prelude.{Bool, Option, false, if◌then◌else◌, none, some, true}
use ronzz_nextcloud.Errors.{
  Exec, Exn, Result, ok, other_error, pure, raise, raised, try_finally, ◌>>=◌, ◌>>◌,
}

-- The tables as committed, as the open transaction of the connection sees them, and whether the
-- write lock is held.
pub record Db {ℓ} (S : Type ℓ) : Type ℓ where
  pub committed : S
  pub pending : Option S
  pub write_locked : Bool

-- What an exception of a statement leaves of the transaction: what there was, one that is open (the
-- statement began it, if there was none), or none, since SQLite rolled it back.
pub data Left : Type 0 where
  as_before opened rolled_back : Left

-- An attempt of a statement: done, an OperationalError with "locked" or "busy" in it, or another
-- exception.
pub data Attempt : Type 0 where
  done : Attempt
  busy : Left → Attempt
  broken : Exn → Left → Attempt

-- COMMIT or ROLLBACK, or `conn.commit()`: done, or an exception.
pub data End : Type 0 where
  ended : End
  failed : Exn → Left → End

-- The statements that SQLite is given for a transaction, with their answers.
pub record Answers : Type 0 where
  pub begin : Result (Unit {0})
  pub end : End

module _ {S : Type 0} where
  abbrev pub view_or : S → Option S → S
  view_or s none = s
  view_or s (some t) = t

  -- What the connection sees.
  abbrev pub seen : Db S → S
  seen d = view_or d.committed d.pending

  unfoldable pub commit : Db S → Db S
  commit d = record d { committed = seen d; pending = none }

  unfoldable pub rollback : Db S → Db S
  rollback d = record d { pending = none }

  abbrev pub after : Left → Db S → Db S
  after as_before d = d
  after opened d = record d { pending = some (seen d) }
  after rolled_back d = record d { pending = none }

  -- COMMIT or ROLLBACK, with what it does
  unfoldable pub end_by : End → (Db S → Db S) → Exec (Db S) (Unit {0})
  end_by ended f d = (ok tt, f d)
  end_by (failed e left) f d = (raised e, after left d)

  -- A statement that begins with INSERT, UPDATE or DELETE has an effect, and is committed.
  unfoldable pub finish : End → Option (S → S) → Exec (Db S) (Unit {0})
  unfolding commit end_by
  finish end none d = (ok tt, d)
  finish end (some effect) d = end_by end commit (record d { pending = some (effect (seen d)) })

  -- The second attempt, after a busy database.
  unfoldable pub retry : Attempt → End → Option (S → S) → Exec (Db S) (Unit {0})
  unfolding finish
  retry done end statement d = finish end statement d
  retry (busy left) end statement d = (raised other_error, after left d)
  retry (broken e left) end statement d = (raised e, after left d)

  -- execute
  unfoldable pub execute : Attempt → Attempt → End → Option (S → S) → Exec (Db S) (Unit {0})
  unfolding finish retry
  execute done second end statement d = finish end statement d
  execute (busy left) second end statement d = retry second end statement (after left d)
  execute (broken e left) second end statement d = (raised e, after left d)

  -- `BEGIN IMMEDIATE`, which raises OperationalError within a transaction
  abbrev pub begin_answer : Result (Unit {0}) → Option S → Result (Unit {0})
  begin_answer begin none = begin
  begin_answer begin (some s) = raised other_error

  abbrev pub began : Result (Unit {0}) → Db S → Result (Unit {0}) × Db S
  began (ok u) d = (ok tt, record d { pending = some d.committed })
  began (raised e) d = (raised e, d)

  -- __enter__, where the lock is free: it is taken before BEGIN.
  unfoldable pub enter : Result (Unit {0}) → Exec (Db S) (Unit {0})
  enter begin d = began (begin_answer begin d.pending) (record d { write_locked = true })

  abbrev pub unlock : Db S → Db S
  unlock d = record d { write_locked = false }

  -- __exit__
  unfoldable pub leave : Bool → End → Exec (Db S) (Unit {0})
  unfolding commit rollback end_by try_finally
  leave succeeded end = try_finally (end_by end (if succeeded then commit else rollback)) unlock

  -- The body works on what the connection sees, and lets the exceptions of SQLite through: what is
  -- then left of the transaction shows in the answer to ROLLBACK.
  unfoldable pub on_view : {A : Type 0} → Exec S A → Exec (Db S) A
  on_view body d = let r = body (seen d) in (r.0, record d { pending = some r.1 })

  -- After the body: an exception of it goes on, unless __exit__ raises another.
  unfoldable pub after_body : {A : Type 0} → End → Result A → Exec (Db S) A
  unfolding leave pure raise ◌>>=◌
  after_body end (ok a) = do leave true end; pure a
  after_body end (raised e) = do leave false end; raise e

  unfoldable pub with_body : {A : Type 0} → End → Exec S A → Exec (Db S) A
  unfolding on_view after_body
  with_body end body d = let r = on_view body d in after_body end r.0 r.1

  -- `with self._db.transaction() as conn: body`
  unfoldable pub transaction : {A : Type 0} → Answers → Exec S A → Exec (Db S) A
  unfolding enter with_body ◌>>=◌
  transaction answers body = do enter answers.begin; with_body answers.end body
