-- ===== src/Training.antt =====
-- mailwatch/src/mailwatch/training.py: TrainingIdler, and its tables of db.py.
pub mod Tables
pub mod Settled
pub mod Reported
pub mod Scans
mod Tests
use mathlib.Core.List.{head?}
use ronzz_nextcloud.Prelude.{
  Bool, List, Option, String, [], any, false, if◌then◌else◌, none, not, some, str_eq, true, ℕ, ◌&&◌,
  ◌++◌, ◌+◌, ◌==◌, ◌||◌, ◌∷◌,
}
use ronzz_nextcloud.Prelude.Decimal.{decimal}
use ronzz_nextcloud.Errors.{Exec, Result, ok, pure, raised, try_except, try_finally, ◌>>=◌, ◌>>◌}
use ronzz_nextcloud.World.{
  DaemonMove, Env, Feedback, FolderState, Message, Report, World, emit, get_password, source, train,
}
use ronzz_nextcloud.Config.{AccountConfig, TrainingConfig, resolved_junk_folder, imap_username}
use ronzz_nextcloud.Imap.{connect, disconnect, fetch_message_ids, fetch_uids}

-- `WHERE account_email = ? AND message_id = ?`
abbrev by_message_id : String → String → DaemonMove → Bool
by_message_id account message_id row =
    str_eq row.account_email account && str_eq row.message_id message_id

-- `WHERE account_email = ? AND imap_uid = ?`
abbrev by_uid : String → ℕ → DaemonMove → Bool
by_uid account uid row = str_eq row.account_email account && row.imap_uid == uid

unfoldable pub is_daemon_move : List DaemonMove → String → ℕ → String → Bool
is_daemon_move rows account uid message_id =
    (not (str_eq message_id "") && any (by_message_id account message_id) rows)
    || any (by_uid account uid) rows

abbrev pub is_state_of : String → String → FolderState → Bool
is_state_of account folder row = str_eq row.account_email account && str_eq row.folder folder

unfoldable pub load_state : List FolderState → String → String → List (ℕ × String)
load_state [] account folder = []
load_state (row ∷ rows) account folder =
    if is_state_of account folder row then row.known_uids else load_state rows account folder

-- `INSERT OR REPLACE`: the row with the same key is deleted, and the new one is inserted.
abbrev pub without_state : String → String → List FolderState → List FolderState
without_state account folder [] = []
without_state account folder (row ∷ rows) =
    let rest = without_state account folder rows in
    if is_state_of account folder row then rest else row ∷ rest

unfoldable pub save_state :
    String → String → List (ℕ × String) → List FolderState → List FolderState
save_state account folder uids rows =
    without_state account folder rows
    ++ record { account_email = account; folder = folder; known_uids = uids } ∷ []

-- `WHERE account_email = ? AND message_uuid = ? AND source = ?`
abbrev pub is_feedback_for : String → String → String → Feedback → Bool
is_feedback_for account message_id origin row =
    str_eq row.account_email account
    && str_eq row.message_uuid message_id
    && str_eq row.source origin

unfoldable pub log_feedback : String → String → String → String → List Feedback → List Feedback
log_feedback account message_id feedback origin rows =
    if any (is_feedback_for account message_id origin) rows
    then rows
    else rows
      ++ record {
        message_uuid = message_id;
        account_email = account;
        feedback = feedback;
        source = origin;
      }
        ∷ []

-- `message_id or str(uid)`
abbrev pub message_key : String → ℕ → String
message_key message_id uid = if str_eq message_id "" then decimal uid else message_id

abbrev pub label : Bool → String
label is_spam = if is_spam then "spam" else "ham"

abbrev pub signal : Bool → String
signal is_spam = if is_spam then "junk_idler" else "junk_to_inbox"

-- SpamTrainer.report: if the file of the tokens cannot be written, the exception goes on.
abbrev pub saved : Report → Result (Unit {0}) → Exec World (Unit {0})
saved r (ok u) w = (ok tt, record w { reports = r ∷ w.reports })
saved r (raised e) w = (raised e, w)

unfoldable pub report : Env → Report → Exec World (Unit {0})
report env r w = saved r (env.save_tokens (r ∷ w.reports)) w

unfoldable pub feedback : String → String → Bool → Exec World (Unit {0})
unfolding log_feedback
feedback account key is_spam w = (
  ok tt,
  record w {
    spam_feedback = log_feedback account key (label is_spam) (signal is_spam) w.spam_feedback;
  },
)

pub record Summary : Type 0 where
  pub spam : ℕ
  pub ham : ℕ
  pub skipped_moved : ℕ

-- `scan_account` returns the counts, and why there was no scan.
pub data Scan : Type 0 where
  scanned : Summary → Scan
  disabled no_password : Scan

pub data Verdict : Type 0 where
  seen own_move trained not_trained : Verdict

-- What a verdict adds to the summary.
abbrev pub tally : Verdict → Summary → Summary
tally own_move s = record s { skipped_moved = s.skipped_moved + 1 }
tally trained s = record s { spam = s.spam + 1 }
tally _ s = s

module _ (env : Env) (cfg : TrainingConfig) (account : AccountConfig) where
  -- Any exception of the fetch is `(None, "")`.
  unfoldable pub fetch_text : String → ℕ → Exec World (Option Message)
  fetch_text folder uid =
      try_except (do messages ← fetch_uids env source folder (uid ∷ []); pure (head? messages))
        (λ e. pure none)

  -- The rest of `_train_spam` and `_train_ham`, which differ in the label and its signal.
  unfoldable pub train_message : Bool → ℕ → String → Option Message → Exec World Bool
  train_message is_spam uid message_id none = pure false
  train_message is_spam uid message_id (some m) = do
    report env (record {
      account_email = account.email;
      subject = m.subject;
      body = m.body;
      is_spam = is_spam;
    })
    feedback account.email (message_key message_id uid) is_spam
    emit (train account.email uid message_id is_spam)
    pure true

  unfoldable pub train_spam : ℕ → String → Exec World Bool
  train_spam uid message_id =
      if cfg.train_spam_on_junk_arrival
      then (do
        m ← fetch_text (resolved_junk_folder account) uid
        train_message true uid message_id m)
      else pure false

  unfoldable pub train_ham : ℕ → String → Exec World Bool
  train_ham uid message_id =
      if cfg.train_ham_on_junk_to_inbox
      then (do m ← fetch_text "INBOX" uid; train_message false uid message_id m)
      else pure false

  -- `uid in d`
  abbrev pub has_uid : ℕ → List (ℕ × String) → Bool
  has_uid uid d = any (λ x. x.0 == uid) d

  abbrev count : Bool → ℕ → ℕ
  count b n = if b then n + 1 else n

  -- The loop's body: what becomes of one message of the Junk folder.
  unfoldable pub judge : List (ℕ × String) → ℕ → String → Exec World Verdict
  judge prev uid message_id w =
      if has_uid uid prev
      then (ok seen, w)
      else if is_daemon_move w.daemon_moves account.email uid message_id
      then (ok own_move, w)
      else (train_spam uid message_id >>= λ b. pure (if b then trained else not_trained)) w

  -- The loop over the Junk folder.
  unfoldable pub train_junk : List (ℕ × String) → List (ℕ × String) → Summary → Exec World Summary
  train_junk prev [] s = pure s
  train_junk prev ((uid, message_id) ∷ junk) s = do
    v ← judge prev uid message_id
    train_junk prev junk (tally v s)

  -- `inbox_uids`: the last UID of each Message-ID that is not empty.
  abbrev pub inbox_uid : String → Option ℕ → List (ℕ × String) → Option ℕ
  inbox_uid message_id found [] = found
  inbox_uid message_id found ((uid, m) ∷ inbox) =
      inbox_uid message_id (if not (str_eq m "") && str_eq m message_id then some uid else found)
        inbox

  unfoldable pub train_left : Option ℕ → String → Exec World Bool
  train_left none message_id = pure false
  train_left (some uid) message_id = train_ham uid message_id

  -- The loop over the messages that were in Junk at the last scan.
  unfoldable pub train_moved :
      List (ℕ × String) → List (ℕ × String) → List (ℕ × String) → Summary → Exec World Summary
  train_moved junk inbox [] s = pure s
  train_moved junk inbox ((uid, message_id) ∷ prev) s = do
    b ←
        if has_uid uid junk
        then pure false
        else train_left (inbox_uid message_id none inbox) message_id
    train_moved junk inbox prev (record s { ham = count b s.ham })

  unfoldable pub load_known : Exec World (List (ℕ × String))
  load_known w = (ok (load_state w.folder_states account.email (resolved_junk_folder account)), w)

  unfoldable pub save_known : List (ℕ × String) → Exec World (Unit {0})
  save_known junk w = (
    ok tt,
    record w {
      folder_states = save_state account.email (resolved_junk_folder account) junk w.folder_states;
    },
  )

  unfoldable pub reconcile : Exec World Summary
  reconcile = do
    junk ← fetch_message_ids env source (resolved_junk_folder account)
    inbox ← fetch_message_ids env source "INBOX"
    prev ← load_known
    s ← train_junk prev junk (record { spam = 0; ham = 0; skipped_moved = 0 })
    t ← train_moved junk inbox prev s
    save_known junk
    pure t

  unfoldable pub scan_with : Option String → Exec World Scan
  scan_with none = pure no_password
  scan_with (some pw) =
      try_finally
        (do connect env source (imap_username account) pw; s ← reconcile; pure (scanned s))
        (disconnect env source)

  unfoldable pub scan_account : Exec World Scan
  scan_account =
      if cfg.enabled then (do pw ← get_password env account.email; scan_with pw) else pure disabled
