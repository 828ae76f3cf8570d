-- ===== src/Training/Reported.antt =====
-- What the reports and the audit of training.py have to hold of a training as spam.
use ronzz_nextcloud.Prelude.{List, String, false, true, ℕ, ◌∷◌, ◌≡◌, inr, []}
use ronzz_nextcloud.Imap.Fetched.{IsFetchedBy, IsListedBy}
use ronzz_nextcloud.World.{Audit, DaemonMove, Event, History, Message, Report, train}
use ronzz_nextcloud.World.Writes.{Extends, more, same}
use ronzz_nextcloud.Training.{is_daemon_move}

-- A message that is trained as spam was not moved by the daemon.
abbrev pub IsForeign : List DaemonMove → Audit → Type 0
IsForeign moves (train account uid message_id true) =
    is_daemon_move moves account uid message_id ≡ false
IsForeign moves _ = Unit

-- A report gives the text of a message that came in a FETCH of one UID; a FETCH of all Message-IDs
-- gave the UID and the Message-ID, and the daemon did not move that message.
pub record Foreign (account : String) (moves : List DaemonMove) (h : History) (r : Report)
    : Type 0 where
  pub uid : ℕ
  pub message_id : String
  pub message : Message
  pub listed : IsListedBy (uid, message_id) h
  pub read : IsFetchedBy (uid ∷ []) message h
  pub text : (r.subject ≡ message.subject) × (r.body ≡ message.body)
  pub owner : r.account_email ≡ account
  pub not_moved : is_daemon_move moves account uid message_id ≡ false

abbrev pub IsReported : String → List DaemonMove → History → Report → Type 0
IsReported account moves h r = r.is_spam ≡ true → Foreign account moves h r

IsReported-event :
    (account : String) (moves : List DaemonMove) (e : Event) (h : History) (r : Report)
    → IsReported account moves h r
    → IsReported account moves (e ∷ h) r
IsReported-event account moves e h r k b =
    let f = k b in
    record {
      uid = f.uid;
      message_id = f.message_id;
      message = f.message;
      listed = inr f.listed;
      read = inr f.read;
      text = f.text;
      owner = f.owner;
      not_moved = f.not_moved;
    }

pub AllReported-event :
    (account : String) (moves : List DaemonMove) (e : Event) (h : History) (old log : List Report)
    → Extends (IsReported account moves h) old log
    → Extends (IsReported account moves (e ∷ h)) old log
AllReported-event account moves e h old log same = same
AllReported-event account moves e h old (r ∷ log) (more k ks) =
    more (IsReported-event account moves e h r k) (AllReported-event account moves e h old log ks)
