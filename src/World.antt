-- ===== src/World.antt =====
-- What the daemon shares: the exchange with the servers, the database of db.py, the audit log of
-- audit.py, and the environment that answers. Every reply of a server, every password and every
-- clock reading comes from `Env`, as any function of what was exchanged before.
pub mod Writes
use ronzz_nextcloud.Prelude.{Bool, List, Option, String, ℕ, ◌+◌, ◌∷◌}
use ronzz_nextcloud.Errors.{Exec, Result, ok}
use ronzz_nextcloud.SieveBlock.{Candidates}

-- The connections of one scan: the account's own, and the redirector's target.
pub data Peer : Type 0 where
  source target : Peer

-- What the classifier reads of a parsed message (parse_email_message); "" for a missing header.
pub record Message : Type 0 where
  pub imap_uid : ℕ
  pub message_id : String
  pub from_addr : String
  pub subject : String
  pub body : String
  pub html_body : String

-- The calls of imaplib and managesieve, with their outcomes: `false` or `none` is a reply other
-- than OK.
pub data Event : Type 0 where
  opened : Peer → Result (Unit {0}) → Event
  logged_in : Peer → String → Result (Unit {0}) → Event
  selected : Peer → String → Bool → Result Bool → Event
  searched : Peer → String → Result (Option (List ℕ)) → Event
  moved copied : Peer → ℕ → String → Result Bool → Event
  marked_deleted : Peer → ℕ → Result Bool → Event
  expunged : Peer → Result (Unit {0}) → Event
  appended : Peer → String → String → Result Bool → Event
  fetched_raw : Peer → ℕ → Result (Option String) → Event
  fetched : Peer → List ℕ → Result (Option (List (Option Message))) → Event
  fetched_ids : Peer → Result (Option (List (ℕ × String))) → Event
  logged_out : Peer → Event
  sieve_connected : String → Result (Unit {0}) → Event
  sieve_put : String → String → Result Bool → Event
  sieve_activated : String → Result Bool → Event

-- The newest event is the first.
abbrev pub History : Type 0
History = List Event

-- A call of SpamTrainer.report.
pub record Report : Type 0 where
  pub account_email : String
  pub subject : String
  pub body : String
  pub is_spam : Bool

pub record Env : Type 0 where
  pub open_conn : History → Peer → Result (Unit {0})
  pub login : History → Peer → String → String → Result (Unit {0})
  pub select : History → Peer → String → Bool → Result Bool
  pub search : History → Peer → String → Result (Option (List ℕ))
  pub move : History → Peer → ℕ → String → Result Bool
  pub copy : History → Peer → ℕ → String → Result Bool
  pub mark_deleted : History → Peer → ℕ → Result Bool
  pub expunge : History → Peer → Result (Unit {0})
  pub append : History → Peer → String → String → Result Bool
  pub fetch_raw : History → Peer → ℕ → Result (Option String)
  pub fetch : History → Peer → List ℕ → Result (Option (List (Option Message)))
  pub fetch_ids : History → Peer → Result (Option (List (ℕ × String)))
  pub sieve_connect : History → String → Result (Unit {0})
  pub sieve_put_script : History → String → String → Result Bool
  pub sieve_activate : History → String → Result Bool
  pub password : History → String → Option String
  pub save_tokens : List Report → Result (Unit {0})
  pub clock : ℕ → ℕ

-- The audit records of audit.py, with the fields that tell them apart.
pub data Audit : Type 0 where
  classification : String → ℕ → ℕ → Bool → Bool → String → Audit
  move_event : String → ℕ → String → String → Bool → Audit
  sieve_block : String → String → ℕ → Audit
  sieve_block_pushed : String → String → Audit
  redirect_event : String → ℕ → String → Bool → Audit
  train : String → ℕ → String → Bool → Audit
  auth_failure : String → Bool → Audit
  feed_update : List (String × ℕ) → Audit
  startup shutdown : Audit

-- Rows of `daemon_moves`, `spam_feedback` and `folder_state`; a snapshot is a dict from UID to
-- Message-ID.
pub record DaemonMove : Type 0 where
  pub account_email : String
  pub imap_uid : ℕ
  pub message_id : String

pub record Feedback : Type 0 where
  pub message_uuid : String
  pub account_email : String
  pub feedback : String
  pub source : String

pub record FolderState : Type 0 where
  pub account_email : String
  pub folder : String
  pub known_uids : List (ℕ × String)

pub record World : Type 0 where
  pub history : History
  pub connected : Peer → Bool
  pub readings : ℕ
  pub audit : List Audit
  pub candidates : Candidates
  pub daemon_moves : List DaemonMove
  pub spam_feedback : List Feedback
  pub folder_states : List FolderState
  pub reports : List Report

-- AuditLog.emit
unfoldable pub emit : Audit → Exec World (Unit {0})
emit a w = (ok tt, record w { audit = a ∷ w.audit })

-- A reading of the clock.
unfoldable pub now : Env → Exec World ℕ
now env w = (ok (env.clock w.readings), record w { readings = w.readings + 1 })

-- A call of the keyring; `none` also if the keyring fails, and for an empty password.
unfoldable pub get_password : Env → String → Exec World (Option String)
get_password env email w = (ok (env.password w.history email), w)

abbrev pub record_event : Event → World → World
record_event e w = record w { history = e ∷ w.history }
