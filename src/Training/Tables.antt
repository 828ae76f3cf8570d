-- ===== src/Training/Tables.antt =====
-- The tables of training.py: what is saved is loaded again, and feedback is recorded once.
use ronzz_nextcloud.Config.{AccountConfig, TrainingConfig}
use ronzz_nextcloud.Prelude.{
  List, String, [], arith, eq_iff, if◌then◌else◌, str_eq, ◌&&◌, ◌∷◌, ◌≡◌, Bool, Bool-cases, any,
  false, inl, inr, refl, some, suc, true, ℕ, ◌++◌, ◌+◌, ◌∙◌, ◌≤◌,
}
use ronzz_nextcloud.World.{FolderState, Env, Feedback, Message, World, emit}
use ronzz_nextcloud.Errors.{ok, ◌>>=◌}
use ronzz_nextcloud.Training.{
  load_state, without_state, feedback, is_feedback_for, is_state_of, log_feedback, message_key,
  report, save_state, signal, train_message,
}

load-without :
    (a f b g : String) (rows : List FolderState)
    → load_state (without_state a f rows) b g
      ≡ (if str_eq a b && str_eq f g then [] else load_state rows b g)
unfolding load_state
load-without a f b g [] = ground arith
load-without a f b g (row ∷ rows) = ground (
  arith,
  load-without a f b g rows,
  eq_iff row.account_email a,
  eq_iff row.account_email b,
  eq_iff row.folder f,
  eq_iff row.folder g,
  eq_iff a b,
  eq_iff f g,
)

any-without :
    (a f b g : String) (rows : List FolderState)
    → (str_eq a b && str_eq f g) ≡ true
    → any (is_state_of b g) (without_state a f rows) ≡ false
any-without a f b g [] h = refl
any-without a f b g (row ∷ rows) h = ground (
  arith,
  any-without a f b g rows h,
  eq_iff row.account_email a,
  eq_iff row.account_email b,
  eq_iff row.folder f,
  eq_iff row.folder g,
  eq_iff a b,
  eq_iff f g,
)

load-append :
    (b g : String) (rows : List FolderState) (row : FolderState)
    → any (is_state_of b g) rows ≡ false
    → is_state_of b g row ≡ true
    → load_state (rows ++ row ∷ []) b g ≡ row.known_uids
unfolding load_state
load-append b g [] row h e = ground arith
load-append b g (r ∷ rows) row h e = ground (arith, load-append b g rows row)

load-append_other :
    (b g : String) (rows : List FolderState) (row : FolderState)
    → is_state_of b g row ≡ false
    → load_state (rows ++ row ∷ []) b g ≡ load_state rows b g
unfolding load_state
load-append_other b g [] row h = ground arith
load-append_other b g (r ∷ rows) row h = ground (arith, load-append_other b g rows row h)

-- The snapshot that was saved for an account and a folder is the one that is loaded, and those of
-- all others are as before.
pub load_state-save_state :
    (a f b g : String) (uids : List (ℕ × String)) (rows : List FolderState)
    → load_state (save_state a f uids rows) b g
      ≡ (if str_eq a b && str_eq f g then uids else load_state rows b g)
unfolding save_state
load_state-save_state a f b g uids rows =
    let row : FolderState = record { account_email = a; folder = f; known_uids = uids } in
    elim (Bool-cases (str_eq a b && str_eq f g)) [
      | inl e ↦ rw e (
          load-append b g (without_state a f rows) row (any-without a f b g rows e)
            (ground (arith, eq_iff a b, eq_iff f g)))
      | inr e ↦ rw e (
          load-append_other b g (without_state a f rows) row e ∙ load-without a f b g rows ∙ (rw e))
    ]

-- The rows of one account, message and source.
abbrev pub entries : String → String → String → List Feedback → ℕ
entries a k s [] = 0
entries a k s (row ∷ rows) =
    if is_feedback_for a k s row then suc (entries a k s rows) else entries a k s rows

entries-append :
    (a k s : String) (rows : List Feedback) (row : Feedback)
    → entries a k s (rows ++ row ∷ []) ≡ entries a k s rows + entries a k s (row ∷ [])
entries-append a k s [] row = omega arith
entries-append a k s (r ∷ rows) row = ground (arith, entries-append a k s rows row)

entries-any :
    (a k s : String) (rows : List Feedback)
    → any (is_feedback_for a k s) rows ≡ false
    → entries a k s rows ≡ 0
entries-any a k s [] h = refl
entries-any a k s (r ∷ rows) h = ground (arith, entries-any a k s rows)

pub log_feedback-once :
    (a k l s b j t : String) (rows : List Feedback) (n : ℕ)
    → 1 ≤ n
    → entries b j t rows ≤ n
    → entries b j t (log_feedback a k l s rows) ≤ n
unfolding log_feedback
log_feedback-once a k l s b j t rows n m h = ground (
  arith,
  entries-append b j t rows
      (record { message_uuid = k; account_email = a; feedback = l; source = s }),
  entries-any a k s rows,
  eq_iff a b,
  eq_iff k j,
  eq_iff s t,
)

-- Training a message a second time for the same label and source adds no feedback row, but the
-- classifier is given the message again.
pub train_message_again :
    (env : Env) (cfg : TrainingConfig) (account : AccountConfig) (is_spam : Bool) (uid : ℕ)
    (message_id : String) (m : Message) (w : World)
    → any
        (is_feedback_for account.email (message_key message_id uid) (signal is_spam))
        w.spam_feedback
      ≡ true
    → (train_message env cfg account is_spam uid message_id (some m) w).0 ≡ ok true
    → let v = (train_message env cfg account is_spam uid message_id (some m) w).1 in
      (v.reports
        ≡ record {
          account_email = account.email;
          subject = m.subject;
          body = m.body;
          is_spam = is_spam;
        }
          ∷ w.reports)
      × (v.spam_feedback ≡ w.spam_feedback)
unfolding train_message report feedback emit ◌>>=◌ log_feedback
train_message_again env cfg account is_spam uid message_id m w h e = ground arith
