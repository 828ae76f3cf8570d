-- ===== src/Training/Tests.antt =====
-- The theorems on training.py at a concrete scan.
use ronzz_nextcloud.Prelude.{[], refl, some, true, ◌∷◌, ◌≡◌}
use ronzz_nextcloud.Errors.{◌>>=◌, ok, try_except}
use ronzz_nextcloud.World.{World, emit, source}
use ronzz_nextcloud.Imap.{call, fetch_message_ids, select_folder_ex}
use ronzz_nextcloud.Training.Settled.{reconcile-settled}
use ronzz_nextcloud.Samples.{
  sample_account, sample_env, sample_message, sample_training, sample_world,
}
use ronzz_nextcloud.Training.{
  feedback, load_state, log_feedback, report, save_state, train_message, reconcile,
}
use ronzz_nextcloud.Training.Tables.{load_state-save_state, train_message_again}

load_state-save_state_example :
    load_state (save_state "me@x.org" "Junk" ((7, "m1@x.org") ∷ []) []) "me@x.org" "Junk"
    ≡ (7, "m1@x.org") ∷ []
load_state-save_state_example =
    load_state-save_state "me@x.org" "Junk" "me@x.org" "Junk" ((7, "m1@x.org") ∷ []) []

-- The message was trained as spam before.
abbrev trained_world : World
trained_world = record sample_world {
  spam_feedback =
      record {
        message_uuid = "m1@x.org";
        account_email = "me@x.org";
        feedback = "spam";
        source = "junk_idler";
      }
      ∷ [];
}

train_message_again_example :
    (train_message sample_env sample_training sample_account true 9 "m1@x.org"
      (some sample_message)
      trained_world).1.spam_feedback
    ≡ trained_world.spam_feedback
unfolding train_message report feedback emit ◌>>=◌ log_feedback
train_message_again_example =
    (train_message_again sample_env sample_training sample_account true 9 "m1@x.org" sample_message
      trained_world refl refl).1

-- The snapshot of the last scan is what the server still has.
abbrev settled_world : World
settled_world = record sample_world {
  connected = λ p. true;
  folder_states =
      record { account_email = "me@x.org"; folder = "Junk"; known_uids = (7, "m1@x.org") ∷ [] }
      ∷ [];
}

abbrev after_junk : World
after_junk = (fetch_message_ids sample_env source "Junk" settled_world).1

abbrev after_inbox : World
after_inbox = (fetch_message_ids sample_env source "INBOX" after_junk).1

reconcile-settled_example : reconcile sample_env sample_training sample_account settled_world ≡ (
  ok (record { spam = 0; ham = 0; skipped_moved = 0 }),
  record after_inbox {
    folder_states = save_state "me@x.org" "Junk" ((7, "m1@x.org") ∷ []) after_inbox.folder_states;
  },
)
unfolding fetch_message_ids select_folder_ex call try_except ◌>>=◌ load_state
reconcile-settled_example =
    reconcile-settled sample_env sample_training sample_account settled_world after_junk after_inbox
      ((7, "m1@x.org") ∷ []) ((7, "m1@x.org") ∷ []) refl refl refl
