-- ===== src/Pipeline/Guard.antt =====
-- What a scan of pipeline.py leaves of the mailbox, of `daemon_moves` and of the connection.
use ronzz_nextcloud.Imap.Fetched.{fetch_uids-Runs}
use ronzz_nextcloud.Pipeline.Recorded.{
  AllFetched-IsRead, AllRead-event, Grows, Grows-map, HasSome, IsCovered, IsCovered-map, IsRead,
  HasRow, HasRow-event, HasRow-with_move, grows_by, grows_none, last_mark, with_move,
  with_move-HasRow,
}
use ronzz_nextcloud.Errors.{◌>>=◌, ◌>>◌}
use ronzz_nextcloud.Imap.{move_message}
use ronzz_nextcloud.Imap.Rules.{move_message-Keeps}
use ronzz_nextcloud.Prelude.{not, List, String, [], refl, true, ℕ, ◌∷◌, ◌≡◌, All}
use ronzz_nextcloud.Config.{AccountConfig, DaemonConfig, resolved_junk_folder}
use ronzz_nextcloud.Pipeline.{
  ClassificationResult, Detectors, act, process_account, after_move, record_daemon_move, result_id,
}
use ronzz_nextcloud.Pipeline.Acting.{
  Acts, process_account-Runs, process_messages-Keeps, process_account-Keeps, after_move-Keeps,
}
use ronzz_nextcloud.Errors.Runs.{Keeps, Runs-at, Runs-if, Runs-pure, Runs, Runs-bind, Runs-post}
use ronzz_nextcloud.World.{
  Env, Event, World, copied, marked_deleted, moved, History, expunged, selected, source, Message,
  record_event,
}
use ronzz_nextcloud.World.Writes.{written}

-- The mailboxes and the tables that a scan acts on.
pub record SameMail (old w : World) : Type 0 where
  pub commands : written w.history ≡ written old.history
  pub moves : w.daemon_moves ≡ old.daemon_moves
  pub senders : w.candidates ≡ old.candidates

dry_act-Keeps :
    (env : Env) (cfg : DaemonConfig) (account : AccountConfig) (w : World)
    → cfg.dry_run ≡ true
    → (folder : String) (result : ClassificationResult)
    → Keeps (SameMail w) (act env cfg account folder result)
unfolding act
dry_act-Keeps env cfg account w dry folder result =
    Runs-if (not result.is_spam) _ _ (λ b. Runs-pure _ (λ w h. h))
      (λ b. Runs-if cfg.dry_run _ _ (λ b. Runs-pure _ (λ w h. h)) (λ b. absurd cc))

-- In a dry run a scan of an account moves nothing, blocks nobody and records no move, whatever
-- the servers answer and the detectors find.
pub dry_run_changes_no_mail :
    (env : Env) (cfg : DaemonConfig) (account : AccountConfig) (detectors : Detectors)
    (folder : String) (w : World)
    → cfg.dry_run ≡ true
    → SameMail w (process_account env cfg account detectors folder w).1
dry_run_changes_no_mail env cfg account detectors folder w dry =
    Runs-at (process_account env cfg account detectors folder)
      (process_account-Keeps env cfg account
        (record {
          audits = λ w a h. record { commands = h.commands; moves = h.moves; senders = h.senders };
        })
        detectors (dry_act-Keeps env cfg account w dry)
        (record {
          connects =
              λ w p b h. record { commands = h.commands; moves = h.moves; senders = h.senders };
          opens = λ w p r h. record { commands = h.commands; moves = h.moves; senders = h.senders };
          logs_in =
              λ w p u r h. record { commands = h.commands; moves = h.moves; senders = h.senders };
          logs_out =
              λ w p h. record { commands = h.commands; moves = h.moves; senders = h.senders };
        })
        folder (λ w r h. record { commands = h.commands; moves = h.moves; senders = h.senders })
        (λ w r h. record { commands = h.commands; moves = h.moves; senders = h.senders })
        (λ w u r h. record { commands = h.commands; moves = h.moves; senders = h.senders }))
      w (record { commands = refl; moves = refl; senders = refl })

module _ (env : Env) (cfg : DaemonConfig) (account : AccountConfig) (old : History) where
  abbrev Row : World → ℕ → Type 0
  Row w = HasRow account.email w.daemon_moves w.history

  abbrev AllCovered : World → Type 0
  AllCovered w = Grows (IsCovered (Row w)) old w.history

  covered_by :
      (e : Event) (w : World)
      → IsCovered (Row w) e w.history
      → AllCovered w
      → AllCovered (record_event e w)
  covered_by e w k h =
      let f = HasRow-event account.email w.daemon_moves e w.history in
      let g = Row (record_event e w) in
      grows_by (IsCovered-map (Row w) g f e w.history k) (Grows-map (Row w) g f old w.history h)

  -- With the messages that were fetched.
  abbrev Ready : List Message → World → Type 0
  Ready ms w = AllCovered w × All (λ m. IsRead m w.history) ms

  ready :
      (ms : List Message) (e : Event) (w : World)
      → IsCovered (Row w) e w.history
      → Ready ms w
      → Ready ms (record_event e w)
  ready ms e w k h = (covered_by e w k h.0, AllRead-event ms e w.history h.1)

  module _ (ms : List Message) (m : Message)
      (look : (w : World) → Ready ms w → IsRead m w.history) where
    -- And the message has its row.
    abbrev Entered : World → Type 0
    Entered w = Ready ms w × Row w m.imap_uid

    abbrev Marked : World → Type 0
    Marked w = Entered w × HasSome (Row w) (last_mark w.history)

    entry_kept :
        (e : Event) (w : World)
        → IsCovered (Row w) e w.history
        → Entered w
        → Entered (record_event e w)
    entry_kept e w k h =
        (ready ms e w k h.0, HasRow-event account.email w.daemon_moves e w.history _ h.1)

    record_daemon_move-Runs :
        Runs
          (Ready ms)
          (record_daemon_move account.email m.imap_uid (result_id m))
          (λ u. Entered)
          (λ e. Ready ms)
    unfolding record_daemon_move
    record_daemon_move-Runs = record {
      at = λ w h.
          let rows = with_move account.email m.imap_uid (result_id m) w.daemon_moves in
          let r = look w h in
          (
            (
              Grows-map (Row w) (HasRow account.email rows w.history)
                  (λ uid. HasRow-with_move account.email m w.daemon_moves w.history uid r) old
                  w.history h.0,
              h.1,
            ),
            with_move-HasRow account.email m w.daemon_moves w.history r,
          );
    }

    moves :
        (folder : String) (result : ClassificationResult) (uid : ℕ) (message_id : String)
        → uid ≡ m.imap_uid
        → message_id ≡ result_id m
        → Keeps (Ready ms) (do
          record_daemon_move account.email uid message_id
          done ← move_message env source uid folder (resolved_junk_folder account)
          after_move env cfg account result folder done)
    moves folder result uid message_id e f =
        rw (e, f)
          (Runs-bind _ _ record_daemon_move-Runs λ u.
            Runs-bind _ _
              (Runs-post _
                (move_message-Keeps {P = Entered} {M = Marked} (λ w h. h.0) env source m.imap_uid
                  folder _ (λ w r h. entry_kept (selected _ _ _ r) w (tt, tt) h)
                  (λ w r h. entry_kept (moved _ _ _ r) w (h.1, tt) h)
                  (λ w r h. entry_kept (copied _ _ _ r) w (h.1, tt) h)
                  (λ w r h. let k = entry_kept (marked_deleted _ _ r) w (h.1, tt) h in (k, k.1))
                  (λ w r h. entry_kept (expunged _ r) w (tt, h.1) h.0))
                (λ a w h. h.0) (λ e w h. h.0))
              λ done.
                after_move-Keeps env cfg account {P = Ready ms} (record { audits = λ w a h. h })
                  (record {
                    connects = λ w e r h. ready ms _ w (tt, tt) h;
                    puts = λ w n x r h. ready ms _ w (tt, tt) h;
                    activates = λ w n r h. ready ms _ w (tt, tt) h;
                  })
                  (record { tables = λ w c n h. h }) result folder done)

    act-Keeps : Acts env cfg account {P = Ready ms} (record { audits = λ w a h. h }) m
    unfolding act
    act-Keeps folder result o =
        Runs-if (not result.is_spam) _ _ (λ b. Runs-pure _ (λ w h. h))
          (λ b.
            Runs-if cfg.dry_run _ _ (λ b. Runs-pure _ (λ w h. h))
              (λ b. moves folder result result.uid result.message_id o.0 o.1))

  all_act :
      (all ms : List Message)
      → ((w : World) → Ready all w → All (λ m. IsRead m w.history) ms)
      → All (Acts env cfg account {P = Ready all} (record { audits = λ w a h. h })) ms
  all_act all [] look = tt
  all_act all (m ∷ ms) look =
      (act-Keeps all m (λ w h. (look w h).0), all_act all ms (λ w h. (look w h).1))

-- When a scan ends or breaks off, whatever the servers answer and the detectors find: each
-- command that takes a message away, or tries to, is for a UID with a row in `daemon_moves` that
-- has the account, the UID and the Message-ID (the text of the UID, if it is empty) of a message
-- with that UID that a FETCH brought; and an EXPUNGE comes only directly after the deletion mark
-- of such a message.
pub moves_are_recorded :
    (env : Env) (cfg : DaemonConfig) (account : AccountConfig) (detectors : Detectors)
    (folder : String) (w : World)
    → let after : World = (process_account env cfg account detectors folder w).1 in
      Grows
        (IsCovered (HasRow account.email after.daemon_moves after.history))
        w.history
        after.history
moves_are_recorded env cfg account detectors folder w =
    let P = AllCovered env cfg account w.history in
    let by = covered_by env cfg account w.history in
    Runs-at (process_account env cfg account detectors folder)
      (process_account-Runs env cfg account {P = P} (record { audits = λ w a h. h }) detectors
        (λ ms. Ready env cfg account w.history ms)
        (record {
          connects = λ w p b h. h;
          opens = λ w p r h. by _ w (tt, tt) h;
          logs_in = λ w p u r h. by _ w (tt, tt) h;
          logs_out = λ w p h. by _ w (tt, tt) h;
        })
        folder (λ w r h. by _ w (tt, tt) h) (λ w r h. by _ w (tt, tt) h)
        (λ uids.
          Runs-post _
            (fetch_uids-Runs P env source folder uids (λ w r h. by _ w (tt, tt) h)
              (λ w u r h. by _ w (tt, tt) h))
            (λ ms w h. (h.0, AllFetched-IsRead _ ms w h.1)) (λ e w h. h))
        (λ ms.
          Runs-post _
            (process_messages-Keeps env cfg account (record { audits = λ w a h. h }) detectors
              folder ms 0 (all_act env cfg account w.history ms ms (λ w h. h.1)))
            (λ n w h. h.0) (λ e w h. h.0)))
      w grows_none
