-- ===== src/Training/Scans.antt =====
-- What a scan of training.py trains on, and what it leaves alone.
use mathlib.Core.List.{head?}
use ronzz_nextcloud.Training.Reported.{AllReported-event, IsForeign, IsReported}
use ronzz_nextcloud.Imap.Fetched.{
  AllFetched, AllListed-event, IsFetchedBy, IsFetchedIn, IsListedBy, fetch_message_ids-Runs,
  fetch_uids-Runs,
}
use ronzz_nextcloud.Imap.{chunks}
use ronzz_nextcloud.Prelude.{
  max, Bool, List, Option, String, false, none, refl, some, true, ℕ, ◌∷◌, ◌≡◌, ◌≤◌, [],
  if◌then◌else◌, arith, All, inl, inr,
}
use ronzz_nextcloud.Errors.{Result, ok, raised, pure, ◌>>=◌}
use ronzz_nextcloud.Errors.Runs.{
  Keeps, Post, Runs-bind, Runs-pure, Runs-try, Runs-at, Runs-finally, Runs-if, Runs-post, Runs,
  Runs-pre,
}
use ronzz_nextcloud.World.{Env, Event, Message, Report, World, record_event, source, train}
use ronzz_nextcloud.World.Writes.{Extends, more, writes, written, same}
use ronzz_nextcloud.Config.{AccountConfig, TrainingConfig, resolved_junk_folder}
use ronzz_nextcloud.Imap.Rules.{
  IgnoresSessions, emit-Runs, connect-Keeps, disconnect-keeps, fetch_message_ids-Keeps,
  get_password-Runs,
}
use ronzz_nextcloud.Training.{
  feedback, fetch_text, is_daemon_move, label, report, signal, train_message, Summary, Verdict,
  disabled, has_uid, judge, load_known, no_password, not_trained, own_move, reconcile, save_known,
  saved, scan_account, scan_with, scanned, seen, tally, train_ham, train_junk, train_left,
  train_moved, train_spam, trained,
}
use ronzz_nextcloud.Training.Tables.{entries, log_feedback-once}

module _ (env : Env) (cfg : TrainingConfig) (account : AccountConfig) (w₀ : World)
    (b j t : String) where
  -- With the entries of the Junk folder that were read.
  record Kept (known : List (ℕ × String)) (w : World) : Type 0 where
    listed : All (λ x. IsListedBy x w.history) known
    reports : Extends (IsReported account.email w₀.daemon_moves w.history) w₀.reports w.reports
    moves : w.daemon_moves ≡ w₀.daemon_moves
    commands : written w.history ≡ written w₀.history
    foreign : Extends (IsForeign w₀.daemon_moves) w₀.audit w.audit
    once : entries b j t w.spam_feedback ≤ max 1 (entries b j t w₀.spam_feedback)

  -- An event that writes nothing.
  reads :
      {known : List (ℕ × String)} (e : Event)
      → writes e ≡ false
      → (w : World) → Kept known w
      → Kept known (record_event e w)
  reads {known} e h w k = record {
    listed = AllListed-event known e w.history k.listed;
    reports = AllReported-event account.email w₀.daemon_moves e w.history _ w.reports k.reports;
    moves = k.moves;
    commands = rw h k.commands;
    foreign = k.foreign;
    once = k.once;
  }

  Kept-ignores : IgnoresSessions (Kept [])
  Kept-ignores = record {
    connects = λ w p b k. record {
      listed = k.listed;
      reports = k.reports;
      moves = k.moves;
      commands = k.commands;
      foreign = k.foreign;
      once = k.once;
    };
    opens = λ w p r k. reads _ refl w k;
    logs_in = λ w p u r k. reads _ refl w k;
    logs_out = λ w p k. reads _ refl w k;
  }

  module _ (known : List (ℕ × String)) where
    abbrev Read : ℕ → Option Message → World → Type 0
    Read uid none w = Kept known w
    Read uid (some m) w = Kept known w × IsFetchedBy (uid ∷ []) m w.history

    fetch_text-Runs :
        (folder : String) (uid : ℕ)
        → Runs (Kept known) (fetch_text env cfg account folder uid) (Read uid) (λ e. Kept known)
    unfolding fetch_text chunks
    fetch_text-Runs folder uid =
        Runs-try {F = λ e. Kept known} _ _
          (Runs-bind _ _
            (fetch_uids-Runs (Kept known) env source folder (uid ∷ []) (λ w r k. reads _ refl w k)
              (λ w u r k. reads _ refl w k))
            (λ messages. Runs-pure _ (λ w k. first messages w k)))
          (λ e. Runs-pure none (λ w k. k))
      where
        first :
            (ms : List Message) (w : World)
            → Kept known w × AllFetched ((uid ∷ []) ∷ []) ms w
            → Read uid (head? ms) w
        first [] w k = k.0
        first (m ∷ ms) w k = (k.0, only k.1.0)
          where
            only : IsFetchedIn ((uid ∷ []) ∷ []) m w.history → IsFetchedBy (uid ∷ []) m w.history
            only (inl f) = f
            only (inr x) = elim x [ ]

    report-Keeps :
        (uid : ℕ) (m : Message) (r : Report)
        → ((w : World)
            → Kept known w
            → IsFetchedBy (uid ∷ []) m w.history
            → IsReported account.email w₀.daemon_moves w.history r)
        → Runs (Read uid (some m)) (report env r) (λ u. Kept known) (λ e. Kept known)
    unfolding report
    report-Keeps uid m r f = record { at = λ w k. stored w (env.save_tokens (r ∷ w.reports)) k }
      where
        stored :
            (w : World) (a : Result (Unit {0}))
            → Read uid (some m) w
            → Post (λ a. Kept known) (λ e. Kept known) (saved r a w).0 (saved r a w).1
        stored w (ok u) k = record {
          listed = k.0.listed;
          reports = more (f w k.0 k.1) k.0.reports;
          moves = k.0.moves;
          commands = k.0.commands;
          foreign = k.0.foreign;
          once = k.0.once;
        }
        stored w (raised e) k = k.0

    feedback-Keeps : (a key : String) (is_spam : Bool) → Keeps (Kept known) (feedback a key is_spam)
    unfolding feedback
    feedback-Keeps a key is_spam = record {
      at = λ w k. record {
        listed = k.listed;
        reports = k.reports;
        moves = k.moves;
        commands = k.commands;
        foreign = k.foreign;
        once =
            log_feedback-once a key (label is_spam) (signal is_spam) b j t w.spam_feedback
              (max 1 (entries b j t w₀.spam_feedback)) (omega arith) k.once;
      };
    }

    -- What the training of one message needs.
    abbrev Fit : Bool → ℕ → String → Type 0
    Fit false uid message_id = Unit
    Fit true uid message_id =
        (is_daemon_move w₀.daemon_moves account.email uid message_id ≡ false)
        × ((w : World) → Kept known w → IsListedBy (uid, message_id) w.history)

    train_message-Keeps :
        (is_spam : Bool) (uid : ℕ) (message_id : String) (m : Option Message)
        → Fit is_spam uid message_id
        → Runs
            (Read uid m)
            (train_message env cfg account is_spam uid message_id m)
            (λ b. Kept known)
            (λ e. Kept known)
    unfolding train_message
    train_message-Keeps is_spam uid message_id none f = Runs-pure false (λ w k. k)
    train_message-Keeps is_spam uid message_id (some m) f =
        Runs-bind _ _ (report-Keeps uid m _ (owed is_spam f)) λ u.
          Runs-bind _ _ (feedback-Keeps account.email _ is_spam) λ u.
            Runs-bind _ _
              (emit-Runs _ (λ w k. record {
                listed = k.listed;
                reports = k.reports;
                moves = k.moves;
                commands = k.commands;
                foreign = more (noted is_spam f) k.foreign;
                once = k.once;
              }))
              (λ u. Runs-pure true (λ w k. k))
      where
        noted :
            (is_spam : Bool)
            → Fit is_spam uid message_id
            → IsForeign w₀.daemon_moves (train account.email uid message_id is_spam)
        noted true f = f.0
        noted false f = tt

        owed :
            (is_spam : Bool)
            → Fit is_spam uid message_id
            → (w : World) → Kept known w
            → IsFetchedBy (uid ∷ []) m w.history
            → IsReported account.email w₀.daemon_moves w.history (record {
              account_email = account.email;
              subject = m.subject;
              body = m.body;
              is_spam = is_spam;
            })
        owed false f w k r e = absurd cc
        owed true f w k r e = record {
          uid = uid;
          message_id = message_id;
          message = m;
          listed = f.1 w k;
          read = r;
          text = (refl, refl);
          owner = refl;
          not_moved = f.0;
        }

    train_spam-Keeps :
        (uid : ℕ) (message_id : String)
        → Fit true uid message_id
        → Keeps (Kept known) (train_spam env cfg account uid message_id)
    unfolding train_spam
    train_spam-Keeps uid message_id f =
        Runs-if cfg.train_spam_on_junk_arrival _ _
          (λ h.
            Runs-bind _ _ (fetch_text-Runs _ uid)
              (λ m. train_message-Keeps true uid message_id m f))
          (λ h. Runs-pure false (λ w k. k))

    judge-Keeps :
        (prev : List (ℕ × String)) (uid : ℕ) (message_id : String)
        → ((w : World) → Kept known w → IsListedBy (uid, message_id) w.history)
        → Keeps (Kept known) (judge env cfg account prev uid message_id)
    unfolding judge
    judge-Keeps prev uid message_id look = record {
      at = λ w k.
          judged w k (has_uid env cfg account uid prev)
            (is_daemon_move w.daemon_moves account.email uid message_id) refl;
    }
      where
        trains :
            Fit true uid message_id
            → Keeps (Kept known) (
                train_spam env cfg account uid message_id >>= λ b.
                pure (if b then trained else not_trained))
        trains f = Runs-bind _ _ (train_spam-Keeps uid message_id f) (λ b. Runs-pure _ (λ w k. k))

        judged :
            (w : World)
            → Kept known w
            → (here own : Bool) → is_daemon_move w.daemon_moves account.email uid message_id ≡ own
            → let r : Result Verdict × World =
                if here
                then (ok seen, w)
                else if own
                then (ok own_move, w)
                else (train_spam env cfg account uid message_id >>= λ b.
                      pure (if b then trained else not_trained))
                    w in
              Post (λ a. Kept known) (λ e. Kept known) r.0 r.1
        judged w k true own e = k
        judged w k false true e = k
        judged w k false false e = (trains (rw (← k.moves) e, look)).at w k

    train_junk-Keeps :
        (prev junk : List (ℕ × String)) (s : Summary)
        → ((w : World) → Kept known w → All (λ x. IsListedBy x w.history) junk)
        → Keeps (Kept known) (train_junk env cfg account prev junk s)
    unfolding train_junk
    train_junk-Keeps prev [] s look = Runs-pure s (λ w k. k)
    train_junk-Keeps prev ((uid, message_id) ∷ junk) s look =
        Runs-bind _ _ (judge-Keeps prev uid message_id (λ w k. (look w k).0))
          (λ v. train_junk-Keeps prev junk (tally v s) (λ w k. (look w k).1))

    train_left-Keeps :
        (o : Option ℕ) (message_id : String)
        → Keeps (Kept known) (train_left env cfg account o message_id)
    unfolding train_left train_ham
    train_left-Keeps none message_id = Runs-pure false (λ w k. k)
    train_left-Keeps (some uid) message_id =
        Runs-if cfg.train_ham_on_junk_to_inbox _ _
          (λ h.
            Runs-bind _ _ (fetch_text-Runs _ uid)
              (λ m. train_message-Keeps false uid message_id m tt))
          (λ h. Runs-pure false (λ w k. k))

    train_moved-Keeps :
        (junk inbox prev : List (ℕ × String)) (s : Summary)
        → Keeps (Kept known) (train_moved env cfg account junk inbox prev s)
    unfolding train_moved
    train_moved-Keeps junk inbox [] s = Runs-pure s (λ w k. k)
    train_moved-Keeps junk inbox ((uid, message_id) ∷ prev) s =
        Runs-bind _ _
          (Runs-if (has_uid env cfg account uid junk) _ _ (λ h. Runs-pure false (λ w k. k))
            (λ h. train_left-Keeps _ message_id))
          (λ b. train_moved-Keeps junk inbox prev _)

  without_known : {known : List (ℕ × String)} (w : World) → Kept known w → Kept [] w
  without_known w k = record {
    listed = tt;
    reports = k.reports;
    moves = k.moves;
    commands = k.commands;
    foreign = k.foreign;
    once = k.once;
  }

  reconcile-Keeps : Keeps (Kept []) (reconcile env cfg account)
  unfolding reconcile load_known save_known
  reconcile-Keeps =
      Runs-bind _ _
        (fetch_message_ids-Runs (Kept []) env source (resolved_junk_folder account)
          (λ w r k. reads _ refl w k) (λ w r k. reads _ refl w k))
        λ junk.
          Runs-pre (Kept junk) _
            (λ w k. record {
              listed = k.1;
              reports = k.0.reports;
              moves = k.0.moves;
              commands = k.0.commands;
              foreign = k.0.foreign;
              once = k.0.once;
            })
            (Runs-post _
              (Runs-bind _ _
                (fetch_message_ids-Keeps env source "INBOX" (λ w r k. reads _ refl w k)
                  (λ w r k. reads _ refl w k))
                λ inbox.
                  Runs-bind {Q = λ p. Kept junk} _ _ (record { at = λ w k. k })
                    λ prev. Runs-bind _ _ (train_junk-Keeps junk prev junk _ (λ w k. k.listed)) λ s.
                      Runs-bind _ _ (train_moved-Keeps junk junk inbox prev s) λ r.
                        Runs-bind {Q = λ u. Kept junk} _ _
                          (record {
                            at = λ w k. record {
                              listed = k.listed;
                              reports = k.reports;
                              moves = k.moves;
                              commands = k.commands;
                              foreign = k.foreign;
                              once = k.once;
                            };
                          })
                          (λ u. Runs-pure r (λ w k. k)))
              (λ r w k. without_known w k) (λ e w k. without_known w k))

  scan_with-Keeps : (pw : Option String) → Keeps (Kept []) (scan_with env cfg account pw)
  unfolding scan_with
  scan_with-Keeps none = Runs-pure no_password (λ w k. k)
  scan_with-Keeps (some pw) = Runs-finally _ _ (
      Runs-post _
        (Runs-bind _ _ (connect-Keeps Kept-ignores env source _ pw)
          λ u. Runs-bind _ _ reconcile-Keeps (λ s. Runs-pure (scanned s) (λ w k. k)))
        (λ s w k. disconnect-keeps Kept-ignores env source w k)
        (λ e w k. disconnect-keeps Kept-ignores env source w k))

  scan_account-Keeps : Keeps (Kept []) (scan_account env cfg account)
  unfolding scan_account
  scan_account-Keeps =
      Runs-if cfg.enabled _ _
        (λ h. Runs-bind _ _ (get_password-Runs env account.email (λ w k. k)) scan_with-Keeps)
        (λ h. Runs-pure disabled (λ w k. k))

pub scan_account_lem :
    (env : Env) (cfg : TrainingConfig) (account : AccountConfig) (w : World) (b j t : String)
    → let v = (scan_account env cfg account w).1 in
      Extends (IsReported account.email w.daemon_moves v.history) w.reports v.reports
      × Extends (IsForeign w.daemon_moves) w.audit v.audit
      × (written v.history ≡ written w.history)
      × (v.daemon_moves ≡ w.daemon_moves)
      × (entries b j t v.spam_feedback ≤ max 1 (entries b j t w.spam_feedback))
scan_account_lem env cfg account w b j t =
    let k =
      Runs-at (scan_account env cfg account) (scan_account-Keeps env cfg account w b j t) w
        (record {
          listed = tt;
          reports = same;
          moves = refl;
          commands = refl;
          foreign = same;
          once = omega arith;
        }) in
    (k.reports, k.foreign, k.commands, k.moves, k.once)
