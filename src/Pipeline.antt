-- ===== src/Pipeline.antt =====
-- mailwatch/src/mailwatch/pipeline.py: MailwatchPipeline. The three detectors are parameters,
-- which may raise, and which the child Detection fills; scores and the threshold are in units of 1/10000, as the detectors round them.
use ronzz_nextcloud.Prelude.{
  Bool, List, Option, String, [], false, if◌then◌else◌, max, none, not, some, str_eq, true, ℕ, ◌&&◌,
  ◌++◌, ◌+◌, ◌==◌, ◌||◌, ◌∷◌,
}
use ronzz_nextcloud.Prelude.Int.{leb_ℤ, ltb_ℤ, pos}
use ronzz_nextcloud.Errors.{Exec, Result, ok, pure, try_except, try_finally, ◌>>=◌, ◌>>◌}
use ronzz_nextcloud.Config.{
  AccountConfig, DaemonConfig, has_sieve, imap_username, or_text, resolved_junk_folder,
}
use ronzz_nextcloud.World.{
  DaemonMove, Env, Message, World, classification, emit, get_password, move_event, sieve_block,
  sieve_block_pushed, source,
}
use ronzz_nextcloud.Imap.{connect, disconnect, fetch_uids, move_message, search, select_folder_ex}
pub mod Offenders
pub mod Acting
pub mod Recorded
pub mod Guard
pub mod Decision
pub mod Detection
mod Tests
use ronzz_nextcloud.SieveBlock.{
  Candidates, register_hit, record_block, count_recent_hits, is_listed,
}
use ronzz_nextcloud.Domain.{extract_domain}
use ronzz_nextcloud.Sieve.{push_block_script}
use ronzz_nextcloud.Prelude.Decimal.{decimal}

-- What PhishingDetector.analyze returns.
pub record Phish : Type 0 where
  pub is_phishing : Bool
  pub score : ℕ

-- SpamClassifier.classify, PhishingDetector.analyze and SpamSimilarityDetector.check_similarity
-- on a message, for an account: the scores.
pub record Detectors : Type 0 where
  pub bayesian : Message → String → World → Result ℕ
  pub phishing : Message → String → World → Result Phish
  pub similarity : Message → String → World → Result ℕ

pub record ClassificationResult : Type 0 where
  pub uid : ℕ
  pub message_id : String
  pub from_addr : String
  pub subject : String
  pub bayesian_score : ℕ
  pub phishing_score : ℕ
  pub similarity_score : ℕ
  pub combined_score : ℕ
  pub is_spam : Bool
  pub is_phishing : Bool

-- `msg.get("message_id", "") or str(uid)`
abbrev pub result_id : Message → String
result_id m = if str_eq m.message_id "" then decimal m.imap_uid else m.message_id

-- The result from the three verdicts.
unfoldable pub decide : DaemonConfig → Message → ℕ → Phish → ℕ → ClassificationResult
decide cfg m bayesian phish similarity =
    let combined = max bayesian similarity in
    record {
      uid = m.imap_uid;
      message_id = result_id m;
      from_addr = m.from_addr;
      subject = m.subject;
      bayesian_score = bayesian;
      phishing_score = phish.score;
      similarity_score = similarity;
      combined_score = combined;
      is_spam = leb_ℤ cfg.spam_threshold (pos combined) || phish.is_phishing;
      is_phishing = phish.is_phishing;
    }

-- A detector reads the database and writes nothing.
unfoldable pub detect : {A : Type 0} → (World → Result A) → Exec World A
detect f w = (f w, w)

-- `INSERT OR REPLACE INTO daemon_moves`, by account and UID
abbrev pub without_move : String → ℕ → List DaemonMove → List DaemonMove
without_move account uid [] = []
without_move account uid (row ∷ rows) =
    let rest = without_move account uid rows in
    if str_eq row.account_email account && row.imap_uid == uid then rest else row ∷ rest

unfoldable pub record_daemon_move : String → ℕ → String → Exec World (Unit {0})
record_daemon_move account uid message_id w = (
  ok tt,
  record w {
    daemon_moves =
        without_move account uid w.daemon_moves
        ++ record { account_email = account; imap_uid = uid; message_id = message_id } ∷ [];
    readings = w.readings + 1;
  },
)

module _ (env : Env) (cfg : DaemonConfig) (account : AccountConfig) where
  unfoldable pub hit : String → Exec World ℕ
  hit domain w =
      let r = register_hit (env.clock w.readings) account.email domain w.candidates in
      (ok r.0, record w { candidates = r.1; readings = w.readings + 1 })

  unfoldable pub recent : String → Exec World ℕ
  recent domain w = (
    ok (
        count_recent_hits (env.clock w.readings) account.email domain cfg.auto_block.window_days
          w.candidates),
    record w { readings = w.readings + 1 },
  )

  unfoldable pub already_blocked : String → Exec World Bool
  already_blocked domain w = (ok (is_listed account.email domain w.candidates), w)

  unfoldable pub block : String → Exec World (Unit {0})
  block domain w = (
    ok tt,
    record w {
      candidates = record_block (env.clock w.readings) account.email domain w.candidates;
      readings = w.readings + 1;
    },
  )

  unfoldable pub push_block : String → Option String → Exec World (Unit {0})
  push_block domain none = pure tt
  push_block domain (some pw) = do
    pushed ← push_block_script env cfg.auto_block account cfg.dry_run
    if pushed then emit (sieve_block_pushed account.email domain) else pure tt

  abbrev pub below : ℕ → Bool
  below hits = ltb_ℤ (pos hits) cfg.auto_block.hits_threshold

  unfoldable pub announce : Bool → String → ℕ → Exec World (Unit {0})
  announce apply domain count = do
    emit (sieve_block account.email domain count)
    if apply then (do pw ← get_password env account.email; push_block domain pw) else pure tt

  -- From the hit on, for the sender's domain.
  unfoldable pub register_offender : Bool → String → Exec World (Unit {0})
  register_offender apply domain = do
    hits ← hit domain
    if below hits then pure tt else (do
      count ← recent domain
      if below count then pure tt else (do
        already ← already_blocked domain
        if already then pure tt else (do block domain; announce apply domain count)))

  -- An empty domain is no domain.
  unfoldable pub register_sender : Bool → Option String → Exec World (Unit {0})
  register_sender apply none = pure tt
  register_sender apply (some domain) =
      if str_eq domain "" || not (has_sieve account)
      then pure tt
      else register_offender apply domain

  unfoldable pub maybe_register_offender : ClassificationResult → Bool → Exec World (Unit {0})
  maybe_register_offender result apply =
      if cfg.auto_block.enabled
      then register_sender apply (extract_domain result.from_addr)
      else pure tt

  -- After the MOVE.
  unfoldable pub after_move : ClassificationResult → String → Bool → Exec World String
  after_move result source_folder false = pure "move_failed"
  after_move result source_folder true = do
    emit (
        move_event account.email result.uid source_folder (resolved_junk_folder account)
          result.is_phishing)
    maybe_register_offender result true
    pure (if result.is_phishing then "move_junk_phishing" else "move_junk")

  unfoldable pub act : String → ClassificationResult → Exec World String
  act source_folder result =
      if not result.is_spam then pure "none" else if cfg.dry_run then pure "dry_run" else (do
        record_daemon_move account.email result.uid result.message_id
        done ← move_message env source result.uid source_folder (resolved_junk_folder account)
        after_move result source_folder done)

  module _ (detectors : Detectors) where
    unfoldable pub classify : Message → Exec World ClassificationResult
    classify m = do
      bayesian ← detect (detectors.bayesian m account.email)
      phish ← detect (detectors.phishing m account.email)
      similarity ← detect (detectors.similarity m account.email)
      pure (decide cfg m bayesian phish similarity)

    -- A message whose classification raises is left out.
    unfoldable pub process_classified : String → Option ClassificationResult → Exec World ℕ
    process_classified folder none = pure 0
    process_classified folder (some result) = do
      action ← act (or_text folder "INBOX") result
      emit (
          classification account.email result.uid result.combined_score result.is_spam
            result.is_phishing action)
      pure 1

    unfoldable pub process_messages : String → List Message → ℕ → Exec World ℕ
    process_messages folder [] processed = pure processed
    process_messages folder (m ∷ messages) processed = do
      result ← try_except (do r ← classify m; pure (some r)) (λ e. pure none)
      n ← process_classified folder result
      process_messages folder messages (processed + n)

    -- Any exception of the search is an empty list.
    unfoldable pub search_unseen : Exec World (List ℕ)
    search_unseen = try_except (search env source "UNSEEN") (λ e. pure [])

    unfoldable pub scan_unseen : String → Exec World ℕ
    scan_unseen folder = do
      found ← select_folder_ex env source folder true
      if found
          then (do
            unseen ← search_unseen
            messages ← fetch_uids env source folder unseen
            process_messages folder messages 0)
          else pure 0

    unfoldable pub process_with : String → Option String → Exec World ℕ
    process_with folder none = pure 0
    process_with folder (some pw) =
        try_finally (do connect env source (imap_username account) pw; scan_unseen folder)
          (disconnect env source)

    unfoldable pub process_account : String → Exec World ℕ
    process_account folder = do pw ← get_password env account.email; process_with folder pw
