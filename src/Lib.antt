-- ===== src/Lib.antt =====
-- mailwatch, the mail daemon of this repository (mailwatch/src/mailwatch): it watches IMAP
-- accounts, moves spam to Junk, trains its classifier on what users move, blocks repeat offenders
-- by Sieve scripts, and redirects a folder into another mailbox.
--
-- The parts and their files (paths below mailwatch/src/mailwatch):
--   Errors      errors.py: the exceptions as values, and actions `Exec S A` that change a state and
--               return or raise. Errors/Runs has the rules for what an action establishes.
--   Config      config.py: the configuration records and their derived values. Config/Toml has the
--               values of a document, Config/Load and Config/Daemon load_config with its errors,
--               Config/Ensures and Config/Valid what a loaded configuration satisfies.
--   Db          db.py: execute and transaction, over any answers of SQLite.
--   World       db.py, audit.py, keyring.py: the state that the parts share (rows of the tables, the
--               audit log, which clients are connected, the history of calls) and `Env`, which
--               answers every call of imaplib, managesieve, the keyring and the clock by any function
--               of the history. World/Writes says which calls change a mailbox or a script.
--   Imap        email/imap/client.py: IMAPClient. One function for each method that the daemon
--               calls; each call leaves an event with its outcome. Imap/Rules has a rule for each;
--               Imap/Fetched and Imap/Requests say where the messages come from.
--               The daemon does not call Imap/Listing (list_folders), Imap/Queries (the other
--               searches and copy_message), Imap/Dates and Imap/Names.
--               Imap/Parser and Imap/Helpers: email/imap/parser.py, helpers.py, capabilities.py.
--   Domain      email/filters/spam_similarity.py: _extract_domain.
--   SpamDetect  email/filters/spam_detect.py: SpamTrainer with its file and the probability of a
--               token. SpamDetect/Tokenize has the tokens of a message, SpamDetect/Chi2 the
--               combination of probabilities, SpamDetect/Classify SpamClassifier.classify.
--   Similarity  email/filters/spam_similarity.py: SimilarityDetector on its two tables (add_spam;
--               Similarity/Check: check_similarity and check_repeated), over the signatures of
--               Similarity/Signature.
--   Phishing    email/filters/phishing.py: PhishingDetector on its tables. Phishing/Parse has the
--               links and addresses, Phishing/Brands the brands, Phishing/Feeds update_feeds.
--   SieveBlock  sieve_block.py: the table block_candidates; Sieve: its script and the upload.
--               Sieve/Manager: email/filters/sieve.py.
--   Pipeline    pipeline.py: MailwatchPipeline, over Imap, SieveBlock, Sieve and three detectors.
--               Pipeline/Detection fills two of these with Phishing and Similarity.
--   Training    training.py: TrainingIdler, over Imap and the tables of World.
--   Redirector  redirector.py: Redirector, over two clients of Imap.
--   Backoff     backoff.py: ConnectionBackoff.
--   Watcher     watcher.py: MailwatchDaemon with AccountLock of pipeline.py: the handlers of
--               notifications, the rounds of the loops and the single pass, over Pipeline, Training,
--               Redirector and Backoff. Watcher/Steps makes them a transition system. Watcher/Commands
--               has main with its lock file and the password command, Watcher/Schedulers the feed
--               loop.
--   Idle        email/imap/idle.py: IMAPIdleThread, as what it does in a list of rounds, and
--               IMAPIdleManager (Idle/Manager).
--   Prelude     shared names, lists, dicts, texts, signed numbers; Samples: data for the tests.
--
-- How the code is read: numbers are natural numbers or pairs of a sign and one; clock readings are
-- in microseconds, scores in units of 1/10000, delays whole microseconds. A reply of a server is
-- OK with its data, another reply (false or none), or an exception; what imaplib's replies contain
-- is parsed by the environment. Python's int, float and str on the values of a document, the
-- digests of hashlib, the rows that httpx, csv and json read from a feed, and the replies of
-- sqlite3 are parameters, and so are the floating-point operations of the classifier and what the
-- email package decodes. The character classes of regular expressions and lower() are read on
-- ASCII. A handler of the daemon is one step, which holds its account's lock throughout. Loops run
-- over lists and are structural, and the two of _gammainc over their 199 turns. The fuel of
-- `chunks` is the number of UIDs and that of `search_address` the number of characters and one,
-- and each step of them uses at least one of these; that of `decode_imap_utf7` is the number of
-- characters, for the same reason; that of `decimal` is the number and one, which exceeds the
-- number of digits.
--
-- Not modelled: the rounding of the floating-point numbers (the classifier's score in the pipeline
-- is any number), the end of a daemon loop or IDLE callback by the OverflowError of the backoff's
-- power (Backoff has it as an outcome; the Watcher goes on from the state it leaves), the schema
-- and pragmas of SQLite, log messages, signals and the parsing of arguments. The web applications
-- and patches beside mailwatch are not part of this.
pub mod Prelude
pub mod Errors
pub mod Config
pub mod SieveBlock
pub mod World
pub mod Db
pub mod Imap
pub mod Domain
pub mod Sieve
pub mod Pipeline
pub mod Samples
pub mod Training
pub mod SpamDetect
pub mod Similarity
pub mod Phishing
pub mod Redirector
pub mod Backoff
pub mod Watcher
pub mod Idle
