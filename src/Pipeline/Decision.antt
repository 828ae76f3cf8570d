-- ===== src/Pipeline/Decision.antt =====
-- The verdict of pipeline.py, and its connection.
use ronzz_nextcloud.Imap.{disconnect, is_peer, set_connected}
use ronzz_nextcloud.Imap.Rules.{get_password-Runs}
use ronzz_nextcloud.Prelude.{
  String, arith, false, leb, max, ℕ, ◌||◌, ◌≡◌, Bool, Option, if◌then◌else◌, none, refl, some, true,
}
use ronzz_nextcloud.Prelude.Int.{pos}
use ronzz_nextcloud.Config.{AccountConfig, DaemonConfig}
use ronzz_nextcloud.World.{Env, Message, World, source, Peer, logged_out, record_event, target}
use ronzz_nextcloud.Errors.Runs.{Keeps, Runs-any, Runs-at, Runs-bind, Runs-finally, Runs-pure}
use ronzz_nextcloud.Pipeline.{Detectors, Phish, decide, process_account, process_with}

leb-max : (t a b : ℕ) → leb t (max a b) ≡ (leb t a || leb t b)
leb-max t a b = ground arith

-- A message is spam if and only if the text classifier or the similarity detector alone reaches
-- the threshold, or it is phishing.
pub is_spam-decide :
    (cfg : DaemonConfig) (m : Message) (bayesian similarity t : ℕ) (phish : Phish)
    → cfg.spam_threshold ≡ pos t
    → (decide cfg m bayesian phish similarity).is_spam
      ≡ (leb t bayesian || leb t similarity || phish.is_phishing)
unfolding decide
is_spam-decide cfg m bayesian similarity t phish h =
    ground (arith, h, leb-max t bayesian similarity)

disconnected-disconnect :
    (env : Env) (p : Peer) (w : World) → (disconnect env p w).connected p ≡ false
unfolding disconnect
disconnected-disconnect env p w = left (w.connected p) refl
  where
    left :
        (b : Bool)
        → w.connected p ≡ b
        → (if b then set_connected p false (record_event (logged_out p) w) else w).connected p
          ≡ false
    left true h = peer p
      where
        peer : (p : Peer) → (if is_peer p p then false else w.connected p) ≡ false
        peer source = refl
        peer target = refl
    left false h = h

-- After a scan of an account, however it ends, the client is not connected, if it was not
-- before.
pub disconnected-process_account :
    (env : Env) (cfg : DaemonConfig) (account : AccountConfig) (detectors : Detectors)
    (folder : String) (w : World)
    → w.connected source ≡ false
    → (process_account env cfg account detectors folder w).1.connected source ≡ false
unfolding process_account process_with
disconnected-process_account env cfg account detectors folder w h =
    Runs-at (process_account env cfg account detectors folder)
      (Runs-bind _ _ (get_password-Runs env account.email (λ w h. h)) runs) w h
  where
    runs :
        (pw : Option String)
        → Keeps (λ w. w.connected source ≡ false) (process_with env cfg account detectors folder pw)
    runs none = Runs-pure 0 (λ w h. h)
    runs (some pw) = Runs-finally _ _ (
        Runs-any _ (λ n. disconnected-disconnect env source)
          (λ e. disconnected-disconnect env source))
