-- ===== src/Training/Settled.antt =====
-- A scan of training.py that finds the Junk folder as the last one left it.
use ronzz_nextcloud.Prelude.{All, List, String, [], arith, refl, true, ℕ, ◌∷◌, ◌≡◌}
use ronzz_nextcloud.Config.{AccountConfig, TrainingConfig, resolved_junk_folder}
use ronzz_nextcloud.Errors.{ok, pure, ◌>>=◌}
use ronzz_nextcloud.World.{Env, World, source}
use ronzz_nextcloud.Imap.{fetch_message_ids}
use ronzz_nextcloud.Training.{
  Summary, has_uid, judge, load_known, load_state, reconcile, save_known, save_state, train_junk,
  train_moved,
}

module _ (env : Env) (cfg : TrainingConfig) (account : AccountConfig) where
  abbrev AllIn : List (ℕ × String) → List (ℕ × String) → Type 0
  AllIn d = All (λ x. has_uid env cfg account x.0 d ≡ true)

  AllIn-cons : (y : ℕ × String) (d e : List (ℕ × String)) → AllIn d e → AllIn (y ∷ d) e
  AllIn-cons y d [] h = tt
  AllIn-cons y d (x ∷ e) h = (ground (arith, h.0), AllIn-cons y d e h.1)

  AllIn-self : (d : List (ℕ × String)) → AllIn d d
  AllIn-self [] = tt
  AllIn-self (x ∷ d) = (ground arith, AllIn-cons x d d (AllIn-self d))

  train_junk-seen :
      (prev junk : List (ℕ × String)) (s : Summary) (w : World)
      → AllIn prev junk
      → train_junk env cfg account prev junk s w ≡ (ok s, w)
  unfolding train_junk judge ◌>>=◌ pure
  train_junk-seen prev [] s w h = refl
  train_junk-seen prev ((uid, m) ∷ junk) s w h = rw (h.0) (train_junk-seen prev junk s w h.1)

  train_moved-there :
      (junk inbox prev : List (ℕ × String)) (s : Summary) (w : World)
      → AllIn junk prev
      → train_moved env cfg account junk inbox prev s w ≡ (ok s, w)
  unfolding train_moved ◌>>=◌ pure
  train_moved-there junk inbox [] s w h = refl
  train_moved-there junk inbox ((uid, m) ∷ prev) s w h =
      rw (h.0) (train_moved-there junk inbox prev s w h.1)

-- A scan that reads the Junk folder as it was at the last scan, whatever the inbox holds, trains
-- nothing: it counts nothing and only stores the snapshot again.
pub reconcile-settled :
    (env : Env) (cfg : TrainingConfig) (account : AccountConfig) (w v u : World)
    (junk inbox : List (ℕ × String))
    → fetch_message_ids env source (resolved_junk_folder account) w ≡ (ok junk, v)
    → fetch_message_ids env source "INBOX" v ≡ (ok inbox, u)
    → load_state u.folder_states account.email (resolved_junk_folder account) ≡ junk
    → reconcile env cfg account w ≡ (
      ok (record { spam = 0; ham = 0; skipped_moved = 0 }),
      record u {
        folder_states =
            save_state account.email (resolved_junk_folder account) junk u.folder_states;
      },
    )
unfolding reconcile load_known save_known ◌>>=◌ pure
reconcile-settled env cfg account w v u junk inbox p q r =
    rw
      (
        p,
        q,
        r,
        train_junk-seen env cfg account junk junk (record { spam = 0; ham = 0; skipped_moved = 0 })
            u (AllIn-self env cfg account junk),
        train_moved-there env cfg account junk inbox junk
            (record { spam = 0; ham = 0; skipped_moved = 0 }) u (AllIn-self env cfg account junk),
      )
      refl
