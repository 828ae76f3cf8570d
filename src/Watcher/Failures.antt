-- ===== src/Watcher/Failures.antt =====
-- What watcher.py does with the outcome of a scan.
use ronzz_nextcloud.Prelude.{
  ap, ◌∙◌, eq_iff, arith, Bool, String, eq_refl, false, if◌then◌else◌, refl, true, ℕ, ◌&&◌, ◌+◌,
  ◌≡◌, Option, none, some,
}
use ronzz_nextcloud.Prelude.Dict
use ronzz_nextcloud.Prelude.Dict.{Dict, get-put, get-remove, put, get}
use ronzz_nextcloud.Config.{MailwatchConfig}
use ronzz_nextcloud.Errors.{
  Result, auth_error, connection_error, exit_auth_failure, imap_abort, imap_error, ok, os_error,
  other_error, raised, runtime_error, Exec,
}
use ronzz_nextcloud.World.{Env, emit, World, auth_failure}
use ronzz_nextcloud.Watcher.{
  Daemon, back_off, hold, is_held, on_auth_failure, on_connection_failure, on_exception, on_success,
  release, settle, free, guarded, locked,
}
use ronzz_nextcloud.Pipeline.{Detectors}
use ronzz_nextcloud.Backoff.{Uniform, consecutive_failures, record_failure, record_success}

-- A lock that is asked for, held and freed is as it was, and so are the others.
pub is_held-release :
    (e f : String) (d x : Daemon)
    → is_held d.locks e ≡ false
    → x.locks ≡ Dict.put d.locks e true
    → is_held (release e x).locks f ≡ is_held d.locks f
unfolding release is_held
is_held-release e f d x h p =
    rw (p, get-put d.locks e e true, eq_refl e)
      (ground (
        arith,
        h,
        p,
        get-put (Dict.put d.locks e true) e f false,
        get-put d.locks e f true,
        eq_iff e f,
      ))

-- Only the locks change.
pub release_lem :
    (email : String) (d : Daemon)
    → ((release email d).backoff ≡ d.backoff)
      × ((release email d).stopped ≡ d.stopped)
      × ((release email d).exit_code ≡ d.exit_code)
      × ((release email d).world ≡ d.world)
unfolding release
release_lem email d = freed (Dict.get d.locks email)
  where
    freed :
        (b : Option Bool)
        → ((free b email d).backoff ≡ d.backoff)
          × ((free b email d).stopped ≡ d.stopped)
          × ((free b email d).exit_code ≡ d.exit_code)
          × ((free b email d).world ≡ d.world)
    freed none = (refl, refl, refl, refl)
    freed (some b) = (refl, refl, refl, refl)

-- The count of failures after an outcome, when the daemon was not stopped.
abbrev pub count_after : {A : Type 0} → Bool → Result A → ℕ → ℕ
count_after stop (ok a) n = 0
count_after stop (raised auth_error) n = if stop then n else n + 1
count_after stop (raised connection_error) n = n + 1
count_after stop (raised e) n = n

abbrev pub is_auth_failure : {A : Type 0} → Result A → Bool
is_auth_failure (raised auth_error) = true
is_auth_failure _ = false

module _ (env : Env) (monotonic : ℕ → ℕ) (random : ℕ → Uniform) (cfg : MailwatchConfig)
    (detectors : Detectors) where
  consecutive_failures-back_off :
      (email : String) (d : Daemon)
      → consecutive_failures (back_off env monotonic random cfg detectors email d).backoff email
        ≡ consecutive_failures d.backoff email + 1
  unfolding back_off record_failure consecutive_failures
  consecutive_failures-back_off email d = rw (get-put, eq_refl) refl

  abbrev Settled : {A : Type 0} → Bool → Result A → String → Daemon → Daemon → Type 0
  Settled stop r email d after =
      (consecutive_failures after.backoff email
        ≡ count_after stop r (consecutive_failures d.backoff email))
      × (after.stopped ≡ (is_auth_failure r && stop))
      × (after.exit_code ≡ (if is_auth_failure r && stop then exit_auth_failure else d.exit_code))
      × (after.locks ≡ d.locks)

  auth_lem :
      (A : Type 0) (stopped stop : Bool) (email : String) (d : Daemon)
      → stopped ≡ false
      → d.stopped ≡ false
      → Settled {A = A} stop (raised auth_error) email d (
          let told = record d {
            world =
                (emit (auth_failure email cfg.daemon.connection.stop_on_auth_failure) d.world).1;
          } in
          if stopped
          then d
          else if stop
          then record told { exit_code = exit_auth_failure; stopped = true }
          else back_off env monotonic random cfg detectors email told)
  auth_lem A true stop email d p h = absurd cc
  auth_lem A false true email d p h = (refl, refl, refl, refl)
  auth_lem A false false email d p h = (
    consecutive_failures-back_off email _,
    unfold back_off in h,
    unfold back_off in refl,
    unfold back_off in refl,
  )

  settle_lem :
      {A : Type 0} (r : Result A) (email : String) (d : Daemon)
      → d.stopped ≡ false
      → Settled cfg.daemon.connection.stop_on_auth_failure r email d (
          settle env monotonic random cfg detectors
            (on_success env monotonic random cfg detectors)
            r
            email
            d)
  unfolding settle on_exception on_auth_failure on_connection_failure on_success emit
  settle_lem (ok a) email d h =
      (unfold consecutive_failures record_success in rw (get-remove, eq_refl) refl, h, refl, refl)
  settle_lem (raised connection_error) email d h = (
    consecutive_failures-back_off email d,
    unfold back_off in h,
    unfold back_off in refl,
    unfold back_off in refl,
  )
  settle_lem {A} (raised auth_error) email d h =
      auth_lem A d.stopped cfg.daemon.connection.stop_on_auth_failure email d h h
  settle_lem (raised imap_error) email d h = (refl, h, refl, refl)
  settle_lem (raised imap_abort) email d h = (refl, h, refl, refl)
  settle_lem (raised os_error) email d h = (refl, h, refl, refl)
  settle_lem (raised runtime_error) email d h = (refl, h, refl, refl)
  settle_lem (raised other_error) email d h = (refl, h, refl, refl)

-- The outcome of a scan by a notification or a pass, when its lock is free and the daemon is not
-- stopped. A scan that returns clears the account's failures, a connection failure counts one
-- more, an authentication failure stops the daemon with its exit code if the configuration says
-- so and else counts one more, and any other exception changes none of this. In every case the
-- locks that are held afterwards are those that were held before.
pub locked_lem :
    {A : Type 0} (env : Env) (monotonic : ℕ → ℕ) (random : ℕ → Uniform) (cfg : MailwatchConfig)
    (detectors : Detectors) (m : Exec World A) (email : String) (d : Daemon)
    → is_held d.locks email ≡ false
    → d.stopped ≡ false
    → let stop : Bool = cfg.daemon.connection.stop_on_auth_failure in
      let r : Result A = (m d.world).0 in
      let after : Daemon =
        locked env monotonic random cfg detectors m
          (on_success env monotonic random cfg detectors)
          email
          d in
      (consecutive_failures after.backoff email
        ≡ count_after stop r (consecutive_failures d.backoff email))
      × (after.stopped ≡ (is_auth_failure r && stop))
      × (after.exit_code ≡ (if is_auth_failure r && stop then exit_auth_failure else d.exit_code))
      × ((f : String) → is_held after.locks f ≡ is_held d.locks f)
unfolding locked guarded
locked_lem {A} env monotonic random cfg detectors m email d free h = rw (free) (
    let held : Daemon = record (hold email d) { world = (m d.world).1 } in
    let x : Daemon =
      settle env monotonic random cfg detectors (on_success env monotonic random cfg detectors)
        (m d.world).0 email held in
    let settled = settle_lem env monotonic random cfg detectors (m d.world).0 email held h in
    let left = release_lem email x in
    (
      ap (λ b. consecutive_failures b email) left.0 ∙ settled.0,
      left.1 ∙ settled.1,
      left.2 ∙ settled.2,
      λ f. is_held-release email f d x free settled.3,
    ))
