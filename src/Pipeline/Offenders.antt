-- ===== src/Pipeline/Offenders.antt =====
-- When pipeline.py blocks a sender.
use ronzz_nextcloud.Prelude.{
  Bool, String, arith, false, if◌then◌else◌, refl, true, ℕ, ◌*◌, ◌+◌, ◌||◌, ◌≡◌, ◌≤◌, sym, not,
  ◌&&◌, ap, ◌∙◌, eq_iff,
}
use ronzz_nextcloud.Prelude.Int.{pos}
use ronzz_nextcloud.Errors.{pure, ◌>>◌, ◌>>=◌}
use ronzz_nextcloud.Errors.Runs.{Runs, Runs-bind, Runs-if, Runs-pure, Runs-known, Runs-at}
use ronzz_nextcloud.Config.{AccountConfig, DaemonConfig}
use ronzz_nextcloud.World.{Env, World}
use ronzz_nextcloud.SieveBlock.{Candidates, day, is_listed, record_block, register_hit}
use ronzz_nextcloud.Pipeline.Acting.{announce-Keeps}
use ronzz_nextcloud.SieveBlock.Hits.{
  is_listed-register_hit, count_recent_hits-register_hit, hits, hits-register_hit, same_key,
  has_row-register_hit, is_listed-record_block,
}
use ronzz_nextcloud.Pipeline.{
  announce, below, hit, recent, block, already_blocked, register_offender,
}

module _ (env : Env) (cfg : DaemonConfig) (account : AccountConfig) (domain : String)
    (rows : Candidates) (k n : ℕ) (days : cfg.auto_block.window_days ≡ pos n)
    (soon : env.clock (k + 1) ≤ env.clock k + n * day) where
  abbrev after_hit : Candidates
  after_hit = (register_hit (env.clock k) account.email domain rows).1

  -- The table after the hit, and after the block, if the sender is blocked.
  abbrev final : Candidates
  final =
      if below env cfg account (hits account.email domain rows + 1)
        || is_listed account.email domain rows
      then after_hit
      else record_block (env.clock (k + 2)) account.email domain after_hit

  abbrev Final : World → Type 0
  Final w = w.candidates ≡ final

  record At (reading : ℕ) (w : World) : Type 0 where
    table : w.candidates ≡ after_hit
    clock : w.readings ≡ reading

  record Start (w : World) : Type 0 where
    table : w.candidates ≡ rows
    clock : w.readings ≡ k

  hit-Runs :
      Runs Start
        (hit env cfg account domain)
        (λ c w. (c ≡ hits account.email domain rows + 1) × At (k + 1) w)
        (λ e. Final)
  unfolding hit
  hit-Runs = record {
    at = λ w s. (
      rw (s.clock, s.table)
          ((hits-register_hit (env.clock k) account.email domain account.email domain rows).0),
      record { table = rw (s.clock, s.table) refl; clock = rw s.clock refl },
    );
  }

  recent-Runs :
      Runs
        (At (k + 1))
        (recent env cfg account domain)
        (λ c w. (c ≡ hits account.email domain rows + 1) × At (k + 2) w)
        (λ e. Final)
  unfolding recent
  recent-Runs = record {
    at = λ w s. (
      rw (s.clock, s.table, days)
          (count_recent_hits-register_hit (env.clock k) (env.clock (k + 1)) n account.email domain
            rows soon),
      record { table = s.table; clock = omega (arith, s.clock) },
    );
  }

  blocks-Runs :
      (apply already : Bool)
      → already ≡ is_listed account.email domain rows
      → below env cfg account (hits account.email domain rows + 1) ≡ false
      → Runs
          (At (k + 2))
          (if already then pure tt else (do
            block env cfg account domain
            announce env cfg account apply domain (hits account.email domain rows + 1)))
          (λ u. Final)
          (λ e. Final)
  unfolding block
  blocks-Runs apply already listed reached =
      Runs-if already _ _ (λ b. Runs-pure tt (λ w s. rw (s.table, sym listed, b, reached) refl))
        (λ b.
          Runs-bind {Q = λ u. Final} _ _
            (record { at = λ w s. rw (s.table, s.clock, sym listed, b, reached) refl })
            λ u.
              announce-Keeps env cfg account {P = Final} (record { audits = λ w a h. h })
                (record {
                  connects = λ w e r h. h;
                  puts = λ w n x r h. h;
                  activates = λ w n r h. h;
                })
                apply domain _)

  register_offender-Runs :
      (apply : Bool)
      → Runs Start (register_offender env cfg account apply domain) (λ u. Final) (λ e. Final)
  unfolding register_offender already_blocked
  register_offender-Runs apply = Runs-bind _ _ hit-Runs λ c.
      Runs-known
        (λ c. if below env cfg account c then pure tt else (do
          count ← recent env cfg account domain
          if below env cfg account count then pure tt else (do
            already ← already_blocked env cfg account domain
            if already then pure tt else (do
              block env cfg account domain
              announce env cfg account apply domain count))))
        (Runs-if _ _ _ (λ b. Runs-pure tt (λ w s. rw (s.table, b) refl))
          (λ b. Runs-bind _ _ recent-Runs λ c.
            Runs-known
              (λ count. if below env cfg account count then pure tt else (do
                already ← already_blocked env cfg account domain
                if already then pure tt else (do
                  block env cfg account domain
                  announce env cfg account apply domain count)))
              (Runs-if _ _ _ (λ b. Runs-pure tt (λ w s. rw (s.table, b) refl))
                (λ b.
                  Runs-bind {Q = λ a w. (a ≡ is_listed account.email domain rows) × At (k + 2) w} _
                    _
                    (record {
                      at = λ w s. (
                        rw (s.table) (
                            is_listed-register_hit (env.clock k) account.email domain account.email
                              domain rows),
                        s,
                      );
                    })
                    λ a. record { at = λ w s. (blocks-Runs apply a s.0 b).at w s.1 }))))

  is_listed-final :
      (b e : String)
      → is_listed b e final ≡ (
          is_listed b e rows
          || (same_key account.email domain b e
              && not (below env cfg account (hits account.email domain rows + 1))))
  is_listed-final b e =
      split (below env cfg account (hits account.email domain rows + 1))
        (is_listed account.email domain rows) refl
    where
      split :
          (low listed : Bool)
          → is_listed account.email domain rows ≡ listed
          → is_listed b e (
              if low || listed
              then after_hit
              else record_block (env.clock (k + 2)) account.email domain after_hit)
            ≡ (is_listed b e rows || (same_key account.email domain b e && not low))
      split true listed h =
          is_listed-register_hit (env.clock k) account.email domain b e rows ∙ ground arith
      split false true h =
          is_listed-register_hit (env.clock k) account.email domain b e rows
          ∙ ground (arith, h, eq_iff account.email b, eq_iff domain e)
      split false false h =
          is_listed-record_block (env.clock (k + 2)) account.email domain b e after_hit
          ∙ rw
              (
                is_listed-register_hit (env.clock k) account.email domain b e rows,
                has_row-register_hit (env.clock k) account.email domain rows,
              )
              refl

-- After a message of a domain is registered as an offence, when at most the window has passed
-- between its two readings of the clock, exactly these senders are blocked: the ones that were
-- blocked, and the domain itself, if its stored hits and this one reach the threshold. It is
-- so whether the block can then be announced and pushed or not.
pub is_listed-register_offender :
    (env : Env) (cfg : DaemonConfig) (account : AccountConfig) (domain : String) (w : World) (n : ℕ)
    (apply : Bool) (b e : String)
    → cfg.auto_block.window_days ≡ pos n
    → env.clock (w.readings + 1) ≤ env.clock w.readings + n * day
    → is_listed b e (register_offender env cfg account apply domain w).1.candidates ≡ (
        is_listed b e w.candidates
        || (same_key account.email domain b e
            && not (below env cfg account (hits account.email domain w.candidates + 1))))
is_listed-register_offender env cfg account domain w n apply b e days soon =
    ap (is_listed b e) (
      Runs-at (register_offender env cfg account apply domain)
        (register_offender-Runs env cfg account domain w.candidates w.readings n days soon apply) w
        (record { table = refl; clock = refl }))
    ∙ is_listed-final env cfg account domain w.candidates w.readings n days soon b e
