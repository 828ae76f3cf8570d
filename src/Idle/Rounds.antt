-- ===== src/Idle/Rounds.antt =====
-- The reconnection of idle.py.
use native.Mathlib.Nat.{pow-le-pow_right}
use ronzz_nextcloud.Prelude.{
  All, List, [], suc, ℕ, ◌∷◌, ◌≤◌, arith, false, true, ◌<◌, ◌^◌, ◌||◌, ◌≡◌, Bool, if◌then◌else◌,
  length, map, min, refl, zero, ◌++◌, ◌+◌, ◌-◌,
}
use ronzz_nextcloud.Idle.{
  without_idle, Call, Round, Thread, auth_failed, base_retry_delay, max_retry_delay, notified,
  retry_delay, run, Run, before, counted, ended, max_reconnect_attempts, run_idle_loop, stop_if,
  Attempt, Notification, failed, refused, watch, watching, without_folder, without_idle,
}

abbrev pub IsDelay : ℕ → Type 0
IsDelay d = (base_retry_delay ≤ d) × (d ≤ max_retry_delay)

retry_delay-IsDelay : (count : ℕ) → IsDelay (retry_delay count)
unfolding retry_delay
retry_delay-IsDelay count = let p : 1 ≤ 2 ^ count = power count in (omega arith, omega arith)
  where
    power : (n : ℕ) → 1 ≤ 2 ^ n
    power n = pow-le-pow_right {n = 2} (omega arith) {i = 0} {j = n} (omega arith)

if_cases :
    (C : Run → Type 0) (b : Bool) (x y : Run)
    → (b ≡ true → C x)
    → (b ≡ false → C y)
    → C (if b then x else y)
if_cases C true x y f g = f refl
if_cases C false x y f g = g refl

-- What a run gives in each of the four ways a round goes on.
cases :
    (C : Run → Type 0) (r : Round) (rounds : List Round) (t : Thread)
    → let a : List Call × Thread = run_idle_loop r.attempt t in
      let u : Thread = counted (stop_if r.stop_before a.1) in
      (t.stopped ≡ true → C (ended [] (r ∷ rounds) t))
      → (t.stopped ≡ false
          → (a.1.stopped || r.stop_before) ≡ true
          → C (ended a.0 rounds (stop_if r.stop_before a.1)))
      → (t.stopped ≡ false
          → (a.1.stopped || r.stop_before) ≡ false
          → max_reconnect_attempts < u.reconnect_count
          → C (ended a.0 rounds u))
      → (t.stopped ≡ false
          → (a.1.stopped || r.stop_before) ≡ false
          → u.reconnect_count ≤ max_reconnect_attempts
          → C (before a.0 (retry_delay a.1.reconnect_count) (run rounds (stop_if r.stop_within u))))
      → C (run (r ∷ rounds) t)
unfolding run
cases C r rounds t stopped stops gives_up goes_on = if_cases C t.stopped _ _ stopped λ p.
    if_cases C _ _ _ (stops p)
      λ q. if_cases C _ _ _ (λ k. gives_up p q (ground arith)) (λ k. goes_on p q (ground arith))

-- Every wait of a thread, after any rounds, is at least the base delay and at most the maximum.
pub delays-run : (rounds : List Round) (t : Thread) → All IsDelay (run rounds t).delays
delays-run [] t = unfold run in tt
delays-run (r ∷ rounds) t =
    let rest = delays-run rounds _ in
    cases (λ x. All IsDelay x.delays) r rounds t (λ p. tt) (λ p q. tt) (λ p q k. tt)
      (λ p q k. (retry_delay-IsDelay _, rest))

-- The calls of on_auth_failure.
abbrev pub refusals : List Call → ℕ
refusals [] = 0
refusals (auth_failed ∷ calls) = suc (refusals calls)
refusals (notified n ∷ calls) = refusals calls

refusals-append : (xs ys : List Call) → refusals (xs ++ ys) ≡ refusals xs + refusals ys
refusals-append [] ys = omega arith
refusals-append (auth_failed ∷ xs) ys = omega (arith, refusals-append xs ys)
refusals-append (notified n ∷ xs) ys = refusals-append xs ys

refusals-notified : (ns : List Notification) → refusals (map notified ns) ≡ 0
refusals-notified [] = refl
refusals-notified (n ∷ ns) = refusals-notified ns

abbrev pub one_if : Bool → ℕ
one_if b = if b then 1 else 0

refusals-run_idle_loop :
    (a : Attempt) (t : Thread)
    → t.stopped ≡ false
    → refusals (run_idle_loop a t).0 ≡ one_if (run_idle_loop a t).1.stopped
unfolding run_idle_loop
refusals-run_idle_loop refused t h = refl
refusals-run_idle_loop failed t h = rw (h) refl
refusals-run_idle_loop without_idle t h = rw (h) refl
refusals-run_idle_loop without_folder t h = rw (h) refl
refusals-run_idle_loop (watching s) t h = rw (h) (refusals-notified (watch s))

-- After any rounds, on_auth_failure was called at most once, and only by a thread that has then
-- stopped.
pub refusals-run :
    (rounds : List Round) (t : Thread)
    → refusals (run rounds t).calls ≤ one_if (run rounds t).thread.stopped
refusals-run [] t = unfold run in omega arith
refusals-run (r ∷ rounds) t =
    let rest =
      refusals-run rounds
        (stop_if r.stop_within (counted (stop_if r.stop_before (run_idle_loop r.attempt t).1))) in
    let here = refusals-run_idle_loop r.attempt t in
    cases (λ x. refusals x.calls ≤ one_if x.thread.stopped) r rounds t (λ p. omega arith)
      (λ p q. ground (arith, here p)) (λ p q k. ground (arith, here p))
      (λ p q k. ground (
        arith,
        here p,
        q,
        rest,
        refusals-append (run_idle_loop r.attempt t).0
            (run rounds (
              stop_if r.stop_within
                (counted (stop_if r.stop_before (run_idle_loop r.attempt t).1)))).calls,
      ))

-- Rounds that all fail to connect, and in which nobody stops the thread.
abbrev pub failures : ℕ → List Round
failures zero = []
failures (suc n) =
    record { attempt = failed; stop_before = false; stop_within = false } ∷ failures n

length-failures : (n : ℕ) → length (failures n) ≡ n
length-failures zero = refl
length-failures (suc n) = omega (arith, length-failures n)

-- A thread that is not stopped and has counted at most ten attempts makes, if they all fail, the
-- attempts up to the eleventh of that count and leaves the others; it waits after each but the
-- eleventh.
pub gives_up :
    (n : ℕ) (t : Thread)
    → t.stopped ≡ false
    → t.reconnect_count ≤ max_reconnect_attempts
    → (length (run (failures n) t).unused ≡ n - (suc max_reconnect_attempts - t.reconnect_count))
      × (length (run (failures n) t).delays ≡ min n (max_reconnect_attempts - t.reconnect_count))
unfolding run_idle_loop
gives_up zero t h k = unfold run in (omega arith, omega arith)
gives_up (suc n) t h k =
    let u : Thread = record t {
      reconnect_count = t.reconnect_count + 1;
      connected = false;
      stopped = false;
    } in
    let rest = gives_up n u refl in
    let r : Round = record { attempt = failed; stop_before = false; stop_within = false } in
    cases
      (λ x.
        (length x.unused ≡ suc n - (suc max_reconnect_attempts - t.reconnect_count))
        × (length x.delays ≡ min (suc n) (max_reconnect_attempts - t.reconnect_count)))
      r (failures n) t (λ p. absurd cc) (λ p q. absurd (ground (arith, p, q)))
      (λ p q l. (omega (arith, length-failures n, l, k), omega (arith, l, k)))
      (λ p q l. rw (h) (omega (arith, (rest l).0, l, k), omega (arith, (rest l).1, l, k)))

-- Rounds with a server that has no IDLE, in which nobody stops the thread.
abbrev pub idle_less : ℕ → List Round
idle_less zero = []
idle_less (suc n) =
    record { attempt = without_idle; stop_before = false; stop_within = false } ∷ idle_less n

-- With a server that has no IDLE, a thread that nobody stops never gives up: it connects again in
-- every round, and waits the base delay each time.
pub never_gives_up :
    (n : ℕ) (t : Thread)
    → t.stopped ≡ false
    → ((run (idle_less n) t).unused ≡ [])
      × (length (run (idle_less n) t).delays ≡ n)
      × All (λ d. d ≡ base_retry_delay) (run (idle_less n) t).delays
unfolding run_idle_loop
never_gives_up zero t h = unfold run in (refl, refl, tt)
never_gives_up (suc n) t h =
    let r : Round = record { attempt = without_idle; stop_before = false; stop_within = false } in
    let u : Thread = stop_if false (counted (stop_if false (run_idle_loop without_idle t).1)) in
    let rest = never_gives_up n u (rw (h) refl) in
    cases
      (λ x. (x.unused ≡ []) × (length x.delays ≡ suc n) × All (λ d. d ≡ base_retry_delay) x.delays)
      r (idle_less n) t (λ p. absurd cc) (λ p q. absurd (ground (arith, p, q)))
      (λ p q l. absurd (omega (arith, l)))
      (λ p q l. (rest.0, omega (arith, rest.1), (unfold retry_delay in refl, rest.2)))
