-- ===== src/Idle/Manager/Lost.antt =====
-- IMAPIdleManager of idle.py loses no thread.
use ronzz_nextcloud.Prelude.{
  Bool-cases, inl, inr, any, eq_iff, eq_refl, sym, ap, refl, arith, Bool, List, Option, [], false,
  if◌then◌else◌, none, not, some, true, ℕ, ◌&&◌, ◌+◌, ◌==◌, ◌∙◌, ◌∷◌, ◌≡◌, ◌≢◌, ◌⊎◌,
}
use ronzz_nextcloud.Idle.Manager.{
  Key, Manager, Operation, all_stop, exits, is_running, key_eq, perform_all, restart_for_account,
  restarts, set_alive, start_for_account, starts, stop, stop_all, stop_for_account, stop_keys,
  stops, thread_of, with_thread, without_thread,
}

thread_of-with_thread :
    (d : List (Key × ℕ)) (k j : Key) (i : ℕ)
    → thread_of (with_thread d k i) j ≡ (if key_eq k j then some i else thread_of d j)
unfolding thread_of with_thread
thread_of-with_thread [] k j i = refl
thread_of-with_thread ((h, n) ∷ d) k j i = ground (
  arith,
  thread_of-with_thread d k j i,
  eq_iff h.0 k.0,
  eq_iff h.1 k.1,
  eq_iff h.0 j.0,
  eq_iff h.1 j.1,
  eq_iff k.0 j.0,
  eq_iff k.1 j.1,
)

thread_of-without_thread :
    (d : List (Key × ℕ)) (k j : Key)
    → thread_of (without_thread d k) j ≡ (if key_eq k j then none else thread_of d j)
unfolding thread_of without_thread
thread_of-without_thread [] k j = ground arith
thread_of-without_thread ((h, n) ∷ d) k j = ground (
  arith,
  thread_of-without_thread d k j,
  eq_iff h.0 k.0,
  eq_iff h.1 k.1,
  eq_iff h.0 j.0,
  eq_iff h.1 j.1,
  eq_iff k.0 j.0,
  eq_iff k.1 j.1,
)

-- Every thread that is alive is in the table, under some key.
pub record NoneLost (m : Manager) : Type 0 where
  pub key_of : (i : ℕ) → m.alive i ≡ true → (k : Key) × (thread_of m.threads k ≡ some i)

thread_of-key_eq :
    (d : List (Key × ℕ)) (a b : Key) → key_eq a b ≡ true → thread_of d a ≡ thread_of d b
unfolding thread_of
thread_of-key_eq [] a b h = refl
thread_of-key_eq ((j, i) ∷ d) a b h = ground (
  arith,
  thread_of-key_eq d a b h,
  eq_iff a.0 b.0,
  eq_iff a.1 b.1,
  eq_iff j.0 a.0,
  eq_iff j.1 a.1,
  eq_iff j.0 b.0,
  eq_iff j.1 b.1,
)

start_for_account-NoneLost :
    (key : Key) (m : Manager) → NoneLost m → NoneLost (start_for_account key m).1
unfolding start_for_account
start_for_account-NoneLost key m h = started (is_running m (thread_of m.threads key)) refl
  where
    new : Manager
    new =
        set_alive m.created true
          (record m { threads = with_thread m.threads key m.created; created = m.created + 1 })

    kept :
        (i : ℕ) (k : Key) (b : Bool)
        → is_running m (thread_of m.threads key) ≡ false
        → m.alive i ≡ true
        → thread_of m.threads k ≡ some i
        → key_eq key k ≡ b
        → (if b then some m.created else thread_of m.threads k) ≡ some i
    kept i k false e a p q = p
    kept i k true e a p q =
        (let z : false ≡ true =
            sym e ∙ ap (is_running m) (thread_of-key_eq m.threads key k q ∙ p) ∙ a in
          absurd cc)

    found :
        (i : ℕ) (b : Bool)
        → is_running m (thread_of m.threads key) ≡ false
        → (m.created == i) ≡ b
        → (if b then true else m.alive i) ≡ true
        → (k : Key) × (thread_of (with_thread m.threads key m.created) k ≡ some i)
    found i true e q a = (
      key,
      thread_of-with_thread m.threads key key m.created
          ∙ ground (arith, q, eq_refl key.0, eq_refl key.1),
    )
    found i false e q a =
        let kp = h.key_of i a in
        (
          kp.0,
          thread_of-with_thread m.threads key kp.0 m.created
              ∙ kept i kp.0 (key_eq key kp.0) e a kp.1 refl,
        )

    started :
        (b : Bool)
        → is_running m (thread_of m.threads key) ≡ b
        → let r : Bool × Manager = if b then (false, m) else (true, new) in NoneLost r.1
    started true e = h
    started false e = record { key_of = λ i a. found i (m.created == i) e refl a }

stop_for_account-NoneLost :
    (joins : ℕ → Bool) (key : Key) (m : Manager)
    → ((i : ℕ) → joins i ≡ true)
    → NoneLost m
    → NoneLost (stop_for_account joins key m)
unfolding stop_for_account
stop_for_account-NoneLost joins key m ends h = popped (thread_of m.threads key) refl
  where
    kept :
        (i : ℕ) (o : Option ℕ) (k : Key) (b : Bool)
        → thread_of m.threads key ≡ o
        → o ≢ some i
        → thread_of m.threads k ≡ some i
        → key_eq key k ≡ b
        → (if b then none else thread_of m.threads k) ≡ some i
    kept i o k false e n p q = p
    kept i o k true e n p q = absurd (n (sym e ∙ thread_of-key_eq m.threads key k q ∙ p))

    left :
        (i : ℕ) (o : Option ℕ)
        → thread_of m.threads key ≡ o
        → o ≢ some i
        → m.alive i ≡ true
        → (k : Key) × (thread_of (without_thread m.threads key) k ≡ some i)
    left i o e n a =
        let kp = h.key_of i a in
        (
          kp.0,
          thread_of-without_thread m.threads key kp.0
              ∙ kept i o kp.0 (key_eq key kp.0) e n kp.1 refl,
        )

    stopped :
        (n i : ℕ) (b : Bool)
        → thread_of m.threads key ≡ some n
        → (n == i) ≡ b
        → (if b then m.alive n && not (joins n) else m.alive i) ≡ true
        → (k : Key) × (thread_of (without_thread m.threads key) k ≡ some i)
    stopped n i true e q a = absurd (ground (arith, ends n, a))
    stopped n i false e q a = left i (some n) e (λ r. ground (arith, r, q)) a

    popped :
        (o : Option ℕ)
        → thread_of m.threads key ≡ o
        → NoneLost (stop joins o (record m { threads = without_thread m.threads key }))
    popped none e = record { key_of = λ i a. left i none e (λ r. cc) a }
    popped (some n) e = record { key_of = λ i a. stopped n i (n == i) e refl a }

module _ (joins : ℕ → Bool) (ends_in_time : (i : ℕ) → joins i ≡ true) where
  stop_keys-NoneLost :
      (d : List (Key × ℕ)) (m : Manager) → NoneLost m → NoneLost (stop_keys joins d m)
  unfolding stop_keys
  stop_keys-NoneLost [] m h = h
  stop_keys-NoneLost ((key, i) ∷ d) m h =
      stop_keys-NoneLost d (stop_for_account joins key m)
        (stop_for_account-NoneLost joins key m ends_in_time h)

  set_dead-NoneLost : (i : ℕ) (m : Manager) → NoneLost m → NoneLost (set_alive i false m)
  set_dead-NoneLost i m h = record { key_of = λ j a. h.key_of j (alive j (i == j) a) }
    where
      alive : (j : ℕ) (b : Bool) → (if b then false else m.alive j) ≡ true → m.alive j ≡ true
      alive j true a = absurd cc
      alive j false a = a

  perform_all-NoneLost :
      (os : List Operation) (m : Manager) → NoneLost m → NoneLost (perform_all joins os m)
  unfolding restart_for_account stop_all
  perform_all-NoneLost [] m h = h
  perform_all-NoneLost (starts key ∷ os) m h =
      perform_all-NoneLost os _ (start_for_account-NoneLost key m h)
  perform_all-NoneLost (stops key ∷ os) m h =
      perform_all-NoneLost os _ (stop_for_account-NoneLost joins key m ends_in_time h)
  perform_all-NoneLost (restarts key ∷ os) m h =
      perform_all-NoneLost os _
        (start_for_account-NoneLost key _ (stop_for_account-NoneLost joins key m ends_in_time h))
  perform_all-NoneLost (all_stop ∷ os) m h =
      perform_all-NoneLost os _ (stop_keys-NoneLost m.threads m h)
  perform_all-NoneLost (exits i ∷ os) m h = perform_all-NoneLost os _ (set_dead-NoneLost i m h)

  abbrev has_key : List (Key × ℕ) → Key → Bool
  has_key d k = any (λ e. key_eq e.0 k) d

  threads-stop_for_account :
      (key : Key) (m : Manager)
      → (stop_for_account joins key m).threads ≡ without_thread m.threads key
  unfolding stop_for_account
  threads-stop_for_account key m = popped (thread_of m.threads key)
    where
      popped :
          (o : Option ℕ)
          → (stop joins o (record m { threads = without_thread m.threads key })).threads
            ≡ without_thread m.threads key
      popped none = refl
      popped (some i) = refl

  thread_of-stop_keys :
      (d : List (Key × ℕ)) (m : Manager) (k : Key)
      → thread_of (stop_keys joins d m).threads k
        ≡ (if has_key d k then none else thread_of m.threads k)
  unfolding stop_keys
  thread_of-stop_keys [] m k = refl
  thread_of-stop_keys ((key, i) ∷ d) m k =
      thread_of-stop_keys d (stop_for_account joins key m) k
      ∙ rw (threads-stop_for_account key m, thread_of-without_thread m.threads key k) (ground arith)

  has_key-thread_of : (d : List (Key × ℕ)) (k : Key) → has_key d k ≡ false → thread_of d k ≡ none
  unfolding thread_of
  has_key-thread_of [] k h = refl
  has_key-thread_of ((j, i) ∷ d) k h = ground (arith, has_key-thread_of d k)

  -- If every thread that is told to stop ends within the timeout, then from a manager without a
  -- live thread, after any operations and threads that end by themselves, `stop_all` leaves no
  -- thread alive.
  pub stop_all_lem :
      (os : List Operation) (m : Manager) (i : ℕ)
      → ((j : ℕ) → m.alive j ≡ false)
      → (stop_all joins (perform_all joins os m)).alive i ≡ false
  unfolding stop_all
  stop_all_lem os m i h = dead (Bool-cases (x.alive i))
    where
      v : Manager
      v = perform_all joins os m

      x : Manager
      x = stop_keys joins v.threads v

      gone : (k : Key) (b : Bool) → has_key v.threads k ≡ b → thread_of x.threads k ≡ none
      gone k true e = thread_of-stop_keys v.threads v k ∙ rw (e) refl
      gone k false e = thread_of-stop_keys v.threads v k ∙ rw (e) (has_key-thread_of v.threads k e)

      good : NoneLost x
      good = stop_keys-NoneLost v.threads v (
          perform_all-NoneLost os m
            (record { key_of = λ j a. (let z : false ≡ true = sym (h j) ∙ a in absurd cc) }))

      dead : (x.alive i ≡ true) ⊎ (x.alive i ≡ false) → x.alive i ≡ false
      dead (inr e) = e
      dead (inl e) =
          let kp = good.key_of i e in
          let g = gone kp.0 (has_key v.threads kp.0) refl in
          (let z : none ≡ some i = sym g ∙ kp.1 in absurd cc)
