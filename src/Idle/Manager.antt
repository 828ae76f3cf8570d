-- ===== src/Idle/Manager.antt =====
-- mailwatch/src/mailwatch/email/imap/idle.py: IMAPIdleManager. A thread is a number; a table of
-- the threads by account and folder, and which threads are alive. Whether a thread that is told to
-- stop ends within the timeout of the join is a parameter.
pub mod Lost
use ronzz_nextcloud.Prelude.{
  Bool-cases, inl, inr, any, eq_refl, sym, Bool, List, Option, String, [], arith, eq_iff, false,
  if◌then◌else◌, none, not, refl, some, str_eq, true, ℕ, ◌&&◌, ◌+◌, ◌==◌, ◌∷◌, ◌≡◌, ap, ◌∙◌, ◌≢◌,
  ◌⊎◌,
}

abbrev pub Key : Type 0
Key = String × String

abbrev pub key_eq : Key → Key → Bool
key_eq a b = str_eq a.0 b.0 && str_eq a.1 b.1

-- `self._threads.get(key)`
unfoldable pub thread_of : List (Key × ℕ) → Key → Option ℕ
thread_of [] k = none
thread_of ((j, i) ∷ d) k = if key_eq j k then some i else thread_of d k

-- `self._threads[key] = thread`
unfoldable pub with_thread : List (Key × ℕ) → Key → ℕ → List (Key × ℕ)
with_thread [] k i = (k, i) ∷ []
with_thread ((j, h) ∷ d) k i = if key_eq j k then (j, i) ∷ d else (j, h) ∷ with_thread d k i

-- `self._threads.pop(key, None)`
unfoldable pub without_thread : List (Key × ℕ) → Key → List (Key × ℕ)
without_thread [] k = []
without_thread ((j, h) ∷ d) k =
    let rest = without_thread d k in if key_eq j k then rest else (j, h) ∷ rest

pub record Manager : Type 0 where
  pub threads : List (Key × ℕ)
  pub alive : ℕ → Bool
  pub created : ℕ

-- `existing and existing.is_alive`
abbrev pub is_running : Manager → Option ℕ → Bool
is_running m none = false
is_running m (some i) = m.alive i

abbrev pub set_alive : ℕ → Bool → Manager → Manager
set_alive i b m = record m { alive = λ j. if i == j then b else m.alive j }

-- Whether a thread was started, and the manager.
unfoldable pub start_for_account : Key → Manager → Bool × Manager
start_for_account key m = if is_running m (thread_of m.threads key) then (false, m) else (
  true,
  set_alive m.created true
      (record m { threads = with_thread m.threads key m.created; created = m.created + 1 }),
)

module _ (joins : ℕ → Bool) where
  -- IMAPIdleThread.stop
  abbrev pub stop : Option ℕ → Manager → Manager
  stop none m = m
  stop (some i) m = set_alive i (m.alive i && not (joins i)) m

  unfoldable pub stop_for_account : Key → Manager → Manager
  stop_for_account key m =
      stop (thread_of m.threads key) (record m { threads = without_thread m.threads key })

  unfoldable pub restart_for_account : Key → Manager → Bool × Manager
  restart_for_account key m = start_for_account key (stop_for_account key m)

  -- The keys are read before the first is stopped.
  unfoldable pub stop_keys : List (Key × ℕ) → Manager → Manager
  stop_keys [] m = m
  stop_keys ((key, i) ∷ d) m = stop_keys d (stop_for_account key m)

  unfoldable pub stop_all : Manager → Manager
  stop_all m = stop_keys m.threads m

-- What happens to the threads: the manager's methods, and a thread that ends by itself.
pub data Operation : Type 0 where
  starts stops restarts : Key → Operation
  all_stop : Operation
  exits : ℕ → Operation

abbrev pub perform : (ℕ → Bool) → Operation → Manager → Manager
perform joins (starts key) m = (start_for_account key m).1
perform joins (stops key) m = stop_for_account joins key m
perform joins (restarts key) m = (restart_for_account joins key m).1
perform joins all_stop m = stop_all joins m
perform joins (exits i) m = set_alive i false m

abbrev pub perform_all : (ℕ → Bool) → List Operation → Manager → Manager
perform_all joins [] m = m
perform_all joins (o ∷ os) m = perform_all joins os (perform joins o m)
