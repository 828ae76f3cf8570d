-- ===== src/Errors.antt =====
-- The exceptions that cross the modules of mailwatch/src/mailwatch (errors.py), and the actions
-- that may raise them while they change a state.
pub mod Runs
use ronzz_nextcloud.Prelude.{ℕ, Bool, true, false}

-- `auth_error` is IMAPAuthError, a subclass of IMAPConnectionError; `imap_error` is
-- imaplib.IMAP4.error and `imap_abort` its subclass IMAP4.abort; `os_error` is OSError with its
-- subclasses; `runtime_error` is RuntimeError, and `other_error` any other Exception.
pub data Exn : Type 0 where
  auth_error connection_error imap_error imap_abort os_error runtime_error other_error : Exn

-- EXIT_AUTH_FAILURE
abbrev pub exit_auth_failure : ℕ
exit_auth_failure = 3

-- `except IMAPConnectionError` catches the subclass too.
abbrev pub is_connection_error : Exn → Bool
is_connection_error auth_error = true
is_connection_error connection_error = true
is_connection_error _ = false

-- `except imaplib.IMAP4.error` catches the subclass too.
abbrev pub is_imap_error : Exn → Bool
is_imap_error imap_error = true
is_imap_error imap_abort = true
is_imap_error _ = false

pub data Result {ℓ} (A : Type ℓ) : Type ℓ where
  ok : A → Result A
  raised : Exn → Result A

-- What an action wrote before it raised stays written.
abbrev pub Exec {ℓ} : Type ℓ → Type ℓ → Type ℓ
Exec S A = S → Result A × S

module _ {ℓ} {S A : Type ℓ} where
  unfoldable pub pure : A → Exec S A
  pure a s = (ok a, s)

  unfoldable pub raise : Exn → Exec S A
  raise e s = (raised e, s)

module _ {ℓ} {S A B : Type ℓ} where
  abbrev pub proceed : Result A → (A → Exec S B) → Exec S B
  proceed (ok a) f s = f a s
  proceed (raised e) f s = (raised e, s)

  infixl 10 ◌>>=◌ ◌>>◌
  -- Opening this opens `pure` and `raise` too.
  unfoldable pub ◌>>=◌ : Exec S A → (A → Exec S B) → Exec S B
  unfolding pure raise
  ◌>>=◌ m f s = proceed (m s).0 f (m s).1

  abbrev pub ◌>>◌ : Exec S A → Exec S B → Exec S B
  m >> n = m >>= λ _. n

module _ {ℓ} {S A : Type ℓ} where
  abbrev pub handle : (Exn → Exec S A) → Result A → Exec S A
  handle h (ok a) s = (ok a, s)
  handle h (raised e) s = h e s

  -- `try: m except: h`, where `h` raises again what it does not handle.
  unfoldable pub try_except : Exec S A → (Exn → Exec S A) → Exec S A
  unfolding pure raise
  try_except m h s = handle h (m s).0 (m s).1

  -- `try: m finally: f`, for an `f` that raises nothing.
  unfoldable pub try_finally : Exec S A → (S → S) → Exec S A
  try_finally m f s = ((m s).0, f (m s).1)
