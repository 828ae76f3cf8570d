-- ===== src/Imap.antt =====
-- mailwatch/src/mailwatch/email/imap/client.py: IMAPClient over imaplib. The calls of imaplib are
-- answered by `Env`, and each leaves an event in the history.
pub mod Connect
mod Tests
pub mod Chunks
pub mod Rules
pub mod Fetched
pub mod Requests
pub mod Names
pub mod Listing
pub mod Dates
pub mod Queries
pub mod Helpers
pub mod Parser
use mathlib.Core.Option
use ronzz_nextcloud.Prelude.{List, [], drop, length, some, suc, take, zero, ◌++◌, ◌==◌, ◌∷◌}
use ronzz_nextcloud.Prelude.{Bool, Option, String, false, if◌then◌else◌, none, true, ℕ}
use ronzz_nextcloud.Errors.{◌>>=◌, ◌>>◌}
use ronzz_nextcloud.Errors.{
  Exec, Exn, Result, auth_error, connection_error, is_imap_error, ok, os_error, pure, raise, raised,
  runtime_error, try_except,
}
use ronzz_nextcloud.World.{
  Env, Event, History, Peer, World, appended, copied, expunged, fetched_raw, logged_in, logged_out,
  marked_deleted, moved, opened, record_event, selected, source, target, searched, Message, fetched,
  fetched_ids,
}

abbrev pub is_peer : Peer → Peer → Bool
is_peer source source = true
is_peer target target = true
is_peer _ _ = false

abbrev pub set_connected : Peer → Bool → World → World
set_connected p b w = record w { connected = λ q. if is_peer p q then b else w.connected q }

-- The property `conn`: a call on a client that is not connected raises RuntimeError.
unfoldable pub call : {A : Type 0} → Peer → (History → Result A) → (Result A → Event) → Exec World A
call p answer event w =
    if w.connected p
    then (answer w.history, record_event (event (answer w.history)) w)
    else (raised runtime_error, w)

abbrev pub opened_as : Peer → Result (Unit {0}) → World → World
opened_as p (ok u) w = set_connected p true (record_event (opened p (ok u)) w)
opened_as p (raised e) w = record_event (opened p (raised e)) w

-- `except (socket.gaierror, …, OSError) as e: raise IMAPConnectionError`
abbrev pub as_connection_error : Exn → Exn
as_connection_error os_error = connection_error
as_connection_error e = e

-- The handlers round `login`, in their order.
abbrev pub login_error : Exn → Exn
login_error e = if is_imap_error e then auth_error else as_connection_error e

-- `result[uid] = message_id`
abbrev pub put_uid : List (ℕ × String) → ℕ → String → List (ℕ × String)
put_uid [] uid m = (uid, m) ∷ []
put_uid ((u, x) ∷ d) uid m = if u == uid then (u, m) ∷ d else (u, x) ∷ put_uid d uid m

abbrev pub to_dict : List (ℕ × String) → List (ℕ × String) → List (ℕ × String)
to_dict d [] = d
to_dict d ((uid, m) ∷ items) = to_dict (put_uid d uid m) items

-- The messages that could be parsed.
abbrev pub parsed : List (Option Message) → List Message
parsed [] = []
parsed (none ∷ items) = parsed items
parsed (some m ∷ items) = m ∷ parsed items

-- `for start in range(0, len(uids), size)`, with the slices `uids[start : start + size]`, for a
-- size that is not 0. The fuel is the length, which suffices.
abbrev pub chunks_of : ℕ → ℕ → List ℕ → List (List ℕ)
chunks_of zero size uids = []
chunks_of (suc fuel) size [] = []
chunks_of (suc fuel) size (uid ∷ uids) =
    take size (uid ∷ uids) ∷ chunks_of fuel size (drop size (uid ∷ uids))

unfoldable pub chunks : ℕ → List ℕ → List (List ℕ)
chunks size uids = chunks_of (length uids) size uids

module _ (env : Env) (p : Peer) where
  -- `IMAP4_SSL(…)` or `IMAP4(…)`: `_conn` is set if it does not raise.
  unfoldable pub open_conn : Exec World (Unit {0})
  open_conn w = (env.open_conn w.history p, opened_as p (env.open_conn w.history p) w)

  unfoldable pub login : String → String → Exec World (Unit {0})
  login username password = call p (λ h. env.login h p username password) (logged_in p username)

  -- detect_capabilities raises nothing, and what it finds serves only the IDLE threads.
  unfoldable pub connect : String → String → Exec World (Unit {0})
  connect username password = do
    try_except open_conn (λ e. raise (as_connection_error e))
    try_except (login username password) (λ e. raise (login_error e))

  -- `_select_folder` raises what imaplib raises.
  unfoldable pub select_folder : String → Exec World Bool
  select_folder folder = call p (λ h. env.select h p folder false) (selected p folder false)

  -- `select_folder_ex`: any exception is a failure.
  unfoldable pub select_folder_ex : String → Bool → Exec World Bool
  select_folder_ex folder readonly =
      try_except (call p (λ h. env.select h p folder readonly) (selected p folder readonly))
        (λ e. pure false)

  unfoldable pub uid_move : ℕ → String → Exec World Bool
  uid_move uid folder = call p (λ h. env.move h p uid folder) (moved p uid folder)

  unfoldable pub uid_copy : ℕ → String → Exec World Bool
  uid_copy uid folder = call p (λ h. env.copy h p uid folder) (copied p uid folder)

  unfoldable pub store_deleted : ℕ → Exec World Bool
  store_deleted uid = call p (λ h. env.mark_deleted h p uid) (marked_deleted p uid)

  unfoldable pub expunge : Exec World (Unit {0})
  expunge = call p (λ h. env.expunge h p) (expunged p)

  -- `except imaplib.IMAP4.error: return b`
  unfoldable pub on_imap_error : {A : Type 0} → A → Exn → Exec World A
  on_imap_error b e = if is_imap_error e then pure b else raise e

  -- COPY, then STORE +FLAGS (\Deleted) and EXPUNGE
  unfoldable pub move_fallback : ℕ → String → Exec World Bool
  move_fallback uid to_folder = do
    done ← uid_copy uid to_folder
    if done
        then try_except (do store_deleted uid; expunge; pure true) (on_imap_error false)
        else pure false

  unfoldable pub move_message : ℕ → String → String → Exec World Bool
  unfolding move_fallback
  move_message uid from_folder to_folder = do
    found ← select_folder from_folder
    if found
        then (do
          done ← try_except (uid_move uid to_folder) (on_imap_error false)
          if done then pure true else move_fallback uid to_folder)
        else pure false

  -- `set_flags(uid, folder, add=["\\Deleted"])`
  unfoldable pub set_deleted_flag : ℕ → String → Exec World Bool
  set_deleted_flag uid folder = do
    found ← select_folder folder
    if found then try_except (store_deleted uid) (on_imap_error false) else pure false

  -- `except (imaplib.IMAP4.error, OSError): return False`
  unfoldable pub on_append_error : Exn → Exec World Bool
  on_append_error os_error = pure false
  on_append_error e = on_imap_error false e

  -- With no flags, as the redirector calls it.
  unfoldable pub append_message : String → String → Exec World Bool
  append_message folder raw =
      try_except (call p (λ h. env.append h p folder raw) (appended p folder raw)) on_append_error

  unfoldable pub fetch_raw : ℕ → String → Exec World (Option String)
  fetch_raw uid folder = do
    found ← select_folder folder
    if found
        then try_except (call p (λ h. env.fetch_raw h p uid) (fetched_raw p uid))
            (on_imap_error none)
        else pure none

  -- `logout`, whose exceptions are ignored
  unfoldable pub disconnect : World → World
  disconnect w = if w.connected p then set_connected p false (record_event (logged_out p) w) else w

  -- `conn.uid("SEARCH", criterion)`, with the UIDs of an OK reply
  unfoldable pub search : String → Exec World (List ℕ)
  search criterion = do
    uids ← call p (λ h. env.search h p criterion) (searched p criterion)
    pure (Option.get_or uids [])

  -- `except imaplib.IMAP4.error` and a reply other than OK give an empty dict.
  unfoldable pub fetch_message_ids : String → Exec World (List (ℕ × String))
  fetch_message_ids folder = do
    found ← select_folder_ex folder true
    if found
        then (do
          items ← try_except (call p (λ h. env.fetch_ids h p) (fetched_ids p)) (on_imap_error none)
          pure (to_dict [] (Option.get_or items [])))
        else pure []

  -- One FETCH for each chunk; a chunk that fails is left out.
  unfoldable pub fetch_chunks : List (List ℕ) → Exec World (List Message)
  fetch_chunks [] = pure []
  fetch_chunks (chunk ∷ chunks) = do
    items ← try_except (call p (λ h. env.fetch h p chunk) (fetched p chunk)) (on_imap_error none)
    rest ← fetch_chunks chunks
    pure (parsed (Option.get_or items []) ++ rest)

  -- `mark_seen` is False.
  unfoldable pub fetch_uids : String → List ℕ → Exec World (List Message)
  fetch_uids folder [] = pure []
  fetch_uids folder (uid ∷ uids) = do
    found ← select_folder_ex folder true
    if found then fetch_chunks (chunks 50 (uid ∷ uids)) else pure []
