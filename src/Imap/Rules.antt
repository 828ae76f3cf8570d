-- ===== src/Imap/Rules.antt =====
-- Rules of `Runs` for the calls of client.py and of the shared state.
use ronzz_nextcloud.Prelude.{
  Bool, Option, String, false, if◌then◌else◌, true, ℕ, ◌∷◌, List, [], none,
}
use ronzz_nextcloud.Errors.{Exn, Result, is_imap_error, ok, raised, runtime_error}
use ronzz_nextcloud.Errors.Runs.{
  Keeps, Post, Runs, Runs-bind, Runs-if, Runs-pure, Runs-raise, Runs-try,
}
use ronzz_nextcloud.World.{
  Audit, Env, Event, History, Peer, World, copied, emit, expunged, get_password, marked_deleted,
  moved, record_event, selected, fetched_raw, logged_in, logged_out, opened, searched, Message,
  fetched, fetched_ids,
}
use mathlib.Core.Option
use ronzz_nextcloud.Imap.{
  call, expunge, move_fallback, move_message, on_imap_error, select_folder, select_folder_ex,
  set_deleted_flag, store_deleted, uid_copy, uid_move, as_connection_error, connect, disconnect,
  fetch_raw, login, login_error, open_conn, opened_as, search, set_connected, chunks, fetch_chunks,
  fetch_message_ids, fetch_uids,
}

-- `P` does not look at which clients are connected, nor at their connecting and leaving.
pub record IgnoresSessions (P : World → Type 0) : Type 0 where
  pub connects : (w : World) (p : Peer) (b : Bool) → P w → P (set_connected p b w)
  pub opens : (w : World) (p : Peer) (r : Result (Unit {0})) → P w → P (record_event (opened p r) w)
  pub logs_in :
      (w : World) (p : Peer) (username : String) (r : Result (Unit {0}))
      → P w
      → P (record_event (logged_in p username r) w)
  pub logs_out : (w : World) (p : Peer) → P w → P (record_event (logged_out p) w)

module _ {A : Type 0} {P : World → Type 0} {Q : A → World → Type 0} {E : Exn → World → Type 0} where
  pub call-Runs :
      (p : Peer) (answer : History → Result A) (event : Result A → Event)
      → ((w : World) → P w → E runtime_error w)
      → ((w : World) (r : Result A) → P w → Post Q E r (record_event (event r) w))
      → Runs P (call p answer event) Q E
  unfolding call
  call-Runs p answer event k f = record { at = λ w h. answered w h (w.connected p) }
    where
      answered :
          (w : World)
          → P w
          → (b : Bool)
          → let r : Result A × World =
              if b
              then (answer w.history, record_event (event (answer w.history)) w)
              else (raised runtime_error, w) in
            Post Q E r.0 r.1
      answered w h true = f w (answer w.history) h
      answered w h false = k w h

module _ {P : World → Type 0} {E : Exn → World → Type 0} where
  pub emit-Runs :
      {Q : Unit {0} → World → Type 0} (a : Audit)
      → ((w : World) → P w → Q tt (record w { audit = a ∷ w.audit }))
      → Runs P (emit a) Q E
  unfolding emit
  emit-Runs a f = record { at = f }

  pub get_password-Runs :
      {Q : Option String → World → Type 0} (env : Env) (email : String)
      → ((w : World) → P w → Q (env.password w.history email) w)
      → Runs P (get_password env email) Q E
  unfolding get_password
  get_password-Runs env email f = record { at = f }

module _ {P : World → Type 0} where
  pub call-Keeps :
      {A : Type 0} (p : Peer) (answer : History → Result A) (event : Result A → Event)
      → ((w : World) (r : Result A) → P w → P (record_event (event r) w))
      → Keeps P (call p answer event)
  call-Keeps {A} p answer event f = call-Runs p answer event (λ w h. h) (λ w r h. same r (f w r h))
    where
      same : {w : World} (r : Result A) → P w → Post (λ a. P) (λ e. P) r w
      same (ok a) h = h
      same (raised e) h = h

  pub on_imap_error-Keeps :
      {A : Type 0} (env : Env) (p : Peer) (b : A) (e : Exn) → Keeps P (on_imap_error env p b e)
  unfolding on_imap_error
  on_imap_error-Keeps env p b e =
      Runs-if (is_imap_error e) _ _ (λ h. Runs-pure b (λ w h. h)) (λ h. Runs-raise e (λ w h. h))

  pub select_folder-Keeps :
      (env : Env) (p : Peer) (folder : String)
      → ((w : World) (r : Result Bool) → P w → P (record_event (selected p folder false r) w))
      → Keeps P (select_folder env p folder)
  unfolding select_folder
  select_folder-Keeps env p folder f = call-Keeps p _ _ f

  pub select_folder_ex-Keeps :
      (env : Env) (p : Peer) (folder : String) (readonly : Bool)
      → ((w : World) (r : Result Bool) → P w → P (record_event (selected p folder readonly r) w))
      → Keeps P (select_folder_ex env p folder readonly)
  unfolding select_folder_ex
  select_folder_ex-Keeps env p folder readonly f =
      Runs-try _ _ (call-Keeps p _ _ f) (λ e. Runs-pure false (λ w h. h))

  -- A deletion mark brings `M`, which an EXPUNGE may need.
  module _ {M : World → Type 0} (m : (w : World) → M w → P w) where
    abbrev pub Flagged : Bool → World → Type 0
    Flagged true w = M w
    Flagged false w = P w

    pub set_deleted_flag-Runs :
        (env : Env) (p : Peer) (uid : ℕ) (folder : String)
        → ((w : World) (r : Result Bool) → P w → P (record_event (selected p folder false r) w))
        → ((w : World) (r : Result Bool) → P w → M (record_event (marked_deleted p uid r) w))
        → Runs P (set_deleted_flag env p uid folder) Flagged (λ e. P)
    unfolding set_deleted_flag store_deleted
    set_deleted_flag-Runs env p uid folder f g =
        Runs-bind _ _ (select_folder-Keeps env p folder f) λ found.
          Runs-if found _ _
            (λ h. Runs-try {F = λ e. P} _ _ (call-Runs p _ _ (λ w h. h) marks) missed)
            (λ h. Runs-pure false (λ w h. h))
      where
        marks :
            (w : World) (r : Result Bool)
            → P w
            → Post Flagged (λ e. P) r (record_event (marked_deleted p uid r) w)
        marks w (ok true) h = g w (ok true) h
        marks w (ok false) h = m _ (g w (ok false) h)
        marks w (raised e) h = m _ (g w (raised e) h)

        missed : (e : Exn) → Runs P (on_imap_error env p false e) Flagged (λ e. P)
        missed e =
            unfold on_imap_error in
            Runs-if (is_imap_error e) _ _ (λ h. Runs-pure false (λ w h. h))
              (λ h. Runs-raise e (λ w h. h))

    pub move_message-Keeps :
        (env : Env) (p : Peer) (uid : ℕ) (folder to_folder : String)
        → ((w : World) (r : Result Bool) → P w → P (record_event (selected p folder false r) w))
        → ((w : World) (r : Result Bool) → P w → P (record_event (moved p uid to_folder r) w))
        → ((w : World) (r : Result Bool) → P w → P (record_event (copied p uid to_folder r) w))
        → ((w : World) (r : Result Bool) → P w → M (record_event (marked_deleted p uid r) w))
        → ((w : World) (r : Result (Unit {0})) → M w → P (record_event (expunged p r) w))
        → Keeps P (move_message env p uid folder to_folder)
    unfolding move_message uid_move uid_copy store_deleted expunge
    move_message-Keeps env p uid folder to_folder f g c d x =
        Runs-bind _ _ (select_folder-Keeps env p folder f) λ found.
          Runs-if found _ _
            (λ h.
              Runs-bind _ _ (Runs-try _ _ (call-Keeps p _ _ g) (on_imap_error-Keeps env p false))
                λ done. Runs-if done _ _ (λ h. Runs-pure true (λ w h. h)) (λ h. fallback))
            (λ h. Runs-pure false (λ w h. h))
      where
        marks :
            (w : World) (r : Result Bool)
            → P w
            → Post (λ b. M) (λ e. P) r (record_event (marked_deleted p uid r) w)
        marks w (ok b) h = d w (ok b) h
        marks w (raised e) h = m _ (d w (raised e) h)

        expunges :
            (w : World) (r : Result (Unit {0}))
            → M w
            → Post (λ u. P) (λ e. P) r (record_event (expunged p r) w)
        expunges w (ok u) h = x w (ok u) h
        expunges w (raised e) h = x w (raised e) h

        fallback : Keeps P (move_fallback env p uid to_folder)
        fallback = Runs-bind _ _ (call-Keeps p _ _ c) λ done.
            Runs-if done _ _
              (λ h.
                Runs-try {F = λ e. P} _ _
                  (Runs-bind {Q = λ b. M} _ _ (call-Runs p _ _ (λ w h. h) marks) λ r.
                    Runs-bind {Q = λ u. P} _ _ (call-Runs p _ _ m expunges)
                      (λ u. Runs-pure true (λ w h. h)))
                  (on_imap_error-Keeps env p false))
              (λ h. Runs-pure false (λ w h. h))

  pub fetch_raw-Keeps :
      (env : Env) (p : Peer) (uid : ℕ) (folder : String)
      → ((w : World) (r : Result Bool) → P w → P (record_event (selected p folder false r) w))
      → ((w : World) (r : Result (Option String)) → P w → P (record_event (fetched_raw p uid r) w))
      → Keeps P (fetch_raw env p uid folder)
  unfolding fetch_raw
  fetch_raw-Keeps env p uid folder f g = Runs-bind _ _ (select_folder-Keeps env p folder f) λ found.
      Runs-if found _ _ (λ h. Runs-try _ _ (call-Keeps p _ _ g) (on_imap_error-Keeps env p none))
        (λ h. Runs-pure none (λ w h. h))

  pub search-Keeps :
      (env : Env) (p : Peer) (criterion : String)
      → ((w : World) (r : Result (Option (List ℕ)))
          → P w
          → P (record_event (searched p criterion r) w))
      → Keeps P (search env p criterion)
  unfolding search
  search-Keeps env p criterion f =
      Runs-bind _ _ (call-Keeps p _ _ f) (λ uids. Runs-pure (Option.get_or uids []) (λ w h. h))

  pub fetch_message_ids-Keeps :
      (env : Env) (p : Peer) (folder : String)
      → ((w : World) (r : Result Bool) → P w → P (record_event (selected p folder true r) w))
      → ((w : World) (r : Result (Option (List (ℕ × String))))
          → P w
          → P (record_event (fetched_ids p r) w))
      → Keeps P (fetch_message_ids env p folder)
  unfolding fetch_message_ids
  fetch_message_ids-Keeps env p folder f g =
      Runs-bind _ _ (select_folder_ex-Keeps env p folder true f) λ found.
        Runs-if found _ _
          (λ h.
            Runs-bind _ _ (Runs-try _ _ (call-Keeps p _ _ g) (on_imap_error-Keeps env p none))
              (λ items. Runs-pure _ (λ w h. h)))
          (λ h. Runs-pure [] (λ w h. h))

  fetch_chunks-Keeps :
      (env : Env) (p : Peer) (chunks : List (List ℕ))
      → ((w : World) (uids : List ℕ) (r : Result (Option (List (Option Message))))
          → P w
          → P (record_event (fetched p uids r) w))
      → Keeps P (fetch_chunks env p chunks)
  unfolding fetch_chunks
  fetch_chunks-Keeps env p [] f = Runs-pure [] (λ w h. h)
  fetch_chunks-Keeps env p (chunk ∷ chunks) f =
      Runs-bind _ _
        (Runs-try _ _ (call-Keeps p _ _ (λ w r h. f w chunk r h)) (on_imap_error-Keeps env p none))
        λ items. Runs-bind _ _ (fetch_chunks-Keeps env p chunks f) (λ rest. Runs-pure _ (λ w h. h))

  pub fetch_uids-Keeps :
      (env : Env) (p : Peer) (folder : String) (uids : List ℕ)
      → ((w : World) (r : Result Bool) → P w → P (record_event (selected p folder true r) w))
      → ((w : World) (uids : List ℕ) (r : Result (Option (List (Option Message))))
          → P w
          → P (record_event (fetched p uids r) w))
      → Keeps P (fetch_uids env p folder uids)
  unfolding fetch_uids
  fetch_uids-Keeps env p folder [] f g = Runs-pure [] (λ w h. h)
  fetch_uids-Keeps env p folder (uid ∷ uids) f g =
      Runs-bind _ _ (select_folder_ex-Keeps env p folder true f) λ found.
        Runs-if found _ _ (λ h. fetch_chunks-Keeps env p _ g) (λ h. Runs-pure [] (λ w h. h))

module _ {P : World → Type 0} where
  module _ (s : IgnoresSessions P) (env : Env) (p : Peer) where
    opened_as-keeps : (w : World) (r : Result (Unit {0})) → P w → P (opened_as p r w)
    opened_as-keeps w (ok u) h = s.connects _ p true (s.opens w p (ok u) h)
    opened_as-keeps w (raised e) h = s.opens w p (raised e) h

    open_conn-Keeps : Keeps P (open_conn env p)
    unfolding open_conn
    open_conn-Keeps = record { at = λ w h. settled w (env.open_conn w.history p) h }
      where
        settled :
            (w : World) (r : Result (Unit {0})) → P w → Post (λ a. P) (λ e. P) r (opened_as p r w)
        settled w (ok u) h = opened_as-keeps w (ok u) h
        settled w (raised e) h = opened_as-keeps w (raised e) h

    pub connect-Keeps : (username password : String) → Keeps P (connect env p username password)
    unfolding connect login
    connect-Keeps username password =
        Runs-bind _ _
          (Runs-try _ _ open_conn-Keeps (λ e. Runs-raise (as_connection_error e) (λ w h. h)))
          λ u.
            Runs-try _ _ (call-Keeps p _ _ (λ w r h. s.logs_in w p username r h))
              (λ e. Runs-raise (login_error e) (λ w h. h))

    pub disconnect-keeps : (w : World) → P w → P (disconnect env p w)
    unfolding disconnect
    disconnect-keeps w h = leaves (w.connected p)
      where
        leaves :
            (b : Bool) → P (if b then set_connected p false (record_event (logged_out p) w) else w)
        leaves true = s.connects _ p false (s.logs_out w p h)
        leaves false = h
