-- ===== src/Imap/Connect.antt =====
-- How `connect` of client.py ends.
use ronzz_nextcloud.Prelude.{Bool, String, false, true, ◌||◌, ◌∷◌, ◌≡◌, refl}
use ronzz_nextcloud.Errors.{
  Result, auth_error, connection_error, imap_abort, imap_error, ok, os_error, raise, raised,
  try_except, ◌>>=◌, other_error, runtime_error,
}
use ronzz_nextcloud.World.{Env, Peer, World, opened, logged_in, record_event, source, target}
use ronzz_nextcloud.Imap.{
  call, connect, login, open_conn, as_connection_error, login_error, opened_as, set_connected,
}

-- The outcome, from the outcomes of the two calls: every imaplib error of the login, its
-- `IMAP4.abort` for a connection that breaks among them, is an authentication failure.
abbrev pub outcome : Result (Unit {0}) → Result (Unit {0}) → Result (Unit {0})
outcome (raised os_error) l = raised connection_error
outcome (raised e) l = raised e
outcome (ok u) (raised imap_error) = raised auth_error
outcome (ok u) (raised imap_abort) = raised auth_error
outcome (ok u) (raised os_error) = raised connection_error
outcome (ok u) l = l

abbrev pub is_ok : {A : Type 0} → Result A → Bool
is_ok (ok a) = true
is_ok (raised e) = false

login_lem :
    (env : Env) (p : Peer) (username password : String) (w : World) (l : Result (Unit {0}))
    → w.connected p ≡ true
    → env.login w.history p username password ≡ l
    → try_except (login env p username password) (λ e. raise (login_error e)) w
      ≡ (outcome (ok tt) l, record_event (logged_in p username l) w)
unfolding login call try_except raise
login_lem env p n pw w (ok u) h e = rw (h, e) refl
login_lem env p n pw w (raised auth_error) h e = rw (h, e) refl
login_lem env p n pw w (raised connection_error) h e = rw (h, e) refl
login_lem env p n pw w (raised imap_error) h e = rw (h, e) refl
login_lem env p n pw w (raised imap_abort) h e = rw (h, e) refl
login_lem env p n pw w (raised os_error) h e = rw (h, e) refl
login_lem env p n pw w (raised runtime_error) h e = rw (h, e) refl
login_lem env p n pw w (raised other_error) h e = rw (h, e) refl

open_lem :
    (env : Env) (p : Peer) (w : World) (o : Result (Unit {0}))
    → env.open_conn w.history p ≡ o
    → try_except (open_conn env p) (λ e. raise (as_connection_error e)) w
      ≡ (outcome o (ok tt), opened_as p o w)
unfolding open_conn try_except raise
open_lem env p w (ok u) e = rw (e) refl
open_lem env p w (raised auth_error) e = rw (e) refl
open_lem env p w (raised connection_error) e = rw (e) refl
open_lem env p w (raised imap_error) e = rw (e) refl
open_lem env p w (raised imap_abort) e = rw (e) refl
open_lem env p w (raised os_error) e = rw (e) refl
open_lem env p w (raised runtime_error) e = rw (e) refl
open_lem env p w (raised other_error) e = rw (e) refl

set_connected_lem : (p : Peer) (w : World) → (set_connected p true w).connected p ≡ true
set_connected_lem source w = refl
set_connected_lem target w = refl

-- `connect` ends as `outcome` says; the client is connected afterwards if the connection could be
-- opened, even if the login failed, or if it was connected before.
pub connect_lem :
    (env : Env) (p : Peer) (username password : String) (w : World)
    → let o : Result (Unit {0}) = env.open_conn w.history p in
      let l : Result (Unit {0}) = env.login (opened p o ∷ w.history) p username password in
      let r : Result (Unit {0}) × World = connect env p username password w in
      (r.0 ≡ outcome o l) × (r.1.connected p ≡ (is_ok o || w.connected p))
unfolding connect ◌>>=◌
connect_lem env p username password w = ends (env.open_conn w.history p) refl
  where
    ends :
        (o : Result (Unit {0}))
        → env.open_conn w.history p ≡ o
        → let l : Result (Unit {0}) = env.login (opened p o ∷ w.history) p username password in
          let r : Result (Unit {0}) × World = connect env p username password w in
          (r.0 ≡ outcome o l) × (r.1.connected p ≡ (is_ok o || w.connected p))
    ends (ok u) e =
        rw
          (
            open_lem env p w (ok u) e,
            login_lem env p username password (opened_as p (ok u) w)
                (env.login (opened p (ok u) ∷ w.history) p username password) peer refl,
          )
          (refl, peer)
      where
        peer : (opened_as p (ok u) w).connected p ≡ true
        peer = set_connected_lem p (record_event (opened p (ok u)) w)
    ends (raised auth_error) e = rw (open_lem env p w _ e) (refl, refl)
    ends (raised connection_error) e = rw (open_lem env p w _ e) (refl, refl)
    ends (raised imap_error) e = rw (open_lem env p w _ e) (refl, refl)
    ends (raised imap_abort) e = rw (open_lem env p w _ e) (refl, refl)
    ends (raised os_error) e = rw (open_lem env p w _ e) (refl, refl)
    ends (raised runtime_error) e = rw (open_lem env p w _ e) (refl, refl)
    ends (raised other_error) e = rw (open_lem env p w _ e) (refl, refl)
