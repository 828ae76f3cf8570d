-- ===== src/Imap/Tests.antt =====
-- The theorems on client.py at concrete inputs.
use ronzz_nextcloud.Prelude.{[], true, ◌∷◌, ◌≡◌, refl}
use ronzz_nextcloud.Errors.{auth_error, imap_abort, raised}
use ronzz_nextcloud.World.{Env, source, World}
use ronzz_nextcloud.Samples.{sample_env, sample_world}
use ronzz_nextcloud.Imap.{connect, fetch_uids, set_connected}
use ronzz_nextcloud.Imap.Connect.{connect_lem}
use ronzz_nextcloud.Imap.Requests.{Asks, Returned, fetch_uids_lem}

-- A server that breaks the connection off during the login.
abbrev breaking_env : Env
breaking_env = record sample_env { login = λ h p u pw. raised imap_abort }

connect_lem_example :
    ((connect breaking_env source "me@x.org" "pw" sample_world).0 ≡ raised auth_error)
    × ((connect breaking_env source "me@x.org" "pw" sample_world).1.connected source ≡ true)
connect_lem_example = connect_lem breaking_env source "me@x.org" "pw" sample_world

abbrev connected_world : World
connected_world = set_connected source true sample_world

fetch_uids_lem_example :
    let r = fetch_uids sample_env source "INBOX" (7 ∷ 8 ∷ 9 ∷ []) connected_world in
    Returned r.0 × Asks source (7 ∷ 8 ∷ 9 ∷ []) connected_world.history r.1.history
fetch_uids_lem_example =
    fetch_uids_lem sample_env source "INBOX" (7 ∷ 8 ∷ 9 ∷ []) connected_world (λ h us. tt) refl refl
