-- ===== src/Imap/Queries/Reads.antt =====
-- The searches of mailwatch/src/mailwatch/email/imap/client.py only read.
use ronzz_nextcloud.Prelude.{List, String, [], refl, ℕ, ◌∷◌, ◌≡◌}
use ronzz_nextcloud.Prelude.Dict.{Dict}
use ronzz_nextcloud.Errors.{Exn, Result, connection_error, ok, pure, raised, Exec, try_except}
use ronzz_nextcloud.Errors.Runs.{Keeps, Post, Runs, Runs-bind, Runs-pure, Runs-raise, Runs-try}
use ronzz_nextcloud.World.{Env, Peer, World, Event}
use ronzz_nextcloud.World.Writes.{written}
use ronzz_nextcloud.Imap.{call}
use ronzz_nextcloud.Imap.Rules.{call-Keeps, search-Keeps, select_folder-Keeps}
use ronzz_nextcloud.Imap.Queries.{
  join_parts, search_by_header, search_for, search_parts, search_remote,
}

-- Nothing was written since `h`, and what is raised is an IMAPConnectionError.
abbrev pub Searches : {A : Type 0} → List Event → Result A → World → Type 0
Searches es (ok a) w = written w.history ≡ es
Searches es (raised e) w = (e ≡ connection_error) × (written w.history ≡ es)

module _ (env : Env) (p : Peer) (es : List Event) where
  abbrev Unwritten : World → Type 0
  Unwritten w = written w.history ≡ es

  abbrev Failed : Exn → World → Type 0
  Failed e w = (e ≡ connection_error) × Unwritten w

  -- A search whose exceptions give no UIDs.
  caught-Runs :
      (m : Exec World (List ℕ))
      → Keeps Unwritten m
      → {E : Exn → World → Type 0} → Runs Unwritten (try_except m (λ e. pure [])) (λ a. Unwritten) E
  caught-Runs m k = Runs-try m (λ e. pure []) k (λ e. Runs-pure [] (λ w h. h))

  search_for-Runs :
      (parts : List String) → Runs Unwritten (search_for env p parts) (λ a. Unwritten) Failed
  unfolding search_for
  search_for-Runs [] = Runs-pure [] (λ w h. h)
  search_for-Runs (x ∷ xs) = caught-Runs _ (search-Keeps env p (join_parts (x ∷ xs)) (λ w r h. h))

  search_remote-Runs :
      (folder query : String) (criteria : Dict String)
      → Runs Unwritten (search_remote env p folder query criteria) (λ a. Unwritten) Failed
  unfolding search_remote
  search_remote-Runs folder query criteria =
      Runs-bind _ _
        (Runs-try (call p _ _) _ (call-Keeps p _ _ (λ w r h. h))
          (λ e. Runs-raise connection_error (λ w h. (refl, h))))
        (λ found. search_for-Runs (search_parts criteria query))

  search_by_header-Keeps :
      (folder header_name header_value : String)
      → {E : Exn → World → Type 0}
      → Runs Unwritten (search_by_header env p folder header_name header_value) (λ a. Unwritten) E
  unfolding search_by_header
  search_by_header-Keeps folder header_name header_value = caught-Runs _ (
      Runs-bind _ _ (select_folder-Keeps env p folder (λ w r h. h))
        (λ found. search-Keeps env p _ (λ w r h. h)))

-- search_by_header sends no command that changes a mailbox, and returns on every reply and every
-- exception.
pub search_by_header_lem :
    (env : Env) (p : Peer) (folder header_name header_value : String) (w : World)
    → Post
        (λ (a : List ℕ) v. written v.history ≡ written w.history)
        (λ e v. ⊥)
        (search_by_header env p folder header_name header_value w).0
        (search_by_header env p folder header_name header_value w).1
search_by_header_lem env p folder header_name header_value w =
    (search_by_header-Keeps env p (written w.history) folder header_name header_value).at w refl

-- search_remote sends no command that changes a mailbox, and raises nothing but an
-- IMAPConnectionError, on a client that is not connected too.
pub search_remote_lem :
    (env : Env) (p : Peer) (folder query : String) (criteria : Dict String) (w : World)
    → Searches
        (written w.history)
        (search_remote env p folder query criteria w).0
        (search_remote env p folder query criteria w).1
search_remote_lem env p folder query criteria w =
    found (search_remote env p folder query criteria w).1 (written w.history)
      (search_remote env p folder query criteria w).0
      ((search_remote-Runs env p (written w.history) folder query criteria).at w refl)
  where
    found :
        {A : Type 0} (v : World) (es : List Event) (r : Result A)
        → Post
            (λ a u. written u.history ≡ es)
            (λ e u. (e ≡ connection_error) × (written u.history ≡ es))
            r
            v
        → Searches es r v
    found v es (ok a) h = h
    found v es (raised e) h = h
