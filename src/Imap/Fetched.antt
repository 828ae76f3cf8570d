-- ===== src/Imap/Fetched.antt =====
-- Where the messages come from that fetch_uids of client.py returns.
use ronzz_nextcloud.Prelude.{
  All, List, Option, [], inl, inr, none, refl, some, ℕ, ◌++◌, ◌∷◌, ◌≡◌, ◌⊎◌, Bool, String, true,
  arith, false, if◌then◌else◌, ◌==◌,
}
use ronzz_nextcloud.Errors.{Exn, Result, is_imap_error, ok, raised}
use ronzz_nextcloud.Errors.Runs.{
  Post, Runs, Runs-bind, Runs-if, Runs-post, Runs-pure, Runs-raise, Runs-try,
}
use ronzz_nextcloud.World.{
  Env, Event, History, Message, Peer, World, fetched, record_event, selected, fetched_ids,
}
use ronzz_nextcloud.Imap.{
  chunks, fetch_chunks, fetch_uids, on_imap_error, parsed, fetch_message_ids, put_uid, to_dict,
}
use ronzz_nextcloud.Imap.Rules.{call-Runs, select_folder_ex-Keeps}
use mathlib.Core.Option

abbrev pub Among : Message → List (Option Message) → Type 0
Among m [] = ⊥
Among m (none ∷ items) = Among m items
Among m (some x ∷ items) = (x ≡ m) ⊎ Among m items

-- The event is an OK reply with the message, to a FETCH of just these UIDs.
abbrev pub Brings : List ℕ → Message → Event → Type 0
Brings uids m (fetched p us (ok (some items))) = (us ≡ uids) × Among m items
Brings uids m _ = ⊥

-- The message came in such a reply.
abbrev pub IsFetchedBy : List ℕ → Message → History → Type 0
IsFetchedBy uids m [] = ⊥
IsFetchedBy uids m (e ∷ h) = Brings uids m e ⊎ IsFetchedBy uids m h

-- In the reply to one of the requests.
abbrev pub IsFetchedIn : List (List ℕ) → Message → History → Type 0
IsFetchedIn [] m h = ⊥
IsFetchedIn (c ∷ cs) m h = IsFetchedBy c m h ⊎ IsFetchedIn cs m h

abbrev pub AllFetched : List (List ℕ) → List Message → World → Type 0
AllFetched cs ms w = All (λ m. IsFetchedIn cs m w.history) ms

pub IsFetchedIn-event :
    (cs : List (List ℕ)) (m : Message) (e : Event) (h : History)
    → IsFetchedIn cs m h
    → IsFetchedIn cs m (e ∷ h)
IsFetchedIn-event [] m e h x = elim x [ ]
IsFetchedIn-event (c ∷ cs) m e h (inl k) = inl (inr k)
IsFetchedIn-event (c ∷ cs) m e h (inr k) = inr (IsFetchedIn-event cs m e h k)

pub AllFetched-event :
    (cs : List (List ℕ)) (ms : List Message) (e : Event) (w : World)
    → AllFetched cs ms w
    → AllFetched cs ms (record_event e w)
AllFetched-event cs [] e w k = tt
AllFetched-event cs (m ∷ ms) e w k =
    (IsFetchedIn-event cs m e w.history k.0, AllFetched-event cs ms e w k.1)

-- What a reply brings.
AllFetched-parsed :
    (c : List ℕ) (p : Peer) (w : World) (all items : List (Option Message))
    → ((m : Message) → Among m items → Among m all)
    → AllFetched (c ∷ []) (parsed items) (record_event (fetched p c (ok (some all))) w)
AllFetched-parsed c p w all [] k = tt
AllFetched-parsed c p w all (none ∷ items) k = AllFetched-parsed c p w all items k
AllFetched-parsed c p w all (some x ∷ items) k =
    (inl (inl (refl, k x (inl refl))), AllFetched-parsed c p w all items (λ m a. k m (inr a)))

AllFetched-append :
    (c : List ℕ) (cs : List (List ℕ)) (ms ns : List Message) (w : World)
    → AllFetched (c ∷ []) ms w
    → AllFetched cs ns w
    → AllFetched (c ∷ cs) (ms ++ ns) w
AllFetched-append c cs [] [] w k l = tt
AllFetched-append c cs [] (n ∷ ns) w k l = (inr l.0, AllFetched-append c cs [] ns w tt l.1)
AllFetched-append c cs (m ∷ ms) ns w (inr x, ks) l = elim x [ ]
AllFetched-append c cs (m ∷ ms) ns w (inl k, ks) l = (inl k, AllFetched-append c cs ms ns w ks l)

-- A FETCH keeps `P`, and its messages came in the replies.
pub fetch_chunks-Runs :
    (P : World → Type 0) (env : Env) (p : Peer) (cs : List (List ℕ))
    → ((w : World) (uids : List ℕ) (r : Result (Option (List (Option Message))))
        → P w
        → P (record_event (fetched p uids r) w))
    → Runs P (fetch_chunks env p cs) (λ ms w. P w × AllFetched cs ms w) (λ e. P)
unfolding fetch_chunks
fetch_chunks-Runs P env p [] f = Runs-pure [] (λ w h. (h, tt))
fetch_chunks-Runs P env p (c ∷ cs) f =
    Runs-bind _ _ (Runs-try {F = λ e. P} _ _ (call-Runs p _ _ (λ w h. h) read) missed) λ items.
      Runs-bind _ _
        (Runs-post _
          (fetch_chunks-Runs (After items) env p cs
            (λ w uids r k. (f w uids r k.0, AllFetched-event (c ∷ []) _ (fetched p uids r) w k.1)))
          (λ ns w k. k) (λ e w k. k.0))
        (λ ns. Runs-pure _ (λ w k. (k.0.0, AllFetched-append c cs _ ns w k.0.1 k.1)))
  where
    After : Option (List (Option Message)) → World → Type 0
    After items w = P w × AllFetched (c ∷ []) (parsed (Option.get_or items [])) w

    read :
        (w : World) (r : Result (Option (List (Option Message))))
        → P w
        → Post After (λ e. P) r (record_event (fetched p c r) w)
    read w (ok none) h = (f w c (ok none) h, tt)
    read w (ok (some items)) h =
        (f w c (ok (some items)) h, AllFetched-parsed c p w items items (λ m a. a))
    read w (raised e) h = f w c (raised e) h

    missed : (e : Exn) → Runs P (on_imap_error env p none e) After (λ e. P)
    missed e =
        unfold on_imap_error in
        Runs-if (is_imap_error e) _ _ (λ k. Runs-pure none (λ w h. (h, tt)))
          (λ k. Runs-raise e (λ w h. h))

-- The messages of fetch_uids came in the replies to its requests.
pub fetch_uids-Runs :
    (P : World → Type 0) (env : Env) (p : Peer) (folder : String) (uids : List ℕ)
    → ((w : World) (r : Result Bool) → P w → P (record_event (selected p folder true r) w))
    → ((w : World) (uids : List ℕ) (r : Result (Option (List (Option Message))))
        → P w
        → P (record_event (fetched p uids r) w))
    → Runs P
        (fetch_uids env p folder uids)
        (λ ms w. P w × AllFetched (chunks 50 uids) ms w)
        (λ e. P)
unfolding fetch_uids
fetch_uids-Runs P env p folder [] f g = Runs-pure [] (λ w h. (h, tt))
fetch_uids-Runs P env p folder (uid ∷ uids) f g =
    Runs-bind _ _ (select_folder_ex-Keeps env p folder true f) λ found.
      Runs-if found _ _ (λ h. fetch_chunks-Runs P env p _ g) (λ h. Runs-pure [] (λ w h. (h, tt)))

abbrev pub IsIn : ℕ × String → List (ℕ × String) → Type 0
IsIn x [] = ⊥
IsIn x (y ∷ items) = (y ≡ x) ⊎ IsIn x items

-- The event is an OK reply to fetch_message_ids with the UID and Message-ID.
abbrev pub Lists : (ℕ × String) → Event → Type 0
Lists x (fetched_ids p (ok (some items))) = IsIn x items
Lists x _ = ⊥

abbrev pub IsListedBy : (ℕ × String) → History → Type 0
IsListedBy x [] = ⊥
IsListedBy x (e ∷ h) = Lists x e ⊎ IsListedBy x h

pub AllListed-event :
    (d : List (ℕ × String)) (e : Event) (h : History)
    → All (λ x. IsListedBy x h) d
    → All (λ x. IsListedBy x (e ∷ h)) d
AllListed-event [] e h k = tt
AllListed-event (x ∷ d) e h k = (inr k.0, AllListed-event d e h k.1)

AllListed-put :
    (P : ℕ × String → Type 0) (d : List (ℕ × String)) (uid : ℕ) (m : String)
    → All P d
    → P (uid, m)
    → All P (put_uid d uid m)
AllListed-put P [] uid m k x = (x, tt)
AllListed-put P ((u, y) ∷ d) uid m k x = put (AllListed-put P d uid m k.1 x) (u == uid) refl
  where
    put :
        All P (put_uid d uid m)
        → (b : Bool) → (u == uid) ≡ b
        → All P (if b then (u, m) ∷ d else (u, y) ∷ put_uid d uid m)
    put rest true e = let q : u ≡ uid = ground (arith, e) in (rw q x, k.1)
    put rest false e = (k.0, rest)

AllListed-dict :
    (P : ℕ × String → Type 0) (d items : List (ℕ × String))
    → All P d
    → All P items
    → All P (to_dict d items)
AllListed-dict P d [] k l = k
AllListed-dict P d ((uid, m) ∷ items) k l =
    AllListed-dict P (put_uid d uid m) items (AllListed-put P d uid m k l.0) l.1

AllListed-reply :
    (p : Peer) (h : History) (all items : List (ℕ × String))
    → ((x : ℕ × String) → IsIn x items → IsIn x all)
    → All (λ x. IsListedBy x (fetched_ids p (ok (some all)) ∷ h)) items
AllListed-reply p h all [] k = tt
AllListed-reply p h all (x ∷ items) k =
    (inl (k x (inl refl)), AllListed-reply p h all items (λ y a. k y (inr a)))

-- The entries of fetch_message_ids stood in its reply.
pub fetch_message_ids-Runs :
    (P : World → Type 0) (env : Env) (p : Peer) (folder : String)
    → ((w : World) (r : Result Bool) → P w → P (record_event (selected p folder true r) w))
    → ((w : World) (r : Result (Option (List (ℕ × String))))
        → P w
        → P (record_event (fetched_ids p r) w))
    → Runs P
        (fetch_message_ids env p folder)
        (λ ids w. P w × All (λ x. IsListedBy x w.history) ids)
        (λ e. P)
unfolding fetch_message_ids
fetch_message_ids-Runs P env p folder f g =
    Runs-bind _ _ (select_folder_ex-Keeps env p folder true f) λ found.
      Runs-if found _ _
        (λ h.
          Runs-bind _ _ (Runs-try {F = λ e. P} _ _ (call-Runs p _ _ (λ w h. h) read) missed)
            (λ items. Runs-pure _ (λ w k. (k.0, AllListed-dict _ [] _ tt k.1))))
        (λ h. Runs-pure [] (λ w h. (h, tt)))
  where
    After : Option (List (ℕ × String)) → World → Type 0
    After items w = P w × All (λ x. IsListedBy x w.history) (Option.get_or items [])

    read :
        (w : World) (r : Result (Option (List (ℕ × String))))
        → P w
        → Post After (λ e. P) r (record_event (fetched_ids p r) w)
    read w (ok none) h = (g w (ok none) h, tt)
    read w (ok (some items)) h =
        (g w (ok (some items)) h, AllListed-reply p w.history items items (λ x a. a))
    read w (raised e) h = g w (raised e) h

    missed : (e : Exn) → Runs P (on_imap_error env p none e) After (λ e. P)
    missed e =
        unfold on_imap_error in
        Runs-if (is_imap_error e) _ _ (λ k. Runs-pure none (λ w h. (h, tt)))
          (λ k. Runs-raise e (λ w h. h))
