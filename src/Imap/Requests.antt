-- ===== src/Imap/Requests.antt =====
-- The FETCH requests that fetch_uids of client.py sends.
use ronzz_nextcloud.Prelude.{
  All, List, Option, [], refl, ap, true, false, ℕ, ◌++◌, ◌∙◌, ◌∷◌, ◌≡◌, String, none, arith,
  if◌then◌else◌,
}
use ronzz_nextcloud.Errors.{Exn, Result, is_imap_error, ok, raised, pure}
use ronzz_nextcloud.Errors.Runs.{
  Post, Runs, Runs-bind, Runs-if, Runs-pre, Runs-pure, Runs-raise, Runs-try,
}
use ronzz_nextcloud.World.{
  source, target, Env, History, Message, Peer, World, fetched, record_event,
}
use ronzz_nextcloud.Imap.{
  is_peer, call, chunks, fetch_chunks, fetch_uids, on_imap_error, select_folder_ex,
}
use ronzz_nextcloud.Imap.Chunks.{IsRequest, chunks_lem, flatten}

-- The lists of UIDs of the FETCH requests of a client, in their order.
abbrev pub requests : Peer → History → List (List ℕ)
requests p [] = []
requests p (fetched q uids r ∷ h) =
    let before = requests p h in if is_peer p q then before ++ uids ∷ [] else before
requests p (_ ∷ h) = requests p h

is_peer_refl : (p : Peer) → is_peer p p ≡ true
is_peer_refl source = refl
is_peer_refl target = refl

-- A reply, or an error of imaplib.
abbrev pub Answered : {A : Type 0} → Result A → Type 0
Answered (ok a) = Unit
Answered (raised e) = is_imap_error e ≡ true

abbrev pub Returned : {A : Type 0} → Result A → Type 0
Returned (ok a) = Unit
Returned (raised e) = ⊥

-- From `old` to `new` the client's requests ask for exactly the UIDs, in their order, each for at most 50
-- and at least one.
pub record Asks (p : Peer) (uids : List ℕ) (old new : History) : Type 0 where
  pub parts : List (List ℕ)
  pub sent : requests p new ≡ requests p old ++ parts
  pub whole : flatten parts ≡ uids
  pub sizes : All (IsRequest 50) parts

append_assoc : (xs ys zs : List (List ℕ)) → (xs ++ ys) ++ zs ≡ xs ++ (ys ++ zs)
append_assoc [] ys zs = refl
append_assoc (x ∷ xs) ys zs = ap (λ l. x ∷ l) (append_assoc xs ys zs)

append_nil : (xs : List (List ℕ)) → xs ≡ xs ++ []
append_nil [] = refl
append_nil (x ∷ xs) = ap (λ l. x ∷ l) (append_nil xs)

module _ (env : Env) (p : Peer) where
  abbrev Sent : List (List ℕ) → World → Type 0
  Sent parts w = (w.connected p ≡ true) × (requests p w.history ≡ parts)

  abbrev Never : Exn → World → Type 0
  Never e w = ⊥

  module _ (answers : (h : History) (uids : List ℕ) → Answered (env.fetch h p uids)) where
    fetch_one-Runs :
        (old : List (List ℕ)) (c : List ℕ)
        → Runs
            (Sent old)
            (call p (λ h. env.fetch h p c) (fetched p c))
            (λ a. Sent (old ++ c ∷ []))
            (λ e w. Sent (old ++ c ∷ []) w × (is_imap_error e ≡ true))
    unfolding call
    fetch_one-Runs old c = record {
      at = λ w h. rw h.0 (settled w h (env.fetch w.history p c) (answers w.history c));
    }
      where
        settled :
            (w : World)
            → Sent old w
            → (r : Result (Option (List (Option Message)))) → Answered r
            → Post
                (λ a. Sent (old ++ c ∷ []))
                (λ e w. Sent (old ++ c ∷ []) w × (is_imap_error e ≡ true))
                r
                (record_event (fetched p c r) w)
        settled w h (ok a) k = (h.0, rw (is_peer_refl p) (ap (λ l. l ++ c ∷ []) h.1))
        settled w h (raised e) k = ((h.0, rw (is_peer_refl p) (ap (λ l. l ++ c ∷ []) h.1)), k)

    fetch_chunks-Sent :
        (old cs : List (List ℕ))
        → Runs (Sent old) (fetch_chunks env p cs) (λ ms. Sent (old ++ cs)) Never
    unfolding fetch_chunks
    fetch_chunks-Sent old [] = Runs-pure [] (λ w h. (h.0, h.1 ∙ append_nil old))
    fetch_chunks-Sent old (c ∷ cs) =
        Runs-bind _ _
          (Runs-try {F = λ e w. Sent (old ++ c ∷ []) w × (is_imap_error e ≡ true)} _ _
            (fetch_one-Runs old c) missed)
          λ items.
            Runs-bind _ _ (fetch_chunks-Sent (old ++ c ∷ []) cs)
              (λ ms. Runs-pure _ (λ w h. (h.0, h.1 ∙ append_assoc old (c ∷ []) cs)))
      where
        After : Option (List (Option Message)) → World → Type 0
        After items = Sent (old ++ c ∷ [])

        missed :
            (e : Exn)
            → Runs
                (λ w. Sent (old ++ c ∷ []) w × (is_imap_error e ≡ true))
                (on_imap_error env p none e)
                After
                Never
        missed e =
            unfold on_imap_error in
            Runs-if (is_imap_error e) _ _ (λ k. Runs-pure none (λ w h. h.0))
              (λ k. Runs-raise e (λ w h. absurd (ground (arith, h.1, k))))

    selected-Runs :
        (folder : String) (h₀ : History)
        → env.select h₀ p folder true ≡ ok true
        → Runs
            (λ w. (w.connected p ≡ true) × (w.history ≡ h₀))
            (select_folder_ex env p folder true)
            (λ found w. Sent (requests p h₀) w × (found ≡ true))
            Never
    unfolding select_folder_ex call
    selected-Runs folder h₀ selects =
        Runs-try {F = Never} _ _ (record { at = λ w h. rw (h.0, h.1, selects) ((h.0, refl), refl) })
          (λ e. Runs-pure false (λ w x. elim x [ ]))

-- With a client that is connected and a folder that is selected, and if each FETCH has a reply or
-- raises an error of imaplib, fetch_uids returns, and its FETCH requests ask together for exactly
-- the given UIDs, in their order, each for at least one and at most 50.
pub fetch_uids_lem :
    (env : Env) (p : Peer) (folder : String) (uids : List ℕ) (w : World)
    (answers : (h : History) (us : List ℕ) → Answered (env.fetch h p us))
    → w.connected p ≡ true
    → env.select w.history p folder true ≡ ok true
    → Returned (fetch_uids env p folder uids w).0
      × Asks p uids w.history (fetch_uids env p folder uids w).1.history
unfolding fetch_uids pure
fetch_uids_lem env p folder [] w answers c s =
    (tt, record { parts = []; sent = append_nil (requests p w.history); whole = refl; sizes = tt })
fetch_uids_lem env p folder (u ∷ us) w answers c s = asks _ _ (ran.at w (c, refl))
  where
    ran :
        Runs
          (λ v. (v.connected p ≡ true) × (v.history ≡ w.history))
          (fetch_uids env p folder (u ∷ us))
          (λ ms. Sent env p (requests p w.history ++ chunks 50 (u ∷ us)))
          (Never env p)
    ran =
        unfold fetch_uids in
        Runs-bind _ _ (selected-Runs env p answers folder w.history s) λ found.
          Runs-if found _ _
            (λ k.
              Runs-pre (Sent env p (requests p w.history)) _ (λ v h. h.0)
                (fetch_chunks-Sent env p answers (requests p w.history) (chunks 50 (u ∷ us))))
            (λ k. Runs-pure [] (λ v h. absurd (ground (arith, h.1, k))))

    asks :
        (r : Result (List Message)) (v : World)
        → Post (λ ms. Sent env p (requests p w.history ++ chunks 50 (u ∷ us))) (Never env p) r v
        → Returned r × Asks p (u ∷ us) w.history v.history
    asks (ok ms) v h =
        let l = chunks_lem 50 (u ∷ us) (omega arith) in
        (tt, record { parts = chunks 50 (u ∷ us); sent = h.1; whole = l.0; sizes = l.1 })
    asks (raised e) v h = elim h [ ]
