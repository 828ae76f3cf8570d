-- ===== src/Pipeline/Recorded.antt =====
-- The rows of `daemon_moves` that the moves of a scan of pipeline.py leave.
use ronzz_nextcloud.Prelude.{
  ap, ◌∙◌, eq_refl, if◌then◌else◌, All, List, Option, String, Bool, [], any, arith, refl, str_eq,
  true, false, some, none, ℕ, ◌&&◌, ◌||◌, ◌++◌, ◌==◌, ◌∷◌, ◌≡◌, not, inl, inr, ◌∙◌, ◌⊎◌,
}
use ronzz_nextcloud.World.{
  DaemonMove, Event, History, Message, World, copied, expunged, fetched, marked_deleted, moved,
}
use ronzz_nextcloud.Errors.{ok}
use ronzz_nextcloud.Imap.Fetched.{Among, IsFetchedBy, IsFetchedIn, AllFetched}
use ronzz_nextcloud.Pipeline.{result_id, without_move}

-- The event is an OK reply to a FETCH, with the message.
abbrev pub Carries : Message → Event → Type 0
Carries m (fetched p uids (ok (some items))) = Among m items
Carries m _ = ⊥

abbrev pub IsRead : Message → History → Type 0
IsRead m [] = ⊥
IsRead m (e ∷ h) = Carries m e ⊎ IsRead m h

abbrev is_row : String → ℕ → String → DaemonMove → Bool
is_row account uid message_id row =
    str_eq row.account_email account && row.imap_uid == uid && str_eq row.message_id message_id

-- `daemon_moves` has the row for a message with the UID that was read: with the account, the UID
-- and the message's Message-ID, or the text of its UID if it has none.
pub record HasRow (account : String) (moves : List DaemonMove) (h : History) (uid : ℕ)
    : Type 0 where
  pub message : Message
  pub read : IsRead message h
  pub same_uid : message.imap_uid ≡ uid
  pub row : any (is_row account uid (result_id message)) moves ≡ true

-- The UID of the message that a command takes away, or tries to.
abbrev pub taken_uid : Event → Option ℕ
taken_uid (moved p uid folder r) = some uid
taken_uid (copied p uid folder r) = some uid
taken_uid (marked_deleted p uid r) = some uid
taken_uid _ = none

abbrev pub is_expunge : Event → Bool
is_expunge (expunged p r) = true
is_expunge _ = false

-- The UID of the mark, if the last command is one.
abbrev pub last_mark : History → Option ℕ
last_mark (marked_deleted p uid r ∷ h) = some uid
last_mark _ = none

abbrev pub OnSome : (ℕ → Type 0) → Option ℕ → Type 0
OnSome G none = Unit
OnSome G (some uid) = G uid

abbrev pub HasSome : (ℕ → Type 0) → Option ℕ → Type 0
HasSome G none = ⊥
HasSome G (some uid) = G uid

abbrev pub When : Bool → Type 0 → Type 0
When true A = A
When false A = Unit

-- A command is for a UID with `G`; an EXPUNGE follows directly on the mark of such a one.
abbrev pub IsCovered : (ℕ → Type 0) → Event → History → Type 0
IsCovered G e h = OnSome G (taken_uid e) × When (is_expunge e) (HasSome G (last_mark h))

-- Each event of the log after `old` satisfies `P`, with the log before it.
pub data Grows (P : Event → History → Type 0) (old : History) : History → Type 0 where
  grows_none : Grows P old old
  grows_by : {e : Event} {h : History} → P e h → Grows P old h → Grows P old (e ∷ h)

module _ (G G' : ℕ → Type 0) (f : (uid : ℕ) → G uid → G' uid) where
  OnSome-map : (o : Option ℕ) → OnSome G o → OnSome G' o
  OnSome-map none k = tt
  OnSome-map (some uid) k = f uid k

  pub HasSome-map : (o : Option ℕ) → HasSome G o → HasSome G' o
  HasSome-map none k = k
  HasSome-map (some uid) k = f uid k

  When-map : (b : Bool) (o : Option ℕ) → When b (HasSome G o) → When b (HasSome G' o)
  When-map true o k = HasSome-map o k
  When-map false o k = tt

  pub IsCovered-map : (e : Event) (h : History) → IsCovered G e h → IsCovered G' e h
  IsCovered-map e h k = (OnSome-map (taken_uid e) k.0, When-map (is_expunge e) (last_mark h) k.1)

  pub Grows-map : (old h : History) → Grows (IsCovered G) old h → Grows (IsCovered G') old h
  Grows-map old h grows_none = grows_none
  Grows-map old (e ∷ h) (grows_by k ks) = grows_by (IsCovered-map e h k) (Grows-map old h ks)

pub HasRow-event :
    (account : String) (moves : List DaemonMove) (e : Event) (h : History) (uid : ℕ)
    → HasRow account moves h uid
    → HasRow account moves (e ∷ h) uid
HasRow-event account moves e h uid k = record {
  message = k.message;
  read = inr k.read;
  same_uid = k.same_uid;
  row = k.row;
}

abbrev pub with_move : String → ℕ → String → List DaemonMove → List DaemonMove
with_move account uid message_id rows =
    without_move account uid rows
    ++ record { account_email = account; imap_uid = uid; message_id = message_id } ∷ []

any-kept :
    (p : DaemonMove → Bool) (b : Bool) (row : DaemonMove) (rows rest : List DaemonMove)
    → any p ((if b then rows else row ∷ rows) ++ rest) ≡ (not b && p row || any p (rows ++ rest))
any-kept p true row rows rest = refl
any-kept p false row rows rest = refl

kept_tests :
    (a d x f : Bool) (n u v : ℕ)
    → (not (a && n == u) && (a && n == v && d) || (x && not (u == v) || f))
      ≡ ((a && n == v && d || x) && not (u == v) || f)
kept_tests false d x f n u v = refl
kept_tests true false x f n u v = ground arith
kept_tests true true x f n u v = ground arith

is_row-with_move :
    (a m n : String) (u v : ℕ) (rows : List DaemonMove)
    → any (is_row a v n) (with_move a u m rows)
      ≡ (any (is_row a v n) rows && not (u == v) || u == v && str_eq m n)
is_row-with_move a m n u v [] = ground (arith, eq_refl a)
is_row-with_move a m n u v (row ∷ rows) =
    any-kept (is_row a v n) (str_eq row.account_email a && row.imap_uid == u) row
      (without_move a u rows) (record { account_email = a; imap_uid = u; message_id = m } ∷ [])
    ∙ ap (λ x. not (str_eq row.account_email a && row.imap_uid == u) && is_row a v n row || x)
        (is_row-with_move a m n u v rows)
    ∙ kept_tests (str_eq row.account_email a) (str_eq row.message_id n) (any (is_row a v n) rows)
        (u == v && str_eq m n) row.imap_uid u v

-- The row of one message keeps or replaces the row of each.
pub HasRow-with_move :
    (a : String) (m : Message) (rows : List DaemonMove) (h : History) (uid : ℕ)
    → IsRead m h
    → HasRow a rows h uid
    → HasRow a (with_move a m.imap_uid (result_id m) rows) h uid
HasRow-with_move a m rows h uid r k = kept (m.imap_uid == uid) refl
  where
    kept :
        (b : Bool)
        → (m.imap_uid == uid) ≡ b
        → HasRow a (with_move a m.imap_uid (result_id m) rows) h uid
    kept true e = record {
      message = m;
      read = r;
      same_uid = ground (arith, e);
      row =
          is_row-with_move a (result_id m) (result_id m) m.imap_uid uid rows
          ∙ ground (arith, e, eq_refl (result_id m));
    }
    kept false e = record {
      message = k.message;
      read = k.read;
      same_uid = k.same_uid;
      row =
          is_row-with_move a (result_id m) (result_id k.message) m.imap_uid uid rows
          ∙ ground (arith, e, k.row);
    }

pub with_move-HasRow :
    (a : String) (m : Message) (rows : List DaemonMove) (h : History)
    → IsRead m h
    → HasRow a (with_move a m.imap_uid (result_id m) rows) h m.imap_uid
with_move-HasRow a m rows h r = record {
  message = m;
  read = r;
  same_uid = refl;
  row =
      is_row-with_move a (result_id m) (result_id m) m.imap_uid m.imap_uid rows
      ∙ ground (arith, eq_refl (result_id m));
}

IsFetchedBy-IsRead : (c : List ℕ) (m : Message) (h : History) → IsFetchedBy c m h → IsRead m h
IsFetchedBy-IsRead c m [] x = elim x [ ]
IsFetchedBy-IsRead c m (e ∷ h) (inr k) = inr (IsFetchedBy-IsRead c m h k)
IsFetchedBy-IsRead c m (fetched p uids (ok (some items)) ∷ h) (inl k) = inl k.1
IsFetchedBy-IsRead c m (e ∷ h) (inl k) = elim k [ ]

IsFetchedIn-IsRead :
    (cs : List (List ℕ)) (m : Message) (h : History) → IsFetchedIn cs m h → IsRead m h
IsFetchedIn-IsRead [] m h x = elim x [ ]
IsFetchedIn-IsRead (c ∷ cs) m h (inl k) = IsFetchedBy-IsRead c m h k
IsFetchedIn-IsRead (c ∷ cs) m h (inr k) = IsFetchedIn-IsRead cs m h k

pub AllFetched-IsRead :
    (cs : List (List ℕ)) (ms : List Message) (w : World)
    → AllFetched cs ms w
    → All (λ m. IsRead m w.history) ms
AllFetched-IsRead cs [] w k = tt
AllFetched-IsRead cs (m ∷ ms) w k =
    (IsFetchedIn-IsRead cs m w.history k.0, AllFetched-IsRead cs ms w k.1)

pub AllRead-event :
    (ms : List Message) (e : Event) (h : History)
    → All (λ m. IsRead m h) ms
    → All (λ m. IsRead m (e ∷ h)) ms
AllRead-event [] e h k = tt
AllRead-event (m ∷ ms) e h k = (inr k.0, AllRead-event ms e h k.1)
