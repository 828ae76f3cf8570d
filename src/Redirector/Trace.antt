-- ===== src/Redirector/Trace.antt =====
-- What the exchange of redirector.py shows: no message leaves the source folder before its bytes
-- are in the target mailbox.
use ronzz_nextcloud.Prelude.{String, [], some, true, ℕ, ◌∷◌, ◌≡◌, ◌⊎◌, Bool, false, none, Option}
use ronzz_nextcloud.Errors.{Exn, ok}
use ronzz_nextcloud.Errors.Runs.{Runs}
use ronzz_nextcloud.World.{
  Event, History, World, appended, expunged, fetched_raw, marked_deleted, moved, source, target,
}

-- The event happened.
abbrev pub Occurs : Event → History → Type 0
Occurs e [] = ⊥
Occurs e (x ∷ h) = (x ≡ e) ⊎ Occurs e h

-- The bytes of a source message were fetched, and a later APPEND of the same bytes to the folder
-- of the target was answered OK.
abbrev pub IsDelivered : String → ℕ → History → Type 0
IsDelivered dest uid [] = ⊥
IsDelivered dest uid (x ∷ h) =
    ((raw : String) × (x ≡ appended target dest raw (ok true))
      × Occurs (fetched_raw source uid (ok (some raw))) h)
    ⊎ IsDelivered dest uid h

-- The last event marked a message for deletion that had been delivered.
abbrev pub HasMarked : String → History → Type 0
HasMarked dest (marked_deleted source uid r ∷ h) = IsDelivered dest uid h
HasMarked dest _ = ⊥

-- What an event needs of those before it.
abbrev pub Needs : String → Event → History → Type 0
Needs dest (moved source uid folder r) h = IsDelivered dest uid h
Needs dest (marked_deleted source uid r) h = IsDelivered dest uid h
Needs dest (expunged source r) h = HasMarked dest h
Needs dest (appended source folder raw r) h = ⊥
Needs dest (appended target folder raw r) h =
    (folder ≡ dest) × ((uid : ℕ) × Occurs (fetched_raw source uid (ok (some raw))) h)
Needs dest (moved target uid folder r) h = ⊥
Needs dest (marked_deleted target uid r) h = ⊥
Needs dest (expunged target r) h = ⊥
Needs dest _ h = Unit

abbrev pub IsGuarded : String → History → Type 0
IsGuarded dest [] = Unit
IsGuarded dest (x ∷ h) = Needs dest x h × IsGuarded dest h

module _ (dest : String) where
  -- The invariant, as a postcondition and for exceptions.
  abbrev Inv : World → Type 0
  Inv w = IsGuarded dest w.history

  abbrev After : {A : Type 0} → A → World → Type 0
  After a w = Inv w

  abbrev Always : Exn → World → Type 0
  Always e w = Inv w

  abbrev Delivered : ℕ → World → Type 0
  Delivered uid w = IsDelivered dest uid w.history × Inv w

  abbrev Marked : ℕ → World → Type 0
  Marked uid w = HasMarked dest w.history × Delivered uid w

  abbrev Fetched : ℕ → String → World → Type 0
  Fetched uid raw w = Occurs (fetched_raw source uid (ok (some raw))) w.history × Inv w

  -- What the fetch of a message leaves.
  abbrev Read : ℕ → Option String → World → Type 0
  Read uid none w = Inv w
  Read uid (some raw) w = Fetched uid raw w

  abbrev Appended : ℕ → Bool → World → Type 0
  Appended uid true w = Delivered uid w
  Appended uid false w = Inv w
