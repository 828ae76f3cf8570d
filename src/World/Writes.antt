-- ===== src/World/Writes.antt =====
-- The commands of a history that change a mailbox or a Sieve script, and logs that only grow.
use ronzz_nextcloud.Prelude.{Bool, List, [], false, if◌then◌else◌, true, ◌∷◌}
use ronzz_nextcloud.World.{
  Event, History, appended, copied, expunged, marked_deleted, moved, sieve_activated, sieve_put,
}

abbrev pub writes : Event → Bool
writes (moved p uid folder r) = true
writes (copied p uid folder r) = true
writes (marked_deleted p uid r) = true
writes (expunged p r) = true
writes (appended p folder raw r) = true
writes (sieve_put name script r) = true
writes (sieve_activated name r) = true
writes _ = false

abbrev pub written : History → List Event
written [] = []
written (e ∷ h) = if writes e then e ∷ written h else written h

-- The log is `old` with entries before it that all have `P`.
pub data Extends {ℓ} {A : Type ℓ} (P : A → Type ℓ) (old : List A) : List A → Type ℓ where
  same : Extends P old old
  more : {a : A} {log : List A} → P a → Extends P old log → Extends P old (a ∷ log)
