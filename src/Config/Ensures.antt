-- ===== src/Config/Ensures.antt =====
-- Rules for what the readers of config.py ensure of a value that they load.
use mathlib.Core.Path.{subst}
use ronzz_nextcloud.Prelude.{Bool, false, refl, true, ◌≡◌}
use ronzz_nextcloud.Config.Toml.{Failure, Loaded, failed, loaded, require, ◌>>=◌}

-- What holds of a value, if it is loaded.
pub data Ensures {ℓ κ} {A : Type ℓ} (P : A → Type κ) : Loaded A → Type (ℓ ⊔ κ) where
  value : {a : A} → P a → Ensures P (loaded a)
  failure : {e : Failure} → Ensures P (failed e)

pub Ensures-loaded {ℓ κ} : {A : Type ℓ} {P : A → Type κ} {a : A} → Ensures P (loaded a) → P a
Ensures-loaded (value p) = p

pub Ensures-at {ℓ κ} :
    {A : Type ℓ} {P : A → Type κ} (m : Loaded A) {a : A} → Ensures P m → m ≡ loaded a → P a
Ensures-at {P = P} (loaded b) (value p) e = subst P (cc) p
Ensures-at (failed x) q e = cc

pub Ensures-bind {ℓ κ μ ν} :
    {A : Type ℓ} {B : Type κ} {Q : A → Type μ} {P : B → Type ν} (m : Loaded A) (f : A → Loaded B)
    → Ensures Q m
    → ((a : A) → Q a → Ensures P (f a))
    → Ensures P (m >>= f)
unfolding ◌>>=◌
Ensures-bind (loaded a) f (value q) r = r a q
Ensures-bind (failed e) f q r = failure

-- Of a step of which nothing is known.
pub Ensures-any {ℓ κ ν} :
    {A : Type ℓ} {B : Type κ} {P : B → Type ν} (m : Loaded A) (f : A → Loaded B)
    → ((a : A) → Ensures P (f a))
    → Ensures P (m >>= f)
unfolding ◌>>=◌
Ensures-any (loaded a) f r = r a
Ensures-any (failed e) f r = failure

pub Ensures-map {ℓ κ μ} :
    {A : Type ℓ} {P : A → Type κ} {Q : A → Type μ} (m : Loaded A)
    → ((a : A) → Q a → P a)
    → Ensures Q m
    → Ensures P m
Ensures-map (loaded a) r (value q) = value (r a q)
Ensures-map (failed e) r q = failure

pub Ensures-require : (b : Bool) (e : Failure) → Ensures (λ u. b ≡ true) (require b e)
Ensures-require true e = value refl
Ensures-require false e = failure
