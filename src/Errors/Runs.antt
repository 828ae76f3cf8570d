-- ===== src/Errors/Runs.antt =====
-- What actions establish: from a state with `P`, a result `a` comes with `Q a`, and an exception
-- `e` with `E e`. There is one rule for each way to build an action.
use ronzz_nextcloud.Prelude.{Bool, false, if◌then◌else◌, refl, true, ◌≡◌}
use ronzz_nextcloud.Errors.{
  Exec, Exn, Result, handle, ok, proceed, pure, raise, raised, try_except, try_finally, ◌>>=◌,
}

module _ {ℓ} {S A : Type ℓ} where
  abbrev pub Post : (A → S → Type ℓ) → (Exn → S → Type ℓ) → Result A → S → Type ℓ
  Post Q E (ok a) s = Q a s
  Post Q E (raised e) s = E e s

  pub record Runs (P : S → Type ℓ) (m : Exec S A) (Q : A → S → Type ℓ) (E : Exn → S → Type ℓ)
      : Type ℓ where
    pub at : (s : S) → P s → Post Q E (m s).0 (m s).1

module _ {ℓ} {S A : Type ℓ} {P : S → Type ℓ} {Q : A → S → Type ℓ} {E : Exn → S → Type ℓ} where
  pub Runs-pure : (a : A) → ((s : S) → P s → Q a s) → Runs P (pure a) Q E
  unfolding pure
  Runs-pure a h = record { at = h }

  pub Runs-raise : (e : Exn) → ((s : S) → P s → E e s) → Runs P (raise {A = A} e) Q E
  unfolding raise
  Runs-raise e h = record { at = h }

  -- What holds in every state.
  pub Runs-any :
      (m : Exec S A) → ((a : A) (s : S) → Q a s) → ((e : Exn) (s : S) → E e s) → Runs P m Q E
  Runs-any m q x = record { at = λ s h. holds (m s).0 (m s).1 }
    where
      holds : (r : Result A) (s : S) → Post Q E r s
      holds (ok a) s = q a s
      holds (raised e) s = x e s

  pub Runs-if :
      (b : Bool) (m n : Exec S A)
      → (b ≡ true → Runs P m Q E)
      → (b ≡ false → Runs P n Q E)
      → Runs P (if b then m else n) Q E
  Runs-if true m n km kn = km refl
  Runs-if false m n km kn = kn refl

  pub Runs-finally :
      (m : Exec S A) (f : S → S)
      → Runs P m (λ a s. Q a (f s)) (λ e s. E e (f s))
      → Runs P (try_finally m f) Q E
  unfolding try_finally
  Runs-finally m f k = record { at = λ s h. finish s (m s).0 refl (k.at s h) }
    where
      finish :
          (s : S) (r : Result A)
          → (m s).0 ≡ r
          → Post (λ a t. Q a (f t)) (λ e t. E e (f t)) r (m s).1
          → Post Q E r (f (m s).1)
      finish s (ok a) e h = h
      finish s (raised e) p h = h

  pub Runs-pre :
      (P' : S → Type ℓ) (m : Exec S A) → ((s : S) → P s → P' s) → Runs P' m Q E → Runs P m Q E
  Runs-pre P' m w k = record { at = λ s h. k.at s (w s h) }

module _ {ℓ} {S A : Type ℓ} {P : S → Type ℓ} {Q Q' : A → S → Type ℓ} {E E' : Exn → S → Type ℓ} where
  pub Runs-post :
      (m : Exec S A)
      → Runs P m Q E
      → ((a : A) (s : S) → Q a s → Q' a s)
      → ((e : Exn) (s : S) → E e s → E' e s)
      → Runs P m Q' E'
  Runs-post m k q x = record { at = λ s h. weaken (m s).0 (m s).1 (k.at s h) }
    where
      weaken : (r : Result A) (s : S) → Post Q E r s → Post Q' E' r s
      weaken (ok a) s h = q a s h
      weaken (raised e) s h = x e s h

module _ {ℓ} {S A : Type ℓ} {Q : A → S → Type ℓ} {E F : Exn → S → Type ℓ} where
  handled :
      (h : Exn → Exec S A)
      → ((e : Exn) → Runs (F e) (h e) Q E)
      → (r : Result A) (s : S) → Post Q F r s
      → Post Q E (handle h r s).0 (handle h r s).1
  handled h kh (ok a) s p = p
  handled h kh (raised e) s p = (kh e).at s p

  pub Runs-try :
      {P : S → Type ℓ} (m : Exec S A) (h : Exn → Exec S A)
      → Runs P m Q F
      → ((e : Exn) → Runs (F e) (h e) Q E)
      → Runs P (try_except m h) Q E
  unfolding try_except
  Runs-try m h km kh = record { at = λ s p. handled h kh (m s).0 (m s).1 (km.at s p) }

module _ {ℓ} {S A B : Type ℓ} {Q : A → S → Type ℓ} {R : B → S → Type ℓ} {E : Exn → S → Type ℓ} where
  proceeds :
      (f : A → Exec S B)
      → ((a : A) → Runs (Q a) (f a) R E)
      → (r : Result A) (s : S) → Post Q E r s
      → Post R E (proceed r f s).0 (proceed r f s).1
  proceeds f kf (ok a) s p = (kf a).at s p
  proceeds f kf (raised e) s p = p

  pub Runs-bind :
      {P : S → Type ℓ} (m : Exec S A) (f : A → Exec S B)
      → Runs P m Q E
      → ((a : A) → Runs (Q a) (f a) R E)
      → Runs P (m >>= f) R E
  unfolding ◌>>=◌
  Runs-bind m f km kf = record { at = λ s p. proceeds f kf (m s).0 (m s).1 (km.at s p) }

-- The action keeps `P`, whether it returns or raises.
abbrev pub Keeps {ℓ} : {S A : Type ℓ} → (S → Type ℓ) → Exec S A → Type ℓ
Keeps P m = Runs P m (λ a. P) (λ e. P)

module _ {ℓ} {S A : Type ℓ} {P Q : S → Type ℓ} where
  -- The state that is left, if it is the same for a result and for an exception.
  pub Runs-at : (m : Exec S A) → Runs P m (λ a. Q) (λ e. Q) → (s : S) → P s → Q (m s).1
  Runs-at m k s h = left (m s).0 (m s).1 (k.at s h)
    where
      left : (r : Result A) (t : S) → Post (λ a. Q) (λ e. Q) r t → Q t
      left (ok a) t p = p
      left (raised e) t p = p

module _ {ℓ} {S A B : Type ℓ} {P : S → Type ℓ} {Q : B → S → Type ℓ} {E : Exn → S → Type ℓ} where
  -- What is known of the argument.
  pub Runs-known :
      {a x : A} (f : A → Exec S B) → Runs P (f x) Q E → Runs (λ s. (a ≡ x) × P s) (f a) Q E
  Runs-known f k = record { at = λ s h. rw (h.0) (k.at s h.1) }
