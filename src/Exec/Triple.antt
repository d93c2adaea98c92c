-- ===== src/Exec/Triple.antt =====
-- Actions that change what is known of the state: from `P`, a return ends in `Q` of its value and
-- a raise in `E`.
use agentic_engineering_cont.Prelude.{◌≡◌, refl, subst, Bool, true, false, if◌then◌else◌}
use agentic_engineering_cont.Prelude.Platform.{Error}
use agentic_engineering_cont.Exec.{
  Result, ok, err, Exec, pure, raise, modify, continue, ◌>>=◌, handle, try_except, settle,
  transaction,
}
use agentic_engineering_cont.Exec.Keeps.{Keeps, ok-injective}

pub record Triple {S A : Type 0} (P : S → Type 0) (m : Exec S A) (Q : A → S → Type 0)
    (E : S → Type 0) : Type 0 where
  pub returns : (s : S) → P s → (a : A) → (m s).0 ≡ ok a → Q a (m s).1
  pub raises : (s : S) → P s → (e : Error) → (m s).0 ≡ err e → E (m s).1

module _ {S A : Type 0} {P : S → Type 0} {Q : A → S → Type 0} {E : S → Type 0} where
  pub Triple-pure : (a : A) → ((s : S) → P s → Q a s) → Triple P (pure a) Q E
  unfolding pure
  Triple-pure a q = record {
    returns = λ s h b e. subst (λ x. Q x s) (ok-injective e) (q s h);
    raises = λ s h x e. cc;
  }

  pub Triple-raise : (e : Error) → ((s : S) → P s → E s) → Triple P (raise e) Q E
  unfolding raise
  Triple-raise e h = record { returns = λ s p a x. cc; raises = λ s p x q. h s p }

  pub Triple-if :
      (b : Bool) (m n : Exec S A)
      → (b ≡ true → Triple P m Q E)
      → (b ≡ false → Triple P n Q E)
      → Triple P (if b then m else n) Q E
  Triple-if true m n km kn = km refl
  Triple-if false m n km kn = kn refl

  -- What every state with `P` shows may be assumed.
  pub Triple-given :
      {Y : Type 0} (m : Exec S A) → ((s : S) → P s → Y) → (Y → Triple P m Q E) → Triple P m Q E
  Triple-given m y k = record {
    returns = λ s h. (k (y s h)).returns s h;
    raises = λ s h. (k (y s h)).raises s h;
  }

  -- A known condition may be assumed, and the state named.
  pub Triple-start :
      {C : Type 0} (f : S → C) (m : Exec S A)
      → ((c : C) → Triple (λ s. P s × (f s ≡ c)) m Q E)
      → Triple P m Q E
  Triple-start f m k = record {
    returns = λ s h. (k (f s)).returns s (h, refl);
    raises = λ s h. (k (f s)).raises s (h, refl);
  }

  pub Triple-weaken :
      {P' : S → Type 0} {Q' : A → S → Type 0} {E' : S → Type 0} (m : Exec S A)
      → Triple P' m Q' E'
      → ((s : S) → P s → P' s)
      → ((a : A) (s : S) → Q' a s → Q a s)
      → ((s : S) → E' s → E s)
      → Triple P m Q E
  Triple-weaken m k p q e = record {
    returns = λ s h a x. q a _ (k.returns s (p s h) a x);
    raises = λ s h a x. e _ (k.raises s (p s h) a x);
  }

module _ {S A : Type 0} {Q : A → S → Type 0} {E : S → Type 0} where
  pub Triple-exists :
      {X : Type 0} {F : X → S → Type 0} (m : Exec S A)
      → ((x : X) → Triple (F x) m Q E)
      → Triple (λ s. (x : X) × F x s) m Q E
  Triple-exists m k = record {
    returns = λ s h. (k h.0).returns s h.1;
    raises = λ s h. (k h.0).raises s h.1;
  }

module _ {S : Type 0} {P E : S → Type 0} {Q : Unit {0} → S → Type 0} where
  pub Triple-modify : (f : S → S) → ((s : S) → P s → Q tt (f s)) → Triple P (modify f) Q E
  unfolding modify
  Triple-modify f q = record { returns = λ s h a e. q s h; raises = λ s h x e. cc }

module _ {S A : Type 0} {P E : S → Type 0} {X : A → Type 0} where
  pub Triple-Keeps :
      (m : Exec S A) → Keeps P m X → ((s : S) → P s → E s) → Triple P m (λ a s. P s × X a) E
  Triple-Keeps m k e = record {
    returns = λ s h a x. (k.at s h, k.gives s h a x);
    raises = λ s h a x. e _ (k.at s h);
  }

module _ {S A : Type 0} {P : S → Type 0} {X : A → Type 0} where
  pub Keeps-Triple : (m : Exec S A) → Triple P m (λ a s. P s × X a) P → Keeps P m X
  Keeps-Triple m k = record {
    at = λ s h. end s h (m s).0 refl;
    gives = λ s h a e. (k.returns s h a e).1;
  }
    where
      end : (s : S) → P s → (r : Result A) → (m s).0 ≡ r → P (m s).1
      end s h (ok a) e = (k.returns s h a e).0
      end s h (err x) e = k.raises s h x e

module _ {S A B : Type 0} {E : S → Type 0} {Q : A → S → Type 0} {R : B → S → Type 0} where
  continue-returns :
      (r : Result A) (f : A → Exec S B) (s : S)
      → ((a : A) → r ≡ ok a → Q a s)
      → ((a : A) → Triple (Q a) (f a) R E)
      → (b : B) → (continue r f s).0 ≡ ok b
      → R b (continue r f s).1
  continue-returns (ok a) f s q k b e = (k a).returns s (q a refl) b e
  continue-returns (err x) f s q k b e = cc

  continue-raises :
      (r : Result A) (f : A → Exec S B) (s : S)
      → ((a : A) → r ≡ ok a → Q a s)
      → ((x : Error) → r ≡ err x → E s)
      → ((a : A) → Triple (Q a) (f a) R E)
      → (x : Error) → (continue r f s).0 ≡ err x
      → E (continue r f s).1
  continue-raises (ok a) f s q w k x e = (k a).raises s (q a refl) x e
  continue-raises (err y) f s q w k x e = w y refl

  pub Triple-bind :
      {P : S → Type 0} (m : Exec S A) (f : A → Exec S B)
      → Triple P m Q E
      → ((a : A) → Triple (Q a) (f a) R E)
      → Triple P (m >>= f) R E
  unfolding ◌>>=◌
  Triple-bind m f km kf = record {
    returns = λ s p. let (r, s') = m s in continue-returns r f s' (km.returns s p) kf;
    raises = λ s p. let (r, s') = m s in continue-raises r f s' (km.returns s p) (km.raises s p) kf;
  }

module _ {S B : Type 0} {P E : S → Type 0} {R : B → S → Type 0} where
  pull : (m : Exec S B) (Y : Type 0) → (Y → Triple P m R E) → Triple (λ s. P s × Y) m R E
  pull m Y k = record {
    returns = λ s h. (k h.1).returns s h.0;
    raises = λ s h. (k h.1).raises s h.0;
  }

module _ {S A B : Type 0} {P E : S → Type 0} {X : A → Type 0} {R : B → S → Type 0} where
  -- An action that keeps what is known, before the rest.
  pub Triple-after :
      (m : Exec S A) (f : A → Exec S B)
      → Keeps P m X
      → ((s : S) → P s → E s)
      → ((a : A) → X a → Triple P (f a) R E)
      → Triple P (m >>= f) R E
  Triple-after m f km e kf = Triple-bind m f (Triple-Keeps m km e) (λ a. pull (f a) (X a) (kf a))

module _ {S A : Type 0} {M E : S → Type 0} {Q : A → S → Type 0} where
  handle-returns :
      (r : Result A) (h : Error → Exec S A) (s : S)
      → ((a : A) → r ≡ ok a → Q a s)
      → ((x : Error) → r ≡ err x → M s)
      → ((x : Error) → Triple M (h x) Q E)
      → (b : A) → (handle r h s).0 ≡ ok b
      → Q b (handle r h s).1
  handle-returns (ok a) h s q w k b e = q b e
  handle-returns (err x) h s q w k b e = (k x).returns s (w x refl) b e

  handle-raises :
      (r : Result A) (h : Error → Exec S A) (s : S)
      → ((x : Error) → r ≡ err x → M s)
      → ((x : Error) → Triple M (h x) Q E)
      → (y : Error) → (handle r h s).0 ≡ err y
      → E (handle r h s).1
  handle-raises (ok a) h s w k y e = cc
  handle-raises (err x) h s w k y e = (k x).raises s (w x refl) y e

  pub Triple-try :
      {P : S → Type 0} (m : Exec S A) (h : Error → Exec S A)
      → Triple P m Q M
      → ((x : Error) → Triple M (h x) Q E)
      → Triple P (try_except m h) Q E
  unfolding try_except
  Triple-try m h km kh = record {
    returns = λ s p. let (r, s') = m s in handle-returns r h s' (km.returns s p) (km.raises s p) kh;
    raises = λ s p. let (r, s') = m s in handle-raises r h s' (km.raises s p) kh;
  }

module _ {S D A : Type 0} (get : S → D) (put : D → S → S) where
  settle-returns :
      (Q : A → S → Type 0) (d : D) (r : Result A) (s : S)
      → ((a : A) → r ≡ ok a → Q a s)
      → (b : A) → (settle get put d r s).0 ≡ ok b
      → Q b (settle get put d r s).1
  settle-returns Q d (ok a) s q b e = q b e
  settle-returns Q d (err x) s q b e = cc

  settle-raises :
      (E : S → Type 0) (d : D) (r : Result A) (s : S)
      → E (put d s)
      → (y : Error) → (settle get put d r s).0 ≡ err y
      → E (settle get put d r s).1
  settle-raises E d (ok a) s w y e = cc
  settle-raises E d (err x) s w y e = w

  -- A raise inside leaves the part as it was before the transaction.
  pub Triple-transaction :
      {P E X : S → Type 0} {Q : A → S → Type 0} (m : Exec S A)
      → Triple P m Q X
      → ((s s' : S) → P s → E (put (get s) s'))
      → Triple P (transaction get put m) Q E
  unfolding transaction
  Triple-transaction {P} {E} {X} {Q} m k back = record {
    returns = λ s p. let (r, s') = m s in settle-returns Q (get s) r s' (k.returns s p);
    raises = λ s p. let (r, s') = m s in settle-raises E (get s) r s' (back s s' p);
  }
