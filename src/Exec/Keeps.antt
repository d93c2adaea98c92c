-- ===== src/Exec/Keeps.antt =====
-- Invariants of actions, with a fact about the value that an action returns.
use agentic_engineering_cont.Prelude.{◌≡◌, refl, ap, subst, Bool, true, false, if◌then◌else◌}
use agentic_engineering_cont.Prelude.Platform.{Error}
use agentic_engineering_cont.Exec.{
  Result, ok, err, Exec, pure, raise, lift, gets, modify, guard, continue, ◌>>=◌, handle,
  try_except, settle, transaction,
}

-- From a state with `P`, `m` ends in one with `P`, whether it returns or raises, and a value that
-- it returns has `Q`.
pub record Keeps {S A : Type 0} (P : S → Type 0) (m : Exec S A) (Q : A → Type 0) : Type 0 where
  pub at : (s : S) → P s → P (m s).1
  pub gives : (s : S) → P s → (a : A) → (m s).0 ≡ ok a → Q a

abbrev pub Any : {A : Type 0} → A → Type 0
Any a = Unit {0}

abbrev value_or : {A : Type 0} → A → Result A → A
value_or d (ok a) = a
value_or d (err e) = d

pub ok-injective : {A : Type 0} {a b : A} → ok a ≡ ok b → a ≡ b
ok-injective {a = a} e = ap (value_or a) e

module _ {S A : Type 0} {P : S → Type 0} {Q : A → Type 0} where
  pub Keeps-pure : (a : A) → Q a → Keeps P (pure a) Q
  unfolding pure
  Keeps-pure a q = record { at = λ s h. h; gives = λ s h b e. subst Q (ok-injective e) q }

  pub Keeps-raise : (e : Error) → Keeps P (raise e) Q
  unfolding raise
  Keeps-raise e = record { at = λ s h. h; gives = λ s h a p. cc }

  -- A read: what follows may use all that holds of the value in a state with `P`.
  pub Keeps-gets : (f : S → A) → ((s : S) → P s → Q (f s)) → Keeps P (gets f) Q
  unfolding gets
  Keeps-gets f q = record { at = λ s h. h; gives = λ s h b e. subst Q (ok-injective e) (q s h) }

  pub Keeps-lift : (r : Result A) → ((a : A) → r ≡ ok a → Q a) → Keeps P (lift r) Q
  unfolding lift
  Keeps-lift r q = record { at = λ s h. h; gives = λ s h a e. q a e }

  pub Keeps-if :
      (b : Bool) (m n : Exec S A)
      → (b ≡ true → Keeps P m Q)
      → (b ≡ false → Keeps P n Q)
      → Keeps P (if b then m else n) Q
  Keeps-if true m n km kn = km refl
  Keeps-if false m n km kn = kn refl

  pub Keeps-weaken :
      {R : A → Type 0} (m : Exec S A) → Keeps P m R → ((a : A) → R a → Q a) → Keeps P m Q
  Keeps-weaken m k f = record { at = k.at; gives = λ s h a e. f a (k.gives s h a e) }

  handle-at :
      (r : Result A) (h : Error → Exec S A) (s : S)
      → P s
      → ((e : Error) → Keeps P (h e) Q)
      → P (handle r h s).1
  handle-at (ok a) h s p k = p
  handle-at (err e) h s p k = (k e).at s p

  handle-gives :
      (r : Result A) (h : Error → Exec S A) (s : S)
      → P s
      → ((a : A) → r ≡ ok a → Q a)
      → ((e : Error) → Keeps P (h e) Q)
      → (a : A) → (handle r h s).0 ≡ ok a
      → Q a
  handle-gives (ok b) h s p q k a e = q a e
  handle-gives (err x) h s p q k a e = (k x).gives s p a e

  pub Keeps-try :
      (m : Exec S A) (h : Error → Exec S A)
      → Keeps P m Q
      → ((e : Error) → Keeps P (h e) Q)
      → Keeps P (try_except m h) Q
  unfolding try_except
  Keeps-try m h km kh = record {
    at = λ s p. let (r, s') = m s in handle-at r h s' (km.at s p) kh;
    gives = λ s p. let (r, s') = m s in handle-gives r h s' (km.at s p) (km.gives s p) kh;
  }

-- A fact that no state changes is kept by every action.
pub Keeps-with :
    {S A : Type 0} {P : S → Type 0} {Q : A → Type 0} {m : Exec S A} (Y : Type 0)
    → Keeps P m Q
    → Keeps (λ s. P s × Y) m Q
Keeps-with Y k = record { at = λ s h. (k.at s h.0, h.1); gives = λ s h. k.gives s h.0 }

module _ {S : Type 0} {P : S → Type 0} where
  pub Keeps-modify : (f : S → S) → ((s : S) → P s → P (f s)) → Keeps P (modify f) Any
  unfolding modify
  Keeps-modify f h = record { at = h; gives = λ s p a e. tt }

  pub Keeps-guard : (b : Bool) (e : Error) → Keeps P (guard b e) (λ _. b ≡ true)
  unfolding guard
  Keeps-guard true e = record { at = λ s h. h; gives = λ s h a p. refl }
  Keeps-guard false e = record { at = λ s h. h; gives = λ s h a p. cc }

module _ {S A B : Type 0} {P : S → Type 0} {Q : A → Type 0} {R : B → Type 0} where
  continue-at :
      (r : Result A) (f : A → Exec S B) (s : S)
      → P s
      → ((a : A) → r ≡ ok a → Q a)
      → ((a : A) → Q a → Keeps P (f a) R)
      → P (continue r f s).1
  continue-at (ok a) f s p q k = (k a (q a refl)).at s p
  continue-at (err e) f s p q k = p

  continue-gives :
      (r : Result A) (f : A → Exec S B) (s : S)
      → P s
      → ((a : A) → r ≡ ok a → Q a)
      → ((a : A) → Q a → Keeps P (f a) R)
      → (b : B) → (continue r f s).0 ≡ ok b
      → R b
  continue-gives (ok a) f s p q k b e = (k a (q a refl)).gives s p b e
  continue-gives (err x) f s p q k b e = cc

  pub Keeps-bind :
      (m : Exec S A) (f : A → Exec S B)
      → Keeps P m Q
      → ((a : A) → Q a → Keeps P (f a) R)
      → Keeps P (m >>= f) R
  unfolding ◌>>=◌
  Keeps-bind m f km kf = record {
    at = λ s p. let (r, s') = m s in continue-at r f s' (km.at s p) (km.gives s p) kf;
    gives = λ s p. let (r, s') = m s in continue-gives r f s' (km.at s p) (km.gives s p) kf;
  }

module _ {S D A : Type 0} (get : S → D) (put : D → S → S) where
  settle-at :
      (P : S → Type 0) (d : D) (r : Result A) (s : S)
      → P s
      → P (put d s)
      → P (settle get put d r s).1
  settle-at P d (ok a) s p q = p
  settle-at P d (err e) s p q = q

  settle-value : (d : D) (r : Result A) (s : S) (a : A) → (settle get put d r s).0 ≡ ok a → r ≡ ok a
  settle-value d (ok b) s a e = e
  settle-value d (err x) s a e = cc

  -- A transaction keeps what its body keeps, where the rollback does.
  pub Keeps-transaction :
      {P : S → Type 0} {Q : A → Type 0} (m : Exec S A)
      → ((s : S) (s' : S) → P s → P s' → P (put (get s) s'))
      → Keeps P m Q
      → Keeps P (transaction get put m) Q
  unfolding transaction
  Keeps-transaction {P} m back k = record {
    at = λ s p. let (r, s') = m s in settle-at P (get s) r s' (k.at s p) (back s s' p (k.at s p));
    gives = λ s p a e. let (r, s') = m s in k.gives s p a (settle-value (get s) r s' a e);
  }
