-- ===== src/Exec.antt =====
-- Methods that change a store and may raise. What was done before a raise stays done, so the
-- state comes back beside the error too; a database transaction restores its part.
pub mod Convert
pub mod Keeps
pub mod Triple
use agentic_engineering_cont.Prelude.{Bool, true, false, List, [], ◌∷◌, if◌then◌else◌}
use agentic_engineering_cont.Prelude.Platform.{Error}

pub data Result {ℓ} (A : Type ℓ) : Type ℓ where
  ok : A → Result A
  err : Error → Result A

abbrev pub Exec : Type 0 → Type 0 → Type 0
Exec S A = S → Result A × S

module _ {S A : Type 0} where
  pub pure : A → Exec S A
  pure a s = (ok a, s)

  pub raise : Error → Exec S A
  raise e s = (err e, s)

  pub lift : Result A → Exec S A
  lift r s = (r, s)

  pub gets : (S → A) → Exec S A
  gets f s = (ok (f s), s)

module _ {S : Type 0} where
  pub modify : (S → S) → Exec S (Unit {0})
  modify f s = (ok tt, f s)

  -- if not b: raise e
  pub guard : Bool → Error → Exec S (Unit {0})
  guard true e s = (ok tt, s)
  guard false e s = (err e, s)

module _ {S A B : Type 0} where
  abbrev pub continue : Result A → (A → Exec S B) → Exec S B
  continue (ok a) f s = f a s
  continue (err e) f s = (err e, s)

  infixl 5 ◌>>=◌ ◌>>◌
  unfoldable pub ◌>>=◌ : Exec S A → (A → Exec S B) → Exec S B
  unfolding pure raise lift gets modify guard
  ◌>>=◌ m f s = let (r, s') = m s in continue r f s'

  abbrev pub ◌>>◌ : Exec S A → Exec S B → Exec S B
  m >> n = m >>= λ _. n

module _ {S A : Type 0} where
  -- except Exception as error: handler(error)
  abbrev pub handle : Result A → (Error → Exec S A) → Exec S A
  handle (ok a) h s = (ok a, s)
  handle (err e) h s = h e s

  unfoldable pub try_except : Exec S A → (Error → Exec S A) → Exec S A
  try_except m h s = let (r, s') = m s in handle r h s'

module _ {S D A : Type 0} (get : S → D) (put : D → S → S) where
  abbrev pub settle : D → Result A → S → Result A × S
  settle before (ok a) s = (ok a, s)
  settle before (err e) s = (err e, put before s)

  -- `with connection:` commits, or rolls its tables back when the body raises.
  unfoldable pub transaction : Exec S A → Exec S A
  transaction m s = let (r, s') = m s in settle (get s) r s'

-- All that a run computes with here, under one name.
unfoldable pub exec_code : Unit {0}
unfolding pure raise lift gets modify guard ◌>>=◌ try_except transaction
exec_code = tt
