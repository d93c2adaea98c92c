-- ===== src/Prelude/Lists.antt =====
-- Lists over the native numbers: Python's len, any, all, in, and lists of pairs.
use Prim.Native.Nat.{ℕ, suc}
use mathlib.Core.Path.{◌≡◌}
use mathlib.Core.Bool.{Bool, true, false, ◌&&◌, ◌||◌, not}
use mathlib.Core.Option.{Option, none, some}
use mathlib.Core.List.{List, [], ◌∷◌}
use Prim.Native.String.{String}
use native.Mathlib.Omega.{arith}
use mathlib.Core.Logic.{◌≢◌}
use text.Mathlib.TextEquality.{eq_iff}
use agentic_engineering_cont.Prelude.Tests.{or_left, or_right, if◌then◌else◌}
use text.Mathlib.Text.{◌==◌}

module _ {ℓ} {A : Type ℓ} where
  abbrev pub length : List A → ℕ
  length [] = 0
  length (x ∷ xs) = suc (length xs)

  abbrev pub any : (A → Bool) → List A → Bool
  any p [] = false
  any p (x ∷ xs) = p x || any p xs

  abbrev pub all : (A → Bool) → List A → Bool
  all p [] = true
  all p (x ∷ xs) = p x && all p xs

  abbrev pub is_empty : List A → Bool
  is_empty [] = true
  is_empty (x ∷ xs) = false

  -- xs[-1], if there is one
  abbrev pub last : List A → Option A
  last [] = none
  last (x ∷ []) = some x
  last (x ∷ y ∷ xs) = last (y ∷ xs)

  abbrev pub head : List A → Option A
  head [] = none
  head (x ∷ xs) = some x

  -- xs[1:]
  abbrev pub tail : List A → List A
  tail [] = []
  tail (x ∷ xs) = xs

  -- [x for x in xs if p(x)]
  abbrev pub keep : (A → Bool) → List A → List A
  keep p [] = []
  keep p (x ∷ xs) = let rest = keep p xs in if p x then x ∷ rest else rest

  abbrev pub find : (A → Bool) → List A → Option A
  find p [] = none
  find p (x ∷ xs) = if p x then some x else find p xs

  abbrev pub All {κ} : (A → Type κ) → List A → Type κ
  All P [] = Unit
  All P (x ∷ xs) = P x × All P xs

abbrev pub contains : List String → String → Bool
contains xs x = any (λ y. y == x) xs

-- The strings of the list differ pairwise: len(set(xs)) == len(xs).
abbrev pub distinct : List String → Bool
distinct [] = true
distinct (x ∷ xs) = not (contains xs x) && distinct xs

pub ==_symm : (a b : String) → (a == b) ≡ false → (b == a) ≡ false
==_symm a b h = ground (arith, eq_iff a b, eq_iff b a)

pub ne_of_== : (a b : String) → (a == b) ≡ false → a ≢ b
ne_of_== a b h = ground (arith, eq_iff a b)

-- What `actor in {…}` refuses differs from every member.
pub ne_of_contains : (x : String) (xs : List String) → contains xs x ≡ false → All (λ y. x ≢ y) xs
ne_of_contains x [] h = tt
ne_of_contains x (y ∷ ys) h = (
  ne_of_== x y (==_symm y x (or_left (y == x) (contains ys x) h)),
  ne_of_contains x ys (or_right (y == x) (contains ys x) h),
)
