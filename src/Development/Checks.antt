-- ===== src/Development/Checks.antt =====
-- The check runs of a merged commit, as DevelopmentController.verify_merge reads them.
use agentic_engineering_cont.Prelude.{
  String, ◌≡◌, refl, Bool, true, false, not, ◌&&◌, List, [], ◌∷◌, map, keep, any, ◌==◌, All, arith,
  not-eq_false, if◌then◌else◌,
}
use agentic_engineering_cont.Development.Host.{CheckRun}
use agentic_engineering_cont.Development.Gates.{missing_checks, incomplete_checks, is_success}

dropped_first :
    {A : Type 0} (b : Bool) (x : A) (rest : List A)
    → (if b then x ∷ rest else rest) ≡ []
    → (b ≡ false) × (rest ≡ [])
dropped_first true x rest h = cc
dropped_first false x rest h = (refl, h)

keep-none : {A : Type 0} (p : A → Bool) (xs : List A) → keep p xs ≡ [] → All (λ x. p x ≡ false) xs
keep-none p [] h = tt
keep-none p (x ∷ xs) h =
    let (first, rest) = dropped_first (p x) x (keep p xs) h in (first, keep-none p xs rest)

map-none : {A B : Type 0} (f : A → B) (xs : List A) → map f xs ≡ [] → xs ≡ []
map-none f [] h = refl
map-none f (x ∷ xs) h = cc

-- A run with the name is a successful one, where no run failed.
named_success :
    (name : String) (runs : List CheckRun)
    → All (λ r. not (is_success r) ≡ false) runs
    → any (λ c. c.name == name) runs ≡ true
    → any (λ c. c.name == name && is_success c) runs ≡ true
named_success name [] k h = h
named_success name (r ∷ runs) k h =
    let good = k.0 in let later = named_success name runs k.1 in ground (arith, good, later)

each_named :
    (required : List String) (runs : List CheckRun)
    → All (λ r. not (is_success r) ≡ false) runs
    → All (λ name. not (any (λ c. c.name == name) runs) ≡ false) required
    → All (λ name. any (λ c. c.name == name && is_success c) runs ≡ true) required
each_named [] runs k h = tt
each_named (name ∷ required) runs k h =
    (named_success name runs k (not-eq_false _ h.0), each_named required runs k h.1)

pub required-success :
    (required : List String) (runs : List CheckRun)
    → missing_checks required runs ≡ []
    → incomplete_checks runs ≡ []
    → All (λ name. any (λ c. c.name == name && is_success c) runs ≡ true) required
unfolding missing_checks incomplete_checks
required-success required runs h k =
    each_named required runs (keep-none _ runs (map-none _ _ k)) (keep-none _ required h)
