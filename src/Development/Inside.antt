-- ===== src/Development/Inside.antt =====
-- The paths that DevelopmentController._safe_relative lets through.
use Prim.Native.Char.{Char, code}
use agentic_engineering_cont.Prelude.{
  String, ◌≡◌, ◌≢◌, refl, sym, Bool, true, false, ◌||◌, List, [], ◌∷◌, ◌==◌, eqb, tail, contains,
  is_empty, All, subst, ne_of_==, ne_of_contains, or_left, or_right, not-eq_true, Bool-cases, inl,
  inr, if◌then◌else◌,
}
use agentic_engineering_cont.Prelude.Platform.{Error}
use agentic_engineering_cont.Exec.{ok, err}
use agentic_engineering_cont.Exec.Keeps.{ok-injective}
use agentic_engineering_cont.Development.Paths.{
  push_char, starts_empty, is_absolute, pieces, keep_parts, parts, is_part, first_is_git,
  safe_relative, IsInside,
}

kept_first :
    (b : Bool) (s : String) (rest : List String)
    → (b ≡ true → s ≢ "")
    → All (λ x. x ≢ "") rest
    → All (λ x. x ≢ "") (if b then s ∷ rest else rest)
kept_first true s rest h k = (h refl, k)
kept_first false s rest h k = k

kept-nonempty : (ss : List String) → All (λ s. s ≢ "") (keep_parts ss)
unfolding keep_parts
kept-nonempty [] = tt
kept-nonempty (s ∷ ss) =
    kept_first (is_part s) s (keep_parts ss) (λ h. ne_of_== s "" (or_left _ _ (not-eq_true _ h)))
      (kept-nonempty ss)

not_upward : (ss : List String) → All (λ s. ".." ≢ s) ss → All (λ s. s ≢ "..") ss
not_upward [] h = tt
not_upward (s ∷ ss) h = ((λ e. h.0 (sym e)), not_upward ss h.1)

nonempty : (ss : List String) → is_empty ss ≡ false → ss ≢ []
nonempty [] h e = cc
nonempty (s ∷ ss) h e = cc

outside_git : (ss rest : List String) → first_is_git ss ≡ false → ss ≢ ".git" ∷ rest
outside_git ss rest h e =
    let g : first_is_git (".git" ∷ rest) ≡ false = subst (λ x. first_is_git x ≡ false) e h in cc

-- The two tests failed where a path comes back, and it is the list of the parts.
let_through :
    (a b : Bool) (x y : Error) (found path : List String)
    → (if a then err x else if b then err y else ok found) ≡ ok path
    → (a ≡ false) × ((b ≡ false) × (found ≡ path))
let_through true b x y found path h = cc
let_through false true x y found path h = cc
let_through false false x y found path h = (refl, (refl, ok-injective h))

-- A slash of either kind stands first.
abbrev pub is_rooted : String → Bool
is_rooted String.[] = false
is_rooted (String.◌∷◌ c s) = eqb (code c) 47 || eqb (code c) 92

-- The directory that the pieces of a path lead to from a directory, each as its names from the
-- innermost to the outermost: nothing and a dot stay, two dots go up, a name goes down.
unfoldable pub walk : List String → List String → List String
walk [] directory = directory
walk (s ∷ ss) directory =
    if s == "" || s == "."
    then walk ss directory
    else if s == ".."
    then walk ss (tail directory)
    else walk ss (s ∷ directory)

-- The directory that lies below by these names.
unfoldable pub below : List String → List String → List String
below [] directory = directory
below (s ∷ ss) directory = below ss (s ∷ directory)

walk-below :
    (ss directory : List String)
    → contains (keep_parts ss) ".." ≡ false
    → walk ss directory ≡ below (keep_parts ss) directory
unfolding keep_parts walk below
walk-below [] directory down = refl
walk-below (s ∷ ss) directory down = elim (Bool-cases (s == "" || s == ".")) [
  | inl skipped ↦ rw skipped (walk-below ss directory (rw skipped at down))
  | inr kept ↦
      let both : contains (s ∷ keep_parts ss) ".." ≡ false = rw kept at down in
      let named = or_left (s == "..") _ both in
      rw (kept, named) (walk-below ss (s ∷ directory) (or_right (s == "..") _ both))
]

push_char-two :
    (c : Char) (ss : List String) → is_empty ss ≡ false → is_empty (push_char c ss) ≡ false
push_char-two c [] h = cc
push_char-two c (s ∷ ss) h = refl

pieces_some : (value : String) → is_empty (pieces value) ≡ false
unfolding pieces
pieces_some String.[] = refl
pieces_some (String.◌∷◌ c s) = elim (Bool-cases (eqb (code c) 47 || eqb (code c) 92)) [
  | inl slash ↦ rw slash refl
  | inr other ↦ rw other (push_char-two c (pieces s) (pieces_some s))
]

starts_empty-some : (ss : List String) → is_empty ss ≡ false → starts_empty ("" ∷ ss) ≡ true
starts_empty-some [] h = cc
starts_empty-some (s ∷ ss) h = refl

rooted-absolute : (value : String) → is_absolute value ≡ false → is_rooted value ≡ false
unfolding is_absolute pieces
rooted-absolute String.[] h = refl
rooted-absolute (String.◌∷◌ c s) h = elim (Bool-cases (eqb (code c) 47 || eqb (code c) 92)) [
  | inl slash ↦
      let first : starts_empty ("" ∷ pieces s) ≡ false = rw slash at h in
      let starts = starts_empty-some (pieces s) (pieces_some s) in cc
  | inr other ↦ other
]

-- What is known of a path that comes back for a text.
pub record LiesBelow (value : String) (path : List String) : Type 0 where
  pub inside : IsInside path
  pub not_rooted : is_rooted value ≡ false
  pub leads : (directory : List String) → walk (pieces value) directory ≡ below path directory

-- A path that safe_relative returns has a part, no empty part, no part that leads upwards, and does
-- not start in the repository's metadata. The text that it was made of starts with no slash of
-- either kind, and its pieces, followed one by one from any directory, two dots included, lead to
-- the place that lies below that directory by the parts of the path.
pub safe_relative-LiesBelow :
    (value : String) (path : List String) → safe_relative value ≡ ok path → LiesBelow value path
unfolding safe_relative parts
safe_relative-LiesBelow value path h =
    let (allowed, (outside, same)) = let_through _ _ _ _ _ path h in
    let rest = or_right _ _ allowed in
    subst (LiesBelow value) same (record {
      inside = record {
        some_part = nonempty _ (or_right _ _ rest);
        no_empty = kept-nonempty (pieces value);
        no_upward = not_upward _ (ne_of_contains ".." _ (or_left _ _ rest));
        no_metadata = λ tail. outside_git _ tail outside;
      };
      not_rooted = rooted-absolute value (or_left _ _ allowed);
      leads = λ directory. walk-below (pieces value) directory (or_left _ _ rest);
    })
