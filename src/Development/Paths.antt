-- ===== src/Development/Paths.antt =====
-- The paths of change sets: PurePosixPath, as far as DevelopmentController._safe_relative reads it.
use Prim.Native.Char.{Char, code}
use agentic_engineering_cont.Prelude.{
  ℕ, String, ◌≡◌, ◌≢◌, refl, Bool, false, not, ◌||◌, List, [], ◌∷◌, ◌==◌, eqb, contains, concat,
  is_empty, All, if◌then◌else◌,
}
use agentic_engineering_cont.Prelude.Platform.{permission_error}
use agentic_engineering_cont.Exec.{Result, ok, err}

abbrev pub push_char : Char → List String → List String
push_char c [] = String.◌∷◌ c "" ∷ []
push_char c (s ∷ ss) = String.◌∷◌ c s ∷ ss

-- s.split(sep), for a separator of one character with this code
unfoldable pub split : ℕ → String → List String
split sep String.[] = "" ∷ []
split sep (String.◌∷◌ c s) =
    let rest = split sep s in if eqb (code c) sep then "" ∷ rest else push_char c rest

-- value.replace("\\", "/"), then the pieces between the slashes
unfoldable pub pieces : String → List String
pieces String.[] = "" ∷ []
pieces (String.◌∷◌ c s) =
    let rest = pieces s in
    if eqb (code c) 47 || eqb (code c) 92 then "" ∷ rest else push_char c rest

-- PurePosixPath drops empty pieces and single dots.
abbrev pub is_part : String → Bool
is_part s = not (s == "" || s == ".")

unfoldable pub keep_parts : List String → List String
keep_parts [] = []
keep_parts (s ∷ ss) = let rest = keep_parts ss in if is_part s then s ∷ rest else rest

-- The parts of a relative path.
unfoldable pub parts : String → List String
unfolding keep_parts pieces
parts value = keep_parts (pieces value)

abbrev pub starts_empty : List String → Bool
starts_empty (s ∷ t ∷ ss) = s == ""
starts_empty _ = false

-- PurePosixPath(value).is_absolute(): a slash stands first.
unfoldable pub is_absolute : String → Bool
unfolding pieces
is_absolute value = starts_empty (pieces value)

abbrev pub first_is_git : List String → Bool
first_is_git [] = false
first_is_git (s ∷ ss) = s == ".git"

-- The parts of the checked path.
unfoldable pub safe_relative : String → Result (List String)
unfolding parts is_absolute
safe_relative value =
    if is_absolute value || (contains (parts value) ".." || is_empty (parts value))
    then err (permission_error (concat ("unsafe change path: " ∷ value ∷ [])))
    else if first_is_git (parts value)
    then err (permission_error "changes to .git are prohibited")
    else ok (parts value)

keeps_win : safe_relative "src\\app/./main.py" ≡ ok ("src" ∷ "app" ∷ "main.py" ∷ [])
unfolding safe_relative
keeps_win = refl

refuses_dots : safe_relative "a/../../b" ≡ err (permission_error "unsafe change path: a/../../b")
unfolding safe_relative
refuses_dots = refl

refuses_absolute : safe_relative "/etc" ≡ err (permission_error "unsafe change path: /etc")
unfolding safe_relative
refuses_absolute = refl

-- The paths that stay below the directory that they are joined to: relative, with a part, no part
-- that leads upwards, and not in the repository's own metadata.
pub record IsInside (path : List String) : Type 0 where
  pub some_part : path ≢ []
  pub no_empty : All (λ s. s ≢ "") path
  pub no_upward : All (λ s. s ≢ "..") path
  pub no_metadata : (rest : List String) → path ≢ ".git" ∷ rest

-- All that a run computes with here, under one name.
unfoldable pub paths_code : Unit {0}
unfolding split pieces keep_parts parts is_absolute safe_relative
paths_code = tt
