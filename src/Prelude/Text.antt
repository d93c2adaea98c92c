-- ===== src/Prelude/Text.antt =====
-- The methods of Python's str that the program uses. `lower` is the ASCII one, and `is_blank`
-- and `strip` know the ASCII white space.
use Prim.Native.Nat.{ℕ, zero, suc}
use Prim.Native.Char.{Char, code}
use Prim.Native.String.{String, ◌++◌ as ◌<>◌}
use mathlib.Core.Path.{◌≡◌, refl}
use mathlib.Core.Bool.{Bool, true, false, ◌&&◌, ◌||◌}
use mathlib.Core.List.{List, [], ◌∷◌}
use native.Mathlib.Omega.{arith}
use agentic_engineering_cont.Prelude.Tests.{leb, eqb, if◌then◌else◌}

-- An f-string, as the list of its pieces.
abbrev pub concat : List String → String
concat [] = ""
concat (s ∷ ss) = ◌<>◌ s (concat ss)

-- sep.join(parts)
abbrev pub join : String → List String → String
join sep [] = ""
join sep (s ∷ []) = s
join sep (s ∷ t ∷ ss) = ◌<>◌ s (◌<>◌ sep (join sep (t ∷ ss)))

-- s[:n]
abbrev pub take : ℕ → String → String
take zero s = ""
take (suc n) String.[] = ""
take (suc n) (String.◌∷◌ c s) = String.◌∷◌ c (take n s)

abbrev pub all_chars : (Char → Bool) → String → Bool
all_chars p String.[] = true
all_chars p (String.◌∷◌ c s) = p c && all_chars p s

-- [a-f0-9]
abbrev pub is_hex : Char → Bool
is_hex c = (leb 48 (code c) && leb (code c) 57) || (leb 97 (code c) && leb (code c) 102)

-- Exactly n characters, each of which is [a-f0-9].
abbrev pub hex_run : ℕ → String → Bool
hex_run zero String.[] = true
hex_run zero (String.◌∷◌ c s) = false
hex_run (suc n) String.[] = false
hex_run (suc n) (String.◌∷◌ c s) = is_hex c && hex_run n s

pub all_chars-take :
    (p : Char → Bool) (n : ℕ) (s : String) → all_chars p s ≡ true → all_chars p (take n s) ≡ true
all_chars-take p zero s h = refl
all_chars-take p (suc n) String.[] h = refl
all_chars-take p (suc n) (String.◌∷◌ c s) h = ground (arith, all_chars-take p n s)

is_space : Char → Bool
is_space c = (leb 9 (code c) && leb (code c) 13) || (leb 28 (code c) && leb (code c) 32)

-- not s.strip()
unfoldable pub is_blank : String → Bool
unfolding is_space
is_blank s = all_chars is_space s

lstrip : String → String
unfolding is_space
lstrip String.[] = ""
lstrip (String.◌∷◌ c s) = let rest = lstrip s in if is_space c then rest else String.◌∷◌ c s

rstrip : String → String
unfolding is_space is_blank
rstrip String.[] = ""
rstrip (String.◌∷◌ c s) =
    let rest = rstrip s in if is_blank (String.◌∷◌ c s) then "" else String.◌∷◌ c rest

-- s.strip()
unfoldable pub strip : String → String
unfolding lstrip rstrip
strip s = rstrip (lstrip s)

lower_char : Char → String → String → Char
lower_char c (String.◌∷◌ u us) (String.◌∷◌ l ls) =
    let rest = lower_char c us ls in if eqb (code c) (code u) then l else rest
lower_char c us ls = c

-- s.lower()
unfoldable pub lower : String → String
unfolding lower_char
lower String.[] = ""
lower (String.◌∷◌ c s) =
    String.◌∷◌ (lower_char c "ABCDEFGHIJKLMNOPQRSTUVWXYZ" "abcdefghijklmnopqrstuvwxyz") (lower s)

-- s.split(sep, 1)[0], for a separator of one character with this code
unfoldable pub split_first : ℕ → String → String
split_first sep String.[] = ""
split_first sep (String.◌∷◌ c s) =
    let rest = split_first sep s in if eqb (code c) sep then "" else String.◌∷◌ c rest

strip_padded : strip "  a b " ≡ "a b"
unfolding strip
strip_padded = refl

lower_mixed : lower "Org/Repo" ≡ "org/repo"
unfolding lower
lower_mixed = refl

split_owner : split_first 47 "org/repo" ≡ "org"
unfolding split_first
split_owner = refl
