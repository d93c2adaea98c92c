-- ===== src/Isolation/Numbers.antt =====
-- The numbers that stand in the texts of a configuration, and what the patterns of from_dict show of
-- them.
use Prim.Native.Char.{Char, code}
use agentic_engineering_cont.Prelude.{
  ℕ, zero, suc, ◌+◌, ◌-◌, ◌*◌, ◌≤◌, String, ◌≡◌, refl, true, false, ◌&&◌, ◌||◌, List, [], ◌∷◌, ◌==◌,
  length, eqb, leb, leb→le, hex_run, Bool-cases, inl, inr, and_left, and_right, arith,
  if◌then◌else◌,
}
use agentic_engineering_cont.Development.Workspace.{text_size}
use agentic_engineering_cont.Isolation.Config.{
  is_digit, is_positive_digit, is_positive, is_non_root, user_rest, is_size, is_pinned_image,
  image_rest, after_text, is_lower, is_name_char,
}

-- int() of the decimal digits that stand first, behind those read before.
unfoldable pub leading : ℕ → String → ℕ
leading read String.[] = read
leading read (String.◌∷◌ c s) =
    let more = leading (read * 10 + (code c - 48)) s in
    if leb 48 (code c) && leb (code c) 57 then more else read

-- What stands behind the first character with this code.
unfoldable pub behind : ℕ → String → String
behind n String.[] = ""
behind n (String.◌∷◌ c s) = let rest = behind n s in if eqb (code c) n then s else rest

leading_grows : (read : ℕ) (s : String) → read ≤ leading read s
unfolding leading
leading_grows read String.[] = omega arith
leading_grows read (String.◌∷◌ c s) = elim (Bool-cases (leb 48 (code c) && leb (code c) 57)) [
  | inl digit ↦ let more = leading_grows (read * 10 + (code c - 48)) s in rw digit (omega arith)
  | inr other ↦ rw other (omega arith)
]

positive-first :
    (c : Char) (s : String) → is_positive_digit c ≡ true → 1 ≤ leading 0 (String.◌∷◌ c s)
unfolding leading
positive-first c s h =
    let low = leb→le 49 (code c) (and_left _ _ h) in
    let high = leb→le (code c) 57 (and_right _ _ h) in
    let more = leading_grows (0 * 10 + (code c - 48)) s in
    let digit : (leb 48 (code c) && leb (code c) 57) ≡ true = ground arith in rw digit (omega arith)

impossible : {A : Type 0} → false ≡ true → A
impossible e = ground arith

positive-number : (s : String) → is_positive s ≡ true → 1 ≤ leading 0 s
positive-number String.[] h = impossible h
positive-number (String.◌∷◌ c s) h = positive-first c s (and_left _ _ h)

pub uid-number : (user : String) → is_non_root user ≡ true → 1 ≤ leading 0 user
unfolding is_non_root
uid-number String.[] h = impossible h
uid-number (String.◌∷◌ c s) h = positive-first c s (and_left _ _ h)

rest-number : (s : String) → user_rest s ≡ true → 1 ≤ leading 0 (behind 58 s)
unfolding user_rest behind
rest-number String.[] h = impossible h
rest-number (String.◌∷◌ c s) h = elim (Bool-cases (eqb (code c) 58)) [
  | inl colon ↦ rw colon (positive-number s (rw colon at h))
  | inr other ↦ elim (Bool-cases (is_digit c)) [
    | inl digit ↦ rw other (rest-number s (rw (other, digit) at h))
    | inr letter ↦ impossible (rw (other, letter) at h)
  ]
]

pub gid-number : (user : String) → is_non_root user ≡ true → 1 ≤ leading 0 (behind 58 user)
unfolding is_non_root behind
gid-number String.[] h = impossible h
gid-number (String.◌∷◌ c s) h =
    let high =
      leb→le (code c) 57 (and_right (leb 49 (code c)) (leb (code c) 57) (and_left _ _ h)) in
    let other : eqb (code c) 58 ≡ false = ground arith in rw other (rest-number s (and_right _ _ h))

pub size-number : (s : String) → is_size s ≡ true → 1 ≤ leading 0 s
unfolding is_size
size-number String.[] h = impossible h
size-number (String.◌∷◌ c s) h = positive-first c s (and_left _ _ h)

hex_run-size : (n : ℕ) (s : String) → hex_run n s ≡ true → text_size s ≡ n
unfolding text_size
hex_run-size zero String.[] h = refl
hex_run-size zero (String.◌∷◌ c s) h = impossible h
hex_run-size (suc n) String.[] h = impossible h
hex_run-size (suc n) (String.◌∷◌ c s) h =
    let rest = hex_run-size n s (and_right _ _ h) in omega arith

after_text-size :
    (cs : List String) (s : String) → after_text cs s ≡ true → text_size s ≡ length cs + 64
unfolding after_text text_size
after_text-size [] s h = hex_run-size 64 s h
after_text-size (c ∷ cs) String.[] h = impossible h
after_text-size (c ∷ cs) (String.◌∷◌ d s) h = elim (Bool-cases (String.◌∷◌ d "" == c)) [
  | inl same ↦ let rest = after_text-size cs s (rw same at h) in omega arith
  | inr other ↦ impossible (rw other at h)
]

image-size : (s : String) → image_rest s ≡ true → text_size (behind 64 s) ≡ 71
unfolding image_rest behind
image-size String.[] h = impossible h
image-size (String.◌∷◌ c s) h = elim (Bool-cases (eqb (code c) 64)) [
  | inl at_sign ↦
      rw at_sign
        (after_text-size ("s" ∷ "h" ∷ "a" ∷ "2" ∷ "5" ∷ "6" ∷ ":" ∷ []) s (rw at_sign at h))
  | inr other ↦ elim (Bool-cases (is_name_char c)) [
    | inl name ↦ rw other (image-size s (rw (other, name) at h))
    | inr letter ↦ impossible (rw (other, letter) at h)
  ]
]

pub digest-size : (image : String) → is_pinned_image image ≡ true → text_size (behind 64 image) ≡ 71
unfolding is_pinned_image behind
digest-size String.[] h = impossible h
digest-size (String.◌∷◌ c s) h =
    let first : (is_lower c || is_digit c) ≡ true = and_left _ _ h in
    let other : eqb (code c) 64 ≡ false = ground arith in rw other (image-size s (and_right _ _ h))
