-- ===== src/Development/Log.antt =====
-- Event logs in which each line carries a hash of itself and the hash of the line before it, over
-- any type of lines: what DevelopmentStore and OnboardingStore share.
use agentic_engineering_cont.Prelude.{
  String, ◌≡◌, refl, sym, ap, Bool, true, false, ◌&&◌, Option, none, some, List, [], ◌∷◌, ◌++◌,
  ◌==◌, last, eq_iff, eq_refl, and_intro, and_right, if◌then◌else◌,
}
use agentic_engineering_cont.Prelude.Platform.{key_error}
use agentic_engineering_cont.Exec.{Result, ok, err}
use agentic_engineering_cont.Exec.Keeps.{ok-injective}

abbrev pub same_hash : Option String → String → Bool
same_hash none h = false
same_hash (some a) h = a == h

abbrev hash_or_missing : Option String → Result String
hash_or_missing none = err (key_error "event_hash")
hash_or_missing (some a) = ok a

pub passed : (b rest : Bool) → (if b then rest else false) ≡ true → (b ≡ true) × (rest ≡ true)
passed true rest h = (refl, h)
passed false rest h = cc

module _ {E : Type 0} (previous_hash : E → String) (event_hash : E → Option String)
    (digest : E → String) where
  -- The hash of the last line, or "GENESIS" where there is none.
  abbrev pub previous_of : Option E → Result String
  previous_of none = ok "GENESIS"
  previous_of (some e) = hash_or_missing (event_hash e)

  unfoldable pub verify_from : String → List E → Bool
  verify_from previous [] = true
  verify_from previous (e ∷ es) =
      let rest = verify_from (digest e) es in
      if (previous_hash e == previous) && same_hash (event_hash e) (digest e) then rest else false

  -- Each line names the hash before it, and carries its own.
  unfoldable pub verify : List E → Bool
  unfolding verify_from
  verify es = verify_from "GENESIS" es

  last_of : String → Option E → Result String
  last_of previous none = ok previous
  last_of previous (some e) = hash_or_missing (event_hash e)

  same_hash-some : (o : Option String) (h : String) → same_hash o h ≡ true → o ≡ some h
  same_hash-some none h k = cc
  same_hash-some (some a) h k = ap some ((eq_iff a h).0 k)

  last-some : (x : E) (es : List E) → (a : E) × (last (x ∷ es) ≡ some a)
  last-some x [] = (x, refl)
  last-some x (y ∷ ys) = last-some y ys

  -- The last hash of a log does not depend on what stands before its first line.
  last_of-cons :
      (previous : String) (x : E) (es : List E) (h : String)
      → event_hash x ≡ some (digest x)
      → last_of previous (last (x ∷ es)) ≡ ok h
      → last_of (digest x) (last es) ≡ ok h
  unfolding last_of
  last_of-cons previous x [] h k l = rw k at l
  last_of-cons previous x (y ∷ ys) h k l = let (a, is) = last-some y ys in rw is (rw is at l)

  verify_from-append :
      (previous : String) (es : List E) (e : E)
      → verify_from previous es ≡ true
      → last_of previous (last es) ≡ ok (previous_hash e)
      → event_hash e ≡ some (digest e)
      → verify_from previous (es ++ e ∷ []) ≡ true
  unfolding verify_from last_of
  verify_from-append previous [] e v l k = rw k (
      rw
        (and_intro _ _ ((eq_iff (previous_hash e) previous).1 (sym (ok-injective l)))
          (eq_refl (digest e)))
        refl)
  verify_from-append previous (x ∷ es) e v l k =
      let (test, rest) =
        passed (previous_hash x == previous && same_hash (event_hash x) (digest x)) _ v in
      let hashed = same_hash-some _ _ (and_right _ _ test) in
      rw test (verify_from-append (digest x) es e rest (last_of-cons previous x es _ hashed l) k)

  from_genesis : (o : Option E) {h : Result String} → previous_of o ≡ h → last_of "GENESIS" o ≡ h
  unfolding last_of
  from_genesis none l = l
  from_genesis (some e) l = l

  -- A line that names the last hash and carries its own extends the log.
  pub verify-append :
      (es : List E) (e : E)
      → verify es ≡ true
      → previous_of (last es) ≡ ok (previous_hash e)
      → event_hash e ≡ some (digest e)
      → verify (es ++ e ∷ []) ≡ true
  unfolding verify last_of
  verify-append es e v l k = verify_from-append "GENESIS" es e v (from_genesis (last es) l) k

-- All that a run computes with here, under one name.
unfoldable pub log_code : Unit {0}
unfolding verify_from verify
log_code = tt
