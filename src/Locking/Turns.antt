-- ===== src/Locking/Turns.antt =====
-- What one turn of the loop of __enter__ does, and that the loop ends.
use agentic_engineering_cont.Prelude.{
  List, [], ◌∷◌, any, Bool, eqb, ℕ, zero, suc, ◌+◌, ◌≤◌, ◌≡◌, refl, true, false, Option, some, leb,
  leb→le, Bool-cases, inl, inr, arith, ◌⊎◌,
}
use agentic_engineering_cont.Prelude.Platform.{Error, timeout_error}
use agentic_engineering_cont.Exec.{Result, ok, err, exec_code}
use agentic_engineering_cont.Locking.Mutex.{
  LockFile, FileMutex, is_owner, is_free, flock, freed, closed, without, elapse, sleep, lock, close,
  opened, wait, attempt, acquire, open_file, enter,
}

abbrev pub time_is_up : Error
time_is_up = timeout_error "timed out acquiring lifecycle lock"

abbrev pub holding : FileMutex → ℕ → FileMutex
holding m h = record m { handle = some h }

module _ (others : LockFile → LockFile) (m : FileMutex) (h deadline : ℕ) (f : LockFile) where
  pub attempt_free :
      is_free h f.owner ≡ true
      → attempt others (holding m h) deadline f ≡ (ok true, record f { owner = some h })
  unfolding exec_code attempt lock opened flock
  attempt_free free = rw free refl

  pub attempt_late :
      is_free h f.owner ≡ false
      → leb deadline f.clock ≡ true
      → attempt others (holding m h) deadline f ≡ (err time_is_up, closed h f)
  unfolding exec_code attempt lock opened flock wait close
  attempt_late taken late = rw (taken, late) refl

  pub attempt_early :
      is_free h f.owner ≡ false
      → leb deadline f.clock ≡ false
      → attempt others (holding m h) deadline f ≡ (ok false, others (elapse m.poll f))
  unfolding exec_code attempt lock opened flock wait sleep
  attempt_early taken early = rw (taken, early) refl

-- Whether the file is open.
unfoldable pub is_open : ℕ → LockFile → Bool
is_open h f = any (λ x. eqb x h) f.open_handles

-- How the loop ends: with the lock, or after the deadline without it and with its file closed.
abbrev pub IsSettled : FileMutex → ℕ → ℕ → Result (Option FileMutex) × LockFile → Type 0
IsSettled m h deadline (r, f) =
    ((r ≡ ok (some (holding m h))) × (f.owner ≡ some h))
    ⊎ ((r ≡ err time_is_up)
        × (deadline ≤ f.clock)
        × (is_owner h f.owner ≡ false)
        × (is_open h f ≡ false))

closed-owner : (h : ℕ) (f : LockFile) → is_owner h (closed h f).owner ≡ false
unfolding is_owner closed freed
closed-owner h f = elim (Bool-cases (is_owner h f.owner)) [
  | inl mine ↦ rw mine refl
  | inr other ↦ rw (other, other) refl
]

any-without : (h : ℕ) (xs : List ℕ) → any (λ x. eqb x h) (without h xs) ≡ false
unfolding without
any-without h [] = refl
any-without h (x ∷ xs) = elim (Bool-cases (eqb x h)) [
  | inl same ↦ rw same (any-without h xs)
  | inr other ↦ rw (other, other) (any-without h xs)
]

closed-open : (h : ℕ) (f : LockFile) → is_open h (closed h f) ≡ false
unfolding is_open closed
closed-open h f = any-without h f.open_handles

module _ (others : LockFile → LockFile) (m : FileMutex) (h deadline : ℕ) where
  -- A turn ends the loop, or what follows the sleep does.
  turn-IsSettled :
      (fuel : ℕ) (f : LockFile)
      → (leb deadline f.clock ≡ false
          → IsSettled m h deadline
              (acquire others fuel (holding m h) deadline (others (elapse m.poll f))))
      → IsSettled m h deadline (acquire others (suc fuel) (holding m h) deadline f)
  unfolding exec_code acquire closed freed
  turn-IsSettled fuel f rest = elim (Bool-cases (is_free h f.owner)) [
    | inl free ↦ rw (attempt_free others m h deadline f free) (inl (refl, refl))
    | inr taken ↦ elim (Bool-cases (leb deadline f.clock)) [
      | inl late ↦
          rw (attempt_late others m h deadline f taken late)
            (inr (refl, leb→le deadline f.clock late, closed-owner h f, closed-open h f))
      | inr early ↦ rw (attempt_early others m h deadline f taken early) (rest early)
    ]
  ]

  module _ (later : (f : LockFile) → f.clock ≤ (others f).clock) (polls : 1 ≤ m.poll) where
    acquire-IsSettled :
        (fuel : ℕ) (f : LockFile)
        → deadline ≤ f.clock + fuel
        → IsSettled m h deadline (acquire others (suc fuel) (holding m h) deadline f)
    acquire-IsSettled zero f enough = turn-IsSettled 0 f λ early. absurd (ground arith)
    acquire-IsSettled (suc n) f enough = turn-IsSettled (suc n) f λ early.
        acquire-IsSettled n (others (elapse m.poll f))
          (let slept = later (elapse m.poll f) in ground arith)

-- Where the other processes do not turn the clock back and the pause between two turns is not
-- nothing, __enter__ ends: the loop takes at most one turn more than the timeout has ticks. It ends
-- with the lock, which the open file of the mutex then owns, or after the deadline with a
-- TimeoutError, and then the file that it opened is closed and does not own the lock.
pub enter-IsSettled :
    (others : LockFile → LockFile)
    → ((f : LockFile) → f.clock ≤ (others f).clock)
    → (m : FileMutex) → 1 ≤ m.poll
    → (f : LockFile)
    → IsSettled m f.next_handle (f.clock + m.timeout) (enter others (suc m.timeout) m f)
unfolding exec_code enter open_file
enter-IsSettled others later m polls f =
    acquire-IsSettled others m f.next_handle (f.clock + m.timeout) later polls m.timeout _
      (omega arith)
