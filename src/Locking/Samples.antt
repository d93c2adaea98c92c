-- ===== src/Locking/Samples.antt =====
-- Two processes at one lock file.
use agentic_engineering_cont.Prelude.{[], ◌∷◌, ◌⊎◌, none, some, ◌≡◌, refl, none, some, arith}
use agentic_engineering_cont.Exec.{exec_code}
use agentic_engineering_cont.Locking.Mutex.{FileMutex, LockFile, enter, mutex_code}
use agentic_engineering_cont.Locking.Turns.{holding, IsSettled, enter-IsSettled}
use agentic_engineering_cont.Locking.System.{
  System, inside, waiting, entered, tried, Reachable, start, next, enters, tries, unopened,
  system_code,
}
use agentic_engineering_cont.Locking.Exclusive.{inner_of, inside_unique}
use agentic_engineering_cont.Locking.Handover.{Occupied, tried-inside}

abbrev mutex : FileMutex
mutex = record { timeout = 30; poll = 5; handle = none }

-- The file of another process has the lock, and is never closed.
abbrev busy : LockFile
busy = record { size = 1; owner = some 7; open_handles = 7 ∷ []; next_handle = 8; clock = 100 }

enter-IsSettled_example : IsSettled mutex 8 130 (enter (λ f. f) 31 mutex busy)
enter-IsSettled_example = enter-IsSettled (λ f. f) (λ f. omega arith) mutex (omega arith) busy

abbrev first : FileMutex
first = holding mutex 0

abbrev second : FileMutex
second = holding mutex 1

abbrev contended : System
contended = tried 1 first 0 30 (entered 2 mutex (entered 1 mutex (unopened 0)))

steps : Reachable contended
unfolding exec_code mutex_code system_code
steps =
    next
      (next (next (start 0) (enters (unopened 0) 1 mutex refl))
        (enters (entered 1 mutex (unopened 0)) 2 mutex refl))
      (tries (entered 2 mutex (entered 1 mutex (unopened 0))) 1 first 0 30 refl)

first_inside : contended.phase 1 ≡ inside first 0
unfolding exec_code mutex_code system_code
first_inside = refl

second_waits : contended.phase 2 ≡ waiting second 1 30
unfolding exec_code mutex_code system_code
second_waits = refl

inside_unique_example : inner_of (contended.phase 2) ≡ none
inside_unique_example = inside_unique contended steps 1 first 0 first_inside 2 refl

tried-inside_example :
    ((tried 2 second 1 30 contended).phase 2 ≡ inside second 1) ⊎ Occupied contended
tried-inside_example = tried-inside contended steps 2 second 1 30 second_waits
