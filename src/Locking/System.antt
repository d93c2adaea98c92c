-- ===== src/Locking/System.antt =====
-- Any number of processes at one lock file: what each is at, and the steps that they take, in any
-- order.
use agentic_engineering_cont.Prelude.{[], ℕ, ◌≡◌, Bool, true, false, none, some, eqb, if◌then◌else◌}
use agentic_engineering_cont.Exec.{Result, ok, err}
use agentic_engineering_cont.Locking.Mutex.{
  LockFile, FileMutex, open_file, attempt, exit, close, elapse,
}
use agentic_engineering_cont.Locking.Turns.{holding}

-- Before or behind the `with` block, in the loop of __enter__ with an open file and a deadline, or
-- in the block.
pub data Phase : Type 0 where
  outside : Phase
  waiting : FileMutex → ℕ → ℕ → Phase
  inside : FileMutex → ℕ → Phase

pub record System : Type 0 where
  pub file : LockFile
  pub phase : ℕ → Phase

unfoldable pub put : ℕ → Phase → (ℕ → Phase) → ℕ → Phase
put i p phase j = if eqb j i then p else phase j

abbrev pub after_open : Result (FileMutex × ℕ) → Phase
after_open (err e) = outside
after_open (ok (m, deadline)) = elim m.handle [ none ↦ outside | some h ↦ waiting m h deadline ]

abbrev pub after_attempt : FileMutex → ℕ → ℕ → Result Bool → Phase
after_attempt m h deadline (ok true) = inside m h
after_attempt m h deadline (ok false) = waiting m h deadline
after_attempt m h deadline (err e) = outside

-- What each step of the process `i` makes of the system.
unfoldable pub entered : ℕ → FileMutex → System → System
entered i m s =
    let (r, f) = open_file m s.file in record { file = f; phase = put i (after_open r) s.phase }

unfoldable pub tried : ℕ → FileMutex → ℕ → ℕ → System → System
tried i m h deadline s =
    let (r, f) = attempt (λ f. f) (holding m h) deadline s.file in
    record { file = f; phase = put i (after_attempt m h deadline r) s.phase }

unfoldable pub left : ℕ → FileMutex → ℕ → System → System
left i m h s =
    let (r, f) = exit (holding m h) s.file in record { file = f; phase = put i outside s.phase }

unfoldable pub dead : ℕ → FileMutex → ℕ → System → System
dead i m h s =
    let (r, f) = close (holding m h) s.file in record { file = f; phase = put i outside s.phase }

unfoldable pub ticked : ℕ → System → System
ticked n s = record s { file = elapse n s.file }

-- A process that dies, at whatever point, has its file closed by the operating system.
pub data Step : System → System → Type 0 where
  enters : (s : System) (i : ℕ) (m : FileMutex) → s.phase i ≡ outside → Step s (entered i m s)
  tries :
      (s : System) (i : ℕ) (m : FileMutex) (h deadline : ℕ)
      → s.phase i ≡ waiting m h deadline
      → Step s (tried i m h deadline s)
  leaves :
      (s : System) (i : ℕ) (m : FileMutex) (h : ℕ) → s.phase i ≡ inside m h → Step s (left i m h s)
  dies_waiting :
      (s : System) (i : ℕ) (m : FileMutex) (h deadline : ℕ)
      → s.phase i ≡ waiting m h deadline
      → Step s (dead i m h s)
  dies_inside :
      (s : System) (i : ℕ) (m : FileMutex) (h : ℕ) → s.phase i ≡ inside m h → Step s (dead i m h s)
  ticks : (s : System) (n : ℕ) → Step s (ticked n s)

-- A file that nobody has open, at any time.
unfoldable pub unopened : ℕ → System
unopened time = record {
  file = record { size = 0; owner = none; open_handles = []; next_handle = 0; clock = time };
  phase = λ i. outside;
}

pub data Reachable : System → Type 0 where
  start : (time : ℕ) → Reachable (unopened time)
  next : {s t : System} → Reachable s → Step s t → Reachable t

-- All that a run computes with here, under one name.
unfoldable pub system_code : Unit {0}
unfolding put entered tried left dead ticked unopened
system_code = tt
