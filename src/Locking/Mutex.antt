-- ===== src/Locking/Mutex.antt =====
-- FileMutex on the lock file that its processes share. flock of the operating system is that of its
-- manual: an exclusive lock belongs to one open file, is refused while another has it, and ends
-- with its file.
use agentic_engineering_cont.Prelude.{
  ℕ, zero, suc, ◌+◌, Bool, true, false, Option, none, some, List, [], ◌∷◌, eqb, leb, if◌then◌else◌,
}
use agentic_engineering_cont.Prelude.Platform.{Error, os_error, timeout_error, runtime_error}
use agentic_engineering_cont.Exec.{
  Result, ok, err, Exec, pure, raise, lift, gets, modify, ◌>>=◌, ◌>>◌, try_except,
}

-- The lock file: its size, the open file that has the lock, the files that are open, the next one to
-- be opened, and time.monotonic().
pub record LockFile : Type 0 where
  pub size : ℕ
  pub owner : Option ℕ
  pub open_handles : List ℕ
  pub next_handle : ℕ
  pub clock : ℕ

-- The object, after its file is opened or before.
pub record FileMutex : Type 0 where
  pub timeout : ℕ
  pub poll : ℕ
  pub handle : Option ℕ

unfoldable pub is_owner : ℕ → Option ℕ → Bool
is_owner h none = false
is_owner h (some o) = eqb o h

unfoldable pub is_free : ℕ → Option ℕ → Bool
is_free h none = true
is_free h (some o) = eqb o h

-- fcntl.flock(handle, LOCK_EX | LOCK_NB)
unfoldable pub flock : ℕ → Exec LockFile (Unit {0})
flock h f =
    if is_free h f.owner
    then (ok tt, record f { owner = some h })
    else (err (os_error "the lock is taken"), f)

unfoldable pub freed : ℕ → LockFile → LockFile
freed h f = record f { owner = if is_owner h f.owner then none else f.owner }

unfoldable pub without : ℕ → List ℕ → List ℕ
without h [] = []
without h (x ∷ xs) = let rest = without h xs in if eqb x h then rest else x ∷ rest

-- An open file is closed, and its lock ends with it.
unfoldable pub closed : ℕ → LockFile → LockFile
closed h f = record (freed h f) { open_handles = without h f.open_handles }

abbrev pub elapse : ℕ → LockFile → LockFile
elapse n f = record f { clock = f.clock + n }

module _ (others : LockFile → LockFile) where
  -- time.sleep(seconds); `others` is what the other processes do meanwhile.
  unfoldable pub sleep : ℕ → Exec LockFile (Unit {0})
  sleep n = modify (λ f. others (elapse n f))

-- self._handle, which `_lock` wants to be open
unfoldable pub opened : Option ℕ → Result ℕ
opened (some h) = ok h
opened none = err (runtime_error "lock file is not open")

-- _lock
unfoldable pub lock : FileMutex → Exec LockFile (Unit {0})
lock m = do h ← lift (opened m.handle); flock h

-- _unlock
unfoldable pub unlock : FileMutex → Exec LockFile (Unit {0})
unlock m = elim m.handle [ none ↦ pure tt | some h ↦ modify (freed h) ]

-- self._handle.close()
unfoldable pub close : FileMutex → Exec LockFile (Unit {0})
close m = elim m.handle [ none ↦ pure tt | some h ↦ modify (closed h) ]

-- The file is opened and gets its one byte, and the deadline is set.
unfoldable pub open_file : FileMutex → Exec LockFile (FileMutex × ℕ)
open_file m = do
  handle ← gets (λ f. f.next_handle)
  modify (λ f. record f {
    next_handle = suc f.next_handle;
    open_handles = f.next_handle ∷ f.open_handles;
    size = if eqb f.size 0 then 1 else f.size;
  })
  now ← gets (λ f. f.clock)
  pure (record m { handle = some handle }, now + m.timeout)

-- Only a refusal by the operating system is caught.
abbrev refused : Exec LockFile Bool → Error → Exec LockFile Bool
refused next (os_error s) = next
refused next e = raise e

module _ (others : LockFile → LockFile) where
  unfoldable pub wait : FileMutex → ℕ → Exec LockFile Bool
  wait m deadline = do
    now ← gets (λ f. f.clock)
    if leb deadline now
        then close m >> raise (timeout_error "timed out acquiring lifecycle lock")
        else sleep others m.poll >> pure false

  -- One turn of the loop of __enter__: whether the lock is acquired.
  unfoldable pub attempt : FileMutex → ℕ → Exec LockFile Bool
  attempt m deadline = try_except (lock m >> pure true) (refused (wait m deadline))

  -- The loop, for at most `fuel` turns; `none` is a loop that has not ended.
  unfoldable pub acquire : ℕ → FileMutex → ℕ → Exec LockFile (Option FileMutex)
  acquire zero m deadline = pure none
  acquire (suc fuel) m deadline = do
    acquired ← attempt m deadline
    if acquired then pure (some m) else acquire fuel m deadline

  -- __enter__
  unfoldable pub enter : ℕ → FileMutex → Exec LockFile (Option FileMutex)
  enter fuel m = do (opened_mutex, deadline) ← open_file m; acquire fuel opened_mutex deadline

-- __exit__
unfoldable pub exit : FileMutex → Exec LockFile FileMutex
exit m = do unlock m; close m; pure (record m { handle = none })

-- All that a run computes with here, under one name.
unfoldable pub mutex_code : Unit {0}
unfolding is_owner is_free flock freed without closed sleep opened lock unlock close open_file wait
    attempt acquire enter exit
mutex_code = tt
