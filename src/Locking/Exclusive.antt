-- ===== src/Locking/Exclusive.antt =====
-- Two processes are never in their `with` blocks at once.
use agentic_engineering_cont.Prelude.{
  List, ℕ, suc, ◌≤◌, ◌<◌, ◌≡◌, refl, sym, ap, ◌∙◌, true, false, Option, none, some, eqb, eqb→eq,
  eqb_refl, leb, Bool-cases, inl, inr, arith,
}
use agentic_engineering_cont.Exec.{exec_code}
use agentic_engineering_cont.Locking.Mutex.{
  closed, LockFile, FileMutex, is_owner, is_free, freed, open_file, exit, close, unlock,
}
use agentic_engineering_cont.Locking.Turns.{attempt_free, attempt_late, attempt_early}
use agentic_engineering_cont.Locking.System.{
  Phase, outside, waiting, inside, System, put, entered, tried, left, dead, ticked, Step, enters,
  tries, leaves, dies_waiting, dies_inside, ticks, unopened, Reachable, start, next,
}

abbrev pub handle_of : Phase → Option ℕ
handle_of outside = none
handle_of (waiting m h deadline) = some h
handle_of (inside m h) = some h

-- The handle of a process in its block.
abbrev pub inner_of : Phase → Option ℕ
inner_of (inside m h) = some h
inner_of _ = none

inner_handle : (p : Phase) (h : ℕ) → inner_of p ≡ some h → handle_of p ≡ some h
inner_handle outside h e = cc
inner_handle (waiting m k d) h e = cc
inner_handle (inside m k) h e = e

-- Open files are the processes' own, and the lock belongs to whoever is in the block.
pub record IsExclusive (f : LockFile) (phase : ℕ → Phase) : Type 0 where
  opened : (i h : ℕ) → handle_of (phase i) ≡ some h → h < f.next_handle
  apart : (i j h : ℕ) → handle_of (phase i) ≡ some h → handle_of (phase j) ≡ some h → i ≡ j
  pub owns : (i h : ℕ) → inner_of (phase i) ≡ some h → f.owner ≡ some h

pub put_here : (i : ℕ) (p : Phase) (phase : ℕ → Phase) → put i p phase i ≡ p
unfolding put
put_here i p phase = rw (eqb_refl i) refl

pub put_elsewhere :
    (i : ℕ) (p : Phase) (phase : ℕ → Phase) (j : ℕ) → eqb j i ≡ false → put i p phase j ≡ phase j
unfolding put
put_elsewhere i p phase j other = rw other refl

module _ (f : LockFile) (phase : ℕ → Phase) (x : IsExclusive f phase) (i : ℕ) (p : Phase)
    (g : LockFile) where
  -- One process moves on: its file is its own, old or new, and the owner of the lock fits.
  put-IsExclusive :
      f.next_handle ≤ g.next_handle
      → ((h : ℕ) → handle_of p ≡ some h → h < g.next_handle)
      → ((j h : ℕ) → handle_of p ≡ some h → handle_of (phase j) ≡ some h → j ≡ i)
      → ((h : ℕ) → inner_of p ≡ some h → g.owner ≡ some h)
      → ((j h : ℕ) → eqb j i ≡ false → inner_of (phase j) ≡ some h → g.owner ≡ some h)
      → IsExclusive g (put i p phase)
  unfolding put
  put-IsExclusive grows below own owner others = record {
    opened = λ j h e. elim (Bool-cases (eqb j i)) [
      | inl same ↦ below h (rw same at e)
      | inr other ↦ let old = x.opened j h (rw other at e) in omega arith
    ];
    apart = λ j k h e d. elim (Bool-cases (eqb j i)) [
      | inl same ↦ elim (Bool-cases (eqb k i)) [
        | inl too ↦ eqb→eq j i same ∙ sym (eqb→eq k i too)
        | inr not_k ↦ eqb→eq j i same ∙ sym (own k h (rw same at e) (rw not_k at d))
      ]
      | inr other ↦ elim (Bool-cases (eqb k i)) [
        | inl too ↦ own j h (rw too at d) (rw other at e) ∙ sym (eqb→eq k i too)
        | inr not_k ↦ x.apart j k h (rw other at e) (rw not_k at d)
      ]
    ];
    owns = λ j h e. elim (Bool-cases (eqb j i)) [
      | inl same ↦ owner h (rw same at e)
      | inr other ↦ others j h other (rw other at e)
    ];
  }

pub some_inj : {a b : ℕ} → some a ≡ some b → a ≡ b
some_inj {a = a} e = ap (λ o. elim o [ none ↦ a | some c ↦ c ]) e

module _ (f : LockFile) (phase : ℕ → Phase) (x : IsExclusive f phase) (i : ℕ) where
  -- The file of a process in its block is no one else's.
  inner_apart :
      (h j k : ℕ)
      → handle_of (phase i) ≡ some h
      → eqb j i ≡ false
      → inner_of (phase j) ≡ some k
      → eqb k h ≡ false
  inner_apart h j k mine other inner = elim (Bool-cases (eqb k h)) [
    | inl same ↦
        let theirs : handle_of (phase j) ≡ some h =
          inner_handle (phase j) k inner ∙ ap some (eqb→eq k h same) in
        let equal = x.apart j i h theirs mine in absurd (ground arith)
    | inr differ ↦ differ
  ]

  -- A process closes its file.
  removed-IsExclusive :
      (h : ℕ) → handle_of (phase i) ≡ some h → IsExclusive (closed h f) (put i outside phase)
  unfolding closed freed is_owner
  removed-IsExclusive h mine =
      put-IsExclusive f phase x i outside (closed h f) (omega arith) (λ k e. cc) (λ j k e d. cc)
        (λ k e. cc)
        λ j k other inner.
          let differ = inner_apart h j k mine other inner in rw (x.owns j k inner, differ) refl

  -- A process that waits takes the free lock.
  acquired-IsExclusive :
      (m : FileMutex) (h deadline : ℕ)
      → phase i ≡ waiting m h deadline
      → is_free h f.owner ≡ true
      → IsExclusive (record f { owner = some h }) (put i (inside m h) phase)
  unfolding is_free
  acquired-IsExclusive m h deadline at free =
      let mine : handle_of (phase i) ≡ some h = ap handle_of at in
      put-IsExclusive f phase x i (inside m h) _ (omega arith) (λ k e. x.opened i k (mine ∙ e))
        (λ j k e d. x.apart j i k d (mine ∙ e)) (λ k e. e)
        λ j k other inner.
          let same : eqb k h ≡ true = rw (x.owns j k inner) at free in
          ap some (sym (eqb→eq k h same))

  -- A process goes on waiting, and time passes.
  waited-IsExclusive :
      (m : FileMutex) (h deadline time : ℕ)
      → phase i ≡ waiting m h deadline
      → IsExclusive (record f { clock = time }) (put i (waiting m h deadline) phase)
  waited-IsExclusive m h deadline time at =
      let mine : handle_of (phase i) ≡ some h = ap handle_of at in
      put-IsExclusive f phase x i (waiting m h deadline) _ (omega arith)
        (λ k e. x.opened i k (mine ∙ e)) (λ j k e d. x.apart j i k d (mine ∙ e)) (λ k e. cc)
        λ j k other inner. x.owns j k inner

  -- A process opens the file anew.
  opened-IsExclusive :
      (m : FileMutex) (deadline size : ℕ) (handles : List ℕ)
      → IsExclusive
          (record f { next_handle = suc f.next_handle; open_handles = handles; size = size })
          (put i (waiting m f.next_handle deadline) phase)
  opened-IsExclusive m deadline size handles =
      put-IsExclusive f phase x i (waiting m f.next_handle deadline) _ (omega arith)
        (λ k e. let same = some_inj e in omega arith)
        (λ j k e d. let old = x.opened j k d in let same = some_inj e in absurd (omega arith))
        (λ k e. cc) λ j k other inner. x.owns j k inner

pub freed_twice : (h : ℕ) (f : LockFile) → freed h (freed h f) ≡ freed h f
unfolding freed is_owner
freed_twice h f = elim (Bool-cases (is_owner h f.owner)) [
  | inl mine ↦ rw mine refl
  | inr other ↦ rw (other, other) refl
]

module _ (s : System) (x : IsExclusive s.file s.phase) (i : ℕ) (m : FileMutex) where
  entered-IsExclusive : IsExclusive (entered i m s).file (entered i m s).phase
  unfolding exec_code entered open_file
  entered-IsExclusive = opened-IsExclusive s.file s.phase x i _ _ _ _

  tried-IsExclusive :
      (h deadline : ℕ)
      → s.phase i ≡ waiting m h deadline
      → IsExclusive (tried i m h deadline s).file (tried i m h deadline s).phase
  unfolding exec_code tried
  tried-IsExclusive h deadline at = elim (Bool-cases (is_free h s.file.owner)) [
    | inl free ↦
        rw (attempt_free (λ f. f) m h deadline s.file free)
          (acquired-IsExclusive s.file s.phase x i m h deadline at free)
    | inr taken ↦ elim (Bool-cases (leb deadline s.file.clock)) [
      | inl late ↦
          rw (attempt_late (λ f. f) m h deadline s.file taken late)
            (removed-IsExclusive s.file s.phase x i h (ap handle_of at))
      | inr early ↦
          rw (attempt_early (λ f. f) m h deadline s.file taken early)
            (waited-IsExclusive s.file s.phase x i m h deadline _ at)
    ]
  ]

  dead-IsExclusive :
      (h : ℕ)
      → handle_of (s.phase i) ≡ some h
      → IsExclusive (dead i m h s).file (dead i m h s).phase
  unfolding exec_code dead close
  dead-IsExclusive h mine = removed-IsExclusive s.file s.phase x i h mine

  left-IsExclusive :
      (h : ℕ)
      → handle_of (s.phase i) ≡ some h
      → IsExclusive (left i m h s).file (left i m h s).phase
  unfolding exec_code left exit unlock close closed freed
  left-IsExclusive h mine =
      let done = removed-IsExclusive s.file s.phase x i h mine in
      record {
        opened = done.opened;
        apart = done.apart;
        owns = λ j k inner.
            ap (λ (f : LockFile). f.owner) (freed_twice h s.file) ∙ done.owns j k inner;
      }

abbrev pub Holds : System → Type 0
Holds s = IsExclusive s.file s.phase

ticked-IsExclusive : (s : System) (n : ℕ) → Holds s → Holds (ticked n s)
unfolding ticked
ticked-IsExclusive s n x = record { opened = x.opened; apart = x.apart; owns = x.owns }

unopened-IsExclusive : (time : ℕ) → Holds (unopened time)
unfolding unopened
unopened-IsExclusive time = record {
  opened = λ i h e. cc;
  apart = λ i j h e d. cc;
  owns = λ i h e. cc;
}

Step-Holds : {s t : System} → Step s t → Holds s → Holds t
Step-Holds (enters s i m at) x = entered-IsExclusive s x i m
Step-Holds (tries s i m h deadline at) x = tried-IsExclusive s x i m h deadline at
Step-Holds (leaves s i m h at) x = left-IsExclusive s x i m h (ap handle_of at)
Step-Holds (dies_waiting s i m h deadline at) x = dead-IsExclusive s x i m h (ap handle_of at)
Step-Holds (dies_inside s i m h at) x = dead-IsExclusive s x i m h (ap handle_of at)
Step-Holds (ticks s n) x = ticked-IsExclusive s n x

pub Reachable-Holds : {s : System} → Reachable s → Holds s
Reachable-Holds (start time) = unopened-IsExclusive time
Reachable-Holds (next r st) = Step-Holds st (Reachable-Holds r)

none_inside : (i j : ℕ) (o : Option ℕ) → eqb j i ≡ false → ((k : ℕ) → o ≡ some k → j ≡ i) → o ≡ none
none_inside i j none other same = refl
none_inside i j (some k) other same = let equal = same k refl in absurd (ground arith)

-- However any number of processes enter, try, leave and die, and whatever time passes between: while
-- one of them is in the `with` block of its FileMutex, no other is in that of its own on the same
-- file.
pub inside_unique :
    (s : System)
    → Reachable s
    → (i : ℕ) (m : FileMutex) (h : ℕ) → s.phase i ≡ inside m h
    → (j : ℕ) → eqb j i ≡ false
    → inner_of (s.phase j) ≡ none
inside_unique s r i m h at j other =
    let x = Reachable-Holds r in
    none_inside i j (inner_of (s.phase j)) other λ k inner.
      let same : some h ≡ some k = sym (x.owns i h (ap inner_of at)) ∙ x.owns j k inner in
      x.apart j i h (inner_handle (s.phase j) k inner ∙ sym same) (ap handle_of at)
