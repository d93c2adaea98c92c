-- ===== src/Locking/Handover.antt =====
-- The lock is never lost: whatever owns it is in its block, and who waits is refused only then.
use agentic_engineering_cont.Prelude.{
  ℕ, ◌≡◌, ◌⊎◌, inl, inr, refl, sym, ap, subst, arith, ◌∙◌, true, false, Bool-cases, Option, none,
  some, eqb, eqb→eq, if◌then◌else◌, leb,
}
use agentic_engineering_cont.Exec.{exec_code}
use agentic_engineering_cont.Locking.Mutex.{
  LockFile, FileMutex, is_owner, is_free, freed, closed, open_file, exit, close, unlock,
}
use agentic_engineering_cont.Locking.Turns.{attempt_free, attempt_late, attempt_early}
use agentic_engineering_cont.Locking.System.{
  Phase, outside, waiting, inside, System, put, entered, tried, left, dead, ticked, unopened,
  Reachable, start, next, Step, enters, tries, leaves, dies_waiting, dies_inside, ticks,
}
use agentic_engineering_cont.Locking.Exclusive.{
  inner_of, put_here, put_elsewhere, some_inj, freed_twice,
}

absurd_some : {A : Type 0} {o : ℕ} → none ≡ some o → A
absurd_some {A = A} e = subst (λ (x : Option ℕ). elim x [ none ↦ Unit | some k ↦ A ]) e tt

-- The owner of the lock is the file of a process in its block.
abbrev IsOwned : LockFile → (ℕ → Phase) → Type 0
IsOwned f phase = (o : ℕ) → f.owner ≡ some o → (i : ℕ) × (inner_of (phase i) ≡ some o)

module _ (f : LockFile) (phase : ℕ → Phase) (owned : IsOwned f phase) (i : ℕ) (p : Phase)
    (g : LockFile) where
  -- Another process than `i` is in its block, and stays there.
  moved-IsOwned :
      ((o : ℕ)
        → g.owner ≡ some o
        → (f.owner ≡ some o) × (inner_of (phase i) ≡ some o → eqb 0 1 ≡ true))
      → IsOwned g (put i p phase)
  moved-IsOwned kept o e =
      let (old, elsewhere) = kept o e in
      let (j, inner) = owned o old in
      elim (Bool-cases (eqb j i)) [
        | inl same ↦
            absurd_eq (elsewhere (ap (λ k. inner_of (phase k)) (sym (eqb→eq j i same)) ∙ inner))
        | inr other ↦ (j, ap inner_of (put_elsewhere i p phase j other) ∙ inner)
      ]
    where
      absurd_eq : {A : Type 0} → eqb 0 1 ≡ true → A
      absurd_eq x = cc

freed-keeps :
    (h : ℕ) (f : LockFile) (o : ℕ)
    → (freed h f).owner ≡ some o
    → (f.owner ≡ some o) × (eqb o h ≡ false)
unfolding freed is_owner
freed-keeps h f o e = freed_cases f.owner e
  where
    freed_cases :
        (owner : Option ℕ)
        → (if is_owner h owner then none else owner) ≡ some o
        → (owner ≡ some o) × (eqb o h ≡ false)
    freed_cases none e = absurd_some e
    freed_cases (some k) e = elim (Bool-cases (eqb k h)) [
      | inl mine ↦ let gone : none ≡ some o = rw mine at e in absurd_some gone
      | inr other ↦
          let same : some k ≡ some o = rw other at e in
          (same, ap (λ n. eqb n h) (sym (some_inj same)) ∙ other)
    ]

abbrev Lossless : System → Type 0
Lossless s = IsOwned s.file s.phase

module _ (s : System) (owned : Lossless s) (i : ℕ) (m : FileMutex) where
  entered-Lossless : s.phase i ≡ outside → Lossless (entered i m s)
  unfolding exec_code entered open_file
  entered-Lossless at =
      moved-IsOwned s.file s.phase owned i _ s.file
        λ o e. (e, λ inner. let none_in : none ≡ some o = sym (ap inner_of at) ∙ inner in cc)

  -- A file is closed whose process is in its block with it, or not in its block.
  closed-IsOwned :
      (h : ℕ)
      → ((o : ℕ) → inner_of (s.phase i) ≡ some o → o ≡ h)
      → IsOwned (closed h s.file) (put i outside s.phase)
  unfolding closed
  closed-IsOwned h own = moved-IsOwned s.file s.phase owned i outside (closed h s.file) λ o e.
      let (old, other) = freed-keeps h s.file o e in
      (old, λ inner. let same = own o inner in absurd (ground arith))

  waits-inner :
      (h deadline o : ℕ) → s.phase i ≡ waiting m h deadline → inner_of (s.phase i) ≡ some o → o ≡ h
  waits-inner h deadline o at inner =
      let none_in : none ≡ some o = sym (ap inner_of at) ∙ inner in cc

  inside-inner : (h o : ℕ) → s.phase i ≡ inside m h → inner_of (s.phase i) ≡ some o → o ≡ h
  inside-inner h o at inner = some_inj (sym inner ∙ ap inner_of at)

  tried-Lossless :
      (h deadline : ℕ) → s.phase i ≡ waiting m h deadline → Lossless (tried i m h deadline s)
  unfolding exec_code tried
  tried-Lossless h deadline at = elim (Bool-cases (is_free h s.file.owner)) [
    | inl free ↦
        rw (attempt_free (λ f. f) m h deadline s.file free)
          (λ o e. (i, ap inner_of (put_here i (inside m h) s.phase) ∙ e))
    | inr taken ↦ elim (Bool-cases (leb deadline s.file.clock)) [
      | inl late ↦
          rw (attempt_late (λ f. f) m h deadline s.file taken late)
            (closed-IsOwned h λ o. waits-inner h deadline o at)
      | inr early ↦ rw (attempt_early (λ f. f) m h deadline s.file taken early) (
          moved-IsOwned s.file s.phase owned i (waiting m h deadline) s.file
            λ o e. (e, λ inner. let none_in : none ≡ some o = sym (ap inner_of at) ∙ inner in cc))
    ]
  ]

  dead-Lossless :
      (h : ℕ) → ((o : ℕ) → inner_of (s.phase i) ≡ some o → o ≡ h) → Lossless (dead i m h s)
  unfolding exec_code dead close
  dead-Lossless h own = closed-IsOwned h own

  left-Lossless :
      (h : ℕ) → ((o : ℕ) → inner_of (s.phase i) ≡ some o → o ≡ h) → Lossless (left i m h s)
  unfolding exec_code left exit unlock close closed
  left-Lossless h own o e =
      closed-IsOwned h own o (ap (λ (f : LockFile). f.owner) (sym (freed_twice h s.file)) ∙ e)

ticked-Lossless : (s : System) (n : ℕ) → Lossless s → Lossless (ticked n s)
unfolding ticked
ticked-Lossless s n owned = owned

unopened-Lossless : (time : ℕ) → Lossless (unopened time)
unfolding unopened
unopened-Lossless time o e = let gone : none ≡ some o = e in absurd_some gone

Step-Lossless : {s t : System} → Step s t → Lossless s → Lossless t
Step-Lossless (enters s i m at) x = entered-Lossless s x i m at
Step-Lossless (tries s i m h deadline at) x = tried-Lossless s x i m h deadline at
Step-Lossless (leaves s i m h at) x = left-Lossless s x i m h (λ o. inside-inner s x i m h o at)
Step-Lossless (dies_waiting s i m h deadline at) x =
    dead-Lossless s x i m h (λ o. waits-inner s x i m h deadline o at)
Step-Lossless (dies_inside s i m h at) x =
    dead-Lossless s x i m h (λ o. inside-inner s x i m h o at)
Step-Lossless (ticks s n) x = ticked-Lossless s n x

Reachable-Lossless : {s : System} → Reachable s → Lossless s
Reachable-Lossless (start time) = unopened-Lossless time
Reachable-Lossless (next r st) = Step-Lossless st (Reachable-Lossless r)

-- Some process is in its block.
abbrev pub Occupied : System → Type 0
Occupied s = (i : ℕ) × (h : ℕ) × (inner_of (s.phase i) ≡ some h)

tried_free :
    (s : System) (j : ℕ) (n : FileMutex) (k deadline : ℕ)
    → s.file.owner ≡ none
    → (tried j n k deadline s).phase j ≡ inside n k
unfolding tried is_free
tried_free s j n k deadline free =
    rw (attempt_free (λ f. f) n k deadline s.file (rw free refl)) (put_here j (inside n k) s.phase)

-- The lock is never lost: in every state that can be reached, where processes may also have died in
-- their blocks or while they waited, the try of a process that waits takes it into its block, even
-- after its deadline, or else some process is in its block in that very state.
pub tried-inside :
    (s : System)
    → Reachable s
    → (j : ℕ) (n : FileMutex) (k deadline : ℕ) → s.phase j ≡ waiting n k deadline
    → ((tried j n k deadline s).phase j ≡ inside n k) ⊎ Occupied s
tried-inside s r j n k deadline at = by_owner s.file.owner refl
  where
    by_owner :
        (o : Option ℕ)
        → s.file.owner ≡ o
        → ((tried j n k deadline s).phase j ≡ inside n k) ⊎ Occupied s
    by_owner none free = inl (tried_free s j n k deadline free)
    by_owner (some o) taken = let (i, inner) = Reachable-Lossless r o taken in inr (i, o, inner)
