-- ===== src/Proc/Life/Reach.antt =====
-- The process table (kernel/proc/proc.c) over all sequences of calls, by any CPU.
use base_exp.Base.{
  ℕ, ◌+◌, ◌≡◌, ◌≤◌, ◌^◌, ◌≢◌, inl, inr, refl, ◌∙◌, ap, Bool, true, false, ◌==◌, ltb, if◌then◌else◌,
  Bool-cases, Option, none, some, arith, Run, done, pure, ◌>>=◌, ◌>>◌,
}
use base_exp.Mm.Mem.{Machine}
use base_exp.Mm.Pte.{pte_w}
use base_exp.Mm.Vm.{uvmalloc, uvmdealloc}
use base_exp.Fs.Files.{File}
use base_exp.Fs.Inode.{Itable}
use base_exp.Proc.Kernel.{Kernel, Kern, chan_of, set_proc, change, mm}
use base_exp.Proc.Keeps.{
  Leaves, Leaves-done, Triple, Triple-bind, Triple-mm, Triple-change, Triple-if, Triple-pure,
}
use base_exp.Proc.Alloc.{is_unused, trapframe_va, userinit, growproc}
use base_exp.Proc.Sched.{is_sleeping, is_running, scheduler, yield, sleep, wakeup, kkill, setkilled}
use base_exp.Proc.Sched.Invariant.{IsSound-set_proc, IsFit-same, has_exited}
use base_exp.Proc.Sched.Steps.{
  IsTable, yield-IsTable, sleep-IsTable, scheduler-IsTable, wakeup-IsTable, setkilled-IsTable,
  kkill-IsTable,
}
use base_exp.Proc.Life.{Waited, kfork, kexit, kwait}
use base_exp.Proc.Life.Creating.{IsOn}
use base_exp.Proc.Life.Fork.{kfork-IsOn}
use base_exp.Proc.Life.Exit.{kexit-IsTable}
use base_exp.Proc.Life.Wait.{kwait-IsTable}
use base_exp.Proc.Life.Boot.{IsBooted, userinit-IsTable}

-- A call of a function of the process table: by CPU `k`, or by process `me` on CPU `k`. But for
-- `kwait`, no process sleeps on its own address. `others` is a change of other parts of the kernel.
pub data Step (s : Kernel) : Kernel → Type 0 where
  schedules :
      {t : Kernel} {ran : Bool} (k p : ℕ)
      → s.current k ≡ none
      → scheduler k p s ≡ done ran t
      → Step s t
  yields : {t : Kernel} (k me : ℕ) → s.current k ≡ some me → yield k me s ≡ done tt t → Step s t
  sleeps :
      {t : Kernel} (k me chan : ℕ)
      → s.current k ≡ some me
      → chan ≢ chan_of me
      → sleep k me chan s ≡ done tt t
      → Step s t
  wakes : {t : Kernel} (me : Option ℕ) (chan : ℕ) → wakeup me chan s ≡ done tt t → Step s t
  kills : {t : Kernel} {ok : Bool} (pid : ℕ) → kkill pid s ≡ done ok t → Step s t
  marks : {t : Kernel} (p : ℕ) → setkilled p s ≡ done tt t → Step s t
  forks :
      {t : Kernel} {pid : Option ℕ} (k me : ℕ)
      → s.current k ≡ some me
      → kfork me s ≡ done pid t
      → Step s t
  exits :
      {t : Kernel} (k me status : ℕ)
      → s.current k ≡ some me
      → kexit k me status s ≡ done tt t
      → Step s t
  waits :
      {t : Kernel} {end : Waited} (k me addr : ℕ)
      → s.current k ≡ some me
      → kwait k me addr s ≡ done end t
      → Step s t
  grows :
      {t : Kernel} {ok : Bool} (k me n : ℕ) (negative : Bool)
      → s.current k ≡ some me
      → growproc me negative n s ≡ done ok t
      → Step s t
  others :
      (m : Machine) (f : ℕ → File) (i : Itable)
      → Step s (record s { mem = m; file = f; itable = i })

-- The states after `procinit` and `userinit`.
pub data Reached : Kernel → Type 0 where
  start : {t : Kernel} (s : Kernel) → IsBooted s → userinit s ≡ done tt t → Reached t
  next : {t : Kernel} (s : Kernel) → Reached s → Step s t → Reached t

sized :
    (k me sz : ℕ) (s : Kernel)
    → IsOn k me s
    → IsOn k me (record s { proc = set_proc s.proc me (record (s.proc me) { sz = sz }) })
sized k me sz s (inv, on) = (
  IsSound-set_proc s.proc me (record (s.proc me) { sz = sz }) s.current s.initproc s.counter inv
      (IsFit-same s.proc s.current s.initproc s.counter me (record (s.proc me) { sz = sz }) inv refl
        refl refl refl),
  on,
)

shrink-IsOn :
    (k me pagetable old new : ℕ)
    → Triple
        (IsOn k me)
        (do sz ← mm (uvmdealloc pagetable old new); change me λ r. record r { sz = sz }; pure true)
        (λ _. IsOn k me)
shrink-IsOn k me pagetable old new =
    Triple-bind _ _ _ _ _ (Triple-mm (IsOn k me) (uvmdealloc pagetable old new) (λ t m h. h)) λ sz.
      Triple-bind _ (λ _. IsOn k me) _ _ _
        (Triple-change _ _ me (λ r. record r { sz = sz }) (sized k me sz))
        λ _. Triple-pure _ _ true λ t h. h

enlarge-IsOn :
    (k me pagetable old new : ℕ)
    → Triple
        (IsOn k me)
        (do
          sz ← mm (uvmalloc pagetable old new pte_w)
          if sz == 0 then pure false else do change me λ r. record r { sz = sz }; pure true)
        (λ _. IsOn k me)
enlarge-IsOn k me pagetable old new =
    Triple-bind _ _ _ _ _ (Triple-mm (IsOn k me) (uvmalloc pagetable old new pte_w) (λ t m h. h))
      λ sz.
        Triple-if _ _ (sz == 0) _ _ (λ _. Triple-pure _ _ false λ t h. h)
          λ _.
            Triple-bind _ (λ _. IsOn k me) _ _ _
              (Triple-change _ _ me (λ r. record r { sz = sz }) (sized k me sz))
              λ _. Triple-pure _ _ true λ t h. h

growproc-IsOn :
    (k me n : ℕ) (negative : Bool) → Triple (IsOn k me) (growproc me negative n) (λ _. IsOn k me)
unfolding growproc Triple
growproc-IsOn k me n negative s h = elim (Bool-cases (n == 0)) [
  | inl e ↦ rw e h
  | inr ne ↦ elim (Bool-cases negative) [
    | inl neg ↦ rw (ne, neg) (shrink-IsOn k me _ _ _ s h)
    | inr pos ↦ elim (Bool-cases (ltb trapframe_va ((s.proc me).sz + n))) [
      | inl over ↦ rw (ne, pos, over) h
      | inr fits ↦ rw (ne, pos, fits) (enlarge-IsOn k me _ _ _ s h)
    ]
  ]
]

ran-IsTable :
    {A : Type 0} (r : Run Kernel A) (a : A) (t : Kernel)
    → Leaves (λ _. IsTable) r
    → r ≡ done a t
    → IsTable t
ran-IsTable r a t h e = Leaves-done (λ _. IsTable) r a t h e

after :
    {A : Type 0} {a : A} {s t : Kernel} (P M : Kernel → Type 0) (m : Kern A)
    → Triple P m (λ _. M)
    → P s
    → m s ≡ done a t
    → M t
unfolding Triple
after {a = a} {s = s} {t = t} P M m keeps h e = Leaves-done (λ _. M) (m s) a t (keeps s h) e

Step-IsTable : (s t : Kernel) → IsTable s → Step s t → IsTable t
Step-IsTable s t inv (schedules k p idle e) = ran-IsTable _ _ t (scheduler-IsTable k p s inv idle) e
Step-IsTable s t inv (yields k me on e) = ran-IsTable _ _ t (yield-IsTable s k me inv on) e
Step-IsTable s t inv (sleeps k me chan on other e) =
    ran-IsTable _ _ t (sleep-IsTable s k me inv on chan (λ same. absurd (other same))) e
Step-IsTable s t inv (wakes me chan e) = ran-IsTable _ _ t (wakeup-IsTable me chan s inv) e
Step-IsTable s t inv (kills pid e) = ran-IsTable _ _ t (kkill-IsTable pid s inv) e
Step-IsTable s t inv (marks p e) = ran-IsTable _ _ t (setkilled-IsTable p s inv) e
Step-IsTable s t inv (forks k me on e) =
    (after (IsOn k me) (IsOn k me) _ (kfork-IsOn k me) (inv, on) e).0
Step-IsTable s t inv (exits k me status on e) =
    after (IsOn k me) IsTable _ (kexit-IsTable k me status) (inv, on) e
Step-IsTable s t inv (waits k me addr on e) =
    after (IsOn k me) IsTable _ (kwait-IsTable k me addr) (inv, on) e
Step-IsTable s t inv (grows k me n negative on e) =
    (after (IsOn k me) (IsOn k me) _ (growproc-IsOn k me n negative) (inv, on) e).0
Step-IsTable s t inv (others m f i) = inv

-- In each reachable state: of two processes, the first a child of the second, both are in use and
-- the second lives; until 2^32 pids were handed out, those of entries in use differ; a CPU's process is
-- RUNNING and on no other CPU; and the first process lives.
pub Reached-IsTable : (s : Kernel) → Reached s → IsTable s
Reached-IsTable s (start r booted e) = after IsBooted IsTable _ userinit-IsTable booted e
Reached-IsTable s (next r before step) = Step-IsTable r s (Reached-IsTable r before) step

-- In each reachable state, no process sleeps in `kwait` while a child of it is a ZOMBIE: the wakeup
-- of `kexit` is not lost.
pub no_lost_exit :
    (s : Kernel) (p q : ℕ)
    → Reached s
    → is_sleeping (s.proc p).state ≡ true
    → (s.proc p).chan ≡ chan_of p
    → (s.proc q).parent ≡ some p
    → has_exited (s.proc q).state ≡ false
no_lost_exit s p q r asleep at child = elim (Bool-cases (has_exited (s.proc q).state)) [
  | inr e ↦ e
  | inl e ↦
      absurd (let (_, _, noticed) = (Reached-IsTable s r).family q p child in noticed e asleep at)
]

-- In each reachable state, the processes of two CPUs are RUNNING, and they are different ones.
pub one_cpu :
    (s : Kernel) (j k p q : ℕ)
    → Reached s
    → s.current j ≡ some p
    → s.current k ≡ some q
    → (j == k) ≡ false
    → (is_running (s.proc p).state ≡ true) × (is_running (s.proc q).state ≡ true) × (p ≢ q)
one_cpu s j k p q r g h apart =
    let inv = Reached-IsTable s r in
    (
      inv.runs j p g,
      inv.runs k q h,
      λ e. absurd (let same = inv.once j k q (g ∙ ap some e) h in ground arith),
    )

-- In each reachable state before `nextpid` has wrapped around, two different entries in use have
-- different pids.
pub own_pid :
    (s : Kernel) (p q : ℕ)
    → Reached s
    → s.counter ≤ 2 ^ 32
    → is_unused (s.proc p).state ≡ false
    → is_unused (s.proc q).state ≡ false
    → (p == q) ≡ false
    → (s.proc p).pid ≢ (s.proc q).pid
own_pid s p q r few g h apart e =
    absurd (let same = (Reached-IsTable s r).pids p q few g h e in ground arith)
