-- ===== src/Proc/Life.antt =====
-- `kfork`, `kexit` and `kwait` (kernel/proc/proc.c). `me` is the calling process, on CPU `k`.
-- `wait_lock` makes the second part of `kexit`, and each round of `kwait`, one step. So is `kfork`:
-- between its critical sections the child is USED and has no parent, and no other function looks at
-- such an entry but `kkill`, which only marks it.
pub mod Creating
pub mod Fork
pub mod Orphans
pub mod Exit
pub mod Wait
pub mod Boot
pub mod Reach
mod Tests
use base_exp.Base.{
  ℕ, zero, suc, ◌+◌, ◌*◌, ◌/◌, ◌%◌, ◌^◌, Bool, true, false, not, ◌||◌, ◌==◌, if◌then◌else◌, Option,
  none, some, List, [], ◌∷◌, Run, done, panic, pure, fail, get, ◌>>=◌, ◌>>◌,
}
use base_exp.Mm.Mem.{Mm, load, store}
use base_exp.Mm.Vm.{uvmcopy}
use base_exp.Mm.Copy.{copyout}
use base_exp.Fs.Files.{filedup, fileclose}
use base_exp.Fs.Inode.{idup, iput}
use base_exp.Proc.Kernel.{
  ProcState, runnable, zombie, Process, Kernel, Kern, set_proc, change, chan_of, mm, ino, files,
}
use base_exp.Proc.Alloc.{nproc, allocproc, freeproc}
use base_exp.Proc.Sched.{sched, sleep, wakeup, wakeup_from}

-- `*(np->trapframe) = *(p->trapframe)`, word by word.
unfoldable pub copy_words : (dst src n : ℕ) → Mm (Unit {0})
copy_words dst src zero = pure tt
copy_words dst src (suc n) = do w ← load src; store dst w; copy_words (dst + 8) (src + 8) n

-- The child's registers: those of the parent, but 0 in `a0`.
unfoldable pub copy_trapframe : (dst src : ℕ) → Mm (Unit {0})
unfolding copy_words
copy_trapframe dst src = do copy_words dst src 36; store (dst + 112) 0

unfoldable pub dup_files : List (Option ℕ) → Kern (Unit {0})
dup_files [] = pure tt
dup_files (none ∷ fs) = dup_files fs
dup_files (some f ∷ fs) = do files (filedup f); dup_files fs

-- A null directory would be a page fault of the kernel.
abbrev pub dup_cwd : Option ℕ → Kern (Unit {0})
dup_cwd none = fail "kerneltrap"
dup_cwd (some ip) = do ino (idup ip); pure tt

-- `kfork` from the copy of the memory on, with the new entry `np`.
unfoldable pub fork_into : (me np : ℕ) → Kern (Option ℕ)
fork_into me np = do
  s ← get
  let p = s.proc me
  copied ← mm (uvmcopy p.pagetable (s.proc np).pagetable p.sz)
  if not copied then (do freeproc np; pure none) else do
    mm (copy_trapframe (s.proc np).trapframe p.trapframe)
    change me λ q. record q { fpu_active = false }
    change np λ q. record q {
      sz = p.sz;
      fpu_used = p.fpu_used;
      fpu_active = false;
      ofile = p.ofile;
      cwd = p.cwd;
      name = p.name;
    }
    dup_files p.ofile
    dup_cwd p.cwd
    change np λ q. record q { parent = some me }
    change np λ q. record q { state = runnable }
    pure (some (s.proc np).pid)

unfoldable pub kfork : (me : ℕ) → Kern (Option ℕ)
unfolding fork_into
kfork me = do found ← allocproc; elim found [ none ↦ pure none | some np ↦ fork_into me np ]

abbrev pub child_of : ℕ → Option ℕ → Bool
child_of me none = false
child_of me (some p) = p == me

abbrev pub is_child : ℕ → Process → Bool
is_child me q = child_of me q.parent

-- The loop of `reparent` over the `n` processes from `pp` on.
unfoldable pub reparent_from : (me initproc : ℕ) → (ℕ → Process) → (pp n : ℕ) → ℕ → Process
reparent_from me initproc proc pp zero = proc
reparent_from me initproc proc pp (suc n) =
    reparent_from me initproc
      (if is_child me (proc pp)
        then wakeup_from (some me) (chan_of initproc)
            (set_proc proc pp (record (proc pp) { parent = some initproc })) 0 nproc
        else proc)
      (pp + 1) n

unfoldable pub reparent : ℕ → Kern (Unit {0})
unfolding reparent_from
reparent me s = done tt (record s { proc = reparent_from me s.initproc s.proc 0 nproc })

unfoldable pub iput_all : List ℕ → Kern (Unit {0})
iput_all [] = pure tt
iput_all (ip ∷ ips) = do ino (iput ip); iput_all ips

unfoldable pub close_files : List (Option ℕ) → Kern (Unit {0})
unfolding iput_all
close_files [] = pure tt
close_files (none ∷ fs) = close_files fs
close_files (some f ∷ fs) = do (_, inodes) ← files (fileclose f); iput_all inodes; close_files fs

abbrev pub free_files : List (Option ℕ) → List (Option ℕ)
free_files [] = []
free_files (f ∷ fs) = none ∷ free_files fs

abbrev pub put_cwd : Option ℕ → Kern (Unit {0})
put_cwd none = fail "kerneltrap"
put_cwd (some ip) = ino (iput ip)

-- `wakeup(p->parent)`.
abbrev pub parent_chan : Option ℕ → ℕ
parent_chan none = 0
parent_chan (some p) = chan_of p

-- The part of `kexit` under `wait_lock`.
unfoldable pub exit_locked : (k me status : ℕ) → Kern (Unit {0})
exit_locked k me status = do
  reparent me
  s ← get
  wakeup (some me) (parent_chan (s.proc me).parent)
  change me λ q. record q { xstate = status; state = zombie }
  sched k me

unfoldable pub kexit : (k me status : ℕ) → Kern (Unit {0})
unfolding exit_locked
kexit k me status = do
  s ← get
  if me == s.initproc then fail "init exiting" else do
    close_files (s.proc me).ofile
    change me λ q. record q { ofile = free_files q.ofile }
    put_cwd (s.proc me).cwd
    change me λ q. record q { cwd = none }
    exit_locked k me status

-- What the loop of `kwait` finds: a child that is a zombie, or whether there are children.
abbrev pub is_zombie : ProcState → Bool
is_zombie s = elim s [ zombie ↦ true | _ ↦ false ]

unfoldable pub find_child : ℕ → (ℕ → Process) → Bool → (pp n : ℕ) → Option ℕ × Bool
find_child me proc havekids pp zero = (none, havekids)
find_child me proc havekids pp (suc n) =
    let rest = find_child me proc (havekids || is_child me (proc pp)) (pp + 1) n in
    if is_child me (proc pp)
    then (if is_zombie (proc pp).state then (some pp, true) else rest)
    else rest

abbrev pub int_bytes : ℕ → List ℕ
int_bytes n = n % 256 ∷ n / 256 % 256 ∷ n / 65536 % 256 ∷ n / 16777216 % 256 ∷ []

-- How a round of `kwait` ends: with the child's pid, with -1, or asleep.
pub data Waited : Type 0 where
  reaped : ℕ → Waited
  refused : Waited
  waiting : Waited

unfoldable pub reap : (me addr pp : ℕ) → Kern Waited
reap me addr pp = do
  s ← get
  copied ←
      if addr == 0
      then pure true
      else mm (copyout (s.proc me).pagetable addr (int_bytes (s.proc pp).xstate))
  if not copied then pure refused else do freeproc pp; pure (reaped (s.proc pp).pid)

-- A round of the loop of `kwait`.
unfoldable pub kwait : (k me addr : ℕ) → Kern Waited
unfolding find_child reap
kwait k me addr s = elim (find_child me s.proc false 0 nproc).0 [
  | some pp ↦ reap me addr pp s
  | none ↦
      if not (find_child me s.proc false 0 nproc).1 || (s.proc me).killed
      then done refused s
      else (do sleep k me (chan_of me); pure waiting) s
]
