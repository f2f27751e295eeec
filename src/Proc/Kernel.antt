-- ===== src/Proc/Kernel.antt =====
-- The state that kernel/proc/proc.c works on: the process table, what each CPU runs, and the parts
-- of the kernel that it calls. `proc` is by index; an address of a process is its index here.
use base_exp.Base.{
  ℕ, ◌+◌, ◌%◌, ◌^◌, ◌==◌, Bool, if◌then◌else◌, Option, List, [], Run, Cmd, done, panic, asleep,
  out_of_fuel,
}
use base_exp.Mm.Mem.{Machine, Mm}
use base_exp.Fs.Files.{File, Files}
use base_exp.Fs.Inode.{Ino, Itable}

pub data ProcState : Type 0 where
  unused : ProcState
  used : ProcState
  sleeping : ProcState
  runnable : ProcState
  running : ProcState
  zombie : ProcState

-- `chan` is 0 for no channel; `context`, `kstack` and the saved floating-point registers are left to
-- the assembly code that uses them.
pub record Process : Type 0 where
  pub state : ProcState
  pub chan : ℕ
  pub killed : Bool
  pub xstate : ℕ
  pub pid : ℕ
  pub parent : Option ℕ
  pub sz : ℕ
  pub pagetable : ℕ
  pub trapframe : ℕ
  pub fpu_used : Bool
  pub fpu_active : Bool
  pub ofile : List (Option ℕ)
  pub cwd : Option ℕ
  pub name : List ℕ

-- `counter` is `nextpid` without its wrap-around. `current` is `c->proc` of each CPU, `trampoline` the address of the code of trampoline.S.
pub record Kernel : Type 0 where
  pub proc : ℕ → Process
  pub counter : ℕ
  pub initproc : ℕ
  pub current : ℕ → Option ℕ
  pub mem : Machine
  pub file : ℕ → File
  pub itable : Itable
  pub trampoline : ℕ

-- The 32 bits of the `int`.
abbrev pub nextpid : Kernel → ℕ
nextpid s = s.counter % 2 ^ 32

abbrev pub Kern : Type 0 → Type 0
Kern A = Cmd Kernel A

-- The address of a process as a channel: not 0, and the same for no two processes.
abbrev pub chan_of : ℕ → ℕ
chan_of p = p + 1

abbrev pub set_proc : (ℕ → Process) → ℕ → Process → ℕ → Process
set_proc proc p q i = if i == p then q else proc i

abbrev pub set_current : (ℕ → Option ℕ) → ℕ → Option ℕ → ℕ → Option ℕ
set_current current k p c = if c == k then p else current c

abbrev pub change : ℕ → (Process → Process) → Kern (Unit {0})
change p f = λ s. done tt (record s { proc = set_proc s.proc p (f (s.proc p)) })

-- A function of another part, on its part of the state.
abbrev pub in_mem : {A : Type 0} → Kernel → Run Machine A → Run Kernel A
in_mem s (done a m) = done a (record s { mem = m })
in_mem s (panic why) = panic why
in_mem s asleep = asleep
in_mem s out_of_fuel = out_of_fuel

abbrev pub mm : {A : Type 0} → Mm A → Kern A
mm f = λ s. in_mem s (f s.mem)

abbrev pub in_itable : {A : Type 0} → Kernel → Run Itable A → Run Kernel A
in_itable s (done a t) = done a (record s { itable = t })
in_itable s (panic why) = panic why
in_itable s asleep = asleep
in_itable s out_of_fuel = out_of_fuel

abbrev pub ino : {A : Type 0} → Ino A → Kern A
ino f = λ s. in_itable s (f s.itable)

-- What a function of the file table returns, and the inodes that it puts.
abbrev pub in_files : {A : Type 0} → Kernel → Run Files A → Run Kernel (A × List ℕ)
in_files s (done a t) = done (a, t.put) (record s { file = t.file })
in_files s (panic why) = panic why
in_files s asleep = asleep
in_files s out_of_fuel = out_of_fuel

abbrev pub files : {A : Type 0} → Cmd Files A → Kern (A × List ℕ)
files f = λ s. in_files s (f (record { file = s.file; ofile = []; put = [] }))
