-- ===== src/Proc/Life/Tests.antt =====
-- Runs of the process table (kernel/proc/proc.c).
use base_exp.Base.{
  ℕ, ◌+◌, ◌%◌, ◌&&◌, ◌<◌, ◌≡◌, ◌≤◌, ◌^◌, ◌≢◌, refl, Bool, true, false, ◌==◌, ltb, if◌then◌else◌,
  none, some, [], ◌∷◌, Run, done, panic, asleep, out_of_fuel, Returns, ◌⊎◌, arith,
}
use base_exp.Fs.Files.{fd_none}
use base_exp.Fs.Bio.{binit}
use base_exp.Fs.Inode.Layout.{super_of}
use base_exp.Fs.Inode.Lookup.{namei}
use base_exp.Proc.Sched.Waking.{wakeup_lem, kkill_lem}
use base_exp.Proc.Sched.Invariant.{has_exited}
use base_exp.Proc.Kernel.{unused, sleeping, runnable, chan_of, Process, Kernel}
use base_exp.Proc.Alloc.{
  nproc, is_unused, first_proc, allocpid, proc_pagetable, start_proc, allocproc, start_init,
  userinit,
}
use base_exp.Proc.Sched.{is_sleeping, is_running, is_other, scheduler, wakeup, kkill}
use base_exp.Proc.Life.{waiting, kfork, kwait}
use base_exp.Proc.Life.Boot.{IsBooted}
use base_exp.Proc.Life.Reach.{
  Reached, start, next, schedules, forks, waits, no_lost_exit, one_cpu, own_pid,
}

-- 60 free pages from 0x1000 on, in a list, and an empty table.
abbrev fresh : Process
fresh = record {
  state = unused;
  chan = 0;
  killed = false;
  xstate = 0;
  pid = 0;
  parent = none;
  sz = 0;
  pagetable = 0;
  trapframe = 0;
  fpu_used = false;
  fpu_active = false;
  ofile = none ∷ none ∷ [];
  cwd = none;
  name = [];
}

abbrev booted : Kernel
booted = record {
  proc = λ _. fresh;
  counter = 1;
  initproc = 0;
  current = λ _. none;
  mem = record {
    word = λ a. if a % 4096 == 0 && ltb a 0x40000 then a + 0x1000 else 0;
    freelist = 0x1000;
    kernel_end = 0x1000;
    phys_top = 0x80000;
  };
  file = λ _. record {
    type = fd_none;
    ref = 0;
    readable = false;
    writable = false;
    ip = 0;
    off = 0;
    major = 0;
  };
  itable = record {
    inode = λ _. record {
      dev = 0;
      inum = 0;
      ref = 0;
      locked = false;
      pid = 0;
      valid = false;
      disk = record { type = 0; major = 0; minor = 0; nlink = 0; size = 0; addrs = [] };
    };
    sb = super_of [];
    cache = binit (λ _ _. []);
  };
  trampoline = 0x100000;
}

booted-IsBooted : IsBooted booted
booted-IsBooted = (λ q. (refl, refl), λ k. refl)

abbrev returned : {A : Type 0} → Run Kernel A → Bool
returned (done a t) = true
returned (panic why) = false
returned asleep = false
returned out_of_fuel = false

abbrev state_of : {A : Type 0} → Run Kernel A → Kernel
state_of (done a t) = t
state_of (panic why) = booted
state_of asleep = booted
state_of out_of_fuel = booted

abbrev first : Kernel
first = state_of (userinit booted)

abbrev value_of : {A : Type 0} → A → Run Kernel A → A
value_of a (done b t) = b
value_of a (panic why) = a
value_of a asleep = a
value_of a out_of_fuel = a

done_of :
    {A : Type 0} (a : A) (r : Run Kernel A)
    → returned r ≡ true
    → r ≡ done (value_of a r) (state_of r)
done_of a (done b t) h = refl
done_of a (panic why) h = absurd (cc)
done_of a asleep h = absurd (cc)
done_of a out_of_fuel h = absurd (cc)

-- CPU 0 runs process 0, which forks: entry 1.
abbrev ran : Kernel
ran = state_of (scheduler 0 0 first)

abbrev forked : Kernel
forked = state_of (kfork 0 ran)

-- Process 0 waits for it.
abbrev waited : Kernel
waited = state_of (kwait 0 0 0 forked)

-- CPU 1 runs entry 1.
abbrev both : Kernel
both = state_of (scheduler 1 1 forked)

-- What the steps need, and what they lead to.
runs :
    (returned (userinit booted) ≡ true)
    × (first.current 0 ≡ none)
    × (returned (scheduler 0 0 first) ≡ true)
    × (ran.current 0 ≡ some 0)
    × (returned (kfork 0 ran) ≡ true)
    × (forked.current 0 ≡ some 0)
    × (forked.current 1 ≡ none)
    × (returned (kwait 0 0 0 forked) ≡ true)
    × (returned (scheduler 1 1 forked) ≡ true)
unfolding userinit start_init allocproc first_proc start_proc allocpid proc_pagetable namei
    base_exp.Mm.Kalloc.kalloc base_exp.Mm.Vm.uvmcreate base_exp.Mm.Mem.clear_page
    base_exp.Mm.Vm.mappages base_exp.Mm.Vm.walk base_exp.Mm.Mem.load base_exp.Mm.Mem.fill_page
    base_exp.Mm.Pte.px base_exp.Mm.Mem.store base_exp.Mm.Mem.write base_exp.Mm.Pte.make_pte
    base_exp.Fs.Inode.iget base_exp.Fs.Inode.idup base_exp.Fs.PathName.skipelem
    base_exp.Fs.PathName.skip_slashes base_exp.Mm.Vm.uvmcopy base_exp.Mm.Vm.copy_loop
    base_exp.Proc.Life.copy_trapframe base_exp.Proc.Life.copy_words base_exp.Proc.Life.dup_files
    base_exp.Proc.Life.fork_into base_exp.Proc.Life.find_child base_exp.Proc.Sched.sleep
    base_exp.Proc.Sched.sched kwait kfork scheduler
runs = (refl, refl, refl, refl, refl, refl, refl, refl, refl)

-- What is seen of the states.
seen :
    (is_sleeping (waited.proc 0).state ≡ true)
    × ((waited.proc 0).chan ≡ chan_of 0)
    × ((waited.proc 1).parent ≡ some 0)
    × (both.current 0 ≡ some 0)
    × (both.current 1 ≡ some 1)
    × (is_unused (forked.proc 0).state ≡ false)
    × (is_unused (forked.proc 1).state ≡ false)
    × (forked.counter ≤ 2 ^ 32)
unfolding userinit start_init allocproc first_proc start_proc allocpid proc_pagetable namei
    base_exp.Mm.Kalloc.kalloc base_exp.Mm.Vm.uvmcreate base_exp.Mm.Mem.clear_page
    base_exp.Mm.Vm.mappages base_exp.Mm.Vm.walk base_exp.Mm.Mem.load base_exp.Mm.Mem.fill_page
    base_exp.Mm.Pte.px base_exp.Mm.Mem.store base_exp.Mm.Mem.write base_exp.Mm.Pte.make_pte
    base_exp.Fs.Inode.iget base_exp.Fs.Inode.idup base_exp.Fs.PathName.skipelem
    base_exp.Fs.PathName.skip_slashes base_exp.Mm.Vm.uvmcopy base_exp.Mm.Vm.copy_loop
    base_exp.Proc.Life.copy_trapframe base_exp.Proc.Life.copy_words base_exp.Proc.Life.dup_files
    base_exp.Proc.Life.fork_into base_exp.Proc.Life.find_child base_exp.Proc.Sched.sleep
    base_exp.Proc.Sched.sched kwait kfork scheduler
seen = (refl, refl, refl, refl, refl, refl, refl, omega arith)

first-Reached : Reached first
first-Reached = start booted booted-IsBooted (done_of tt (userinit booted) runs.0)

ran-Reached : Reached ran
ran-Reached =
    next first first-Reached (schedules 0 0 runs.1 (done_of true (scheduler 0 0 first) runs.2))

forked-Reached : Reached forked
forked-Reached = next ran ran-Reached (forks 0 0 runs.3 (done_of none (kfork 0 ran) runs.4))

waited-Reached : Reached waited
waited-Reached =
    next forked forked-Reached (waits 0 0 0 runs.5 (done_of waiting (kwait 0 0 0 forked) runs.7))

both-Reached : Reached both
both-Reached =
    next forked forked-Reached (schedules 1 1 runs.6 (done_of true (scheduler 1 1 forked) runs.8))

no_lost_exit_example : has_exited (waited.proc 1).state ≡ false
no_lost_exit_example = no_lost_exit waited 0 1 waited-Reached seen.0 seen.1 seen.2

one_cpu_example :
    (is_running (both.proc 0).state ≡ true)
    × (is_running (both.proc 1).state ≡ true)
    × (◌≢◌ {A = ℕ} 0 1)
one_cpu_example = one_cpu both 0 1 0 1 both-Reached seen.3 seen.4 refl

own_pid_example : (forked.proc 0).pid ≢ (forked.proc 1).pid
own_pid_example = own_pid forked 0 1 forked-Reached seen.7 seen.5 seen.6 refl

-- Processes 0 and 1 sleep on the channel 9.
abbrev asleep_two : Kernel
asleep_two = record booted {
  proc = λ i. if ltb i 2 then record fresh { state = sleeping; chan = 9; pid = i + 1 } else fresh;
}

wakeup_lem_example :
    Returns
      (λ _ t.
        (i : ℕ)
        → t.proc i ≡ (
            if ltb i nproc
              && is_other (some 0) i
              && is_sleeping (asleep_two.proc i).state
              && (asleep_two.proc i).chan == 9
            then record (asleep_two.proc i) { state = runnable }
            else asleep_two.proc i))
      (wakeup (some 0) 9 asleep_two)
wakeup_lem_example = wakeup_lem (some 0) 9 asleep_two

kkill_lem_example :
    Returns
      (λ ok t.
        (ok ≡ true)
          × ((p : ℕ) × (p < nproc)
              × ((asleep_two.proc p).pid ≡ 2)
              × ((t.proc p).killed ≡ true)
              × (is_sleeping (t.proc p).state ≡ false)
              × ((i : ℕ) → (i == p) ≡ false → t.proc i ≡ asleep_two.proc i))
        ⊎ (ok ≡ false) × (t ≡ asleep_two) × ((p : ℕ) → p < nproc → (asleep_two.proc p).pid ≢ 2))
      (kkill 2 asleep_two)
kkill_lem_example = kkill_lem 2 asleep_two
