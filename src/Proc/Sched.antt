-- ===== src/Proc/Sched.antt =====
-- Scheduling, sleeping and waking (kernel/proc/proc.c). A CPU changes a process under its `p->lock`.
-- From `sched` the lock is held until `scheduler` has cleared `c->proc`, so that giving up the CPU
-- is part of the step that changed the state; `scheduler` holds it to where the process goes on.
pub mod Invariant
pub mod Steps
pub mod Waking
use base_exp.Base.{
  ℕ, zero, suc, ◌+◌, Bool, true, false, not, ◌&&◌, ◌==◌, if◌then◌else◌, Option, none, some, done,
  panic, asleep, pure, fail, get, ◌>>=◌, ◌>>◌,
}
use base_exp.Proc.Kernel.{
  ProcState, sleeping, runnable, running, Process, Kernel, Kern, set_proc, set_current, change,
}
use base_exp.Proc.Alloc.{nproc, first_proc}

abbrev pub is_sleeping : ProcState → Bool
is_sleeping s = elim s [ sleeping ↦ true | _ ↦ false ]

abbrev pub is_runnable : ProcState → Bool
is_runnable s = elim s [ runnable ↦ true | _ ↦ false ]

abbrev pub is_running : ProcState → Bool
is_running s = elim s [ running ↦ true | _ ↦ false ]

-- The body of the loop of `scheduler` on CPU `k`, up to the switch; a process that goes on in
-- `sleep` then clears its channel.
unfoldable pub scheduler : (k p : ℕ) → Kern Bool
scheduler k p s =
    if is_runnable (s.proc p).state
    then done true (record s {
      proc = set_proc s.proc p (record (s.proc p) { state = running; chan = 0 });
      current = set_current s.current k (some p);
    })
    else done false s

-- `sched` of process `p` on CPU `k`, and `c->proc = 0` in `scheduler`.
unfoldable pub sched : (k p : ℕ) → Kern (Unit {0})
sched k p s =
    if is_running (s.proc p).state
    then panic "sched RUNNING"
    else done tt (record s {
      proc = set_proc s.proc p (record (s.proc p) { fpu_active = false });
      current = set_current s.current k none;
    })

unfoldable pub yield : (k p : ℕ) → Kern (Unit {0})
unfolding sched
yield k p = do change p λ q. record q { state = runnable }; sched k p

-- `sleep(chan, lk)` to the switch.
unfoldable pub sleep : (k p chan : ℕ) → Kern (Unit {0})
unfolding sched
sleep k p chan = do change p λ q. record q { chan = chan; state = sleeping }; sched k p

abbrev pub woken : ℕ → Process → Process
woken chan q = if is_sleeping q.state && q.chan == chan then record q { state = runnable } else q

abbrev pub is_other : Option ℕ → ℕ → Bool
is_other none p = true
is_other (some me) p = not (p == me)

-- The loop of `wakeup` over the `n` processes from `p` on; `me` is `myproc()`.
unfoldable pub wakeup_from : Option ℕ → (chan : ℕ) → (ℕ → Process) → (p n : ℕ) → ℕ → Process
wakeup_from me chan proc p zero = proc
wakeup_from me chan proc p (suc n) =
    wakeup_from me chan (if is_other me p then set_proc proc p (woken chan (proc p)) else proc)
      (p + 1) n

unfoldable pub wakeup : Option ℕ → ℕ → Kern (Unit {0})
unfolding wakeup_from
wakeup me chan s = done tt (record s { proc = wakeup_from me chan s.proc 0 nproc })

-- `true` is 0.
unfoldable pub kkill : ℕ → Kern Bool
kkill pid s = elim (first_proc (λ q. q.pid == pid) s.proc 0 nproc) [
  | none ↦ done false s
  | some p ↦ done true (record s {
    proc = set_proc s.proc p (record (s.proc p) {
      killed = true;
      state = if is_sleeping (s.proc p).state then runnable else (s.proc p).state;
    });
  })
]

unfoldable pub setkilled : ℕ → Kern (Unit {0})
setkilled p = change p λ q. record q { killed = true }
