-- ===== src/Proc/Sched/Steps.antt =====
-- Scheduling, sleeping and waking keep the invariant of the process table (kernel/proc/proc.c).
use base_exp.Base.{
  ℕ, ◌≡◌, inl, inr, refl, sym, ◌∙◌, true, false, ◌==◌, Bool-cases, Option-cases, Option, none, some,
  arith,
}
use mathlib.Core.Path.{subst}
use base_exp.Proc.Kernel.{
  sleeping, runnable, running, Process, Kernel, chan_of, set_proc, set_current,
}
use base_exp.Proc.Keeps.{Leaves}
use base_exp.Proc.Alloc.{nproc, first_proc}
use base_exp.Proc.Sched.{
  is_sleeping, is_runnable, is_running, scheduler, sched, yield, sleep, wakeup, kkill, setkilled,
}
use base_exp.Proc.Sched.Invariant.{
  IsSound, IsFit, has_exited, is_live, IsFit-same, IsFit-live, IsSound-set_proc, IsSound-current,
  set_proc_same, running_live, runnable_live, sleeping_live, sleeping_running,
}
use base_exp.Proc.Sched.Waking.{IsSound-wakeup_from}

abbrev pub IsTable : Kernel → Type 0
IsTable s = IsSound s.proc s.current s.initproc s.counter

set_current_fewer :
    (current : ℕ → Option ℕ) (k j p : ℕ)
    → set_current current k none j ≡ some p
    → (current j ≡ some p) × ((j == k) ≡ false)
set_current_fewer current k j p h = elim (Bool-cases (j == k)) [
  | inl e ↦ absurd (let f : none ≡ some p = rw e at h in cc)
  | inr ne ↦ (rw ne at h, ne)
]

-- Process `p` leaves CPU `k` with the entry `b`, which is live, or has exited without children.
module _ (s : Kernel) (k p : ℕ) (inv : IsTable s) (on : s.current k ≡ some p) where
  abbrev pub off : ℕ → Option ℕ
  off = set_current s.current k none

  pub off-IsSound : IsSound s.proc off s.initproc s.counter
  off-IsSound =
      IsSound-current s.proc s.current off s.initproc s.counter inv
        (λ j q h. (set_current_fewer s.current k j q h).0)

  pub off_elsewhere : (j : ℕ) → off j ≡ some p → ⊥
  off_elsewhere j h =
      let (was, apart) = set_current_fewer s.current k j p h in
      let e = inv.once j k p was on in absurd (ground arith)

  pub leave-IsTable :
      (b : Process)
      → IsFit s.proc off s.initproc s.counter p b
      → (is_running b.state ≡ false)
      → Leaves (λ _. IsTable) (sched k p (record s { proc = set_proc s.proc p b }))
  unfolding sched
  leave-IsTable b fit stopped =
      let one = IsSound-set_proc s.proc p b off s.initproc s.counter off-IsSound fit in
      let at = set_proc_same s.proc p b in
      let quiet : is_running (set_proc s.proc p b p).state ≡ false = rw at stopped in
      rw quiet (
        IsSound-set_proc (set_proc s.proc p b) p
          (record (set_proc s.proc p b p) { fpu_active = false }) off s.initproc s.counter one
          (IsFit-same (set_proc s.proc p b) off s.initproc s.counter p
            (record (set_proc s.proc p b p) { fpu_active = false }) one refl refl refl refl))

  alive : is_live (s.proc p).state ≡ true
  alive = running_live (s.proc p).state (inv.runs k p on)

  pub yield-IsTable : Leaves (λ _. IsTable) (yield k p s)
  unfolding yield
  yield-IsTable =
      leave-IsTable (record (s.proc p) { state = runnable })
        (IsFit-live s.proc off s.initproc s.counter p (record (s.proc p) { state = runnable })
          off-IsSound alive refl refl refl (λ h. absurd (cc)) (λ j h. absurd (off_elsewhere j h)))
        refl

  -- It may sleep on its own address only while none of its children has exited.
  pub sleep-IsTable :
      (chan : ℕ)
      → (chan ≡ chan_of p
          → (q : ℕ) → (s.proc q).parent ≡ some p
          → has_exited (s.proc q).state ≡ false)
      → Leaves (λ _. IsTable) (sleep k p chan s)
  unfolding sleep
  sleep-IsTable chan quiet =
      leave-IsTable (record (s.proc p) { chan = chan; state = sleeping })
        (IsFit-live s.proc off s.initproc s.counter p
          (record (s.proc p) { chan = chan; state = sleeping }) off-IsSound alive refl refl refl
          (λ _. quiet) (λ j h. absurd (off_elsewhere j h)))
        refl

pub scheduler-IsTable :
    (k p : ℕ) (s : Kernel)
    → IsTable s
    → s.current k ≡ none
    → Leaves (λ _. IsTable) (scheduler k p s)
unfolding scheduler
scheduler-IsTable k p s inv idle = elim (Bool-cases (is_runnable (s.proc p).state)) [
  | inr no_run ↦ rw no_run inv
  | inl ready ↦
      let (was, stopped) = runnable_live (s.proc p).state ready in
      let nowhere : (j : ℕ) → s.current j ≡ some p → ⊥ =
        λ j h. let r = inv.runs j p h in absurd (cc) in
      let b : Process = record (s.proc p) { state = running; chan = 0 } in
      let one = IsSound-set_proc s.proc p b s.current s.initproc s.counter inv (
        IsFit-live s.proc s.current s.initproc s.counter p b inv was refl refl refl
          (λ h. absurd (cc)) (λ j h. refl)) in
      rw ready record {
        family = one.family;
        pids = one.pids;
        low = one.low;
        runs = λ j q h. elim (Bool-cases (j == k)) [
          | inl e ↦
              let f : some p ≡ some q = rw e at h in
              let same : p ≡ q = ground (arith, f) in
              subst (λ z. is_running (set_proc s.proc p b z).state ≡ true) same
                (rw (set_proc_same s.proc p b) refl)
          | inr ne ↦ one.runs j q (rw ne at h)
        ];
        once = λ i j q g h. elim (Bool-cases (i == k)) [
          | inl ei ↦ elim (Bool-cases (j == k)) [
            | inl ej ↦ ground arith
            | inr nj ↦
                let f : some p ≡ some q = rw ei at g in
                let e : s.current j ≡ some q = rw nj at h in absurd (nowhere j (e ∙ sym f))
          ]
          | inr ni ↦ elim (Bool-cases (j == k)) [
            | inl ej ↦
                let f : some p ≡ some q = rw ej at h in
                let e : s.current i ≡ some q = rw ni at g in absurd (nowhere i (e ∙ sym f))
            | inr nj ↦ inv.once i j q (rw ni at g) (rw nj at h)
          ]
        ];
        init = one.init;
      }
]

pub wakeup-IsTable :
    (me : Option ℕ) (chan : ℕ) (s : Kernel) → IsTable s → Leaves (λ _. IsTable) (wakeup me chan s)
unfolding wakeup
wakeup-IsTable me chan s inv =
    IsSound-wakeup_from me chan s.proc s.current s.initproc s.counter 0 nproc inv

pub setkilled-IsTable : (p : ℕ) (s : Kernel) → IsTable s → Leaves (λ _. IsTable) (setkilled p s)
unfolding setkilled
setkilled-IsTable p s inv =
    IsSound-set_proc s.proc p (record (s.proc p) { killed = true }) s.current s.initproc s.counter
      inv
      (IsFit-same s.proc s.current s.initproc s.counter p (record (s.proc p) { killed = true }) inv
        refl refl refl refl)

pub kkill-IsTable : (pid : ℕ) (s : Kernel) → IsTable s → Leaves (λ _. IsTable) (kkill pid s)
unfolding kkill
kkill-IsTable pid s inv = elim (Option-cases (first_proc (λ q. q.pid == pid) s.proc 0 nproc)) [
  | inl e ↦ rw (e, kkill) inv
  | inr (p, e) ↦ elim (Bool-cases (is_sleeping (s.proc p).state)) [
    | inl asleep ↦
        let b : Process = record (s.proc p) { killed = true; state = runnable } in
        rw (e, asleep, kkill)
          (IsSound-set_proc s.proc p b s.current s.initproc s.counter inv (
            IsFit-live s.proc s.current s.initproc s.counter p b inv
              (sleeping_live (s.proc p).state asleep) refl refl refl (λ h. absurd (cc))
              (λ k h. absurd (
                let r = inv.runs k p h in let n = sleeping_running (s.proc p).state asleep in cc))))
    | inr awake ↦
        let b : Process = record (s.proc p) { killed = true } in
        rw (e, awake, kkill)
          (IsSound-set_proc s.proc p b s.current s.initproc s.counter inv
            (IsFit-same s.proc s.current s.initproc s.counter p b inv refl refl refl refl))
  ]
]
