-- ===== src/Proc/Sched/Invariant.antt =====
-- The invariant of the process table (kernel/proc/proc.c), and what a change of one entry must
-- satisfy to keep it.
use base_exp.Base.{
  ℕ, ◌+◌, ◌^◌, ◌<◌, ◌≤◌, ◌≡◌, ◌≢◌, inl, inr, refl, sym, ◌∙◌, Bool, true, false, ◌&&◌, ◌==◌,
  Bool-cases, Option, some, arith,
}
use mathlib.Core.Path.{subst}
use base_exp.Proc.Kernel.{
  ProcState, unused, used, sleeping, runnable, running, zombie, Process, chan_of, set_proc,
}
use base_exp.Proc.Alloc.{nproc, is_unused}
use base_exp.Proc.Sched.{is_sleeping, is_runnable, is_running, woken}

-- A process that is past its creation and has not exited.
abbrev pub is_live : ProcState → Bool
is_live s = elim s [ unused ↦ false | used ↦ false | zombie ↦ false | _ ↦ true ]

abbrev pub has_exited : ProcState → Bool
has_exited s = elim s [ zombie ↦ true | _ ↦ false ]

-- If `p` is the parent of `cq`: both are in use, the parent lives, and it does not sleep in `kwait`
-- while the child is a zombie.
abbrev pub IsFamily : Process → ℕ → Process → Type 0
IsFamily cq p cp =
    cq.parent ≡ some p
    → (is_unused cq.state ≡ false)
      × (is_live cp.state ≡ true)
      × (has_exited cq.state ≡ true → is_sleeping cp.state ≡ true → cp.chan ≢ chan_of p)

-- Until the counter has gone through all `int`s, no two entries in use have the same pid.
abbrev pub HasOwnPid : ℕ → ℕ → Process → ℕ → Process → Type 0
HasOwnPid nextpid q cq p cp =
    nextpid ≤ 2 ^ 32
    → is_unused cq.state ≡ false
    → is_unused cp.state ≡ false
    → cq.pid ≡ cp.pid
    → q ≡ p

pub record IsSound (proc : ℕ → Process) (current : ℕ → Option ℕ) (initproc nextpid : ℕ)
    : Type 0 where
  pub family : (q p : ℕ) → IsFamily (proc q) p (proc p)
  pub pids : (q p : ℕ) → HasOwnPid nextpid q (proc q) p (proc p)
  pub low : (p : ℕ) → is_unused (proc p).state ≡ false → ((proc p).pid < nextpid) × (p < nproc)
  pub runs : (k p : ℕ) → current k ≡ some p → is_running (proc p).state ≡ true
  pub once : (j k p : ℕ) → current j ≡ some p → current k ≡ some p → j ≡ k
  pub init : is_live (proc initproc).state ≡ true

-- What the new entry `b` of process `p` must satisfy.
pub record IsFit (proc : ℕ → Process) (current : ℕ → Option ℕ) (initproc nextpid p : ℕ)
    (b : Process) : Type 0 where
  pub self : IsFamily b p b
  pub child : (r : ℕ) → (r == p) ≡ false → IsFamily b r (proc r)
  pub parent : (q : ℕ) → (q == p) ≡ false → IsFamily (proc q) p b
  pub own : (r : ℕ) → (r == p) ≡ false → HasOwnPid nextpid p b r (proc r)
  pub low : is_unused b.state ≡ false → (b.pid < nextpid) × (p < nproc)
  pub runs : (k : ℕ) → current k ≡ some p → is_running b.state ≡ true
  pub init : p ≡ initproc → is_live b.state ≡ true

pub set_proc_same : (proc : ℕ → Process) (p : ℕ) (b : Process) → set_proc proc p b p ≡ b
set_proc_same proc p b = ground arith

module _ (proc : ℕ → Process) (p : ℕ) (b : Process) where
  pub at_proc :
      (P : ℕ → Process → Type 0)
      → P p b
      → ((j : ℕ) → (j == p) ≡ false → P j (proc j))
      → (j : ℕ) → P j (set_proc proc p b j)
  at_proc P here there j = elim (Bool-cases (j == p)) [
    | inl e ↦
        let same : p ≡ j = ground arith in
        subst (λ k. P k (set_proc proc p b k)) same
          (subst (P p) (sym (set_proc_same proc p b)) here)
    | inr ne ↦ subst (P j) (sym (rw ne refl)) (there j ne)
  ]

  pub at_pair :
      (P : ℕ → Process → ℕ → Process → Type 0)
      → P p b p b
      → ((r : ℕ) → (r == p) ≡ false → P p b r (proc r))
      → ((q : ℕ) → (q == p) ≡ false → P q (proc q) p b)
      → ((q r : ℕ) → P q (proc q) r (proc r))
      → (q r : ℕ) → P q (set_proc proc p b q) r (set_proc proc p b r)
  at_pair P self left right both q r =
      at_proc (λ j c. P j c r (set_proc proc p b r)) (at_proc (λ k d. P p b k d) self left r)
        (λ j ne. at_proc (λ k d. P j (proc j) k d) (right j ne) (λ k _. both j k) r) q

  pub IsSound-set_proc :
      (current : ℕ → Option ℕ) (initproc nextpid : ℕ)
      → IsSound proc current initproc nextpid
      → IsFit proc current initproc nextpid p b
      → IsSound (set_proc proc p b) current initproc nextpid
  IsSound-set_proc current initproc nextpid inv fit = record {
    family = at_pair (λ q cq r cr. IsFamily cq r cr) fit.self fit.child fit.parent inv.family;
    pids =
        at_pair (HasOwnPid nextpid) (λ _ _ _ _. refl) fit.own
          (λ q ne w hq hp e. sym (fit.own q ne w hp hq (sym e))) inv.pids;
    low =
        at_proc (λ j c. is_unused c.state ≡ false → (c.pid < nextpid) × (j < nproc)) fit.low
          (λ j _. inv.low j);
    runs = λ k.
        at_proc (λ j c. current k ≡ some j → is_running c.state ≡ true) (fit.runs k)
          (λ j _. inv.runs k j);
    once = inv.once;
    init =
        at_proc (λ j c. j ≡ initproc → is_live c.state ≡ true) fit.init
          (λ j _ e. subst (λ z. is_live (proc z).state ≡ true) (sym e) inv.init) initproc refl;
  }

-- A change of none of the fields that the invariant is about.
pub IsFit-same :
    (proc : ℕ → Process) (current : ℕ → Option ℕ) (initproc nextpid p : ℕ) (b : Process)
    → IsSound proc current initproc nextpid
    → b.state ≡ (proc p).state
    → b.chan ≡ (proc p).chan
    → b.pid ≡ (proc p).pid
    → b.parent ≡ (proc p).parent
    → IsFit proc current initproc nextpid p b
IsFit-same proc current initproc nextpid p b inv es ec ei ep = record {
  self = rw (es, ec, ep) (inv.family p p);
  child = λ r _. rw (es, ep) (inv.family p r);
  parent = λ q _. rw (es, ec) (inv.family q p);
  own = λ r _. rw (es, ei) (inv.pids p r);
  low = rw (es, ei) (inv.low p);
  runs = λ k h. rw es (inv.runs k p h);
  init = λ e. rw es (subst (λ z. is_live (proc z).state ≡ true) (sym e) inv.init);
}

pub live_unused : (s : ProcState) → is_live s ≡ true → is_unused s ≡ false
live_unused unused h = absurd (cc)
live_unused used h = absurd (cc)
live_unused sleeping h = refl
live_unused runnable h = refl
live_unused running h = refl
live_unused zombie h = absurd (cc)

pub live_exited : (s : ProcState) → is_live s ≡ true → has_exited s ≡ false
live_exited unused h = absurd (cc)
live_exited used h = absurd (cc)
live_exited sleeping h = refl
live_exited runnable h = refl
live_exited running h = refl
live_exited zombie h = absurd (cc)

pub sleeping_live : (s : ProcState) → is_sleeping s ≡ true → is_live s ≡ true
sleeping_live unused h = absurd (cc)
sleeping_live used h = absurd (cc)
sleeping_live sleeping h = refl
sleeping_live runnable h = absurd (cc)
sleeping_live running h = absurd (cc)
sleeping_live zombie h = absurd (cc)

pub running_live : (s : ProcState) → is_running s ≡ true → is_live s ≡ true
running_live unused h = absurd (cc)
running_live used h = absurd (cc)
running_live sleeping h = absurd (cc)
running_live runnable h = absurd (cc)
running_live running h = refl
running_live zombie h = absurd (cc)

pub sleeping_running : (s : ProcState) → is_sleeping s ≡ true → is_running s ≡ false
sleeping_running unused h = absurd (cc)
sleeping_running used h = absurd (cc)
sleeping_running sleeping h = refl
sleeping_running runnable h = absurd (cc)
sleeping_running running h = absurd (cc)
sleeping_running zombie h = absurd (cc)

pub runnable_live :
    (s : ProcState) → is_runnable s ≡ true → (is_live s ≡ true) × (is_running s ≡ false)
runnable_live unused h = absurd (cc)
runnable_live used h = absurd (cc)
runnable_live sleeping h = absurd (cc)
runnable_live runnable h = (refl, refl)
runnable_live running h = absurd (cc)
runnable_live zombie h = absurd (cc)

-- A live process stays live, with its pid and parent. If it falls asleep in `kwait`, none of its
-- children may have exited.
pub IsFit-live :
    (proc : ℕ → Process) (current : ℕ → Option ℕ) (initproc nextpid p : ℕ) (b : Process)
    → IsSound proc current initproc nextpid
    → is_live (proc p).state ≡ true
    → is_live b.state ≡ true
    → b.pid ≡ (proc p).pid
    → b.parent ≡ (proc p).parent
    → (is_sleeping b.state ≡ true
        → b.chan ≡ chan_of p
        → (q : ℕ) → (proc q).parent ≡ some p
        → has_exited (proc q).state ≡ false)
    → ((k : ℕ) → current k ≡ some p → is_running b.state ≡ true)
    → IsFit proc current initproc nextpid p b
IsFit-live proc current initproc nextpid p b inv was is ei ep quiet runs =
    let u = live_unused b.state is in
    let x = live_exited b.state is in
    let old = live_unused (proc p).state was in
    record {
      self = λ _. (u, is, λ h. absurd (cc));
      child = λ r _ e. (u, (inv.family p r (sym ep ∙ e)).1, λ h. absurd (cc));
      parent =
          λ q _ e. ((inv.family q p e).0, is, λ h g at. absurd (let no = quiet g at q e in cc));
      own = λ r _ w h g e. inv.pids p r w old g (sym ei ∙ e);
      low = λ _. rw ei (inv.low p old);
      runs = runs;
      init = λ _. is;
    }

-- `wakeup` of one process.
pub IsFit-woken :
    (proc : ℕ → Process) (current : ℕ → Option ℕ) (initproc nextpid chan p : ℕ)
    → IsSound proc current initproc nextpid
    → IsFit proc current initproc nextpid p (woken chan (proc p))
IsFit-woken proc current initproc nextpid chan p inv =
    elim (Bool-cases (is_sleeping (proc p).state && (proc p).chan == chan)) [
      | inr ne ↦ rw ne (IsFit-same proc current initproc nextpid p (proc p) inv refl refl refl refl)
      | inl e ↦
          let asleep : is_sleeping (proc p).state ≡ true = ground arith in
          rw e (
            IsFit-live proc current initproc nextpid p (record (proc p) { state = runnable }) inv
              (sleeping_live (proc p).state asleep) refl refl refl (λ h. absurd (cc))
              (λ k h.
                absurd
                  (let r = inv.runs k p h in let n = sleeping_running (proc p).state asleep in cc)))
    ]

-- A CPU gives its process up.
pub IsSound-current :
    (proc : ℕ → Process) (current current' : ℕ → Option ℕ) (initproc nextpid : ℕ)
    → IsSound proc current initproc nextpid
    → ((k p : ℕ) → current' k ≡ some p → current k ≡ some p)
    → IsSound proc current' initproc nextpid
IsSound-current proc current current' initproc nextpid inv fewer = record {
  family = inv.family;
  pids = inv.pids;
  low = inv.low;
  runs = λ k p h. inv.runs k p (fewer k p h);
  once = λ j k p g h. inv.once j k p (fewer j p g) (fewer k p h);
  init = inv.init;
}

pub unused_dead : (s : ProcState) → is_unused s ≡ true → is_live s ≡ false
unused_dead unused h = refl
unused_dead used h = absurd (cc)
unused_dead sleeping h = absurd (cc)
unused_dead runnable h = absurd (cc)
unused_dead running h = absurd (cc)
unused_dead zombie h = absurd (cc)

pub IsSound-later :
    (proc : ℕ → Process) (current : ℕ → Option ℕ) (initproc nextpid : ℕ)
    → IsSound proc current initproc nextpid
    → IsSound proc current initproc (nextpid + 1)
IsSound-later proc current initproc nextpid inv = record {
  family = inv.family;
  pids = λ q p w. inv.pids q p (omega arith);
  low = λ p h. let (a, b) = inv.low p h in (omega arith, b);
  runs = inv.runs;
  once = inv.once;
  init = inv.init;
}
