-- ===== src/Proc/Life/Creating.antt =====
-- `allocproc` and `freeproc` keep the invariant of the process table (kernel/proc/proc.c).
use base_exp.Base.{
  ℕ, ◌+◌, ◌%◌, ◌^◌, ◌<◌, ◌≡◌, inl, inr, refl, sym, ◌∙◌, ap, true, false, ◌==◌, Option-cases, Option,
  none, some, arith, pure, ◌>>◌,
}
use mathlib.Core.Path.{subst}
use base_exp.Proc.Kernel.{used, Process, Kernel, set_proc}
use base_exp.Proc.Keeps.{
  Triple, Triple-bind, Triple-get, Triple-mm, Triple-change, Triple-if, Triple-pure,
}
use base_exp.Proc.Alloc.{
  nproc, first_proc, is_unused, cleared, free_memory, proc_pagetable, freeproc, allocpid,
  start_proc, allocproc,
}
use base_exp.Proc.Sched.Invariant.{
  IsSound, IsFit, IsFamily, HasOwnPid, is_live, running_live, IsSound-set_proc, IsFit-same, at_proc,
  set_proc_same, IsSound-later, unused_dead,
}
use base_exp.Mm.Kalloc.{kalloc}
use base_exp.Proc.Sched.Waking.{first_proc-some}
use base_exp.Proc.Sched.Steps.{IsTable}

-- Process `me` runs on CPU `k`.
abbrev pub IsOn : (k me : ℕ) → Kernel → Type 0
IsOn k me s = IsTable s × (s.current k ≡ some me)

-- Process `np` is being created for it.
abbrev pub IsMade : (k me np : ℕ) → Kernel → Type 0
IsMade k me np s = IsOn k me s × ((s.proc np).state ≡ used)

-- A process that does not live gets a new entry, in which it does not live either.
pub IsFit-dead :
    (s : Kernel) (nextpid p : ℕ) (b : Process)
    → IsSound s.proc s.current s.initproc nextpid
    → is_live (s.proc p).state ≡ false
    → ((r : ℕ) → IsFamily b r (s.proc r))
    → ((r : ℕ) → (r == p) ≡ false → HasOwnPid nextpid p b r (s.proc r))
    → (is_unused b.state ≡ false → (b.pid < nextpid) × (p < nproc))
    → IsFit s.proc s.current s.initproc nextpid p b
IsFit-dead s nextpid p b inv dead family own low = record {
  self = λ e. absurd (let (u, l, q) = family p e in cc);
  child = λ r _. family r;
  parent = λ q _ e. absurd (let (u, l, x) = inv.family q p e in cc);
  own = own;
  low = low;
  runs = λ k h. absurd (let l = running_live (s.proc p).state (inv.runs k p h) in cc);
  init = λ e. absurd (let l = subst (λ z. is_live (s.proc z).state ≡ true) (sym e) inv.init in cc);
}

pub cleared-IsTable :
    (s : Kernel) (p : ℕ)
    → IsTable s
    → is_live (s.proc p).state ≡ false
    → IsTable (record s { proc = set_proc s.proc p (cleared (s.proc p)) })
cleared-IsTable s p inv dead =
    IsSound-set_proc s.proc p (cleared (s.proc p)) s.current s.initproc s.counter inv (
      IsFit-dead s s.counter p (cleared (s.proc p)) inv dead (λ r e. absurd (cc))
        (λ r _ w h. absurd (cc)) (λ h. absurd (cc)))

pub freeproc-IsOn : (k me np : ℕ) → Triple (IsMade k me np) (freeproc np) (λ _. IsOn k me)
unfolding freeproc
freeproc-IsOn k me np = Triple-bind _ _ _ _ _ (Triple-get (IsMade k me np)) λ s.
    Triple-bind _ _ _ _ _
      (Triple-mm _ (free_memory (s.proc np).trapframe (s.proc np).pagetable (s.proc np).sz)
        (λ t m h. h))
      λ _.
        Triple-change _ _ np cleared
          λ t h. (cleared-IsTable t np h.0.0.0 (ap is_live h.0.1), h.0.0.1)

-- A change of the entry that the invariant is not about.
pub change-IsMade :
    (k me np p : ℕ) (f : Process → Process) (s : Kernel)
    → IsMade k me np s
    → (f (s.proc p)).state ≡ (s.proc p).state
    → (f (s.proc p)).chan ≡ (s.proc p).chan
    → (f (s.proc p)).pid ≡ (s.proc p).pid
    → (f (s.proc p)).parent ≡ (s.proc p).parent
    → IsMade k me np (record s { proc = set_proc s.proc p (f (s.proc p)) })
change-IsMade k me np p f s ((inv, on), new) es ec ei ep = (
  (
    IsSound-set_proc s.proc p (f (s.proc p)) s.current s.initproc s.counter inv
        (IsFit-same s.proc s.current s.initproc s.counter p (f (s.proc p)) inv es ec ei ep),
    on,
  ),
  at_proc s.proc p (f (s.proc p)) (λ j c. j ≡ np → c.state ≡ used)
      (λ e. es ∙ subst (λ z. (s.proc z).state ≡ used) (sym e) new)
      (λ j _ e. subst (λ z. (s.proc z).state ≡ used) (sym e) new) np refl,
)

-- After `allocpid`, for the entry that `allocproc` takes; the counter was `n`.
abbrev IsPicked : (k me p pid : ℕ) → Kernel → Type 0
IsPicked k me p pid s =
    (n : ℕ) × IsSound s.proc s.current s.initproc n
    × (s.counter ≡ n + 1)
    × (pid ≡ n % 2 ^ 32)
    × (s.current k ≡ some me)
    × (is_unused (s.proc p).state ≡ true)
    × (p < nproc)

taken :
    (k me p pid : ℕ) (s : Kernel)
    → IsPicked k me p pid s
    → IsMade k me p
        (record s { proc = set_proc s.proc p (record (s.proc p) { pid = pid; state = used }) })
taken k me p pid s (n, inv, next, wrapped, on, free, low) =
    let b : Process = record (s.proc p) { pid = pid; state = used } in
    let later = IsSound-later s.proc s.current s.initproc n inv in
    (
      (
        subst (λ z. IsSound (set_proc s.proc p b) s.current s.initproc z) (sym next)
            (IsSound-set_proc s.proc p b s.current s.initproc (n + 1) later (
              IsFit-dead s (n + 1) p b later (unused_dead (s.proc p).state free)
                (λ r e. absurd (let (u, l, x) = inv.family p r e in cc))
                (λ r ne w h g e. absurd (let l = inv.low r g in omega (arith, l.0, e, wrapped)))
                (λ h. (omega (arith, wrapped), low)))),
        on,
      ),
      rw (set_proc_same s.proc p b) refl,
    )

allocpid-IsPicked :
    (k me p : ℕ)
    → Triple
        (λ s. IsOn k me s × (is_unused (s.proc p).state ≡ true) × (p < nproc))
        allocpid
        (IsPicked k me p)
unfolding allocpid Triple
allocpid-IsPicked k me p s ((inv, on), free, low) = (s.counter, inv, refl, refl, on, free, low)

-- `allocproc` gives an entry that is being created, or none.
abbrev pub IsAllocated : (k me : ℕ) → Option ℕ → Kernel → Type 0
IsAllocated k me none s = IsOn k me s
IsAllocated k me (some np) s = IsMade k me np s

give_up : (k me p : ℕ) → Triple (IsMade k me p) (freeproc p >> pure none) (IsAllocated k me)
give_up k me p = Triple-bind _ _ _ _ _ (freeproc-IsOn k me p) λ _. Triple-pure _ _ none λ t h. h

start_proc-IsAllocated :
    (k me p : ℕ)
    → Triple
        (λ s. IsOn k me s × (is_unused (s.proc p).state ≡ true) × (p < nproc))
        (start_proc p)
        (IsAllocated k me)
unfolding start_proc
start_proc-IsAllocated k me p = Triple-bind _ _ _ _ _ (allocpid-IsPicked k me p) λ pid.
    Triple-bind _ (λ _. IsMade k me p) _ _ _
      (Triple-change _ _ p (λ q. record q { pid = pid; state = used }) (taken k me p pid))
      λ _. Triple-bind _ _ _ _ _ (Triple-mm (IsMade k me p) kalloc (λ t m h. h)) λ trapframe.
        Triple-bind _ (λ _. IsMade k me p) _ _ _
          (Triple-change _ _ p (λ q. record q { trapframe = trapframe })
            (λ t h.
              change-IsMade k me p p (λ q. record q { trapframe = trapframe }) t h refl refl refl
                refl))
          λ _.
            Triple-if _ _ (trapframe == 0) _ _ (λ _. give_up k me p)
              λ _. Triple-bind _ _ _ _ _ (Triple-get (IsMade k me p)) λ s.
                Triple-bind _ _ _ _ _
                  (Triple-mm _ (proc_pagetable s.trampoline trapframe) (λ t m h. h))
                  λ pagetable.
                    Triple-bind _ (λ _. IsMade k me p) _ _ _
                      (Triple-change _ _ p (λ q. record q { pagetable = pagetable })
                        (λ t h.
                          change-IsMade k me p p (λ q. record q { pagetable = pagetable }) t h.0
                            refl refl refl refl))
                      λ _.
                        Triple-if _ _ (pagetable == 0) _ _ (λ _. give_up k me p)
                          λ _. Triple-pure _ _ (some p) λ t h. h

pub allocproc-IsAllocated : (k me : ℕ) → Triple (IsOn k me) allocproc (IsAllocated k me)
unfolding allocproc Triple
allocproc-IsAllocated k me s h =
    elim (Option-cases (first_proc (λ q. is_unused q.state) s.proc 0 nproc)) [
      | inl e ↦ rw (e, allocproc) h
      | inr (p, e) ↦
          let (free, within) = first_proc-some (λ q. is_unused q.state) s.proc 0 nproc p e in
          rw (e, allocproc) (start_proc-IsAllocated k me p s (h, free, ground arith))
    ]
