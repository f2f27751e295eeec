-- ===== src/Proc/Life/Wait.antt =====
-- `kwait` (kernel/proc/proc.c): it keeps the invariant of the process table.
use base_exp.Base.{
  ℕ, zero, suc, ◌+◌, ◌≡◌, inl, inr, refl, Bool, true, false, not, ◌||◌, ◌==◌, Bool-cases,
  Option-cases, none, some, arith, pure,
}
use mathlib.Core.Path.{subst}
use base_exp.Mm.Copy.{copyout}
use base_exp.Proc.Kernel.{
  ProcState, unused, used, sleeping, runnable, running, zombie, Process, Kernel, chan_of,
}
use base_exp.Proc.Keeps.{
  Leaves-bind, Triple, Triple-bind, Triple-get, Triple-mm, Triple-change, Triple-if, Triple-pure,
  Triple-weaken,
}
use base_exp.Proc.Alloc.{nproc, cleared, free_memory, freeproc}
use base_exp.Proc.Sched.{sleep}
use base_exp.Proc.Sched.Invariant.{is_live, has_exited}
use base_exp.Proc.Sched.Waking.{in_table}
use base_exp.Proc.Sched.Steps.{IsTable, sleep-IsTable}
use base_exp.Proc.Life.{
  is_child, is_zombie, find_child, int_bytes, reaped, refused, waiting, reap, kwait,
}
use base_exp.Proc.Life.Creating.{IsOn, cleared-IsTable}

pub find_child-some :
    (me : ℕ) (proc : ℕ → Process) (have : Bool) (pp n i : ℕ)
    → (find_child me proc have pp n).0 ≡ some i
    → (is_child me (proc i) ≡ true) × (is_zombie (proc i).state ≡ true)
unfolding find_child
find_child-some me proc have pp zero i h = absurd (cc)
find_child-some me proc have pp (suc n) i h = elim (Bool-cases (is_child me (proc pp))) [
  | inr ne ↦ find_child-some me proc (have || false) (pp + 1) n i (rw ne at h)
  | inl e ↦ elim (Bool-cases (is_zombie (proc pp).state)) [
    | inr nz ↦ find_child-some me proc (have || true) (pp + 1) n i (rw (e, nz) at h)
    | inl z ↦
        let f : some pp ≡ some i = rw (e, z) at h in
        let same : pp ≡ i = ground (arith, f) in
        subst (λ j. (is_child me (proc j) ≡ true) × (is_zombie (proc j).state ≡ true)) same (e, z)
  ]
]

pub find_child-none :
    (me : ℕ) (proc : ℕ → Process) (have : Bool) (pp n i : ℕ)
    → (find_child me proc have pp n).0 ≡ none
    → in_table pp n i ≡ true
    → is_child me (proc i) ≡ true
    → is_zombie (proc i).state ≡ false
unfolding find_child
find_child-none me proc have pp zero i h within child = absurd (ground arith)
find_child-none me proc have pp (suc n) i h within child =
    elim (Bool-cases (is_child me (proc pp))) [
      | inr ne ↦ elim (Bool-cases (i == pp)) [
        | inl e ↦
            let same : i ≡ pp = ground arith in
            absurd (let other = subst (λ j. is_child me (proc j) ≡ true) same child in cc)
        | inr apart ↦
            find_child-none me proc (have || false) (pp + 1) n i (rw ne at h) (ground arith) child
      ]
      | inl e ↦ elim (Bool-cases (is_zombie (proc pp).state)) [
        | inl z ↦ absurd (let f : some pp ≡ none = rw (e, z) at h in cc)
        | inr nz ↦ elim (Bool-cases (i == pp)) [
          | inl at ↦
              let same : pp ≡ i = ground arith in
              subst (λ j. is_zombie (proc j).state ≡ false) same nz
          | inr apart ↦
              find_child-none me proc (have || true) (pp + 1) n i (rw (e, nz) at h) (ground arith)
                child
        ]
      ]
    ]

zombie_dead : (s : ProcState) → is_zombie s ≡ true → is_live s ≡ false
zombie_dead unused h = refl
zombie_dead used h = refl
zombie_dead sleeping h = absurd (cc)
zombie_dead runnable h = absurd (cc)
zombie_dead running h = absurd (cc)
zombie_dead zombie h = refl

-- Entry `pp` may be freed.
abbrev IsOver : ℕ → Kernel → Type 0
IsOver pp s = IsTable s × (is_live (s.proc pp).state ≡ false)

freeproc-IsTable : (pp : ℕ) → Triple (IsOver pp) (freeproc pp) (λ _. IsTable)
unfolding freeproc
freeproc-IsTable pp = Triple-bind _ _ _ _ _ (Triple-get (IsOver pp)) λ s.
    Triple-bind _ _ _ _ _
      (Triple-mm _ (free_memory (s.proc pp).trapframe (s.proc pp).pagetable (s.proc pp).sz)
        (λ t m h. h))
      λ _. Triple-change _ _ pp cleared λ t h. cleared-IsTable t pp h.0.0 h.0.1

reap-IsTable : (me addr pp : ℕ) → Triple (IsOver pp) (reap me addr pp) (λ _. IsTable)
unfolding reap
reap-IsTable me addr pp = Triple-bind _ _ _ _ _ (Triple-get (IsOver pp)) λ s.
    Triple-bind _ (λ _. IsOver pp) _ _ _
      (Triple-if _ _ (addr == 0) _ _ (λ _. Triple-pure _ _ true λ t h. h.0)
        λ _.
          Triple-weaken _ _ _ _
            (Triple-mm (IsOver pp)
              (copyout (s.proc me).pagetable addr (int_bytes (s.proc pp).xstate)) (λ t m h. h))
            (λ t h. h.0))
      λ copied.
        Triple-if _ _ (not copied) _ _ (λ _. Triple-pure _ _ refused λ t h. h.0)
          λ _.
            Triple-bind _ _ _ _ _ (freeproc-IsTable pp)
              λ _. Triple-pure _ _ (reaped (s.proc pp).pid) λ t h. h

-- The processes past the end of the table have no parent.
no_zombie :
    (me : ℕ) (s : Kernel)
    → IsTable s
    → (find_child me s.proc false 0 nproc).0 ≡ none
    → (q : ℕ) → (s.proc q).parent ≡ some me
    → has_exited (s.proc q).state ≡ false
no_zombie me s inv h q e =
    let (taken, _, _) = inv.family q me e in
    find_child-none me s.proc false 0 nproc q h (let low = (inv.low q taken).1 in ground arith)
      (rw e (let same : (me == me) ≡ true = ground arith in same))

pub kwait-IsTable : (k me addr : ℕ) → Triple (IsOn k me) (kwait k me addr) (λ _. IsTable)
unfolding kwait Triple
kwait-IsTable k me addr s (inv, on) = elim (Option-cases (find_child me s.proc false 0 nproc).0) [
  | inr (pp, e) ↦
      let (_, z) = find_child-some me s.proc false 0 nproc pp e in
      rw (e, kwait) (reap-IsTable me addr pp s (inv, zombie_dead (s.proc pp).state z))
  | inl e ↦ elim (Bool-cases (not (find_child me s.proc false 0 nproc).1 || (s.proc me).killed)) [
    | inl stop ↦ rw (e, stop, kwait) inv
    | inr wait ↦
        rw (e, wait, kwait)
          (Leaves-bind (λ _. IsTable) (λ _. IsTable) (sleep k me (chan_of me) s) (λ _. pure waiting)
            (sleep-IsTable s k me inv on (chan_of me) (λ _. no_zombie me s inv e)) (λ _ t h. h))
  ]
]
