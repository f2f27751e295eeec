-- ===== src/Proc/Life/Boot.antt =====
-- `userinit` makes the first process (kernel/proc/proc.c).
use base_exp.Base.{
  ℕ, ◌<◌, ◌≡◌, inl, inr, refl, sym, ◌∙◌, true, false, ◌==◌, Bool-cases, Option-cases, Option, none,
  some, [], ◌∷◌, arith, done, pure, fail, ◌>>◌,
}
use mathlib.Core.Path.{subst}
use base_exp.Mm.Kalloc.{kalloc}
use base_exp.Fs.PathName.{slash}
use base_exp.Fs.Inode.Lookup.{namei}
use base_exp.Proc.Kernel.{used, runnable, Process, Kernel, set_proc}
use base_exp.Proc.Keeps.{
  Triple, Triple-any, Triple-bind, Triple-get, Triple-mm, Triple-ino, Triple-fail, Triple-change,
  Triple-if, Triple-pure,
}
use base_exp.Proc.Alloc.{
  nproc, first_proc, is_unused, proc_pagetable, freeproc, allocpid, start_proc, allocproc,
  start_init, userinit,
}
use base_exp.Proc.Sched.Invariant.{at_proc, set_proc_same}
use base_exp.Proc.Sched.Waking.{first_proc-some}
use base_exp.Proc.Sched.Steps.{IsTable}

-- `procinit` has run: each entry is free and no CPU has a process.
abbrev pub IsBooted : Kernel → Type 0
IsBooted s =
    ((q : ℕ) → (is_unused (s.proc q).state ≡ true) × ((s.proc q).parent ≡ none))
    × ((k : ℕ) → s.current k ≡ none)

-- Only entry `p` may be in use.
abbrev IsLone : (p : ℕ) → Kernel → Type 0
IsLone p s =
    ((q : ℕ) → (q == p) ≡ false → is_unused (s.proc q).state ≡ true)
    × ((q : ℕ) → (s.proc q).parent ≡ none)
    × ((k : ℕ) → s.current k ≡ none)
    × ((s.proc p).pid < s.counter)
    × (p < nproc)

change-IsLone :
    (p : ℕ) (f : Process → Process) (s : Kernel)
    → IsLone p s
    → (f (s.proc p)).parent ≡ none
    → (f (s.proc p)).pid < s.counter
    → IsLone p (record s { proc = set_proc s.proc p (f (s.proc p)) })
change-IsLone p f s (others, orphans, idle, next, low) parent pid = (
  λ q ne. rw ne (others q ne),
  at_proc s.proc p (f (s.proc p)) (λ _ c. c.parent ≡ none) parent (λ q _. orphans q),
  idle,
  subst (λ (q : Process). q.pid < s.counter) (sym (set_proc_same s.proc p (f (s.proc p)))) pid,
  low,
)

-- What `allocproc` gives; without an entry, `userinit` does not return.
abbrev IsStarted : Option ℕ → Kernel → Type 0
IsStarted none s = Unit {0}
IsStarted (some p) s = IsLone p s

give_up : (p : ℕ) → Triple (IsLone p) (freeproc p >> pure none) IsStarted
give_up p = Triple-bind _ _ _ _ _ (Triple-any _ (freeproc p)) λ _. Triple-pure _ _ none λ t h. h

-- After `allocpid`.
abbrev IsNumbered : (p pid : ℕ) → Kernel → Type 0
IsNumbered p pid s = IsBooted s × (pid < s.counter) × (p < nproc)

allocpid-IsNumbered : (p : ℕ) → Triple (λ s. IsBooted s × (p < nproc)) allocpid (IsNumbered p)
unfolding allocpid Triple
allocpid-IsNumbered p s (booted, low) = (booted, omega arith, low)

numbered :
    (p pid : ℕ) (s : Kernel)
    → IsNumbered p pid s
    → IsLone p
        (record s { proc = set_proc s.proc p (record (s.proc p) { pid = pid; state = used }) })
numbered p pid s ((free, idle), next, low) =
    let b : Process = record (s.proc p) { pid = pid; state = used } in
    (
      λ q ne. rw ne (free q).0,
      at_proc s.proc p b (λ _ c. c.parent ≡ none) (free p).1 (λ q _. (free q).1),
      idle,
      subst (λ (q : Process). q.pid < s.counter) (sym (set_proc_same s.proc p b)) next,
      low,
    )

start_proc-IsStarted : (p : ℕ) → Triple (λ s. IsBooted s × (p < nproc)) (start_proc p) IsStarted
unfolding start_proc
start_proc-IsStarted p = Triple-bind _ _ _ _ _ (allocpid-IsNumbered p) λ pid.
    Triple-bind _ (λ _. IsLone p) _ _ _
      (Triple-change _ _ p (λ q. record q { pid = pid; state = used }) (numbered p pid))
      λ _. Triple-bind _ _ _ _ _ (Triple-mm (IsLone p) kalloc (λ t m h. h)) λ trapframe.
        Triple-bind _ (λ _. IsLone p) _ _ _
          (Triple-change _ _ p (λ q. record q { trapframe = trapframe })
            (λ t h. change-IsLone p (λ q. record q { trapframe = trapframe }) t h (h.1 p) h.3))
          λ _.
            Triple-if _ _ (trapframe == 0) _ _ (λ _. give_up p)
              λ _. Triple-bind _ _ _ _ _ (Triple-get (IsLone p)) λ s.
                Triple-bind _ _ _ _ _
                  (Triple-mm _ (proc_pagetable s.trampoline trapframe) (λ t m h. h))
                  λ pagetable.
                    Triple-bind _ (λ _. IsLone p) _ _ _
                      (Triple-change _ _ p (λ q. record q { pagetable = pagetable })
                        (λ t h.
                          change-IsLone p (λ q. record q { pagetable = pagetable }) t h.0 (h.0.1 p)
                            h.0.3))
                      λ _.
                        Triple-if _ _ (pagetable == 0) _ _ (λ _. give_up p)
                          λ _. Triple-pure _ _ (some p) λ t h. h

-- The first process may run.
first_born :
    (p : ℕ) (s : Kernel)
    → IsLone p s × (s.initproc ≡ p)
    → IsTable (record s { proc = set_proc s.proc p (record (s.proc p) { state = runnable }) })
first_born p s (lone, first) =
    let b : Process = record (s.proc p) { state = runnable } in
    let (others, orphans, idle, next, low) =
      change-IsLone p (λ q. record q { state = runnable }) s lone (lone.1 p) lone.3 in
    let only : (q : ℕ) → is_unused (set_proc s.proc p b q).state ≡ false → q ≡ p = λ q h.
      elim (Bool-cases (q == p)) [
        | inl e ↦ ground arith
        | inr ne ↦ absurd (let u = others q ne in cc)
      ] in
    record {
      family = λ q r e. absurd (let o = orphans q in cc);
      pids = λ q r _ h g _. only q h ∙ sym (only r g);
      low = λ q h.
          subst (λ j. ((set_proc s.proc p b j).pid < s.counter) × (j < nproc)) (sym (only q h))
            (next, low);
      runs = λ k q h. absurd (let i = idle k in cc);
      once = λ j k q h _. absurd (let i = idle j in cc);
      init = rw (first, set_proc_same s.proc p b) refl;
    }

initproc-IsLone :
    (p : ℕ)
    → Triple
        (IsLone p)
        (λ s. done tt (record s { initproc = p }))
        (λ _ t. IsLone p t × (t.initproc ≡ p))
unfolding Triple
initproc-IsLone p s h = (h, refl)

start_init-IsTable : (p : ℕ) → Triple (IsLone p) (start_init p) (λ _. IsTable)
unfolding start_init
start_init-IsTable p =
    Triple-bind _ (λ _ t. IsLone p t × (t.initproc ≡ p)) _ _ _ (initproc-IsLone p)
      λ _. Triple-bind _ _ _ _ _ (Triple-ino _ (namei 0 0 (slash ∷ [])) (λ t m h. h)) λ cwd.
        Triple-bind _ (λ _ t. IsLone p t × (t.initproc ≡ p)) _ _ _
          (Triple-change _ _ p (λ q. record q { cwd = cwd })
            (λ t h. (change-IsLone p (λ q. record q { cwd = cwd }) t h.0 (h.0.1 p) h.0.3, h.1)))
          λ _. Triple-change _ _ p (λ q. record q { state = runnable }) (first_born p)

allocproc-IsStarted : Triple IsBooted allocproc IsStarted
unfolding allocproc Triple
allocproc-IsStarted s h = elim (Option-cases (first_proc (λ q. is_unused q.state) s.proc 0 nproc)) [
  | inl e ↦ rw (e, allocproc) tt
  | inr (p, e) ↦
      let (_, within) = first_proc-some (λ q. is_unused q.state) s.proc 0 nproc p e in
      rw (e, allocproc) (start_proc-IsStarted p s (h, ground arith))
]

-- From a table with no process, if `userinit` returns then the invariant holds.
pub userinit-IsTable : Triple IsBooted userinit (λ _. IsTable)
unfolding userinit
userinit-IsTable = Triple-bind _ _ _ _ _ allocproc-IsStarted λ found.
    elim found
      as (λ f.
        Triple (IsStarted f) (elim f [ none ↦ fail "kerneltrap" | some p ↦ start_init p ])
          (λ _. IsTable)) [ none ↦ Triple-fail _ _ "kerneltrap" | some p ↦ start_init-IsTable p ]
