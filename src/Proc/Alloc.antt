-- ===== src/Proc/Alloc.antt =====
-- Allocating and freeing processes (kernel/proc/proc.c). `allocproc` holds `p->lock` to its end, and
-- so does its caller, so that it is one step.
use base_exp.Base.{
  ℕ, zero, suc, ◌+◌, ◌-◌, ◌*◌, ◌%◌, ◌^◌, bit_or, Bool, true, false, not, ◌==◌, ltb, if◌then◌else◌,
  Option, none, some, [], ◌∷◌, done, pure, fail, get, ◌>>=◌, ◌>>◌,
}
use base_exp.Mm.Mem.{Mm, pgsize}
use base_exp.Mm.Kalloc.{kalloc, kfree}
use base_exp.Mm.Pte.{pte_r, pte_w, pte_x, maxva}
use base_exp.Mm.Vm.{kvmmap, mappages, uvmcreate, uvmunmap, uvmfree, uvmalloc, uvmdealloc}
use base_exp.Fs.Inode.Lookup.{namei}
use base_exp.Fs.PathName.{slash}
use base_exp.Proc.Kernel.{
  nextpid, ProcState, unused, used, runnable, Process, Kern, change, mm, ino,
}

abbrev pub nproc : ℕ
nproc = 64

abbrev pub trampoline_va : ℕ
trampoline_va = maxva - pgsize

abbrev pub trapframe_va : ℕ
trapframe_va = trampoline_va - pgsize

abbrev pub kstack : ℕ → ℕ
kstack p = trampoline_va - (p + 1) * 2 * pgsize

unfoldable pub proc_mapstacks : (kpgtbl p n : ℕ) → Mm (Unit {0})
proc_mapstacks kpgtbl p zero = pure tt
proc_mapstacks kpgtbl p (suc n) = do
  let rest = proc_mapstacks kpgtbl (p + 1) n
  pa ← kalloc
  if pa == 0
      then fail "kalloc"
      else do kvmmap kpgtbl (kstack p) pa pgsize (bit_or pte_r pte_w); rest

-- `true` for the state of an entry that is free.
abbrev pub is_unused : ProcState → Bool
is_unused s = elim s [ unused ↦ true | _ ↦ false ]

-- The first of the `n` processes from `p` on that passes the test.
unfoldable pub first_proc : (Process → Bool) → (ℕ → Process) → (p n : ℕ) → Option ℕ
first_proc test proc p zero = none
first_proc test proc p (suc n) =
    let rest = first_proc test proc (p + 1) n in if test (proc p) then some p else rest

unfoldable pub allocpid : Kern ℕ
allocpid s = done (nextpid s) (record s { counter = s.counter + 1 })

unfoldable pub proc_pagetable : (trampoline trapframe : ℕ) → Mm ℕ
proc_pagetable trampoline trapframe = do
  pagetable ← uvmcreate
  if pagetable == 0 then pure 0 else do
    code ← mappages pagetable trampoline_va pgsize trampoline (bit_or pte_r pte_x)
    if not code then (do uvmfree pagetable 0; pure 0) else do
      frame ← mappages pagetable trapframe_va pgsize trapframe (bit_or pte_r pte_w)
      if frame
          then pure pagetable
          else do uvmunmap pagetable trampoline_va 1 false; uvmfree pagetable 0; pure 0

unfoldable pub proc_freepagetable : (pagetable sz : ℕ) → Mm (Unit {0})
proc_freepagetable pagetable sz = do
  uvmunmap pagetable trampoline_va 1 false
  uvmunmap pagetable trapframe_va 1 false
  uvmfree pagetable sz

-- What `freeproc` leaves of the entry; the files and the directory are closed by then.
abbrev pub cleared : Process → Process
cleared q = record q {
  trapframe = 0;
  pagetable = 0;
  sz = 0;
  pid = 0;
  fpu_used = false;
  fpu_active = false;
  parent = none;
  name = [];
  chan = 0;
  killed = false;
  xstate = 0;
  state = unused;
}

unfoldable pub free_memory : (trapframe pagetable sz : ℕ) → Mm (Unit {0})
unfolding proc_freepagetable
free_memory trapframe pagetable sz = do
  if trapframe == 0 then pure tt else kfree trapframe
  if pagetable == 0 then pure tt else proc_freepagetable pagetable sz

unfoldable pub freeproc : ℕ → Kern (Unit {0})
freeproc p = do
  s ← get
  mm (free_memory (s.proc p).trapframe (s.proc p).pagetable (s.proc p).sz)
  change p cleared

-- From `found:` on.
unfoldable pub start_proc : ℕ → Kern (Option ℕ)
start_proc p = do
  pid ← allocpid
  change p λ q. record q { pid = pid; state = used }
  trapframe ← mm kalloc
  change p λ q. record q { trapframe = trapframe }
  if trapframe == 0 then (do freeproc p; pure none) else do
    s ← get
    pagetable ← mm (proc_pagetable s.trampoline trapframe)
    change p λ q. record q { pagetable = pagetable }
    if pagetable == 0 then (do freeproc p; pure none) else pure (some p)

unfoldable pub allocproc : Kern (Option ℕ)
allocproc s = elim (first_proc (λ q. is_unused q.state) s.proc 0 nproc) [
  | none ↦ done none s
  | some p ↦ start_proc p s
]

-- `growproc(n)` and `growproc(-n)` for a positive `n`, and `growproc(0)`; `true` is 0.
unfoldable pub growproc : (me : ℕ) → (negative : Bool) → ℕ → Kern Bool
growproc me negative n s =
    let q = s.proc me in
    if n == 0
    then done true s
    else if negative
    then (do
      sz ← mm (uvmdealloc q.pagetable q.sz ((q.sz + 2 ^ 64 - n) % 2 ^ 64))
      change me λ r. record r { sz = sz }
      pure true)
        s
    else if ltb trapframe_va (q.sz + n)
    then done false s
    else (do
      sz ← mm (uvmalloc q.pagetable q.sz (q.sz + n) pte_w)
      if sz == 0 then pure false else do change me λ r. record r { sz = sz }; pure true)
        s

-- `userinit` from `initproc = p` on.
unfoldable pub start_init : ℕ → Kern (Unit {0})
start_init p = do
  (λ s. done tt (record s { initproc = p }))
  cwd ← ino (namei 0 0 (slash ∷ []))
  change p λ q. record q { cwd = cwd }
  change p λ q. record q { state = runnable }

-- Without an entry, the kernel faults at `p->cwd`.
unfoldable pub userinit : Kern (Unit {0})
unfolding start_init
userinit = do found ← allocproc; elim found [ none ↦ fail "kerneltrap" | some p ↦ start_init p ]
