-- ===== src/Proc/Life/Fork.antt =====
-- `kfork` keeps the invariant of the process table (kernel/proc/proc.c).
use base_exp.Base.{
  ℕ, ◌≡◌, refl, ap, true, false, not, Option, none, some, List, [], ◌∷◌, arith, pure,
}
use mathlib.Core.Path.{subst}
use base_exp.Mm.Vm.{uvmcopy}
use base_exp.Fs.Files.{filedup}
use base_exp.Fs.Inode.{idup}
use base_exp.Proc.Kernel.{runnable, Process, Kernel, set_proc}
use base_exp.Proc.Keeps.{
  Triple, Triple-bind, Triple-get, Triple-mm, Triple-ino, Triple-files, Triple-fail, Triple-change,
  Triple-if, Triple-pure, Triple-weaken,
}
use base_exp.Proc.Alloc.{is_unused}
use base_exp.Proc.Sched.{is_running}
use base_exp.Proc.Sched.Invariant.{
  has_exited, is_live, running_live, IsSound-set_proc, set_proc_same,
}
use base_exp.Proc.Life.{copy_trapframe, dup_files, dup_cwd, fork_into, kfork}
use base_exp.Proc.Life.Creating.{
  IsOn, IsMade, IsAllocated, IsFit-dead, change-IsMade, freeproc-IsOn, allocproc-IsAllocated,
}

dup_files-IsMade :
    (k me np : ℕ) (fs : List (Option ℕ))
    → Triple (IsMade k me np) (dup_files fs) (λ _. IsMade k me np)
unfolding dup_files
dup_files-IsMade k me np [] = Triple-pure _ _ tt λ t h. h
dup_files-IsMade k me np (none ∷ fs) = dup_files-IsMade k me np fs
dup_files-IsMade k me np (some f ∷ fs) =
    Triple-bind _ _ _ _ _ (Triple-files (IsMade k me np) (filedup f) (λ t m h. h))
      λ _. dup_files-IsMade k me np fs

dup_cwd-IsMade :
    (k me np : ℕ) (cwd : Option ℕ) → Triple (IsMade k me np) (dup_cwd cwd) (λ _. IsMade k me np)
dup_cwd-IsMade k me np none = Triple-fail _ _ "kerneltrap"
dup_cwd-IsMade k me np (some ip) =
    Triple-bind _ _ _ _ _ (Triple-ino (IsMade k me np) (idup ip) (λ t m h. h))
      λ _. Triple-pure _ _ tt λ t h. h

-- What the child takes over from its parent.
abbrev inherit : Process → Process → Process
inherit p q = record q {
  sz = p.sz;
  fpu_used = p.fpu_used;
  fpu_active = false;
  ofile = p.ofile;
  cwd = p.cwd;
  name = p.name;
}

-- The child gets its parent.
adopted :
    (k me np : ℕ) (s : Kernel)
    → IsMade k me np s
    → IsMade k me np
        (record s { proc = set_proc s.proc np (record (s.proc np) { parent = some me }) })
adopted k me np s ((inv, on), new) =
    let b : Process = record (s.proc np) { parent = some me } in
    let l = running_live (s.proc me).state (inv.runs k me on) in
    (
      (
        IsSound-set_proc s.proc np b s.current s.initproc s.counter inv (
            IsFit-dead s s.counter np b inv (ap is_live new)
              (λ r e.
                let same : me ≡ r = ground (arith, e) in
                (
                  ap is_unused new,
                  subst (λ z. is_live (s.proc z).state ≡ true) same l,
                  λ x. absurd (let no = ap has_exited new in cc),
                ))
              (λ r _. inv.pids np r) (inv.low np)),
        on,
      ),
      rw (set_proc_same s.proc np b) new,
    )

-- The child may run.
born :
    (k me np : ℕ) (s : Kernel)
    → IsMade k me np s
    → IsOn k me (record s { proc = set_proc s.proc np (record (s.proc np) { state = runnable }) })
born k me np s ((inv, on), new) =
    let b : Process = record (s.proc np) { state = runnable } in
    let u = ap is_unused new in
    (
      IsSound-set_proc s.proc np b s.current s.initproc s.counter inv record {
        self = λ e. absurd (let (_, l, _) = inv.family np np e in let no = ap is_live new in cc);
        child = λ r _ e. (refl, (inv.family np r e).1, λ x. absurd (cc));
        parent =
            λ q _ e. absurd (let (_, l, _) = inv.family q np e in let no = ap is_live new in cc);
        own = λ r _ w _ g e. inv.pids np r w u g e;
        low = λ _. inv.low np u;
        runs = λ j h. absurd (let r = inv.runs j np h in let no = ap is_running new in cc);
        init = λ _. refl;
      },
      on,
    )

fork_into-IsOn : (k me np : ℕ) → Triple (IsMade k me np) (fork_into me np) (λ _. IsOn k me)
unfolding fork_into
fork_into-IsOn k me np = Triple-bind _ _ _ _ _ (Triple-get (IsMade k me np)) λ s.
    Triple-bind _ _ _ _ _
      (Triple-mm _ (uvmcopy (s.proc me).pagetable (s.proc np).pagetable (s.proc me).sz)
        (λ t m h. h))
      λ copied.
        Triple-if _ _ (not copied) _ _
          (λ _.
            Triple-bind _ _ _ _ _ (Triple-weaken _ _ _ _ (freeproc-IsOn k me np) (λ t h. h.0))
              λ _. Triple-pure _ _ none λ t h. h)
          λ _.
            Triple-bind _ _ _ _ _
              (Triple-mm _ (copy_trapframe (s.proc np).trapframe (s.proc me).trapframe)
                (λ t m h. h))
              λ _.
                Triple-bind _ (λ _. IsMade k me np) _ _ _
                  (Triple-change _ _ me (λ q. record q { fpu_active = false })
                    (λ t h.
                      change-IsMade k me np me (λ q. record q { fpu_active = false }) t h.0 refl
                        refl refl refl))
                  λ _.
                    Triple-bind _ (λ _. IsMade k me np) _ _ _
                      (Triple-change _ _ np (inherit (s.proc me)) (λ t h.
                        change-IsMade k me np np (inherit (s.proc me)) t h refl refl refl refl))
                      λ _. Triple-bind _ _ _ _ _ (dup_files-IsMade k me np (s.proc me).ofile) λ _.
                        Triple-bind _ _ _ _ _ (dup_cwd-IsMade k me np (s.proc me).cwd) λ _.
                          Triple-bind _ (λ _. IsMade k me np) _ _ _
                            (Triple-change _ _ np (λ q. record q { parent = some me })
                              (adopted k me np))
                            λ _.
                              Triple-bind _ (λ _. IsOn k me) _ _ _
                                (Triple-change _ _ np (λ q. record q { state = runnable })
                                  (born k me np))
                                λ _. Triple-pure _ _ (some (s.proc np).pid) λ t h. h

pub kfork-IsOn : (k me : ℕ) → Triple (IsOn k me) (kfork me) (λ _. IsOn k me)
unfolding kfork
kfork-IsOn k me = Triple-bind _ _ _ _ _ (allocproc-IsAllocated k me) λ found.
    elim found
      as (λ f.
        Triple (IsAllocated k me f) (elim f [ none ↦ pure none | some np ↦ fork_into me np ])
          (λ _. IsOn k me)) [
            | none ↦ Triple-pure _ _ none λ t h. h
            | some np ↦ fork_into-IsOn k me np
          ]
