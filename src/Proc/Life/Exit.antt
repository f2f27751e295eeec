-- ===== src/Proc/Life/Exit.antt =====
-- `kexit` keeps the invariant of the process table (kernel/proc/proc.c).
use base_exp.Base.{
  ℕ, ◌≡◌, ◌≢◌, inl, inr, refl, sym, ◌∙◌, ap, true, false, ◌==◌, Bool-cases, Option, none, some,
  List, [], ◌∷◌, arith,
}
use mathlib.Core.Path.{subst}
use base_exp.Fs.Files.{fileclose}
use base_exp.Fs.Inode.{iput}
use base_exp.Proc.Kernel.{zombie, Process, Kernel, chan_of, set_proc}
use base_exp.Proc.Keeps.{
  Leaves, Triple, Triple-bind, Triple-get, Triple-ino, Triple-files, Triple-fail, Triple-change,
  Triple-if, Triple-pure, Triple-weaken,
}
use base_exp.Proc.Alloc.{nproc}
use base_exp.Proc.Sched.{is_sleeping, sched, wakeup, wakeup_from}
use base_exp.Proc.Sched.Invariant.{IsFit, live_unused, running_live, IsSound-set_proc, IsFit-same}
use base_exp.Proc.Sched.Waking.{IsSound-wakeup_from}
use base_exp.Proc.Sched.Steps.{IsTable, off, off_elsewhere, leave-IsTable}
use base_exp.Proc.Life.{
  child_of, is_child, reparent, reparent_from, iput_all, close_files, free_files, put_cwd,
  parent_chan, exit_locked, kexit,
}
use base_exp.Proc.Life.Creating.{IsOn}
use base_exp.Proc.Life.Orphans.{
  IsChildless, reparent_from-IsSound, is_child-parent, wakeup_quiet, wakeup_parent,
}

-- The caller is not the first process.
abbrev IsLeaving : (k me : ℕ) → Kernel → Type 0
IsLeaving k me s = IsOn k me s × ((s.initproc == me) ≡ false)

-- It has no child.
abbrev IsBare : (k me : ℕ) → Kernel → Type 0
IsBare k me s = IsLeaving k me s × ((q : ℕ) → is_child me (s.proc q) ≡ false)

-- Its parent is not asleep in `kwait`.
abbrev IsNoticed : (k me : ℕ) → Kernel → Type 0
IsNoticed k me s =
    IsBare k me s
    × ((r : ℕ)
        → (s.proc me).parent ≡ some r
        → (r == me) ≡ false
        → is_sleeping (s.proc r).state ≡ true
        → (s.proc r).chan ≢ chan_of r)

-- The processes past the end of the table have no parent.
everywhere :
    (me : ℕ) (s : Kernel)
    → IsTable s
    → IsChildless me s.proc nproc
    → (q : ℕ) → is_child me (s.proc q) ≡ false
everywhere me s inv below q = elim (Bool-cases (is_child me (s.proc q))) [
  | inr e ↦ e
  | inl e ↦
      let (taken, _, _) = inv.family q me (is_child-parent me (s.proc q) e) in
      below q (inv.low q taken).1
]

reparent-IsBare : (k me : ℕ) → Triple (IsLeaving k me) (reparent me) (λ _. IsBare k me)
unfolding Triple reparent
reparent-IsBare k me s ((inv, on), apart) =
    let (sound, bare) =
      reparent_from-IsSound s.current me s.initproc s.counter apart s.proc 0 nproc inv
        (λ q low. absurd (ground arith)) in
    (
      ((sound, on), apart),
      everywhere me (record s { proc = reparent_from me s.initproc s.proc 0 nproc }) sound bare,
    )

self_child : (me : ℕ) (q : Process) → q.parent ≡ some me → is_child me q ≡ true
self_child me q e = rw e (let same : (me == me) ≡ true = ground arith in same)

-- `wakeup(p->parent)`.
notice :
    (k me : ℕ) (s : Kernel)
    → IsBare k me s
    → IsNoticed k me
        (record s { proc = wakeup_from (some me) (parent_chan (s.proc me).parent) s.proc 0 nproc })
notice k me s (((inv, on), apart), bare) =
    let chan = parent_chan (s.proc me).parent in
    (
      (
        (
          (
            IsSound-wakeup_from (some me) chan s.proc s.current s.initproc s.counter 0 nproc inv,
            on,
          ),
          apart,
        ),
        λ q. ap (child_of me) (wakeup_parent (some me) chan s.proc q) ∙ bare q,
      ),
      λ r e ne.
          let parent : (s.proc me).parent ≡ some r =
            sym (wakeup_parent (some me) chan s.proc me) ∙ e in
          let (_, alive, _) = inv.family me r parent in
          let low = (inv.low r (live_unused (s.proc r).state alive)).1 in
          let same : chan_of r ≡ chan = sym (ap parent_chan parent) in
          subst
            (λ c.
              is_sleeping (wakeup_from (some me) chan s.proc 0 nproc r).state ≡ true
              → (wakeup_from (some me) chan s.proc 0 nproc r).chan ≢ c)
            (sym same) (wakeup_quiet me chan s.proc r low ne),
    )

-- What `kexit` leaves in the entry.
abbrev ended : ℕ → Process → Process
ended status q = record q { xstate = status; state = zombie }

IsFit-ended :
    (k me status : ℕ) (s : Kernel) (inv : IsTable s) (on : s.current k ≡ some me)
    → IsNoticed k me s
    → IsFit s.proc (off s k me inv on) s.initproc s.counter me (ended status (s.proc me))
IsFit-ended k me status s inv on (((_, apart), bare), noticed) =
    let taken = live_unused (s.proc me).state (running_live (s.proc me).state (inv.runs k me on)) in
    record {
      self = λ e. absurd (let h = self_child me (s.proc me) e in let n = bare me in cc);
      child = λ r ne e. (refl, (inv.family me r e).1, λ _. noticed r e ne);
      parent = λ q _ e. absurd (let h = self_child me (s.proc q) e in let n = bare q in cc);
      own = λ r _ w _. inv.pids me r w taken;
      low = λ _. inv.low me taken;
      runs = λ j h. absurd (off_elsewhere s k me inv on j h);
      init = λ e. absurd (ground (arith, e, apart));
    }

wakeup-IsNoticed :
    (k me : ℕ) (s : Kernel)
    → Triple
        (λ t. IsBare k me t × (t.proc ≡ s.proc) × (t.initproc ≡ s.initproc))
        (wakeup (some me) (parent_chan (s.proc me).parent))
        (λ _. IsNoticed k me)
unfolding Triple wakeup
wakeup-IsNoticed k me s t (h, same, _) =
    subst (λ (c : ℕ). IsNoticed k me (record t { proc = wakeup_from (some me) c t.proc 0 nproc }))
      (ap (λ (f : ℕ → Process). parent_chan (f me).parent) same) (notice k me t h)

Triple-self :
    (k me : ℕ) → Triple (λ t. Leaves (λ _. IsTable) (sched k me t)) (sched k me) (λ _. IsTable)
unfolding Triple
Triple-self k me s h = h

exit_locked-IsTable :
    (k me status : ℕ) → Triple (IsLeaving k me) (exit_locked k me status) (λ _. IsTable)
unfolding exit_locked
exit_locked-IsTable k me status = Triple-bind _ _ _ _ _ (reparent-IsBare k me) λ _.
    Triple-bind _ _ _ _ _ (Triple-get (IsBare k me)) λ s.
      Triple-bind _ _ _ _ _ (wakeup-IsNoticed k me s) λ _.
        Triple-bind _ (λ _ t. Leaves (λ _. IsTable) (sched k me t)) _ _ _
          (Triple-change _ _ me (ended status) (λ t h.
            let inv = h.0.0.0.0 in
            let on = h.0.0.0.1 in
            leave-IsTable t k me inv on (ended status (t.proc me))
              (IsFit-ended k me status t inv on h) refl))
          λ _. Triple-self k me

-- A change of an entry that the invariant is not about.
change-IsLeaving :
    (k me p : ℕ) (f : Process → Process) (s : Kernel)
    → IsLeaving k me s
    → (f (s.proc p)).state ≡ (s.proc p).state
    → (f (s.proc p)).chan ≡ (s.proc p).chan
    → (f (s.proc p)).pid ≡ (s.proc p).pid
    → (f (s.proc p)).parent ≡ (s.proc p).parent
    → IsLeaving k me (record s { proc = set_proc s.proc p (f (s.proc p)) })
change-IsLeaving k me p f s ((inv, on), apart) es ec ei ep = (
  (
    IsSound-set_proc s.proc p (f (s.proc p)) s.current s.initproc s.counter inv
        (IsFit-same s.proc s.current s.initproc s.counter p (f (s.proc p)) inv es ec ei ep),
    on,
  ),
  apart,
)

iput_all-IsLeaving :
    (k me : ℕ) (ips : List ℕ) → Triple (IsLeaving k me) (iput_all ips) (λ _. IsLeaving k me)
unfolding iput_all
iput_all-IsLeaving k me [] = Triple-pure _ _ tt λ t h. h
iput_all-IsLeaving k me (ip ∷ ips) =
    Triple-bind _ _ _ _ _ (Triple-ino (IsLeaving k me) (iput ip) (λ t m h. h))
      λ _. iput_all-IsLeaving k me ips

close_files-IsLeaving :
    (k me : ℕ) (fs : List (Option ℕ))
    → Triple (IsLeaving k me) (close_files fs) (λ _. IsLeaving k me)
unfolding close_files
close_files-IsLeaving k me [] = Triple-pure _ _ tt λ t h. h
close_files-IsLeaving k me (none ∷ fs) = close_files-IsLeaving k me fs
close_files-IsLeaving k me (some f ∷ fs) =
    Triple-bind _ _ _ _ _ (Triple-files (IsLeaving k me) (fileclose f) (λ t m h. h)) λ (_, inodes).
      Triple-bind _ _ _ _ _ (iput_all-IsLeaving k me inodes) λ _. close_files-IsLeaving k me fs

put_cwd-IsLeaving :
    (k me : ℕ) (cwd : Option ℕ) → Triple (IsLeaving k me) (put_cwd cwd) (λ _. IsLeaving k me)
put_cwd-IsLeaving k me none = Triple-fail _ _ "kerneltrap"
put_cwd-IsLeaving k me (some ip) = Triple-ino (IsLeaving k me) (iput ip) (λ t m h. h)

pub kexit-IsTable : (k me status : ℕ) → Triple (IsOn k me) (kexit k me status) (λ _. IsTable)
unfolding kexit
kexit-IsTable k me status = Triple-bind _ _ _ _ _ (Triple-get (IsOn k me)) λ s.
    Triple-if _ _ (me == s.initproc) _ _ (λ _. Triple-fail _ _ "init exiting")
      λ apart.
        Triple-weaken (IsLeaving k me) _ _ _
          (Triple-bind _ _ _ _ _ (close_files-IsLeaving k me (s.proc me).ofile) λ _.
            Triple-bind _ (λ _. IsLeaving k me) _ _ _
              (Triple-change _ _ me (λ q. record q { ofile = free_files q.ofile })
                (λ t h.
                  change-IsLeaving k me me (λ q. record q { ofile = free_files q.ofile }) t h refl
                    refl refl refl))
              λ _. Triple-bind _ _ _ _ _ (put_cwd-IsLeaving k me (s.proc me).cwd) λ _.
                Triple-bind _ (λ _. IsLeaving k me) _ _ _
                  (Triple-change _ _ me (λ q. record q { cwd = none })
                    (λ t h.
                      change-IsLeaving k me me (λ q. record q { cwd = none }) t h refl refl refl
                        refl))
                  λ _. exit_locked-IsTable k me status)
          (λ t (h, _, same). (h, let e : t.initproc ≡ s.initproc = same in ground arith))
