-- ===== src/Proc/Sched/Waking.antt =====
-- `wakeup` and `kkill` (kernel/proc/proc.c): which processes they change.
use base_exp.Base.{
  ℕ, zero, suc, ◌+◌, ◌<◌, ◌≡◌, ◌≢◌, ◌⊎◌, inl, inr, refl, sym, ◌∙◌, Bool, true, false, ◌&&◌, ◌==◌,
  leb, ltb, if◌then◌else◌, Bool-cases, Option-cases, Option, none, some, arith, Returns,
}
use mathlib.Core.Path.{subst}
use base_exp.Proc.Kernel.{
  ProcState, unused, used, sleeping, runnable, running, zombie, Process, Kernel, set_proc,
}
use base_exp.Proc.Alloc.{nproc, first_proc}
use base_exp.Proc.Sched.{is_sleeping, woken, is_other, wakeup_from, wakeup, kkill}
use base_exp.Proc.Sched.Invariant.{IsSound, IsFit-woken, IsSound-set_proc, set_proc_same}

abbrev pub in_table : (p n i : ℕ) → Bool
in_table p n i = leb p i && ltb i (p + n)

abbrev pub wake_one : Option ℕ → ℕ → (ℕ → Process) → ℕ → ℕ → Process
wake_one me chan proc p = if is_other me p then set_proc proc p (woken chan (proc p)) else proc

wake_one_self :
    (me : Option ℕ) (chan : ℕ) (proc : ℕ → Process) (p : ℕ)
    → wake_one me chan proc p p ≡ (if is_other me p then woken chan (proc p) else proc p)
wake_one_self me chan proc p = elim (Bool-cases (is_other me p)) [
  | inl e ↦ rw e (set_proc_same proc p (woken chan (proc p)))
  | inr ne ↦ rw ne refl
]

wake_one_other :
    (me : Option ℕ) (chan : ℕ) (proc : ℕ → Process) (p i : ℕ)
    → (i == p) ≡ false
    → wake_one me chan proc p i ≡ proc i
wake_one_other me chan proc p i ne = elim (Bool-cases (is_other me p)) [
  | inl e ↦ rw (e, ne) refl
  | inr e ↦ rw e refl
]

pub wakeup_from_lem :
    (me : Option ℕ) (chan : ℕ) (proc : ℕ → Process) (p n i : ℕ)
    → wakeup_from me chan proc p n i
      ≡ (if in_table p n i && is_other me i then woken chan (proc i) else proc i)
unfolding wakeup_from
wakeup_from_lem me chan proc p zero i = let z : in_table p 0 i ≡ false = ground arith in rw z refl
wakeup_from_lem me chan proc p (suc n) i =
    wakeup_from_lem me chan (wake_one me chan proc p) (p + 1) n i ∙ elim (Bool-cases (i == p)) [
      | inl e ↦
          let same : i ≡ p = ground arith in
          let out : in_table (p + 1) n i ≡ false = ground arith in
          let within : in_table p (suc n) i ≡ true = ground arith in
          rw (out, within)
            (subst
              (λ z.
                wake_one me chan proc p z ≡ (if is_other me z then woken chan (proc z) else proc z))
              (sym same) (wake_one_self me chan proc p))
      | inr ne ↦
          let t : in_table (p + 1) n i ≡ in_table p (suc n) i = ground arith in
          rw (wake_one_other me chan proc p i ne, t) refl
    ]

pub IsSound-wakeup_from :
    (me : Option ℕ) (chan : ℕ) (proc : ℕ → Process) (current : ℕ → Option ℕ)
    (initproc nextpid p n : ℕ)
    → IsSound proc current initproc nextpid
    → IsSound (wakeup_from me chan proc p n) current initproc nextpid
unfolding wakeup_from
IsSound-wakeup_from me chan proc current initproc nextpid p zero inv = inv
IsSound-wakeup_from me chan proc current initproc nextpid p (suc n) inv =
    IsSound-wakeup_from me chan (wake_one me chan proc p) current initproc nextpid (p + 1) n
      (elim (Bool-cases (is_other me p)) [
        | inl e ↦ rw e (
            IsSound-set_proc proc p (woken chan (proc p)) current initproc nextpid inv
              (IsFit-woken proc current initproc nextpid chan p inv))
        | inr e ↦ rw e inv
      ])

one_test :
    (a b c d : Bool) (q r : Process)
    → (if a && b then (if c && d then r else q) else q) ≡ (if a && b && c && d then r else q)
one_test true true c d q r = refl
one_test true false c d q r = refl
one_test false b c d q r = refl

-- `wakeup` returns: each entry of the table but the caller's that sleeps on the channel is
-- RUNNABLE then and otherwise the same, and no other entry is changed.
pub wakeup_lem :
    (me : Option ℕ) (chan : ℕ) (s : Kernel)
    → Returns
        (λ _ t.
          (i : ℕ)
          → t.proc i ≡ (
              if ltb i nproc
                && is_other me i
                && is_sleeping (s.proc i).state
                && (s.proc i).chan == chan
              then record (s.proc i) { state = runnable }
              else s.proc i))
        (wakeup me chan s)
unfolding wakeup
wakeup_lem me chan s i =
    wakeup_from_lem me chan s.proc 0 nproc i
    ∙ (let e : in_table 0 nproc i ≡ ltb i nproc = ground arith in
        rw e (
          one_test (ltb i nproc) (is_other me i) (is_sleeping (s.proc i).state)
            ((s.proc i).chan == chan) (s.proc i) (record (s.proc i) { state = runnable })))

pub first_proc-some :
    (test : Process → Bool) (proc : ℕ → Process) (p n i : ℕ)
    → first_proc test proc p n ≡ some i
    → (test (proc i) ≡ true) × (in_table p n i ≡ true)
unfolding first_proc
first_proc-some test proc p zero i h = absurd (cc)
first_proc-some test proc p (suc n) i h = elim (Bool-cases (test (proc p))) [
  | inl e ↦
      let same : p ≡ i = ground (arith, h, e) in
      (subst (λ z. test (proc z) ≡ true) same e, ground arith)
  | inr ne ↦
      let rest : first_proc test proc (p + 1) n ≡ some i = ground (arith, h, ne) in
      let (holds, within) = first_proc-some test proc (p + 1) n i rest in (holds, ground arith)
]

pub first_proc-none :
    (test : Process → Bool) (proc : ℕ → Process) (p n i : ℕ)
    → first_proc test proc p n ≡ none
    → in_table p n i ≡ true
    → test (proc i) ≡ false
unfolding first_proc
first_proc-none test proc p zero i h within = absurd (ground arith)
first_proc-none test proc p (suc n) i h within = elim (Bool-cases (test (proc p))) [
  | inl e ↦ absurd (ground (arith, h, e))
  | inr ne ↦ elim (Bool-cases (i == p)) [
    | inl e ↦ let same : p ≡ i = ground arith in subst (λ z. test (proc z) ≡ false) same ne
    | inr apart ↦
        let rest : first_proc test proc (p + 1) n ≡ none = ground (arith, h, ne) in
        first_proc-none test proc (p + 1) n i rest (ground arith)
  ]
]

-- `kkill` returns: 0 with one process of the table that has the pid marked as killed, and not left
-- asleep; or -1, no process of the table having the pid, with nothing changed.
pub kkill_lem :
    (pid : ℕ) (s : Kernel)
    → Returns
        (λ ok t.
          (ok ≡ true)
            × ((p : ℕ) × (p < nproc)
                × ((s.proc p).pid ≡ pid)
                × ((t.proc p).killed ≡ true)
                × (is_sleeping (t.proc p).state ≡ false)
                × ((i : ℕ) → (i == p) ≡ false → t.proc i ≡ s.proc i))
          ⊎ (ok ≡ false) × (t ≡ s) × ((p : ℕ) → p < nproc → (s.proc p).pid ≢ pid))
        (kkill pid s)
unfolding kkill
kkill_lem pid s = elim (Option-cases (first_proc (λ q. q.pid == pid) s.proc 0 nproc)) [
  | inl e ↦
      rw (e, kkill)
        (inr (
          refl,
          refl,
          λ p within.
              let no = first_proc-none (λ q. q.pid == pid) s.proc 0 nproc p e (ground arith) in
              ground arith,
        ))
  | inr (p, e) ↦
      let (has, within) = first_proc-some (λ q. q.pid == pid) s.proc 0 nproc p e in
      let b : Process = record (s.proc p) {
        killed = true;
        state = if is_sleeping (s.proc p).state then runnable else (s.proc p).state;
      } in
      rw (e, kkill)
        (inl (
          refl,
          (
            p,
            ground arith,
            ground arith,
            rw (set_proc_same s.proc p b) refl,
            rw (set_proc_same s.proc p b) (awake (s.proc p).state),
            λ i ne. rw ne refl,
          ),
        ))
]
  where
    awake : (q : ProcState) → is_sleeping (if is_sleeping q then runnable else q) ≡ false
    awake unused = refl
    awake used = refl
    awake sleeping = refl
    awake runnable = refl
    awake running = refl
    awake zombie = refl
