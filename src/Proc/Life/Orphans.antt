-- ===== src/Proc/Life/Orphans.antt =====
-- `reparent` (kernel/proc/proc.c): the children of a process go to init, which is woken.
use base_exp.Base.{
  ℕ, zero, suc, ◌+◌, ◌<◌, ◌≡◌, ◌≢◌, inl, inr, refl, sym, ◌∙◌, ap, true, false, ◌&&◌, ◌==◌,
  if◌then◌else◌, Bool-cases, Option, none, some, arith,
}
use mathlib.Core.Path.{subst}
use base_exp.Proc.Kernel.{runnable, Process, chan_of, set_proc}
use base_exp.Proc.Alloc.{nproc, is_unused}
use base_exp.Proc.Sched.{is_sleeping, woken, is_other, wakeup_from}
use base_exp.Proc.Sched.Invariant.{
  IsSound, IsFit, is_live, live_unused, IsSound-set_proc, set_proc_same,
}
use base_exp.Proc.Sched.Waking.{in_table, wakeup_from_lem, IsSound-wakeup_from}
use base_exp.Proc.Life.{child_of, is_child, reparent_from}

-- A process that was woken does not sleep on the channel.
pub woken_quiet :
    (chan : ℕ) (q : Process) → is_sleeping (woken chan q).state ≡ true → (woken chan q).chan ≢ chan
woken_quiet chan q h e = elim (Bool-cases (is_sleeping q.state && q.chan == chan)) [
  | inl w ↦ absurd (let g : is_sleeping runnable ≡ true = rw w at h in cc)
  | inr w ↦
      let g : is_sleeping q.state ≡ true = rw w at h in
      let f : q.chan ≡ chan = rw w at e in absurd (ground arith)
]

-- Waking leaves the other fields.
pub woken_kept :
    (chan : ℕ) (q : Process) → ((woken chan q).parent ≡ q.parent) × ((woken chan q).chan ≡ q.chan)
woken_kept chan q = elim (Bool-cases (is_sleeping q.state && q.chan == chan)) [
  | inl w ↦ rw w (refl, refl)
  | inr w ↦ rw w (refl, refl)
]

abbrev waking : Option ℕ → ℕ → ℕ → Process → Process
waking me chan i q = if in_table 0 nproc i && is_other me i then woken chan q else q

waking_parent : (me : Option ℕ) (chan i : ℕ) (q : Process) → (waking me chan i q).parent ≡ q.parent
waking_parent me chan i q = elim (Bool-cases (in_table 0 nproc i && is_other me i)) [
  | inl w ↦ rw w (woken_kept chan q).0
  | inr w ↦ rw w refl
]

-- An entry's parent does not matter for waking it.
waking_adopted :
    (me : Option ℕ) (chan i r : ℕ) (q : Process)
    → waking me chan i (record q { parent = some r })
      ≡ record (waking me chan i q) { parent = some r }
waking_adopted me chan i r q = elim (Bool-cases (in_table 0 nproc i && is_other me i)) [
  | inr w ↦ rw w refl
  | inl w ↦ elim (Bool-cases (is_sleeping q.state && q.chan == chan)) [
    | inl v ↦ rw (w, v) refl
    | inr v ↦ rw (w, v) refl
  ]
]

-- An entry in use gets another parent, which lives and does not sleep in `kwait`.
IsFit-adopted :
    (proc : ℕ → Process) (current : ℕ → Option ℕ) (initproc nextpid p r : ℕ)
    → IsSound proc current initproc nextpid
    → is_unused (proc p).state ≡ false
    → is_live (proc r).state ≡ true
    → (is_sleeping (proc r).state ≡ true → (proc r).chan ≢ chan_of r)
    → IsFit proc current initproc nextpid p (record (proc p) { parent = some r })
IsFit-adopted proc current initproc nextpid p r inv taken alive quiet = record {
  self = λ e.
      let same : r ≡ p = ground (arith, e) in
      (
        taken,
        subst (λ z. is_live (proc z).state ≡ true) same alive,
        λ _. subst (λ z. is_sleeping (proc z).state ≡ true → (proc z).chan ≢ chan_of z) same quiet,
      );
  child = λ i _ e.
      let same : r ≡ i = ground (arith, e) in
      (
        taken,
        subst (λ z. is_live (proc z).state ≡ true) same alive,
        λ _. subst (λ z. is_sleeping (proc z).state ≡ true → (proc z).chan ≢ chan_of z) same quiet,
      );
  parent = λ q _. inv.family q p;
  own = λ i _. inv.pids p i;
  low = inv.low p;
  runs = λ k. inv.runs k p;
  init = λ e. subst (λ z. is_live (proc z).state ≡ true) (sym e) inv.init;
}

-- The body of the loop: waking commutes with the change of the parent.
adopt_lem :
    (me : Option ℕ) (chan pp r : ℕ) (proc : ℕ → Process)
    → wakeup_from me chan (set_proc proc pp (record (proc pp) { parent = some r })) 0 nproc
      ≡ set_proc
          (wakeup_from me chan proc 0 nproc)
          pp
          (record (wakeup_from me chan proc 0 nproc pp) { parent = some r })
adopt_lem me chan pp r proc = λ d i. at i d
  where
    here :
        wakeup_from me chan (set_proc proc pp (record (proc pp) { parent = some r })) 0 nproc pp
        ≡ set_proc
            (wakeup_from me chan proc 0 nproc)
            pp
            (record (wakeup_from me chan proc 0 nproc pp) { parent = some r })
            pp
    here =
        wakeup_from_lem me chan (set_proc proc pp (record (proc pp) { parent = some r })) 0 nproc pp
        ∙ ap (waking me chan pp) (set_proc_same proc pp (record (proc pp) { parent = some r }))
        ∙ waking_adopted me chan pp r (proc pp)
        ∙ ap (λ (z : Process). record z { parent = some r })
            (sym (wakeup_from_lem me chan proc 0 nproc pp))
        ∙ sym (
            set_proc_same (wakeup_from me chan proc 0 nproc) pp
              (record (wakeup_from me chan proc 0 nproc pp) { parent = some r }))

    at :
        (i : ℕ)
        → wakeup_from me chan (set_proc proc pp (record (proc pp) { parent = some r })) 0 nproc i
          ≡ set_proc
              (wakeup_from me chan proc 0 nproc)
              pp
              (record (wakeup_from me chan proc 0 nproc pp) { parent = some r })
              i
    at i = elim (Bool-cases (i == pp)) [
      | inl e ↦
          let same : pp ≡ i = ground arith in
          subst
            (λ z.
              wakeup_from me chan (set_proc proc pp (record (proc pp) { parent = some r })) 0 nproc
                z
              ≡ set_proc (wakeup_from me chan proc 0 nproc) pp
                  (record (wakeup_from me chan proc 0 nproc pp) { parent = some r }) z)
            same here
      | inr ne ↦
          wakeup_from_lem me chan (set_proc proc pp (record (proc pp) { parent = some r })) 0 nproc
            i
          ∙ (rw ne (sym (wakeup_from_lem me chan proc 0 nproc i)))
    ]

-- What a process that is in the table and not the caller sleeps on after it was woken.
pub wakeup_quiet :
    (me chan : ℕ) (proc : ℕ → Process) (i : ℕ)
    → i < nproc
    → (i == me) ≡ false
    → is_sleeping (wakeup_from (some me) chan proc 0 nproc i).state ≡ true
    → (wakeup_from (some me) chan proc 0 nproc i).chan ≢ chan
wakeup_quiet me chan proc i low apart =
    let z : in_table 0 nproc i ≡ true = ground arith in
    let e : wakeup_from (some me) chan proc 0 nproc i ≡ woken chan (proc i) =
      wakeup_from_lem (some me) chan proc 0 nproc i ∙ rw (z, apart) refl in
    subst (λ q. is_sleeping q.state ≡ true → q.chan ≢ chan) (sym e) (woken_quiet chan (proc i))

pub wakeup_parent :
    (me : Option ℕ) (chan : ℕ) (proc : ℕ → Process) (i : ℕ)
    → (wakeup_from me chan proc 0 nproc i).parent ≡ (proc i).parent
wakeup_parent me chan proc i =
    ap (λ (z : Process). z.parent) (wakeup_from_lem me chan proc 0 nproc i)
    ∙ waking_parent me chan i (proc i)

-- No process of those below `pp` is a child of `me`.
abbrev pub IsChildless : ℕ → (ℕ → Process) → ℕ → Type 0
IsChildless me proc pp = (q : ℕ) → q < pp → is_child me (proc q) ≡ false

child_of-parent : (me : ℕ) (o : Option ℕ) → child_of me o ≡ true → o ≡ some me
child_of-parent me none h = absurd (cc)
child_of-parent me (some p) h = let same : p ≡ me = ground arith in ap some same

pub is_child-parent : (me : ℕ) (q : Process) → is_child me q ≡ true → q.parent ≡ some me
is_child-parent me q h = child_of-parent me q.parent h

next-IsChildless :
    (me : ℕ) (proc : ℕ → Process) (pp : ℕ)
    → IsChildless me proc pp
    → is_child me (proc pp) ≡ false
    → IsChildless me proc (pp + 1)
next-IsChildless me proc pp none_yet ne q low = elim (Bool-cases (q == pp)) [
  | inl e ↦ let same : pp ≡ q = ground arith in subst (λ z. is_child me (proc z) ≡ false) same ne
  | inr apart ↦ none_yet q (ground arith)
]

module _ (current : ℕ → Option ℕ) (me initproc nextpid : ℕ) (apart : (initproc == me) ≡ false) where
  abbrev woken_by : (ℕ → Process) → ℕ → Process
  woken_by proc = wakeup_from (some me) (chan_of initproc) proc 0 nproc

  abbrev adopted_by : (ℕ → Process) → ℕ → ℕ → Process
  adopted_by proc pp =
      set_proc (woken_by proc) pp (record (woken_by proc pp) { parent = some initproc })

  adopted-IsSound :
      (proc : ℕ → Process) (pp : ℕ)
      → IsSound proc current initproc nextpid
      → is_child me (proc pp) ≡ true
      → IsSound (adopted_by proc pp) current initproc nextpid
  adopted-IsSound proc pp inv child =
      let w =
        IsSound-wakeup_from (some me) (chan_of initproc) proc current initproc nextpid 0 nproc
          inv in
      let low = (inv.low initproc (live_unused (proc initproc).state inv.init)).1 in
      let p : (woken_by proc pp).parent ≡ some me =
        wakeup_parent (some me) (chan_of initproc) proc pp ∙ is_child-parent me (proc pp) child in
      IsSound-set_proc (woken_by proc) pp (record (woken_by proc pp) { parent = some initproc })
        current initproc nextpid w
        (IsFit-adopted (woken_by proc) current initproc nextpid pp initproc w (w.family pp me p).0
          w.init (wakeup_quiet me (chan_of initproc) proc initproc low apart))

  adopted-IsChildless :
      (proc : ℕ → Process) (pp : ℕ)
      → IsChildless me proc pp
      → IsChildless me (adopted_by proc pp) (pp + 1)
  adopted-IsChildless proc pp none_yet q low = elim (Bool-cases (q == pp)) [
    | inl e ↦ rw e apart
    | inr ne ↦ rw ne (
        ap (child_of me) (wakeup_parent (some me) (chan_of initproc) proc q)
        ∙ none_yet q (ground arith))
  ]

  abbrev adopt_one : (ℕ → Process) → ℕ → ℕ → Process
  adopt_one proc pp =
      if is_child me (proc pp)
      then wakeup_from (some me) (chan_of initproc)
          (set_proc proc pp (record (proc pp) { parent = some initproc })) 0 nproc
      else proc

  adopt_one-IsSound :
      (proc : ℕ → Process) (pp : ℕ)
      → IsSound proc current initproc nextpid
      → IsChildless me proc pp
      → IsSound (adopt_one proc pp) current initproc nextpid
        × IsChildless me (adopt_one proc pp) (pp + 1)
  adopt_one-IsSound proc pp inv none_yet = elim (Bool-cases (is_child me (proc pp))) [
    | inl e ↦ rw e (
        subst (λ z. IsSound z current initproc nextpid × IsChildless me z (pp + 1))
          (sym (adopt_lem (some me) (chan_of initproc) pp initproc proc))
          (adopted-IsSound proc pp inv e, adopted-IsChildless proc pp none_yet))
    | inr ne ↦ rw ne (inv, next-IsChildless me proc pp none_yet ne)
  ]

  pub reparent_from-IsSound :
      (proc : ℕ → Process) (pp n : ℕ)
      → IsSound proc current initproc nextpid
      → IsChildless me proc pp
      → IsSound (reparent_from me initproc proc pp n) current initproc nextpid
        × IsChildless me (reparent_from me initproc proc pp n) (pp + n)
  unfolding reparent_from
  reparent_from-IsSound proc pp zero inv none_yet = (inv, λ q low. none_yet q (omega arith))
  reparent_from-IsSound proc pp (suc n) inv none_yet =
      let (s, c) = adopt_one-IsSound proc pp inv none_yet in
      let (t, d) = reparent_from-IsSound (adopt_one proc pp) (pp + 1) n s c in
      (t, λ q low. d q (omega arith))
