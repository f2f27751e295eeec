-- ===== src/Sync/Spinlock/Safety.antt =====
-- The invariant of the spin lock (kernel/sync/spinlock.c), and what a step of one CPU must satisfy.
use base_exp.Base.{
  ℕ, ◌<◌, ◌≡◌, refl, sym, Bool, true, false, ◌==◌, Bool-cases, inl, inr, arith, Option,
}
use mathlib.Core.Path.{subst}
use base_exp.Sync.Spinlock.{
  Cpu, Phase, outside, spinning, entering, inside, leaving, Spinlock, set_phase, set_cpu, is_owner,
  holding,
}

-- Between the two accesses to `lk->locked`.
abbrev pub in_section : Phase → Bool
in_section outside = false
in_section spinning = false
in_section entering = true
in_section inside = true
in_section leaving = true

abbrev pub is_inside : Phase → Bool
is_inside outside = false
is_inside spinning = false
is_inside entering = false
is_inside inside = true
is_inside leaving = false

abbrev pub is_outside : Phase → Bool
is_outside outside = true
is_outside spinning = false
is_outside entering = false
is_outside inside = false
is_outside leaving = false

pub record IsSafe (s : Spinlock) : Type 0 where
  pub alone : (j k : ℕ) → in_section (s.phase j) ≡ true → in_section (s.phase k) ≡ true → j ≡ k
  pub taken : (k : ℕ) → in_section (s.phase k) ≡ true → s.locked ≡ true
  pub owned : (k : ℕ) → is_owner s.owner k ≡ is_inside (s.phase k)
  pub off :
      (k : ℕ) → is_outside (s.phase k) ≡ false → ((s.cpu k).enabled ≡ false) × (0 < (s.cpu k).noff)
  pub nested : (k : ℕ) → 0 < (s.cpu k).noff → (s.cpu k).enabled ≡ false

pub set_cpu_same : (cpu : ℕ → Cpu) (k : ℕ) (c : Cpu) → set_cpu cpu k c k ≡ c
set_cpu_same cpu k c = ground arith

-- CPU `k` goes on to phase `p`.
module _ (s : Spinlock) (k : ℕ) (p : Phase) where
  at_phase :
      (P : ℕ → Phase → Type 0)
      → P k p
      → ((j : ℕ) → (j == k) ≡ false → P j (s.phase j))
      → (j : ℕ) → P j (set_phase s.phase k p j)
  at_phase P here there j = elim (Bool-cases (j == k)) [
    | inl e ↦
        let same : k ≡ j = ground arith in
        subst (λ i. P i (set_phase s.phase k p i)) same (subst (P k) (sym self) here)
    | inr ne ↦ subst (P j) (sym (rw ne refl)) (there j ne)
  ]
    where
      self : set_phase s.phase k p k ≡ p
      self = ground arith

  -- What must hold of the rest of the new state.
  pub record IsMove (locked : Bool) (owner : Option ℕ) (cpu : ℕ → Cpu) : Type 0 where
    pub alone : in_section p ≡ true → (j : ℕ) → in_section (s.phase j) ≡ true → j ≡ k
    pub taken : in_section p ≡ true → locked ≡ true
    pub still : (j : ℕ) → (j == k) ≡ false → in_section (s.phase j) ≡ true → locked ≡ true
    pub owned : is_owner owner k ≡ is_inside p
    pub others : (j : ℕ) → (j == k) ≡ false → is_owner owner j ≡ is_inside (s.phase j)
    pub off : is_outside p ≡ false → ((cpu k).enabled ≡ false) × (0 < (cpu k).noff)
    pub same : (j : ℕ) → (j == k) ≡ false → cpu j ≡ s.cpu j
    pub nested : 0 < (cpu k).noff → (cpu k).enabled ≡ false

  pub IsMove-IsSafe :
      (locked : Bool) (owner : Option ℕ) (cpu : ℕ → Cpu)
      → IsSafe s
      → IsMove locked owner cpu
      → IsSafe (record { locked = locked; owner = owner; cpu = cpu; phase = set_phase s.phase k p })
  IsMove-IsSafe locked owner cpu inv move = record {
    alone = λ i.
        at_phase (λ j q. in_section (set_phase s.phase k p i) ≡ true → in_section q ≡ true → i ≡ j)
          (at_phase (λ i r. in_section r ≡ true → in_section p ≡ true → i ≡ k) (λ _ _. refl)
            (λ i _ h g. move.alone g i h) i)
          (λ j ne.
            at_phase (λ i r. in_section r ≡ true → in_section (s.phase j) ≡ true → i ≡ j)
              (λ g h. sym (move.alone g j h)) (λ i _. inv.alone i j) i);
    taken = at_phase (λ j q. in_section q ≡ true → locked ≡ true) move.taken move.still;
    owned = at_phase (λ j q. is_owner owner j ≡ is_inside q) move.owned move.others;
    off =
        at_phase (λ j q. is_outside q ≡ false → ((cpu j).enabled ≡ false) × (0 < (cpu j).noff))
          move.off (λ j ne h. rw (move.same j ne) (inv.off j h));
    nested = λ j. elim (Bool-cases (j == k)) [
      | inl e ↦
          let same : k ≡ j = ground arith in
          subst (λ i. 0 < (cpu i).noff → (cpu i).enabled ≡ false) same move.nested
      | inr ne ↦ rw (move.same j ne) (inv.nested j)
    ];
  }

pub inside-in_section : (q : Phase) → is_inside q ≡ true → in_section q ≡ true
inside-in_section outside h = absurd (cc)
inside-in_section spinning h = absurd (cc)
inside-in_section entering h = absurd (cc)
inside-in_section inside h = refl
inside-in_section leaving h = absurd (cc)

pub holding_lem : (s : Spinlock) (k : ℕ) → IsSafe s → holding s k ≡ is_inside (s.phase k)
holding_lem s k inv =
    let o = inv.owned k in
    elim (Bool-cases (is_inside (s.phase k))) [
      | inl e ↦ let l = inv.taken k (inside-in_section (s.phase k) e) in ground arith
      | inr e ↦ ground arith
    ]
