-- ===== src/Sync/Spinlock/Steps.antt =====
-- Each step of `acquire` and `release` (kernel/sync/spinlock.c) keeps the invariant.
use base_exp.Base.{
  ℕ, ◌+◌, ◌-◌, ◌<◌, ◌≡◌, refl, sym, ◌∙◌, ap, Bool, true, false, ◌&&◌, ◌==◌, if◌then◌else◌,
  Bool-cases, inl, inr, arith, none, some, done, Returns,
}
use base_exp.Sync.Spinlock.{
  Cpu, push_off, pop_off, outside, spinning, entering, inside, leaving, Spinlock, set_cpu, holding,
  start_acquire, test_and_set, finish_acquire, start_release, finish_release,
}
use base_exp.Sync.Spinlock.Safety.{
  in_section, is_inside, is_outside, IsSafe, set_cpu_same, IsMove-IsSafe, inside-in_section,
  holding_lem,
}

abbrev shallower : Cpu → Cpu
shallower c = record c {
  noff = c.noff - 1;
  enabled = if c.noff - 1 == 0 && c.intena then true else c.enabled;
}

pop_off_deep : (c : Cpu) → c.enabled ≡ false → 0 < c.noff → pop_off c ≡ done tt (shallower c)
unfolding pop_off
pop_off_deep c disabled deep =
    let z : (c.noff == 0) ≡ false = ground arith in rw (z, pop_off) (simp disabled)

module _ (s : Spinlock) (k : ℕ) (inv : IsSafe s) where
  -- No other CPU is in the section.
  out_of_section :
      in_section (s.phase k) ≡ true → (j : ℕ) → (j == k) ≡ false → in_section (s.phase j) ≡ false
  out_of_section h j ne = elim (Bool-cases (in_section (s.phase j))) [
    | inl g ↦ let e = inv.alone j k g h in absurd (ground arith)
    | inr g ↦ g
  ]

  not_inside :
      in_section (s.phase k) ≡ true → (j : ℕ) → (j == k) ≡ false → is_inside (s.phase j) ≡ false
  not_inside h j ne = elim (Bool-cases (is_inside (s.phase j))) [
    | inl g ↦ let e = inv.alone j k (inside-in_section (s.phase j) g) h in absurd (ground arith)
    | inr g ↦ g
  ]

  pub start_acquire-IsSafe : s.phase k ≡ outside → Returns (λ _ t. IsSafe t) (start_acquire k s)
  unfolding start_acquire push_off
  start_acquire-IsSafe e =
      let free : holding s k ≡ false = holding_lem s k inv ∙ ap is_inside e in
      let c : Cpu = record {
        enabled = false;
        noff = (s.cpu k).noff + 1;
        intena = if (s.cpu k).noff == 0 then (s.cpu k).enabled else (s.cpu k).intena;
      } in
      rw free (
        IsMove-IsSafe s k spinning s.locked s.owner (set_cpu s.cpu k c) inv record {
          alone = λ g. absurd (cc);
          taken = λ g. absurd (cc);
          still = λ j ne h. inv.taken j h;
          owned = inv.owned k ∙ ap is_inside e;
          others = λ j ne. inv.owned j;
          off = λ _. rw (set_cpu_same s.cpu k c) (refl, omega arith);
          same = λ j ne. rw ne refl;
          nested = rw (set_cpu_same s.cpu k c) (λ _. refl);
        })

  pub start_release-IsSafe : s.phase k ≡ inside → Returns (λ _ t. IsSafe t) (start_release k s)
  unfolding start_release
  start_release-IsSafe e =
      let held : holding s k ≡ true = holding_lem s k inv ∙ ap is_inside e in
      rw held (
        IsMove-IsSafe s k leaving s.locked none s.cpu inv record {
          alone = λ _ j h. inv.alone j k h (ap in_section e);
          taken = λ _. inv.taken k (ap in_section e);
          still = λ j ne h. inv.taken j h;
          owned = refl;
          others = λ j ne. sym (not_inside (ap in_section e) j ne);
          off = λ _. inv.off k (ap is_outside e);
          same = λ j ne. refl;
          nested = inv.nested k;
        })

  pub finish_acquire-IsSafe : s.phase k ≡ entering → IsSafe (finish_acquire k s)
  unfolding finish_acquire
  finish_acquire-IsSafe e = IsMove-IsSafe s k inside s.locked (some k) s.cpu inv record {
    alone = λ _ j h. inv.alone j k h (ap in_section e);
    taken = λ _. inv.taken k (ap in_section e);
    still = λ j ne h. inv.taken j h;
    owned = ground arith;
    others = λ j ne. let no = not_inside (ap in_section e) j ne in rw no (ground arith);
    off = λ _. inv.off k (ap is_outside e);
    same = λ j ne. refl;
    nested = inv.nested k;
  }

  pub test_and_set-IsSafe : s.phase k ≡ spinning → IsSafe (test_and_set k s)
  unfolding test_and_set
  test_and_set-IsSafe e =
      IsMove-IsSafe s k (if s.locked then spinning else entering) true s.owner s.cpu inv record {
        alone = λ g j h. won s.locked g (inv.taken j h);
        taken = λ _. refl;
        still = λ j ne h. refl;
        owned = (inv.owned k ∙ ap is_inside e) ∙ sym (still_out s.locked);
        others = λ j ne. inv.owned j;
        off = λ _. inv.off k (ap is_outside e);
        same = λ j ne. refl;
        nested = inv.nested k;
      }
    where
      won :
          {A : Type 0} (l : Bool)
          → in_section (if l then spinning else entering) ≡ true
          → l ≡ true
          → A
      won true g h = absurd (cc)
      won false g h = absurd (cc)

      still_out : (l : Bool) → is_inside (if l then spinning else entering) ≡ false
      still_out true = refl
      still_out false = refl

  pub finish_release-IsSafe : s.phase k ≡ leaving → Returns (λ _ t. IsSafe t) (finish_release k s)
  unfolding finish_release
  finish_release-IsSafe e =
      let (disabled, deep) = inv.off k (ap is_outside e) in
      rw (pop_off_deep (s.cpu k) disabled deep, finish_release)
        (IsMove-IsSafe s k outside false s.owner (set_cpu s.cpu k (shallower (s.cpu k))) inv
          record {
            alone = λ g. absurd (cc);
            taken = λ g. absurd (cc);
            still = λ j ne h. absurd (let out = out_of_section (ap in_section e) j ne in cc);
            owned = inv.owned k ∙ ap is_inside e;
            others = λ j ne. inv.owned j;
            off = λ g. absurd (cc);
            same = λ j ne. rw ne refl;
            nested =
                rw (set_cpu_same s.cpu k (shallower (s.cpu k))) (λ h. ground (arith, disabled));
          })
