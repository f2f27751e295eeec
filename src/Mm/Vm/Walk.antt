-- ===== src/Mm/Vm/Walk.antt =====
-- What `walk` does: without `alloc` it only reads the tree; with `alloc` it extends the tree from
-- the free list and translates no address differently.
use base_exp.Base.{
  ℕ, zero, suc, ◌+◌, ◌*◌, ◌<◌, ◌≡◌, ◌≢◌, refl, sym, ◌∙◌, ap, true, false, ◌==◌, leb, List, [], ◌∷◌,
  arith, Bool-cases, inl, inr, done, Returns, Returns-mono,
}
use mathlib.Core.Path.{subst}
use base_exp.Mm.Mem.{Machine, load}
use base_exp.Mm.Pte.{pte_v, has_flag, pte2pa, px, px-lt, above, above-px, maxva}
use base_exp.Mm.Vm.{walk_from, walk, new_table}
use base_exp.Mm.Vm.Table.{Role, table, find, child_role}
use base_exp.Mm.Vm.Paged.{
  Paged, Grown, Grown-refl, Grown-trans, new_table-nil, new_table-extended, extended, page_nonzero,
  extended_role, extended-Paged, extended-Grown, extended_valid, extended_leads, extended_new,
  extended_owner,
}

-- Without `alloc` the walk returns the address of the entry, or 0, and changes nothing.
pub walk_from-find :
    (l p va : ℕ) (m : Machine) → walk_from l p va false m ≡ done (find m.word l p va) m
unfolding walk_from find load new_table
walk_from-find zero p va m = refl
walk_from-find (suc l) p va m =
    elim (Bool-cases (has_flag (m.word (p + 8 * px (suc l) va)) pte_v)) [
      | inl on ↦ rw on (walk_from-find l (pte2pa (m.word (p + 8 * px (suc l) va))) va m)
      | inr off ↦ rw off
    ]

-- What a walk with `alloc` leaves: it returns the entry's address in the grown tree, or 0 when the
-- free list is used up.
pub record Walked (root : ℕ) (role : ℕ → Role) (m : Machine) (ps : List ℕ) (l p va s : ℕ)
    (m' : Machine) : Type 0 where
  pub new_role : ℕ → Role
  pub left : List ℕ
  pub paged : Paged root new_role m' left
  pub grown : Grown role new_role m.word m'.word ps left
  pub at_entry : s ≢ 0 → s ≡ find m'.word l p va
  pub used_up : s ≡ 0 → left ≡ []

module _ {root : ℕ} where
  -- A walk from the page that a valid entry leads to is the walk from the entry's own page.
  Walked-above :
      (l p va s : ℕ) {role : ℕ → Role} {m m' : Machine} {ps : List ℕ}
      → role p ≡ table (suc l) (above (suc (suc l)) va)
      → has_flag (m.word (p + 8 * px (suc l) va)) pte_v ≡ true
      → Walked root role m ps l (pte2pa (m.word (p + 8 * px (suc l) va))) va s m'
      → Walked root role m ps (suc l) p va s m'
  unfolding find
  Walked-above l p va s r on w = record {
    new_role = w.new_role;
    left = w.left;
    paged = w.paged;
    grown = w.grown;
    at_entry =
        λ ne. rw (w.grown.links p l _ (px (suc l) va) r (px-lt (suc l) va) on, on) (w.at_entry ne);
    used_up = w.used_up;
  }

  -- A walk in an extended machine, seen from the machine before.
  Walked-before :
      {l p va s : ℕ} {role role' : ℕ → Role} {m m₁ m' : Machine} {ps ps' : List ℕ}
      → Grown role role' m.word m₁.word ps ps'
      → Walked root role' m₁ ps' l p va s m'
      → Walked root role m ps l p va s m'
  Walked-before g w = record {
    new_role = w.new_role;
    left = w.left;
    paged = w.paged;
    grown = Grown-trans g w.grown;
    at_entry = w.at_entry;
    used_up = w.used_up;
  }

  Walked-none :
      {l p va : ℕ} {role : ℕ → Role} {m : Machine}
      → Paged root role m []
      → Walked root role m [] l p va 0 m
  Walked-none {role} inv = record {
    new_role = role;
    left = [];
    paged = inv;
    grown = Grown-refl;
    at_entry = λ ne. absurd (ne refl);
    used_up = λ e. refl;
  }

  pub walk_from-Walked :
      (l p va : ℕ) {role : ℕ → Role} {m : Machine} (ps : List ℕ)
      → Paged root role m ps
      → role p ≡ table l (above (suc l) va)
      → Returns (Walked root role m ps l p va) (walk_from l p va true m)
  unfolding walk_from find load
  walk_from-Walked zero p va {role} {m} ps inv r = record {
    new_role = role;
    left = ps;
    paged = inv;
    grown = Grown-refl;
    at_entry = λ ne. refl;
    used_up = λ e. let n = inv.tables.page p 0 _ r in absurd (omega arith);
  }
  walk_from-Walked (suc l) p va {m} [] inv r =
      elim (Bool-cases (has_flag (m.word (p + 8 * px (suc l) va)) pte_v)) [
        | inl on ↦ rw on (
            Returns-mono _ _ _ (walk_from-Walked l _ va [] inv (child_role inv.tables l p va r on))
              λ s m'. Walked-above l p va s r on)
        | inr off ↦ rw (off, new_table-nil (p + 8 * px (suc l) va) inv.free) (Walked-none inv)
      ]
  walk_from-Walked (suc l) p va {m} (q ∷ qs) inv r =
      elim (Bool-cases (has_flag (m.word (p + 8 * px (suc l) va)) pte_v)) [
        | inl on ↦ rw on (
            Returns-mono _ _ _
              (walk_from-Walked l _ va (q ∷ qs) inv (child_role inv.tables l p va r on))
              λ s m'. Walked-above l p va s r on)
        | inr off ↦
            let pre = above (suc (suc l)) va in
            let i = px (suc l) va in
            let small = px-lt (suc l) va in
            let nz = page_nonzero inv p i l pre r small off in
            let zero_test : (m.freelist == 0) ≡ false = ground arith in
            rw (off, new_table-extended m (p + 8 * i) nz, zero_test)
              (Returns-mono _ _ _
                (walk_from-Walked l m.freelist va qs (extended-Paged inv p i l pre r small off) (
                  extended_new inv p i l pre r small off
                  ∙ ap (table l) (sym (above-px (suc l) va))))
                λ s m' w. Walked-before (extended-Grown inv p i l pre r small off) (
                  Walked-above l p va s (extended_owner inv p i l pre r small off)
                    (extended_valid inv p i l pre r small off)
                    (subst
                      (λ z.
                        Walked root (extended_role inv p i l pre r small off)
                          (extended m (p + 8 * i)) qs l z va s m')
                      (sym (extended_leads inv p i l pre r small off)) w)))
      ]

above_root : (va : ℕ) → va < maxva → above 3 va ≡ 0
unfolding above
above_root va h = omega arith

module _ {root : ℕ} {role : ℕ → Role} {m : Machine} {ps : List ℕ} (inv : Paged root role m ps) where
  pub root-role : (va : ℕ) → va < maxva → role root ≡ table 2 (above 3 va)
  root-role va h = rw (above_root va h) inv.tables.top

  -- `walk` with `alloc`, at an address below MAXVA, returns: with the address of the entry in a
  -- tree grown from the free list, or with 0 and the free list used up. Either way the invariant
  -- holds and no address is translated differently.
  pub walk-Walked :
      (va : ℕ) → va < maxva → Returns (Walked root role m ps 2 root va) (walk root va true m)
  unfolding walk
  walk-Walked va h =
      let in_range : leb maxva va ≡ false = ground arith in
      rw in_range (walk_from-Walked 2 root va ps inv (root-role va h))

-- `walk` without `alloc` reads.
pub walk-find :
    (root va : ℕ) (m : Machine) → va < maxva → walk root va false m ≡ done (find m.word 2 root va) m
unfolding walk
walk-find root va m h =
    let in_range : leb maxva va ≡ false = ground arith in rw in_range (walk_from-find 2 root va m)
