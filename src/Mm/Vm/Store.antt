-- ===== src/Mm/Vm/Store.antt =====
-- A store into a level-0 entry: the tree stays as it is, and only that entry changes.
use base_exp.Base.{
  ℕ, zero, suc, ◌+◌, ◌*◌, ◌<◌, ◌≡◌, ◌≢◌, refl, ◌==◌, inl, inr, arith, if◌then◌else◌, Bool-cases,
}
use base_exp.Mm.Mem.{write}
use base_exp.Mm.Pte.{pte_v, has_flag, pte2pa, px, px-lt}
use base_exp.Mm.Vm.Table.{Role, table, IsTables, find, entry, slot_ne}

module _ {root : ℕ} {role : ℕ → Role} {word : ℕ → ℕ} (t : IsTables root role word) (q i v pre : ℕ)
    (leaf : role q ≡ table 0 pre) (small : i < 512) where
  abbrev pub stored : ℕ → ℕ
  stored = write word (q + 8 * i) v

  level_ne : (l a b : ℕ) → table (suc l) a ≢ table 0 b
  level_ne l a b e = cc

  -- An entry above level 0 is another word.
  stored_above :
      (p l pre' j : ℕ)
      → role p ≡ table (suc l) pre'
      → j < 512
      → stored (p + 8 * j) ≡ word (p + 8 * j)
  unfolding write
  stored_above p l pre' j r hj = elim (Bool-cases (p + 8 * j == q + 8 * i)) [
    | inl e ↦ absurd (
        level_ne l pre' pre (slot_ne t p (suc l) pre' j q 0 pre i r leaf hj small (ground arith)).0)
    | inr ne ↦ rw ne
  ]

  pub stored-IsTables : IsTables root role stored
  stored-IsTables = record {
    top = t.top;
    page = t.page;
    child = λ p l pre' j r hj on.
        let e = stored_above p l pre' j r hj in rw e (t.child p l pre' j r hj (rw e at on));
  }

  pub find-stored :
      (l p va pre' : ℕ) → role p ≡ table l pre' → find stored l p va ≡ find word l p va
  unfolding find
  find-stored zero p va pre' r = refl
  find-stored (suc l) p va pre' r =
      elim (Bool-cases (has_flag (word (p + 8 * px (suc l) va)) pte_v)) [
        | inr off ↦ rw (stored_above p l pre' (px (suc l) va) r (px-lt (suc l) va), off)
        | inl on ↦
            rw (stored_above p l pre' (px (suc l) va) r (px-lt (suc l) va), on)
              (find-stored l (pte2pa (word (p + 8 * px (suc l) va))) va _
                (t.child p l pre' (px (suc l) va) r (px-lt (suc l) va) on))
      ]

  -- The entry for an address changes exactly if the store is at that entry.
  pub entry-stored :
      (l p va pre' : ℕ)
      → role p ≡ table l pre'
      → entry stored l p va ≡ (if find word l p va == q + 8 * i then v else entry word l p va)
  unfolding find entry write
  entry-stored zero p va pre' r = refl
  entry-stored (suc l) p va pre' r =
      elim (Bool-cases (has_flag (word (p + 8 * px (suc l) va)) pte_v)) [
        | inr off ↦
            rw (stored_above p l pre' (px (suc l) va) r (px-lt (suc l) va), off)
              (let n = t.page q 0 pre leaf in ground arith)
        | inl on ↦
            rw (stored_above p l pre' (px (suc l) va) r (px-lt (suc l) va), on)
              (entry-stored l (pte2pa (word (p + 8 * px (suc l) va))) va _
                (t.child p l pre' (px (suc l) va) r (px-lt (suc l) va) on))
      ]
