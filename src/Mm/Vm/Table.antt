-- ===== src/Mm/Vm/Table.antt =====
-- The tree of page-table pages that `walk` follows, read from the memory, and the role of each page
-- in it. A role belongs to one page, so no page-table page is reached by two paths.
use base_exp.Base.{
  ℕ, zero, suc, ◌+◌, ◌*◌, ◌%◌, ◌<◌, ◌≡◌, ◌≢◌, refl, sym, ◌∙◌, ap, true, inl, inr, arith,
  if◌then◌else◌, Bool-cases,
}
use base_exp.Mm.Mem.{pgsize}
use base_exp.Mm.Pte.{pte_v, has_flag, pte2pa, above, px, px-lt, above-px}

-- `table level prefix` is the page that holds the entries of `level` for the addresses whose bits
-- above that level's index are `prefix`.
pub data Role : Type 0 where
  other : Role
  table : ℕ → ℕ → Role

pub record IsTables (root : ℕ) (role : ℕ → Role) (word : ℕ → ℕ) : Type 0 where
  pub top : role root ≡ table 2 0
  pub page : (p l pre : ℕ) → role p ≡ table l pre → (p % pgsize ≡ 0) × (p ≢ 0)
  pub child :
      (p l pre i : ℕ)
      → role p ≡ table (suc l) pre
      → i < 512
      → has_flag (word (p + 8 * i)) pte_v ≡ true
      → role (pte2pa (word (p + 8 * i))) ≡ table l (pre * 512 + i)

-- The address of the level-0 entry for `va` below the page `p` of level `l`, 0 if there is none.
unfoldable pub find : (ℕ → ℕ) → ℕ → ℕ → ℕ → ℕ
find word zero p va = p + 8 * px 0 va
find word (suc l) p va =
    let pte = word (p + 8 * px (suc l) va) in
    if has_flag pte pte_v then find word l (pte2pa pte) va else 0

-- The entry itself, 0 if there is none.
unfoldable pub entry : (ℕ → ℕ) → ℕ → ℕ → ℕ → ℕ
entry word zero p va = word (p + 8 * px 0 va)
entry word (suc l) p va =
    let pte = word (p + 8 * px (suc l) va) in
    if has_flag pte pte_v then entry word l (pte2pa pte) va else 0

-- What a walk from a page finds: nothing, or an entry in a page of level 0 for the address.
pub data Found (role : ℕ → Role) (word : ℕ → ℕ) (l p va : ℕ) : Type 0 where
  missing : find word l p va ≡ 0 → entry word l p va ≡ 0 → Found role word l p va
  present :
      (q : ℕ)
      → role q ≡ table 0 (above 1 va)
      → find word l p va ≡ q + 8 * px 0 va
      → entry word l p va ≡ word (q + 8 * px 0 va)
      → Found role word l p va

module _ {root : ℕ} {role : ℕ → Role} {word : ℕ → ℕ} (t : IsTables root role word) where
  -- The page that an entry on the path leads to.
  pub child_role :
      (l p va : ℕ)
      → role p ≡ table (suc l) (above (suc (suc l)) va)
      → has_flag (word (p + 8 * px (suc l) va)) pte_v ≡ true
      → role (pte2pa (word (p + 8 * px (suc l) va))) ≡ table l (above (suc l) va)
  child_role l p va r v =
      t.child p l _ (px (suc l) va) r (px-lt (suc l) va) v
      ∙ ap (table l) (sym (above-px (suc l) va))

  pub find-Found : (l p va : ℕ) → role p ≡ table l (above (suc l) va) → Found role word l p va
  unfolding find entry
  find-Found zero p va r = present p r refl refl
  find-Found (suc l) p va r = elim (Bool-cases (has_flag (word (p + 8 * px (suc l) va)) pte_v)) [
    | inr off ↦ missing (rw off) (rw off)
    | inl on ↦
        step (find-Found l (pte2pa (word (p + 8 * px (suc l) va))) va (child_role l p va r on)) on
  ]
    where
      step :
          Found role word l (pte2pa (word (p + 8 * px (suc l) va))) va
          → has_flag (word (p + 8 * px (suc l) va)) pte_v ≡ true
          → Found role word (suc l) p va
      step (missing e f) on = missing (rw on e) (rw on f)
      step (present q s e f) on = present q s (rw on e) (rw on f)

  -- Entries of two pages of different roles, or of different indices, are different words.
  pub slot_ne :
      (p l pre i q l' pre' j : ℕ)
      → role p ≡ table l pre
      → role q ≡ table l' pre'
      → i < 512
      → j < 512
      → p + 8 * i ≡ q + 8 * j
      → (table l pre ≡ table l' pre') × (i ≡ j)
  slot_ne p l pre i q l' pre' j r s hi hj e =
      let a = t.page p l pre r in
      let b = t.page q l' pre' s in
      let same : p ≡ q = omega arith in (sym r ∙ ap role same ∙ s, omega arith)
