-- ===== src/Mm/Vm/Link.antt =====
-- Linking a cleared page below an invalid entry: the tree grows by that page, and no address is
-- translated differently.
use base_exp.Base.{
  ℕ, zero, suc, ◌+◌, ◌*◌, ◌%◌, ◌^◌, ◌<◌, ◌≡◌, ◌≢◌, sym, ◌∙◌, ap, true, false, ◌==◌, ◌⊎◌, inl, inr,
  arith, if◌then◌else◌, Bool-cases,
}
use base_exp.Mm.Mem.{pgsize, in_page, write}
use base_exp.Mm.Pte.{pte_v, has_flag, pte2pa, make_pte, make_pte_parts, pte2pa-make_pte, px, px-lt}
use base_exp.Mm.Vm.Table.{Role, other, table, IsTables, entry, slot_ne}

-- The memory once `page` is linked as entry `i` of `p`, and the roles that it gives.
abbrev pub linked : (ℕ → ℕ) → (p i page : ℕ) → ℕ → ℕ
linked word' p i page = write word' (p + 8 * i) (make_pte page 0)

abbrev pub linked_role : (ℕ → Role) → (i l pre page : ℕ) → ℕ → Role
linked_role role i l pre page q = if q == page then table l (pre * 512 + i) else role q

-- `page` is outside the tree and cleared, and the entry is invalid.
pub record Linkage (root : ℕ) (role : ℕ → Role) (word word' : ℕ → ℕ) (p i l pre page : ℕ)
    : Type 0 where
  pub tables : IsTables root role word
  pub owner : role p ≡ table (suc l) pre
  pub small : i < 512
  pub invalid : has_flag (word (p + 8 * i)) pte_v ≡ false
  pub unused : role page ≡ other
  pub aligned : page % pgsize ≡ 0
  pub nonzero : page ≢ 0
  pub fits : page < 2 ^ 56
  pub cleared : (a : ℕ) → in_page page a ≡ true → word' a ≡ 0
  pub same : (a : ℕ) → in_page page a ≡ false → word' a ≡ word a

module _ {root : ℕ} {role : ℕ → Role} {word word' : ℕ → ℕ} {p i l pre page : ℕ}
    (k : Linkage root role word word' p i l pre page) where
  open k use {tables as t, owner, small, invalid, unused, aligned, nonzero, fits, cleared, same}

  abbrev after : ℕ → ℕ
  after = linked word' p i page

  abbrev after_role : ℕ → Role
  after_role = linked_role role i l pre page

  valid : has_flag (make_pte page 0) pte_v ≡ true
  valid = let e = make_pte_parts page 0 (omega arith) in ground arith

  leads : pte2pa (make_pte page 0) ≡ page
  leads = pte2pa-make_pte page 0 aligned fits (omega arith)

  page_ne : (q l' pre' : ℕ) → role q ≡ table l' pre' → q ≢ page
  page_ne q l' pre' r e = let f = sym r ∙ ap role e ∙ unused in cc

  outside : (q l' pre' j : ℕ) → role q ≡ table l' pre' → j < 512 → in_page page (q + 8 * j) ≡ false
  outside q l' pre' j r hj =
      let a = t.page q l' pre' r in let n = page_ne q l' pre' r in ground arith

  -- The new page's own entries.
  linked_new : (j : ℕ) → j < 512 → after (page + 8 * j) ≡ 0
  unfolding write
  linked_new j hj =
      let a = t.page p (suc l) pre owner in
      let n = page_ne p (suc l) pre owner in
      let c = cleared (page + 8 * j) (ground arith) in
      let apart : (page + 8 * j == p + 8 * i) ≡ false = ground arith in rw apart c

  -- Every other entry but the one that is linked.
  linked_old :
      (q l' pre' j : ℕ)
      → role q ≡ table l' pre'
      → j < 512
      → (q + 8 * j == p + 8 * i) ≡ false
      → after (q + 8 * j) ≡ word (q + 8 * j)
  unfolding write
  linked_old q l' pre' j r hj ne = rw ne (same (q + 8 * j) (outside q l' pre' j r hj))

  linked_slot : after (p + 8 * i) ≡ make_pte page 0
  unfolding write
  linked_slot = ground arith

  pub keep_role : (q l' pre' : ℕ) → role q ≡ table l' pre' → after_role q ≡ table l' pre'
  keep_role q l' pre' r = let n = page_ne q l' pre' r in ground arith

  pub page_role : after_role page ≡ table l (pre * 512 + i)
  page_role = ground arith

  pub slot_valid : has_flag (after (p + 8 * i)) pte_v ≡ true
  slot_valid = rw (linked_slot, valid)

  pub slot_leads : pte2pa (after (p + 8 * i)) ≡ page
  slot_leads = rw (linked_slot, leads)

  -- An entry of an old page that was valid is as before.
  pub linked_valid :
      (q l' pre' j : ℕ)
      → role q ≡ table l' pre'
      → j < 512
      → has_flag (word (q + 8 * j)) pte_v ≡ true
      → after (q + 8 * j) ≡ word (q + 8 * j)
  linked_valid q l' pre' j r hj on = elim (Bool-cases (q + 8 * j == p + 8 * i)) [
    | inl e ↦
        let f : q + 8 * j ≡ p + 8 * i = ground arith in
        let g : has_flag (word (q + 8 * j)) pte_v ≡ false = rw f invalid in absurd (cc)
    | inr ne ↦ linked_old q l' pre' j r hj ne
  ]

  -- Below the new page nothing is mapped.
  entry_new : (l' va : ℕ) → entry after l' page va ≡ 0
  unfolding entry
  entry_new zero va = linked_new (px 0 va) (px-lt 0 va)
  entry_new (suc l') va = rw (linked_new (px (suc l') va) (px-lt (suc l') va))

  level_ne : (k a b : ℕ) → table 0 a ≢ table (suc k) b
  level_ne k a b e = cc

  pub entry-linked :
      (l' q va pre' : ℕ) → role q ≡ table l' pre' → entry after l' q va ≡ entry word l' q va
  unfolding entry
  entry-linked zero q va pre' r = linked_old q 0 pre' (px 0 va) r (px-lt 0 va) ne
    where
      ne : (q + 8 * px 0 va == p + 8 * i) ≡ false
      ne = elim (Bool-cases (q + 8 * px 0 va == p + 8 * i)) [
        | inl e ↦ absurd (
            level_ne l pre' pre
              (slot_ne t q 0 pre' (px 0 va) p (suc l) pre i r owner (px-lt 0 va) small
                (ground arith)).0)
        | inr e ↦ e
      ]
  entry-linked (suc l') q va pre' r = elim (Bool-cases (q + 8 * px (suc l') va == p + 8 * i)) [
    | inl e ↦
        let f : q + 8 * px (suc l') va ≡ p + 8 * i = ground arith in
        rw (f, linked_slot, valid, invalid, leads) (entry_new l' va)
    | inr ne ↦
        rw (linked_old q (suc l') pre' (px (suc l') va) r (px-lt (suc l') va) ne)
          (elim (Bool-cases (has_flag (word (q + 8 * px (suc l') va)) pte_v)) [
            | inr off ↦ rw off
            | inl on ↦ rw on (
                entry-linked l' (pte2pa (word (q + 8 * px (suc l') va))) va _
                  (t.child q l' pre' (px (suc l') va) r (px-lt (suc l') va) on))
          ])
  ]

  -- A page with a role in the new tree is an old one or the new page.
  linked_role-cases :
      (q l' pre' : ℕ) → after_role q ≡ table l' pre' → (q ≡ page) ⊎ (role q ≡ table l' pre')
  linked_role-cases q l' pre' r = elim (Bool-cases (q == page)) [
    | inl e ↦ inl (ground arith)
    | inr ne ↦ inr (rw ne at r)
  ]

  same_role :
      {l' pre' j : ℕ}
      → table (suc l') pre' ≡ table (suc l) pre
      → j ≡ i
      → table l (pre * 512 + i) ≡ table l' (pre' * 512 + j)
  same_role e f = ground arith

  linked_child :
      (q l' pre' j : ℕ)
      → role q ≡ table (suc l') pre'
      → j < 512
      → has_flag (after (q + 8 * j)) pte_v ≡ true
      → after_role (pte2pa (after (q + 8 * j))) ≡ table l' (pre' * 512 + j)
  linked_child q l' pre' j r hj on = elim (Bool-cases (q + 8 * j == p + 8 * i)) [
    | inl e ↦
        let f : q + 8 * j ≡ p + 8 * i = ground arith in
        let s = slot_ne t q (suc l') pre' j p (suc l) pre i r owner hj small f in
        rw (f, linked_slot, leads) (page_role ∙ same_role s.0 s.1)
    | inr ne ↦
        let o = linked_old q (suc l') pre' j r hj ne in
        rw o (keep_role _ l' _ (t.child q l' pre' j r hj (rw o at on)))
  ]

  pub linked-IsTables : IsTables root after_role after
  linked-IsTables = record {
    top = keep_role root 2 0 t.top;
    page = λ q l' pre' r. elim (linked_role-cases q l' pre' r) [
      | inl e ↦ rw e (aligned, nonzero)
      | inr old ↦ t.page q l' pre' old
    ];
    child = λ q l' pre' j r hj on. elim (linked_role-cases q (suc l') pre' r) [
      | inl e ↦
          let z : after (q + 8 * j) ≡ 0 = rw e (linked_new j hj) in
          let off : has_flag (after (q + 8 * j)) pte_v ≡ false = rw z in absurd (cc)
      | inr old ↦ linked_child q l' pre' j old hj on
    ];
  }
